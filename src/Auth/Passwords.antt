-- ===== src/Auth/Passwords.antt =====
-- What a login with a password asks for before it gives a session.
use socialhub.Schema.{RowId, Millis}
use socialhub.RateLimit.{Net}
use socialhub.Auth.{AuthPorts, World, AuthUser, AuthError, AuthResponse, invalid_credentials}
use socialhub.Auth.Login.{
  login, log_in_checked, log_in_user, log_in_active, opened, session, mfa_required, LoginResponse,
  find_by_email, check_throttle, password_ok, assert_org_active,
}
use socialhub.Auth.Session.{issue_token_pair}
use socialhub.Prelude.{
  ◌≡◌, refl, Option, Result, ok, err, String, false, some, Bool-cases, inl, true, inr, ap, none,
}

abbrev session_user : RowId → Result AuthError LoginResponse → RowId
session_user d (ok (session a)) = a.user.sub
session_user d _ = d

refused :
    (e : AuthError) (a : AuthResponse)
    → ¬ (◌≡◌ {A = Result AuthError LoginResponse} (err e) (ok (session a)))
refused e a h = cc

only_challenged :
    (t : String) (a : AuthResponse)
    → ¬ (◌≡◌ {A = Result AuthError LoginResponse} (ok (mfa_required t)) (ok (session a)))
only_challenged t a h = cc

module _ (ports : AuthPorts) where
  log_in_active-session :
      (net : Net) (ip : String) (id : RowId) (u : AuthUser) (raw : String) (now : Millis)
      (w : World ports) (r : Result AuthError (Unit {0})) (a : AuthResponse)
      → (log_in_active ports net ip id u raw now w r).0 ≡ ok (session a)
      → (id ≡ a.user.sub) × (u.mfa_enabled ≡ false) × (r ≡ ok tt)
  unfolding log_in_active opened issue_token_pair
  log_in_active-session net ip id u raw now w (err e) a h = absurd (refused e a h)
  log_in_active-session net ip id u raw now w (ok x) a h = elim (Bool-cases u.mfa_enabled) [
    | inl e ↦ absurd (only_challenged (ports.sign_challenge id) a (rw e at h))
    | inr e ↦ (ap (session_user id) (rw e at h), e, refl)
  ]

  log_in_user-session :
      (net : Net) (email password ip raw : String) (now : Millis) (w : World ports)
      (o : Option (RowId × AuthUser)) (a : AuthResponse)
      → (log_in_user ports net email password ip raw now w o).0 ≡ ok (session a)
      → (u : AuthUser) × (o ≡ some (a.user.sub, u))
        × (password_ok ports password u ≡ true)
        × (u.mfa_enabled ≡ false)
        × (assert_org_active ports u.org_id w ≡ ok tt)
  unfolding log_in_user
  log_in_user-session net email password ip raw now w none a h =
      absurd (refused invalid_credentials a h)
  log_in_user-session net email password ip raw now w (some (id, u)) a h =
      elim (Bool-cases (password_ok ports password u)) [
        | inl e ↦
            let (q, off, active) =
              log_in_active-session net ip id u raw now w (assert_org_active ports u.org_id w) a
                (rw e at h) in
            (u, ap (λ x. some (x, u)) q, e, off, active)
        | inr e ↦ absurd (refused invalid_credentials a (rw e at h))
      ]

  log_in_checked-session :
      (net : Net) (email password ip raw : String) (now : Millis) (w : World ports)
      (r : Result AuthError (Unit {0})) (a : AuthResponse)
      → (log_in_checked ports net email password ip raw now w r).0 ≡ ok (session a)
      → (r ≡ ok tt)
        × ((log_in_user ports net email password ip raw now w (find_by_email ports email w)).0
            ≡ ok (session a))
  unfolding log_in_checked
  log_in_checked-session net email password ip raw now w (err e) a h = absurd (refused e a h)
  log_in_checked-session net email password ip raw now w (ok x) a h = (refl, h)

  -- A login gives a session only where the throttle allows it, to the user of the address, with
  -- this user's password, where the organization is not suspended, and only where the second factor
  -- is off: with it on, the password alone never gives a session.
  pub login-session :
      (net : Net) (email password ip raw : String) (now : Millis) (w : World ports)
      (a : AuthResponse)
      → (login ports net email password ip raw now w).0 ≡ ok (session a)
      → (u : AuthUser) × (check_throttle ports net email ip now w ≡ ok tt)
        × (find_by_email ports email w ≡ some (a.user.sub, u))
        × (password_ok ports password u ≡ true)
        × (u.mfa_enabled ≡ false)
        × (assert_org_active ports u.org_id w ≡ ok tt)
  unfolding login
  login-session net email password ip raw now w a h =
      let (t, g) =
        log_in_checked-session net email password ip raw now w
          (check_throttle ports net email ip now w) a h in
      let (u, f, p, off, active) =
        log_in_user-session net email password ip raw now w (find_by_email ports email w) a g in
      (u, t, f, p, off, active)
