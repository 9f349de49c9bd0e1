-- ===== src/Auth/SecondFactor.antt =====
-- What it takes to be given a session, with the second factor and without it.
use socialhub.Auth.Mfa.{
  enrolled, verify_second_factor, completed_active, completed_user, completed, complete_mfa_login,
  verify_challenge, verify_challenged, burn, normalized, judged, challenged, unused_of, check_totp,
  after_totp, find_recovery, recovery_hash,
}
use socialhub.Crypto.Base32.{is_empty}
use socialhub.Database.{Listed, first-Listed}
use socialhub.Auth.Mfa.{
  check_totp, find_recovery, verify_second_factor, burn, unused_of, recovery_hash, after_totp,
  normalized,
}
use text.Mathlib.Text.{◌==◌ as str_eq}
use socialhub.Schema.{RowId, Millis}
use socialhub.RateLimit.{Net}
use socialhub.Auth.{
  AuthPorts, World, AuthUser, RecoveryCode, ChallengePayload, AuthError, AuthResponse, wrong_code,
  unauthorized, mfa_session_expired, mfa_not_enabled, invalid_mfa_session,
}
use socialhub.Auth.Login.{assert_org_active}
use socialhub.Auth.Session.{issue_token_pair, issued}
use socialhub.Prelude.{
  ◌≡◌, refl, Text, Option, Result, ok, some, true, ◌⊎◌, Bool, false, err, Bool-cases, inl, none,
  inr, ok-injective, ap, String, subst, if◌then◌else◌,
}

nothing_found :
    (x : RowId × RecoveryCode) → ¬ (◌≡◌ {A = Option (RowId × RecoveryCode)} none (some x))
nothing_found x h = cc

not_ok : ¬ (◌≡◌ {A = Result AuthError Bool} (ok false) (ok true))
not_ok h = cc

not_err : (e : AuthError) → ¬ (◌≡◌ {A = Result AuthError Bool} (err e) (ok true))
not_err e h = cc

not_ok_id : (e : AuthError) (id : RowId) → ¬ (◌≡◌ {A = Result AuthError RowId} (err e) (ok id))
not_ok_id e id h = cc

not_ok_pair :
    (e : AuthError) (x : RowId × AuthUser)
    → ¬ (◌≡◌ {A = Result AuthError (RowId × AuthUser)} (err e) (ok x))
not_ok_pair e x h = cc

not_ok_answer :
    (e : AuthError) (a : AuthResponse) → ¬ (◌≡◌ {A = Result AuthError AuthResponse} (err e) (ok a))
not_ok_answer e a h = cc

module _ (ports : AuthPorts) where
  -- What the second factor of a user may be: a one-time password, or a recovery code of the user
  -- that has not been used.
  abbrev pub IsSecondFactor :
      (user_id : RowId) → AuthUser → (code : Text) (now : Millis) → World ports → Type 0
  IsSecondFactor user_id u code now w =
      (check_totp ports u code now ≡ ok true)
      ⊎ ((id : RowId) × (c : RecoveryCode) × (ports.recovery_codes.find w.recovery_codes id
            ≡ some c)
          × (unused_of ports user_id (recovery_hash ports (normalized ports code)) c ≡ true))

  find_recovery-Listed :
      (user_id : RowId) (code : Text) (w : World ports) (id : RowId) (c : RecoveryCode)
      → find_recovery ports user_id code w ≡ some (id, c)
      → Listed
          (ports.recovery_codes.find w.recovery_codes)
          (unused_of ports user_id (recovery_hash ports (normalized ports code)))
          (id, c)
  unfolding find_recovery
  find_recovery-Listed user_id code w id c h =
      elim (Bool-cases (is_empty (normalized ports code))) [
        | inl e ↦ absurd (nothing_found (id, c) (rw e at h))
        | inr e ↦ first-Listed ports.recovery_codes w.recovery_codes _ id c (rw e at h)
      ]

  burn-found :
      (o : Option (RowId × RecoveryCode)) (now : Millis) (w : World ports)
      → (burn ports o now w).0 ≡ ok true
      → (id : RowId) × (c : RecoveryCode) × (o ≡ some (id, c))
  unfolding burn
  burn-found none now w h = absurd (not_ok h)
  burn-found (some (id, c)) now w h = (id, c, refl)

  pub answer-IsSecondFactor :
      (user_id : RowId) (u : AuthUser) (code : Text) (now : Millis) (w : World ports)
      (r : Result AuthError Bool)
      → check_totp ports u code now ≡ r
      → (after_totp ports user_id code now w r).0 ≡ ok true
      → IsSecondFactor user_id u code now w
  unfolding after_totp
  answer-IsSecondFactor user_id u code now w (err e) q h = absurd (not_err e h)
  answer-IsSecondFactor user_id u code now w (ok true) q h = inl q
  answer-IsSecondFactor user_id u code now w (ok false) q h =
      let (id, c, e) = burn-found (find_recovery ports user_id code w) now w h in
      let l = find_recovery-Listed user_id code w id c e in inr (id, c, l.0, l.1)

  judged-ok :
      (user_id : RowId) (r : Result AuthError Bool × World ports) (id : RowId)
      → (judged ports user_id r).0 ≡ ok id
      → (r.0 ≡ ok true) × (user_id ≡ id)
  unfolding judged
  judged-ok user_id (err e, w) id h = absurd (not_ok_id e id h)
  judged-ok user_id (ok false, w) id h = absurd (not_ok_id wrong_code id h)
  judged-ok user_id (ok true, w) id h = (refl, ok-injective h)

  enrolled-if :
      (sub id : RowId) (v u : AuthUser) (on : Bool)
      → v.mfa_enabled ≡ on
      → ◌≡◌ {A = Result AuthError (RowId × AuthUser)}
          (if on then ok (sub, v) else err mfa_not_enabled)
          (ok (id, u))
      → (sub ≡ id) × (◌≡◌ {A = Option AuthUser} (some v) (some u)) × (u.mfa_enabled ≡ true)
  enrolled-if sub id v u false e h = absurd (not_ok_pair mfa_not_enabled (id, u) h)
  enrolled-if sub id v u true e h =
      let q : ◌≡◌ {A = RowId × AuthUser} (sub, v) (id, u) = ok-injective h in
      (
        ap (λ (x : RowId × AuthUser). x.0) q,
        ap (λ (x : RowId × AuthUser). some x.1) q,
        subst (λ (x : AuthUser). x.mfa_enabled ≡ true) (ap (λ (x : RowId × AuthUser). x.1) q) e,
      )

  enrolled-ok :
      (sub id : RowId) (o : Option AuthUser) (u : AuthUser)
      → enrolled ports sub o ≡ ok (id, u)
      → (sub ≡ id) × (o ≡ some u) × (u.mfa_enabled ≡ true)
  enrolled-ok sub id none u h = absurd (not_ok_pair unauthorized (id, u) h)
  enrolled-ok sub id (some v) u h = enrolled-if sub id v u v.mfa_enabled refl h

  challenged-ok :
      (w : World ports) (o : Option ChallengePayload) (id : RowId) (u : AuthUser)
      → challenged ports w o ≡ ok (id, u)
      → (p : ChallengePayload) × (o ≡ some p)
        × (str_eq p.typ "mfa_challenge" ≡ true)
        × (p.sub ≡ id)
        × (ports.users.find w.users id ≡ some u)
        × (u.mfa_enabled ≡ true)
  challenged-ok w none id u h = absurd (not_ok_pair mfa_session_expired (id, u) h)
  challenged-ok w (some p) id u h = elim (Bool-cases (str_eq p.typ "mfa_challenge")) [
    | inl e ↦
        let (q, f, on) = enrolled-ok p.sub id (ports.users.find w.users p.sub) u (rw e at h) in
        (p, refl, e, q, subst (λ x. ports.users.find w.users x ≡ some u) q f, on)
    | inr e ↦ absurd (not_ok_pair invalid_mfa_session (id, u) (rw e at h))
  ]

  verify_challenged-ok :
      (code : Text) (now : Millis) (w : World ports) (r : Result AuthError (RowId × AuthUser))
      (id : RowId)
      → (verify_challenged ports code now w r).0 ≡ ok id
      → (u : AuthUser) × (r ≡ ok (id, u)) × IsSecondFactor id u code now w
  unfolding verify_challenged
  verify_challenged-ok code now w (err e) id h = absurd (not_ok_id e id h)
  verify_challenged-ok code now w (ok (user_id, u)) id h =
      let (q, e) = judged-ok user_id (verify_second_factor ports user_id u code now w) id h in
      (
        u,
        ap (λ x. ok (x, u)) e,
        subst (λ x. IsSecondFactor x u code now w) e
            (answer-IsSecondFactor user_id u code now w (check_totp ports u code now) refl
              (unfold verify_second_factor in q)),
      )

  completed_active-ok :
      (net : Net) (user_id : RowId) (u : AuthUser) (raw : String) (now : Millis) (w : World ports)
      (r : Result AuthError (Unit {0})) (a : AuthResponse)
      → (completed_active ports net user_id u raw now w r).0 ≡ ok a
      → user_id ≡ a.user.sub
  unfolding completed_active issued issue_token_pair
  completed_active-ok net user_id u raw now w (err e) a h = absurd (not_ok_answer e a h)
  completed_active-ok net user_id u raw now w (ok x) a h =
      ap (λ (y : AuthResponse). y.user.sub) (ok-injective h)

  completed_user-ok :
      (net : Net) (user_id : RowId) (raw : String) (now : Millis) (w : World ports)
      (o : Option AuthUser) (a : AuthResponse)
      → (completed_user ports net user_id raw now w o).0 ≡ ok a
      → user_id ≡ a.user.sub
  unfolding completed_user
  completed_user-ok net user_id raw now w none a h = absurd (not_ok_answer unauthorized a h)
  completed_user-ok net user_id raw now w (some u) a h =
      completed_active-ok net user_id u raw now w (assert_org_active ports u.org_id w) a h

  completed-ok :
      (net : Net) (raw : String) (now : Millis) (r : Result AuthError RowId × World ports)
      (a : AuthResponse)
      → (completed ports net raw now r).0 ≡ ok a
      → r.0 ≡ ok a.user.sub
  unfolding completed
  completed-ok net raw now (err e, w) a h = absurd (not_ok_answer e a h)
  completed-ok net raw now (ok user_id, w) a h =
      ap (λ x. ok x)
        (completed_user-ok net user_id raw now w (ports.users.find w.users user_id) a h)

  -- The second step of a login gives a session only for an open challenge of this service, to the
  -- user that it names, where this user's second factor is on, and with a code that is its one-time
  -- password or an unused recovery code of its own.
  pub complete_mfa_login-IsSecondFactor :
      (net : Net) (challenge_token : String) (code : Text) (raw : String) (now : Millis)
      (w : World ports) (a : AuthResponse)
      → (complete_mfa_login ports net challenge_token code raw now w).0 ≡ ok a
      → (p : ChallengePayload) × (u : AuthUser) × (ports.open_challenge now challenge_token
          ≡ some p)
        × (str_eq p.typ "mfa_challenge" ≡ true)
        × (p.sub ≡ a.user.sub)
        × (ports.users.find w.users a.user.sub ≡ some u)
        × (u.mfa_enabled ≡ true)
        × IsSecondFactor a.user.sub u code now w
  unfolding complete_mfa_login verify_challenge
  complete_mfa_login-IsSecondFactor net challenge_token code raw now w a h =
      let o = ports.open_challenge now challenge_token in
      let r = completed-ok net raw now (verify_challenge ports challenge_token code now w) a h in
      let (u, q, s) = verify_challenged-ok code now w (challenged ports w o) a.user.sub r in
      let (p, e, t, i, f, on) = challenged-ok w o a.user.sub u q in (p, u, e, t, i, f, on, s)
