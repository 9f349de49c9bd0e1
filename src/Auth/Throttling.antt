-- ===== src/Auth/Throttling.antt =====
-- The login and its throttle together.
use socialhub.RateLimit.{all_up, bucket}
use socialhub.Auth.Session.{issue_token_pair}
use socialhub.Auth.Login.{
  note_failure, assert_org_active, log_in_active, log_in_user, opened, LoginResponse, note_success,
  login, password_ok, session, status_of, check_throttle, log_in_checked, find_by_email,
  as_auth_error,
}
use socialhub.Auth.{
  AuthPorts, World, AuthError, AuthUser, invalid_credentials, org_suspended, is_suspended, TooMany,
  throttled,
}
use text.Mathlib.Text.{◌==◌ as str_eq}
use socialhub.RateLimit.Throttle.{too_many, TooMany, assert_login_allowed, email_key, ip_key}
use socialhub.RateLimit.Lockout.{
  assert_login_allowed-lock, Attempt, failed, succeeded, recorded, recorded_all, lock, email_tally,
  ip_tally,
}
use socialhub.Schema.{RowId, Millis}
use socialhub.Prelude.{
  ℕ, ◌≡◌, refl, String, Result, false, ok, Option, err, ◌⊎◌, List, ◌∷◌, Bool-cases, inl, some, [],
  inr, none, ◌++◌, All, ◌∙◌, ◌<◌, sym, arith, ap,
}

-- A call of the login, and when it comes.
pub record Call : Type 0 where
  pub email : String
  pub password : String
  pub ip : String
  pub raw : String
  pub at : Millis

abbrev pub HasIp : Call → Type 0
HasIp c = str_eq c.ip "" ≡ false

module _ (ports : AuthPorts) where
  -- The lock as the record of the attempts has it.
  abbrev pub locked : (email ip : String) (now : Millis) → List Attempt → Result TooMany (Unit {0})
  locked email ip now as_ =
      lock ports.throttle
        (email_tally ports.throttle (ports.throttle.normalize email)
          (bucket now ports.throttle.window_seconds) 0 as_)
        (ip_tally ports.throttle ip (bucket now ports.throttle.window_seconds) 0 as_)

  -- What an attempt adds to the record of the throttle.
  abbrev pub noted :
      (email ip : String) (now : Millis) → Result AuthError LoginResponse → List Attempt
  noted email ip now (err invalid_credentials) = failed email ip now ∷ []
  noted email ip now (ok (session a)) = succeeded a.user.email now ∷ []
  noted email ip now _ = []

  abbrev pub Noted :
      (email ip : String) (now : Millis)
      → World ports
      → Result AuthError LoginResponse × World ports
      → Type 0
  Noted email ip now w x =
      x.1.counters ≡ recorded_all ports.redis ports.throttle w.counters (noted email ip now x.0)

  failure-Noted :
      (email ip : String) (now : Millis) (w : World ports)
      → str_eq ip "" ≡ false
      → Noted email ip now w (err invalid_credentials, note_failure ports all_up email ip now w)
  unfolding note_failure recorded_all recorded
  failure-Noted email ip now w h = rw h refl

  assert_org_active-cases :
      (org_id : RowId) (w : World ports)
      → (assert_org_active ports org_id w ≡ ok tt)
        ⊎ (assert_org_active ports org_id w ≡ err org_suspended)
  unfolding assert_org_active
  assert_org_active-cases org_id w =
      elim (Bool-cases
        (is_suspended (status_of ports (ports.organizations.find w.organizations org_id)))) [
          | inl e ↦ inr (rw e refl)
          | inr e ↦ inl (rw e refl)
        ]

  active-Noted :
      (email ip raw : String) (now : Millis) (w : World ports) (id : RowId) (u : AuthUser)
      → str_eq ip "" ≡ false
      → Noted email ip now w
          (log_in_active ports all_up ip id u raw now w (assert_org_active ports u.org_id w))
  unfolding log_in_active opened issue_token_pair note_success recorded_all recorded
  active-Noted email ip raw now w id u h = elim (assert_org_active-cases u.org_id w) [
    | inl e ↦ elim (Bool-cases u.mfa_enabled) [ inl m ↦ rw (e, m) refl | inr m ↦ rw (e, m, h) refl ]
    | inr e ↦ rw e refl
  ]

  user-Noted :
      (email password ip raw : String) (now : Millis) (w : World ports)
      (o : Option (RowId × AuthUser))
      → str_eq ip "" ≡ false
      → Noted email ip now w (log_in_user ports all_up email password ip raw now w o)
  unfolding log_in_user
  user-Noted email password ip raw now w none h = failure-Noted email ip now w h
  user-Noted email password ip raw now w (some (id, u)) h =
      elim (Bool-cases (password_ok ports password u)) [
        | inl e ↦ rw e (active-Noted email ip raw now w id u h)
        | inr e ↦ rw e (failure-Noted email ip now w h)
      ]

  check_throttle-cases :
      (email ip : String) (now : Millis) (w : World ports)
      → (check_throttle ports all_up email ip now w ≡ ok tt)
        ⊎ (check_throttle ports all_up email ip now w ≡ err (throttled too_many))
  unfolding check_throttle assert_login_allowed
  check_throttle-cases email ip now w = ground arith

  login-noted :
      (email password ip raw : String) (now : Millis) (w : World ports)
      → str_eq ip "" ≡ false
      → (login ports all_up email password ip raw now w).1.counters
        ≡ recorded_all ports.redis ports.throttle w.counters
            (noted email ip now (login ports all_up email password ip raw now w).0)
  unfolding login log_in_checked recorded_all
  login-noted email password ip raw now w h = elim (check_throttle-cases email ip now w) [
    | inl e ↦ rw e (user-Noted email password ip raw now w (find_by_email ports email w) h)
    | inr e ↦ rw e refl
  ]

  unfoldable pub called : World ports → Call → Result AuthError LoginResponse × World ports
  called w c = login ports all_up c.email c.password c.ip c.raw c.at w

  -- The calls in turn, and what the throttle should have recorded of their answers.
  unfoldable pub called_all : World ports → List Call → World ports
  called_all w [] = w
  called_all w (c ∷ cs) = called_all (called w c).1 cs

  unfoldable pub trail : World ports → List Call → List Attempt
  trail w [] = []
  trail w (c ∷ cs) = noted c.email c.ip c.at (called w c).0 ++ trail (called w c).1 cs

  recorded_all-append :
      (as_ bs : List Attempt) (s : ports.redis.State)
      → recorded_all ports.redis ports.throttle s (as_ ++ bs)
        ≡ recorded_all ports.redis ports.throttle (recorded_all ports.redis ports.throttle s as_) bs
  unfolding recorded_all
  recorded_all-append [] bs s = refl
  recorded_all-append (a ∷ as_) bs s =
      recorded_all-append as_ bs (recorded ports.redis ports.throttle s a)

  called_all-trail :
      (cs : List Call) (w : World ports)
      → All HasIp cs
      → (called_all w cs).counters ≡ recorded_all ports.redis ports.throttle w.counters (trail w cs)
  unfolding called_all trail recorded_all called
  called_all-trail [] w h = refl
  called_all-trail (c ∷ cs) w (h, hs) =
      called_all-trail cs (called w c).1 hs
      ∙ sym (
          recorded_all-append (noted c.email c.ip c.at (called w c).0) (trail (called w c).1 cs)
            w.counters
          ∙ ap (λ s. recorded_all ports.redis ports.throttle s (trail (called w c).1 cs))
              (sym (login-noted c.email c.password c.ip c.raw c.at w h)))

  lock-cases :
      (m n : ℕ) → (lock ports.throttle m n ≡ err too_many) ⊎ (lock ports.throttle m n ≡ ok tt)
  lock-cases m n = ground arith

  check_throttle-locked :
      (cs : List Call) (w : World ports) (email ip : String) (now : Millis)
      → All HasIp cs
      → str_eq ip "" ≡ false
      → 0 < ports.throttle.window_seconds
      → ports.redis.entry w.counters (email_key ports.redis ports.throttle email now) ≡ none
      → ports.redis.entry w.counters (ip_key ports.redis ports.throttle ip now) ≡ none
      → check_throttle ports all_up email ip now (called_all w cs)
        ≡ as_auth_error ports (locked email ip now (trail w cs))
  unfolding check_throttle
  check_throttle-locked cs w email ip now hs h p q r =
      rw (h, called_all-trail cs w hs)
        (ap (as_auth_error ports) (
          assert_login_allowed-lock ports.redis ports.throttle email ip now w.counters (trail w cs)
            p q r))

  -- Whatever logins have come before, of whatever addresses and from whatever IPs, the next one is
  -- refused with a 429, before the password is looked at and with nothing changed, where its
  -- address has reached the limit of failures of an address in the window since its last session,
  -- or its IP the limit of an IP; otherwise its credentials are checked. The counters of the
  -- window were not there before, Redis answers, each call has an IP, and the window is not empty.
  pub login-lock :
      (cs : List Call) (w : World ports) (email password ip raw : String) (now : Millis)
      → All HasIp cs
      → str_eq ip "" ≡ false
      → 0 < ports.throttle.window_seconds
      → ports.redis.entry w.counters (email_key ports.redis ports.throttle email now) ≡ none
      → ports.redis.entry w.counters (ip_key ports.redis ports.throttle ip now) ≡ none
      → ((locked email ip now (trail w cs) ≡ err too_many)
          × (login ports all_up email password ip raw now (called_all w cs)
              ≡ (err (throttled too_many), called_all w cs)))
        ⊎ ((locked email ip now (trail w cs) ≡ ok tt)
            × (login ports all_up email password ip raw now (called_all w cs)
                ≡ log_in_user ports all_up email password ip raw now
                    (called_all w cs)
                    (find_by_email ports email (called_all w cs))))
  unfolding login log_in_checked
  login-lock cs w email password ip raw now hs h p q r =
      let b : ℕ = bucket now ports.throttle.window_seconds in
      let t = trail w cs in
      elim (lock-cases (email_tally ports.throttle (ports.throttle.normalize email) b 0 t)
        (ip_tally ports.throttle ip b 0 t)) [
          | inl e ↦ inl (e, rw (check_throttle-locked cs w email ip now hs h p q r, e) refl)
          | inr e ↦ inr (e, rw (check_throttle-locked cs w email ip now hs h p q r, e) refl)
        ]
