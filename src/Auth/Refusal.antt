-- ===== src/Auth/Refusal.antt =====
-- What a refused login gives away, and when the throttle refuses it.
use socialhub.Auth.Login.{
  log_in_user, login, find_by_email, note_failure, password_ok, check_throttle, log_in_checked,
}
use socialhub.Auth.{AuthPorts, World, invalid_credentials, AuthUser, AuthError}
use text.Mathlib.Text.{◌==◌ as str_eq}
use socialhub.RateLimit.Throttle.{record_login_failure}
use socialhub.RateLimit.{Net}
use socialhub.Schema.{RowId, Millis}
use socialhub.Prelude.{
  ◌≡◌, refl, String, none, err, ◌⊎◌, some, inl, inr, false, Bool-cases, Result, ap, ok,
}

module _ (ports : AuthPorts) where
  -- The address is not known, or the password is not its.
  abbrev pub IsUnknown : (email password : String) → World ports → Type 0
  IsUnknown email password w =
      (find_by_email ports email w ≡ none)
      ⊎ ((id : RowId) × (u : AuthUser) × (find_by_email ports email w ≡ some (id, u))
          × (password_ok ports password u ≡ false))

  log_in_user-IsUnknown :
      (net : Net) (email password ip raw : String) (now : Millis) (w : World ports)
      → IsUnknown email password w
      → log_in_user ports net email password ip raw now w (find_by_email ports email w)
        ≡ (err invalid_credentials, note_failure ports net email ip now w)
  unfolding log_in_user
  log_in_user-IsUnknown net email password ip raw now w (inl e) = rw e refl
  log_in_user-IsUnknown net email password ip raw now w (inr (id, u, e, p)) = rw (e, p) refl

  check_throttle-same :
      (net : Net) (email ip : String) (now : Millis) (w v : World ports)
      → w.counters ≡ v.counters
      → check_throttle ports net email ip now w ≡ check_throttle ports net email ip now v
  unfolding check_throttle
  check_throttle-same net email ip now w v e = rw e refl

  note_failure-same :
      (net : Net) (email ip : String) (now : Millis) (w v : World ports)
      → w.counters ≡ v.counters
      → (note_failure ports net email ip now w).counters
        ≡ (note_failure ports net email ip now v).counters
  unfolding note_failure
  note_failure-same net email ip now w v e = elim (Bool-cases (str_eq ip "")) [
    | inl h ↦ rw h e
    | inr h ↦ rw h (ap (record_login_failure ports.redis ports.throttle net email ip now) e)
  ]

  checked_alike :
      (net : Net) (email password ip raw raw' : String) (now : Millis) (w v : World ports)
      → w.counters ≡ v.counters
      → IsUnknown email password w
      → IsUnknown email password v
      → (r : Result AuthError (Unit {0}))
      → ((log_in_checked ports net email password ip raw now w r).0
          ≡ (log_in_checked ports net email password ip raw' now v r).0)
        × ((log_in_checked ports net email password ip raw now w r).1.counters
            ≡ (log_in_checked ports net email password ip raw' now v r).1.counters)
  unfolding log_in_checked
  checked_alike net email password ip raw raw' now w v e p q (err x) = (refl, e)
  checked_alike net email password ip raw raw' now w v e p q (ok x) =
      rw
        (
          log_in_user-IsUnknown net email password ip raw now w p,
          log_in_user-IsUnknown net email password ip raw' now v q,
        )
        (refl, note_failure-same net email ip now w v e)

  -- A login with an address that is not known and one with a wrong password cannot be told apart:
  -- the answer is the same, and so is what the throttle counts, whatever else the database holds,
  -- a suspended organization included.
  pub login_alike :
      (net : Net) (email password ip raw raw' : String) (now : Millis) (w v : World ports)
      → w.counters ≡ v.counters
      → IsUnknown email password w
      → IsUnknown email password v
      → ((login ports net email password ip raw now w).0
          ≡ (login ports net email password ip raw' now v).0)
        × ((login ports net email password ip raw now w).1.counters
            ≡ (login ports net email password ip raw' now v).1.counters)
  unfolding login
  login_alike net email password ip raw raw' now w v e p q =
      rw (check_throttle-same net email ip now w v e) (
        checked_alike net email password ip raw raw' now w v e p q
          (check_throttle ports net email ip now v))
