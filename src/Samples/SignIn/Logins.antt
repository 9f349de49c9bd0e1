-- ===== src/Samples/SignIn/Logins.antt =====
-- Logins on the sample data.
use socialhub.Prelude.{refl, ◌≡◌, ◌⊎◌, ok, arith}
use socialhub.Auth.{World, throttled}
use socialhub.RateLimit.Throttle.{assert_login_allowed, too_many, record_login_failure, bump}
use socialhub.Prelude.{◌≡◌, ◌∷◌, [], inr, inl, err}
use socialhub.Samples.SignIn.{auth_ports, world, ada, World}
use socialhub.RateLimit.{all_up, peek, hit, first_expiry}
use socialhub.Auth.Login.{
  login, log_in_user, log_in_checked, check_throttle, note_failure, find_by_email,
}
use socialhub.Auth.Throttling.{Call, called_all, locked, trail, login-lock, called}
use socialhub.Auth.Refusal.{login_alike}
use socialhub.Database.Rows.{rows}
use socialhub.Database.Slots.{find_many}

-- The same service with no users.
unfoldable deserted : World auth_ports
unfolding world rows
deserted = record world { users = [] }

login_alike_example :
    ((login auth_ports all_up "ada" "guess" "10.0.0.1" "raw" 1000 world).0
      ≡ (login auth_ports all_up "ada" "guess" "10.0.0.1" "other" 1000 deserted).0)
    × ((login auth_ports all_up "ada" "guess" "10.0.0.1" "raw" 1000 world).1.counters
        ≡ (login auth_ports all_up "ada" "guess" "10.0.0.1" "other" 1000 deserted).1.counters)
unfolding world deserted rows find_many
login_alike_example =
    login_alike auth_ports all_up "ada" "guess" "10.0.0.1" "raw" "other" 1000 world deserted refl
      (inr (0, ada, refl, refl)) (inl refl)

abbrev guess : Call
guess = record { email = "ada"; password = "guess"; ip = "10.0.0.1"; raw = "raw"; at = 1000 }

login-lock_example :
    ((locked auth_ports "ada" "10.0.0.1" 2000 (trail auth_ports world (guess ∷ [])) ≡ err too_many)
      × (login auth_ports all_up "ada" "secret" "10.0.0.1" "raw" 2000
            (called_all auth_ports world (guess ∷ []))
          ≡ (err (throttled too_many), called_all auth_ports world (guess ∷ []))))
    ⊎ ((locked auth_ports "ada" "10.0.0.1" 2000 (trail auth_ports world (guess ∷ [])) ≡ ok tt)
        × (login auth_ports all_up "ada" "secret" "10.0.0.1" "raw" 2000
              (called_all auth_ports world (guess ∷ []))
            ≡ log_in_user auth_ports all_up "ada" "secret" "10.0.0.1" "raw" 2000
                (called_all auth_ports world (guess ∷ []))
                (find_by_email auth_ports "ada" (called_all auth_ports world (guess ∷ [])))))
unfolding world
login-lock_example =
    login-lock auth_ports (guess ∷ []) world "ada" "secret" "10.0.0.1" "raw" 2000 (refl, tt) refl
      (omega arith) refl refl

-- The right password is refused after the guess.
locked_out :
    (login auth_ports all_up "ada" "secret" "10.0.0.1" "raw" 2000
      (called_all auth_ports world (guess ∷ []))).0
    ≡ err (throttled too_many)
unfolding world rows find_many called_all called login log_in_checked log_in_user check_throttle
    assert_login_allowed peek note_failure record_login_failure bump hit first_expiry
locked_out = refl
