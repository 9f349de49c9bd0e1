-- ===== src/Samples/Limits.antt =====
-- The limits on the Redis in memory.
use socialhub.RateLimit.Guard.{RateConfig}
use socialhub.RateLimit.Admission.{Arrival, requested}
use socialhub.RateLimit.Throttle.{ThrottleConfig}
use socialhub.RateLimit.Lockout.{Attempt, failed, succeeded}
use socialhub.Prelude.{refl, ◌≡◌, some, none, [], ◌∷◌, List}

abbrev two_a_minute : RateConfig
two_a_minute = record { limit = 2; window_seconds = 60 }

abbrev arrivals : List Arrival
arrivals =
    record { org = some 7; at = 1000 }
    ∷ record { org = some 8; at = 1000 }
    ∷ record { org = some 7; at = 2000 }
    ∷ record { org = some 7; at = 3000 }
    ∷ record { org = none; at = 3000 }
    ∷ record { org = some 7; at = 61000 }
    ∷ []

-- Three requests of the window, and two of them let through.
three_requested : requested two_a_minute 7 0 arrivals ≡ 3
unfolding requested
three_requested = refl

abbrev throttle : ThrottleConfig
throttle = record {
  window_seconds = 900;
  max_per_email = 2;
  max_per_ip = 20;
  max_flood_per_ip = 2;
  normalize = λ s. s;
}

abbrev attempts : List Attempt
attempts = failed "ada" "10.0.0.1" 1000 ∷ succeeded "ada" 2000 ∷ failed "ada" "10.0.0.2" 3000 ∷ []
