-- ===== src/RateLimit/Throttle.antt =====
-- backend/src/auth/auth-throttle.service.ts.
use socialhub.Prelude.{ℕ, String, Option, none, some, leb, ltb, if◌then◌else◌, Result, ok, err}
use socialhub.Schema.{Millis}
use socialhub.RateLimit.{Key, email_failures, ip_failures, flood, Redis, Net, bucket, peek, hit}

-- The four settings, and email.trim().toLowerCase() of the language.
pub record ThrottleConfig : Type 0 where
  pub window_seconds : ℕ
  pub max_per_email : ℕ
  pub max_per_ip : ℕ
  pub max_flood_per_ip : ℕ
  pub normalize : String → String

-- The 429.
pub data TooMany : Type 0 where
  too_many : TooMany

module _ (redis : Redis) (config : ThrottleConfig) where
  abbrev pub email_key : String → Millis → Key
  email_key email now = email_failures (config.normalize email) (bucket now config.window_seconds)

  abbrev pub ip_key : String → Millis → Key
  ip_key ip now = ip_failures ip (bucket now config.window_seconds)

  -- `bump`: an error counts as 0.
  abbrev pub bumped : Option ℕ × redis.State → ℕ × redis.State
  bumped (none, s) = (0, s)
  bumped (some count, s) = (count, s)

  unfoldable pub bump : Net → redis.State → Millis → Key → ℕ × redis.State
  unfolding hit
  bump net s now k = bumped (hit redis net config.window_seconds s now k)

  unfoldable pub assert_login_allowed :
      Net → (email ip : String) → Millis → redis.State → Result TooMany (Unit {0})
  unfolding peek
  assert_login_allowed net email ip now s =
      if leb config.max_per_email (peek redis net s now (email_key email now))
      then err too_many
      else if leb config.max_per_ip (peek redis net s now (ip_key ip now))
      then err too_many
      else ok tt

  unfoldable pub record_login_failure :
      Net → (email ip : String) → Millis → redis.State → redis.State
  unfolding bump
  record_login_failure net email ip now s =
      let s' = (bump net s now (email_key email now)).1 in (bump net s' now (ip_key ip now)).1

  unfoldable pub record_login_success : Net → (email : String) → Millis → redis.State → redis.State
  record_login_success net email now s = if net.del_ok then redis.del s (email_key email now) else s

  unfoldable pub not_flooding : ℕ × redis.State → Result TooMany (Unit {0}) × redis.State
  not_flooding (count, s) = (if ltb config.max_flood_per_ip count then err too_many else ok tt, s)

  unfoldable pub assert_not_flooding :
      Net → (ip scope : String) → Millis → redis.State → Result TooMany (Unit {0}) × redis.State
  unfolding bump not_flooding
  assert_not_flooding net ip scope now s = not_flooding (bump net s now (flood scope ip))
