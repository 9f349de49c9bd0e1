-- ===== src/RateLimit/Guard.antt =====
-- backend/src/common/guards/org-rate-limit.guard.ts.
use socialhub.Prelude.{ℕ, Bool, true, false, Option, none, some, ltb, if◌then◌else◌}
use socialhub.Schema.{RowId, Millis}
use socialhub.RateLimit.{Key, org_requests, Redis, Net, bucket, hit}

pub record RateConfig : Type 0 where
  pub limit : ℕ
  pub window_seconds : ℕ

-- `true`, or the 429 with its `Retry-After`.
pub data Decision : Type 0 where
  allowed : Decision
  limited : (retry_after : ℕ) → Decision

abbrev pub is_allowed : Decision → Bool
is_allowed allowed = true
is_allowed (limited _) = false

module _ (redis : Redis) (config : RateConfig) where
  abbrev pub org_key : RowId → Millis → Key
  org_key org_id now = org_requests org_id (bucket now config.window_seconds)

  -- An error lets the request pass.
  unfoldable pub decided : Option ℕ × redis.State → Decision × redis.State
  decided (none, s) = (allowed, s)
  decided (some count, s) =
      (if ltb config.limit count then limited config.window_seconds else allowed, s)

  -- Only traffic of an organization is counted.
  unfoldable pub can_activate : Net → Option RowId → Millis → redis.State → Decision × redis.State
  unfolding decided
  can_activate net none now s = (allowed, s)
  can_activate net (some org_id) now s =
      decided (hit redis net config.window_seconds s now (org_key org_id now))
