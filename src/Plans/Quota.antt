-- ===== src/Plans/Quota.antt =====
-- backend/src/ai/quota.guard.ts and backend/src/ai/constants/ai-quota.ts: an organization's
-- allowance of AI generations over a rolling window.
use socialhub.Prelude.{
  ℕ, ◌+◌, ◌-◌, ◌*◌, Bool, Option, none, some, List, [], ◌∷◌, leb, ltb, count_if, if◌then◌else◌,
  zero, suc,
}
use socialhub.Schema.{Millis, PlanTier}

-- AI_QUOTA_WINDOW_DAYS * MS_PER_DAY
abbrev pub window : Millis
window = 30 * 24 * 60 * 60 * 1000

-- AI_QUOTA_PER_WINDOW, through aiQuotaFor: every tier of the enum has an entry.
unfoldable pub ai_quota_for : PlanTier → Option ℕ
ai_quota_for PlanTier.free = some 25
ai_quota_for PlanTier.starter = some 250
ai_quota_for PlanTier.pro = some 2000
ai_quota_for PlanTier.enterprise = some 25000

-- `true`, `false`, or the 429 with its `resetAt`.
pub data Decision : Type 0 where
  allowed denied : Decision
  used_up : (limit reset_at : ℕ) → Decision

-- `createdAt >= now - window`, which a subtraction that stops at 0 decides too: no row is older
-- than the epoch.
abbrev pub in_window : Millis → Millis → Bool
in_window now created_at = leb (now - window) created_at

-- The rows of the window, in the order that they have.
abbrev pub rows_in_window : Millis → List Millis → List Millis
rows_in_window now [] = []
rows_in_window now (t ∷ rows) =
    let rest = rows_in_window now rows in if in_window now t then t ∷ rest else rest

-- `skip: n, take: 1`
abbrev pub nth : ℕ → List Millis → Option Millis
nth n [] = none
nth zero (t ∷ rows) = some t
nth (suc n) (t ∷ rows) = nth n rows

-- `rows` are the creation times of the organization's usage rows, oldest first.
unfoldable pub resolve_reset_at : List Millis → (used limit : ℕ) → Millis → Millis
resolve_reset_at rows used limit now = elim (nth (used - limit) (rows_in_window now rows)) [
  | none ↦ now + window
  | some created_at ↦ created_at + window
]

unfoldable pub metered : List Millis → Millis → Option ℕ → Decision
unfolding resolve_reset_at
metered rows now none = denied
metered rows now (some limit) =
    let used = count_if (in_window now) rows in
    if ltb used limit then allowed else used_up limit (resolve_reset_at rows used limit now)

-- The request's user, if any, with the plan of its organization, if that is there.
unfoldable pub can_activate : Option (Option PlanTier) → List Millis → Millis → Decision
unfolding metered
can_activate none rows now = denied
can_activate (some none) rows now = denied
can_activate (some (some tier)) rows now = metered rows now (ai_quota_for tier)
