-- ===== src/Plans.antt =====
-- backend/src/billing/plan-config.ts, backend/src/billing/plan-limits.service.ts,
-- backend/src/ai/constants/ai-quota.ts: what each plan allows.
pub mod Quota
pub mod Reset
use socialhub.Prelude.{
  ℕ, ◌+◌, ◌<◌, ◌≤◌, ◌≡◌, ◌↔◌, Bool, true, false, Option, none, some, ltb, Result, ok, err, arith,
  if◌then◌else◌,
}
use socialhub.Schema.{RowId, PlanTier}

-- A limit of -1, which means unlimited, is `none`.
pub record PlanLimits : Type 0 where
  pub max_social_accounts : Option ℕ
  pub max_team_members : Option ℕ
  pub ai_credits_per_month : Option ℕ
  pub max_scheduled_posts : Option ℕ

-- PLAN_LIMITS
unfoldable pub plan_limits : PlanTier → PlanLimits
plan_limits PlanTier.free = record {
  max_social_accounts = some 2;
  max_team_members = some 2;
  ai_credits_per_month = some 50;
  max_scheduled_posts = some 10;
}
plan_limits PlanTier.starter = record {
  max_social_accounts = some 5;
  max_team_members = some 5;
  ai_credits_per_month = some 500;
  max_scheduled_posts = some 100;
}
plan_limits PlanTier.pro = record {
  max_social_accounts = some 15;
  max_team_members = some 20;
  ai_credits_per_month = some 5000;
  max_scheduled_posts = none;
}
plan_limits PlanTier.enterprise = record {
  max_social_accounts = none;
  max_team_members = none;
  ai_credits_per_month = none;
  max_scheduled_posts = none;
}

unfoldable pub is_within_limit : ℕ → Option ℕ → Bool
is_within_limit count none = true
is_within_limit count (some limit) = ltb count limit

-- The 402 of an exceeded limit, with the limit.
pub data PlanError : Type 0 where
  accounts_used_up seats_used_up : Option ℕ → PlanError

-- limitsFor: an organization that is gone has the free plan.
unfoldable pub limits_for : Option PlanTier → PlanLimits
limits_for none = plan_limits PlanTier.free
limits_for (some tier) = plan_limits tier

-- assertCanConnectSocialAccount, with the number of accounts that the organization has.
unfoldable pub assert_can_connect_social_account : Option PlanTier → ℕ → Result PlanError (Unit {0})
assert_can_connect_social_account tier count =
    let limit = (limits_for tier).max_social_accounts in
    if is_within_limit count limit then ok tt else err (accounts_used_up limit)

-- assertCanAddTeamMember, with the numbers of members and of pending invites.
unfoldable pub assert_can_add_team_member : Option PlanTier → ℕ → ℕ → Result PlanError (Unit {0})
assert_can_add_team_member tier members pending =
    let limit = (limits_for tier).max_team_members in
    if is_within_limit (members + pending) limit then ok tt else err (seats_used_up limit)
