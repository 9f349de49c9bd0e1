-- ===== src/Access/Roles.antt =====
-- backend/src/common/constants/role-rank.ts and backend/src/common/guards/roles.guard.ts.
use socialhub.Prelude.{ℕ, ◌≡◌, Bool, true, false, Option, none, some, leb, arith, refl}
use socialhub.Schema.{UserRole}

-- ROLE_RANK
unfoldable pub role_rank : UserRole → ℕ
role_rank UserRole.viewer = 0
role_rank UserRole.editor = 1
role_rank UserRole.admin = 2
role_rank UserRole.owner = 3

unfoldable pub role_meets_minimum : UserRole → UserRole → Bool
role_meets_minimum actual minimum = leb (role_rank minimum) (role_rank actual)

-- canActivate: the role that the route asks for, and the role of the request's user, each if any.
unfoldable pub can_activate : Option UserRole → Option UserRole → Bool
can_activate none user = true
can_activate (some required) none = false
can_activate (some required) (some role) = role_meets_minimum role required

-- Whoever meets the role of another passes every route that the other passes: a route's minimum
-- role never shuts out a higher one.
pub can_activate_upward :
    (a b : UserRole) (required : Option UserRole)
    → role_meets_minimum a b ≡ true
    → can_activate required (some b) ≡ true
    → can_activate required (some a) ≡ true
unfolding role_meets_minimum role_rank can_activate
can_activate_upward a b none above passes = refl
can_activate_upward a b (some required) above passes = ground arith
