-- ===== src/Connect/Overrun.antt =====
-- Two connections that have both been checked before either of them is stored.
use socialhub.Prelude.{◌≡◌, refl, ℕ, ◌<◌, ◌+◌, none, some, ok, arith, ==-refl, lt→ltb}
use socialhub.Schema.{RowId, Platform}
use socialhub.Plans.{limits_for, is_within_limit, assert_can_connect_social_account}
use socialhub.Connect.{
  ConnectPorts, World, Connection, of_org, new_account, stored_account, check_cap, as_plan_error,
}

module _ (ports : ConnectPorts) where
  counted :
      (org_id : RowId) (platform : Platform) (c : Connection) (w : World ports)
      → ports.accounts.count
          (stored_account ports org_id platform c w none).1.accounts
          (of_org org_id)
        ≡ 1 + ports.accounts.count w.accounts (of_org org_id)
  unfolding stored_account
  counted org_id platform c w =
      let n =
        ports.accounts.count-create w.accounts (new_account ports org_id platform c)
          (of_org org_id) in
      rw (==-refl org_id) at n

  -- Where one account is left of an organization's plan, two connections of new accounts that are
  -- checked at the same time both pass, and once both are stored the plan is exceeded.
  pub concurrent_connects :
      (org_id : RowId) (platform other : Platform) (c d : Connection) (limit : ℕ) (w : World ports)
      → (limits_for (w.plan_tier org_id)).max_social_accounts ≡ some limit
      → 1 + ports.accounts.count w.accounts (of_org org_id) ≡ limit
      → (check_cap ports org_id w none ≡ ok tt)
        × (limit
            < ports.accounts.count
                (stored_account ports org_id other d
                  (stored_account ports org_id platform c w none).1
                  none).1.accounts
                (of_org org_id))
  unfolding check_cap as_plan_error assert_can_connect_social_account is_within_limit
  concurrent_connects org_id platform other c d limit w cap n =
      let first = counted org_id platform c w in
      let second = counted org_id other d (stored_account ports org_id platform c w none).1 in
      (
        rw (cap, lt→ltb (ports.accounts.count w.accounts (of_org org_id)) limit (omega (arith, n)))
            refl,
        omega (arith, n, first, second),
      )
