-- ===== src/Connect/Caps.antt =====
-- The number of accounts that an organization connects.
use socialhub.Prelude.{
  ◌≡◌, refl, String, ℕ, ◌≤◌, ◌+◌, true, Option, none, some, Result, ok, err, Bool-cases, inl, inr,
  ◌==◌, arith, List, [], ◌∷◌, ltb→lt, ==_iff, subst,
}
use socialhub.Schema.{RowId, Millis, Platform}
use socialhub.Database.{always}
use socialhub.SocialToken.{SocialAccount}
use socialhub.Plans.{limits_for, is_within_limit, assert_can_connect_social_account}
use socialhub.Connect.{
  ConnectPorts, World, ConnectError, OauthState, Connection, of_org, connected_by, new_account,
  stored_account, stored_checked, check_cap, upsert_account, as_plan_error, disconnect,
  decode_state, truthy, disconnected, revoke_account,
}
use socialhub.Connect.Start.{
  handle_callback, called_back, upserted, handle_x_callback, called_back_x,
}

abbrev pub Within : ℕ → Option ℕ → Type 0
Within n none = Unit {0}
Within n (some limit) = n ≤ limit

Within-suc :
    (n m : ℕ) (limit : Option ℕ) → is_within_limit n limit ≡ true → m ≡ 1 + n → Within m limit
unfolding is_within_limit
Within-suc n m none h e = tt
Within-suc n m (some limit) h e = let l = ltb→lt n limit h in omega (arith, l, e)

Within-same : (n m : ℕ) (limit : Option ℕ) → Within n limit → m ≡ 0 + n → Within m limit
Within-same n m none h e = tt
Within-same n m (some limit) h e = omega (arith, h, e)

-- What a client asks for: a callback of a platform, with or without the proof key, or a disconnection.
pub data Request : Type 0 where
  callback : Platform → (code raw_state : String) (now : Millis) → Request
  callback_x : (code raw_state : String) (now : Millis) → Request
  leave : (account_id org_id : RowId) → Request

module _ (ports : ConnectPorts) where
  -- Every organization has at most as many accounts as its plan allows.
  abbrev pub WithinPlans : World ports → Type 0
  WithinPlans w =
      (org_id : RowId)
      → Within (ports.accounts.count w.accounts (of_org org_id))
          (limits_for (w.plan_tier org_id)).max_social_accounts

  unfoldable pub served : World ports → Request → World ports
  served w (callback platform code raw_state now) =
      (handle_callback ports platform code raw_state now w).1
  served w (callback_x code raw_state now) = (handle_x_callback ports code raw_state now w).1
  served w (leave account_id org_id) = (disconnect ports account_id org_id w).1

  unfoldable pub served_all : World ports → List Request → World ports
  served_all w [] = w
  served_all w (r ∷ rs) = served_all (served w r) rs

  created-WithinPlans :
      (org_id : RowId) (platform : Platform) (c : Connection) (w : World ports)
      → is_within_limit
          (ports.accounts.count w.accounts (of_org org_id))
          (limits_for (w.plan_tier org_id)).max_social_accounts
        ≡ true
      → WithinPlans w
      → WithinPlans (stored_account ports org_id platform c w none).1
  unfolding stored_account
  created-WithinPlans org_id platform c w room h other =
      let n =
        ports.accounts.count-create w.accounts (new_account ports org_id platform c)
          (of_org other) in
      elim (Bool-cases (org_id == other)) [
        | inl e ↦
            let same : org_id ≡ other = (==_iff _ _).0 e in
            Within-suc (ports.accounts.count w.accounts (of_org other)) _
              (limits_for (w.plan_tier other)).max_social_accounts
              (subst
                (λ (x : RowId).
                  is_within_limit (ports.accounts.count w.accounts (of_org x))
                    (limits_for (w.plan_tier x)).max_social_accounts
                  ≡ true)
                same room)
              (rw e at n)
        | inr e ↦
            Within-same (ports.accounts.count w.accounts (of_org other)) _
              (limits_for (w.plan_tier other)).max_social_accounts (h other) (rw e at n)
      ]

  kept-WithinPlans :
      (id : RowId) (f : SocialAccount → SocialAccount) (w : World ports)
      → ((org : RowId) (a : SocialAccount) → of_org org (f a) ≡ of_org org a)
      → WithinPlans w
      → WithinPlans (record w { accounts = (ports.accounts.update_many w.accounts id always f).1 })
  kept-WithinPlans id f w k h org =
      rw (ports.accounts.count-kept w.accounts id always f (of_org org) (k org)) (h org)

  stored_checked-WithinPlans :
      (org_id : RowId) (platform : Platform) (c : Connection) (w : World ports)
      (o : Option (RowId × SocialAccount))
      → WithinPlans w
      → WithinPlans (stored_checked ports org_id platform c w o (check_cap ports org_id w o)).1
  unfolding stored_checked check_cap as_plan_error assert_can_connect_social_account
  stored_checked-WithinPlans org_id platform c w (some (id, a)) h =
      unfold stored_account in kept-WithinPlans id (connected_by ports c) w (λ org x. refl) h
  stored_checked-WithinPlans org_id platform c w none h =
      elim (Bool-cases (
        is_within_limit (ports.accounts.count w.accounts (of_org org_id))
          (limits_for (w.plan_tier org_id)).max_social_accounts)) [
            | inl e ↦ rw e (created-WithinPlans org_id platform c w e h)
            | inr e ↦ rw e h
          ]

  upserted-WithinPlans :
      (platform : Platform) (org_id : RowId) (w : World ports) (r : Result String Connection)
      → WithinPlans w
      → WithinPlans (upserted ports platform org_id w r).1
  unfolding upserted upsert_account
  upserted-WithinPlans platform org_id w (err m) h = h
  upserted-WithinPlans platform org_id w (ok c) h =
      stored_checked-WithinPlans org_id platform c w _ h

  called_back-WithinPlans :
      (platform : Platform) (code : String) (w : World ports) (r : Result ConnectError OauthState)
      → WithinPlans w
      → WithinPlans (called_back ports platform code w r).1
  unfolding called_back
  called_back-WithinPlans platform code w (err e) h = h
  called_back-WithinPlans platform code w (ok state) h =
      upserted-WithinPlans platform state.org_id w _ h

  called_back_x-WithinPlans :
      (code : String) (w : World ports) (r : Result ConnectError OauthState)
      → WithinPlans w
      → WithinPlans (called_back_x ports code w r).1
  unfolding called_back_x
  called_back_x-WithinPlans code w (err e) h = h
  called_back_x-WithinPlans code w (ok state) h = elim (Bool-cases (truthy state.code_verifier)) [
    | inl e ↦ rw e (upserted-WithinPlans Platform.x state.org_id w _ h)
    | inr e ↦ rw e h
  ]

  disconnected-WithinPlans :
      (id org_id : RowId) (w : World ports) (o : Option SocialAccount)
      → WithinPlans w
      → WithinPlans (disconnected ports id org_id w o).1
  unfolding disconnected
  disconnected-WithinPlans id org_id w none h = h
  disconnected-WithinPlans id org_id w (some a) h = elim (Bool-cases (a.org_id == org_id)) [
    | inl q ↦ rw q (kept-WithinPlans id (revoke_account ports) w (λ org x. refl) h)
    | inr q ↦ rw q h
  ]

  served-WithinPlans : (w : World ports) (r : Request) → WithinPlans w → WithinPlans (served w r)
  unfolding served handle_callback handle_x_callback disconnect
  served-WithinPlans w (callback platform code raw_state now) h =
      called_back-WithinPlans platform code w (decode_state ports raw_state now) h
  served-WithinPlans w (callback_x code raw_state now) h =
      called_back_x-WithinPlans code w (decode_state ports raw_state now) h
  served-WithinPlans w (leave id org_id) h = disconnected-WithinPlans id org_id w _ h

  -- Where every organization has at most the accounts of its plan, this stays so whatever
  -- callbacks and disconnections are served, one after the other.
  pub served_all-WithinPlans :
      (rs : List Request) (w : World ports) → WithinPlans w → WithinPlans (served_all w rs)
  unfolding served_all
  served_all-WithinPlans [] w h = h
  served_all-WithinPlans (r ∷ rs) w h =
      served_all-WithinPlans rs (served w r) (served-WithinPlans w r h)
