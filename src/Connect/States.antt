-- ===== src/Connect/States.antt =====
-- The organization that a callback connects an account to.
use socialhub.Prelude.{
  ◌≡◌, refl, String, ◌≤◌, ◌<◌, ◌+◌, true, false, Option, none, some, Result, ok, err, Bool-cases,
  inl, inr, ◌⊎◌, ◌==◌, arith, if◌then◌else◌, ==-refl, ltb, ltb→lt,
}
use text.Mathlib.TextPositions.{eq_refl}
use socialhub.Schema.{platform_eq_refl, RowId, Millis, Platform, SocialAccountStatus}
use socialhub.Database.{find-update_self, find-create_new, first-Listed}
use socialhub.SocialToken.{SocialAccount}
use socialhub.Plans.{PlanError, assert_can_connect_social_account}
use socialhub.Connect.{
  ConnectPorts, World, ConnectError, OauthState, Connection, state_expired, is_stale, of_key,
  connected_by, new_account, stored_account, stored_checked, find_account, upsert_account,
  encode_state, decode_state, decoded_state, over_limit, as_plan_error, of_org, check_cap,
}
use socialhub.Connect.Start.{handle_callback, called_back, upserted}

stale-cases :
    (now at : Millis)
    → ((is_stale now at ≡ false) × (at ≤ now) × (now ≤ at + 600000))
      ⊎ ((is_stale now at ≡ true) × ((at + 600000 < now) ⊎ (now < at)))
stale-cases now at = elim (Bool-cases (ltb (at + 600000) now)) [
  | inl e ↦ inr (rw e refl, inl (ltb→lt _ _ e))
  | inr e ↦ elim (Bool-cases (ltb now at)) [
    | inl f ↦ inr (rw (e, f) refl, inr (ltb→lt _ _ f))
    | inr f ↦ inl (rw (e, f) refl, ground arith, ground arith)
  ]
]

module _ (ports : ConnectPorts) where
  -- What a connection leaves behind. The account of the key is connected with the new tokens, and
  -- every other account is kept; a connection is refused only for a new account that the plan
  -- excludes, and then changes nothing.
  abbrev pub Connected :
      RowId → Platform → Connection → World ports → Result ConnectError RowId × World ports → Type 0
  Connected org_id platform c w (err e, v) =
      (v ≡ w)
      × (find_account ports org_id platform c.external_account_id w ≡ none)
      × ((refusal : PlanError) × (e ≡ over_limit refusal)
          × (assert_can_connect_social_account (w.plan_tier org_id)
                (ports.accounts.count w.accounts (of_org org_id))
              ≡ err refusal))
  Connected org_id platform c w (ok id, v) =
      ((a : SocialAccount) × (ports.accounts.find v.accounts id ≡ some a)
        × (of_key org_id platform c.external_account_id a ≡ true)
        × (a.status ≡ SocialAccountStatus.connected)
        × (a.access_token_enc ≡ ports.encrypt c.access_token))
      × ((j : RowId)
          → ((id == j) ≡ true)
            ⊎ (ports.accounts.find v.accounts j ≡ ports.accounts.find w.accounts j))

  stored_account-Connected :
      (org_id : RowId) (platform : Platform) (c : Connection) (w : World ports)
      (o : Option (RowId × SocialAccount))
      → find_account ports org_id platform c.external_account_id w ≡ o
      → Connected org_id platform c w (
        ok (stored_account ports org_id platform c w o).0,
        (stored_account ports org_id platform c w o).1,
      )
  unfolding stored_account
  stored_account-Connected org_id platform c w none h = (
    (
      new_account ports org_id platform c,
      find-create_new ports.accounts w.accounts _,
      rw (==-refl org_id, platform_eq_refl platform, eq_refl c.external_account_id) refl,
      refl,
      refl,
    ),
    (λ j.
        elim (Bool-cases
          ((ports.accounts.create w.accounts (new_account ports org_id platform c)).0 == j)) [
            | inl q ↦ inl q
            | inr q ↦ inr (rw (ports.accounts.find-create, q) refl)
          ]),
  )
  stored_account-Connected org_id platform c w (some (id, a)) h =
      let l = first-Listed ports.accounts w.accounts _ id a h in
      (
        (
          connected_by ports c a,
          find-update_self ports.accounts w.accounts id (connected_by ports c) a l.0,
          l.1,
          refl,
          refl,
        ),
        (λ j. elim (Bool-cases (id == j)) [
          | inl q ↦ inl q
          | inr q ↦ inr (rw (ports.accounts.find-update_many, q) refl)
        ]),
      )

  plan_refusal :
      (checked : Result PlanError (Unit {0})) (e : ConnectError)
      → as_plan_error ports checked ≡ err e
      → (refusal : PlanError) × (e ≡ over_limit refusal) × (checked ≡ err refusal)
  unfolding as_plan_error
  plan_refusal (ok _) e h = absurd (ground arith)
  plan_refusal (err refusal) e h = (refusal, ground arith, refl)

  stored_checked-Connected :
      (org_id : RowId) (platform : Platform) (c : Connection) (w : World ports)
      (o : Option (RowId × SocialAccount)) (r : Result ConnectError (Unit {0}))
      → find_account ports org_id platform c.external_account_id w ≡ o
      → check_cap ports org_id w o ≡ r
      → Connected org_id platform c w (stored_checked ports org_id platform c w o r)
  unfolding stored_checked check_cap
  stored_checked-Connected org_id platform c w (some x) (err e) h q = absurd (ground arith)
  stored_checked-Connected org_id platform c w none (err e) h q = (refl, h, plan_refusal _ e q)
  stored_checked-Connected org_id platform c w o (ok x) h q =
      stored_account-Connected org_id platform c w o h

  pub upsert_account-Connected :
      (org_id : RowId) (platform : Platform) (c : Connection) (w : World ports)
      → Connected org_id platform c w (upsert_account ports org_id platform c w)
  unfolding upsert_account
  upsert_account-Connected org_id platform c w =
      stored_checked-Connected org_id platform c w _ _ refl refl

  decode_state-encode_state :
      (state : OauthState) (now : Millis)
      → ports.decrypt (ports.encrypt (ports.to_json state)) ≡ some (ports.to_json state)
      → ports.of_json (ports.to_json state) ≡ some state
      → decode_state ports (encode_state ports state) now
        ≡ (if is_stale now state.issued_at then err state_expired else ok state)
  unfolding decode_state encode_state decoded_state
  decode_state-encode_state state now d j = rw (d, j) refl

  -- The state that was made for an organization serves, within ten minutes, to connect the account
  -- that the platform answers with to this organization, and to change no other account; in this
  -- time only the plan may refuse, and only an account that is not connected yet. Before and after
  -- that time the state is refused, and nothing changes. The cipher opens
  -- what it has sealed of the state, and the state's text is read back.
  pub handle_callback-Connected :
      (platform : Platform) (state : OauthState) (code : String) (c : Connection) (now : Millis)
      (w : World ports)
      → ports.decrypt (ports.encrypt (ports.to_json state)) ≡ some (ports.to_json state)
      → ports.of_json (ports.to_json state) ≡ some state
      → ports.connect platform code none ≡ ok c
      → ((state.issued_at ≤ now)
          × (now ≤ state.issued_at + 600000)
          × Connected state.org_id platform c w
              (handle_callback ports platform code (encode_state ports state) now w))
        ⊎ (((state.issued_at + 600000 < now) ⊎ (now < state.issued_at))
            × (handle_callback ports platform code (encode_state ports state) now w
                ≡ (err state_expired, w)))
  unfolding handle_callback called_back upserted
  handle_callback-Connected platform state code c now w d j answer =
      let q = decode_state-encode_state state now d j in
      elim (stale-cases now state.issued_at) [
        | inl (e, a, b) ↦
            inl (a, b, rw (q, e, answer) (upsert_account-Connected state.org_id platform c w))
        | inr (e, a) ↦ inr (a, rw (q, e) refl)
      ]
