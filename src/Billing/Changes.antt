-- ===== src/Billing/Changes.antt =====
-- What a deleted subscription and a new customer change.
use socialhub.Prelude.{
  ◌≡◌, refl, true, Option, none, some, List, [], ◌∷◌, ◌==◌, arith, Bool-cases, inl, inr, String,
  ◌∙◌, ◌⊎◌, ==-refl, ==_iff,
}
use socialhub.Schema.{RowId, PlanTier}
use socialhub.Billing.{
  Subscription, SubscriptionStatus, StripeObject, BillingPorts, Billing, upsert, first_sub,
  resolve_org_id, ensure_customer, customer_kept, new_customer,
}
use socialhub.Billing.Webhook.{
  Event, handle_webhook, sync_subscription, sync_resolved, synced, mirrored, remirrored,
}
use socialhub.Billing.Mirror.{subscription_of, upserted, subscription_of-upsert, tier_of, Mirrors}

upsert_row :
    (org : RowId) (new : Subscription) (subscriptions : List Subscription)
    → new.org_id ≡ org
    → (row : Subscription) × (subscription_of org (upsert org new (remirrored new) subscriptions)
        ≡ some row)
      × (row.status ≡ new.status)
      × (row.plan_tier ≡ new.plan_tier)
upsert_row org new subscriptions of_org =
    rw
      (
        subscription_of-upsert org new (remirrored new) of_org (λ s. refl) subscriptions org,
        ==-refl,
      )
      (found (subscription_of org subscriptions))
  where
    found :
        (o : Option Subscription)
        → (row : Subscription) × (upserted new (remirrored new) o ≡ some row)
          × (row.status ≡ new.status)
          × (row.plan_tier ≡ new.plan_tier)
    found none = (new, refl, refl, refl)
    found (some old) = (remirrored new old, refl, refl, refl)

module _ (ports : BillingPorts) where
  -- A deleted subscription of an organization that is there puts that organization on the free
  -- plan and its row to `canceled`, and leaves the plan of every other organization.
  pub deleted_to_free :
      (object : StripeObject) (w : Billing) (org : RowId) (tier : PlanTier)
      → resolve_org_id w.subscriptions object ≡ some org
      → w.organizations org ≡ some tier
      → let v = (handle_webhook ports (Event.subscription_deleted object) w).1 in
        (v.organizations org ≡ some PlanTier.free)
        × ((row : Subscription) × (subscription_of org v.subscriptions ≡ some row)
            × (row.status ≡ SubscriptionStatus.canceled)
            × (row.plan_tier ≡ PlanTier.free))
        × ((j : RowId) → (org ≡ j) ⊎ (v.organizations j ≡ w.organizations j))
  unfolding handle_webhook sync_subscription
  deleted_to_free object w org tier resolved known =
      let new = mirrored ports org object true in
      let (row, found, status, tier') =
        upsert_row org new w.subscriptions (unfold mirrored in refl) in
      rw resolved (
        unfold sync_resolved in
        rw known (
          unfold synced in
          (
            rw ==-refl (unfold mirrored in refl),
            (row, found, status ∙ (unfold mirrored in refl), tier' ∙ (unfold mirrored in refl)),
            λ j. elim (Bool-cases (org == j)) [
              | inl same ↦ inl ((==_iff _ _).0 same)
              | inr other ↦ inr (rw other refl)
            ],
          )))

customer_tier :
    (org j : RowId) (created : String) (subscriptions : List Subscription)
    → tier_of (
        subscription_of j (
          upsert org
            (new_customer org created)
            (λ s. record s { customer_id = some created })
            subscriptions))
      ≡ tier_of (subscription_of j subscriptions)
unfolding subscription_of first_sub upsert
customer_tier org j created [] = ground arith
customer_tier org j created (s ∷ rest) = ground (arith, customer_tier org j created rest)

customer_kept-Mirrors :
    (org j : RowId) (created : String) (w : Billing) (known : Option String)
    → Mirrors j w
    → Mirrors j (customer_kept org created w known).1
unfolding Mirrors customer_kept
customer_kept-Mirrors org j created w none h = customer_tier org j created w.subscriptions ∙ h
customer_kept-Mirrors org j created w (some customer) h = h

-- Making the Stripe customer of an organization, too, keeps every subscription at its
-- organization's plan.
pub ensure_customer-Mirrors :
    (org j : RowId) (created : String) (w : Billing)
    → Mirrors j w
    → Mirrors j (ensure_customer org created w).1
unfolding ensure_customer
ensure_customer-Mirrors org j created w h = customer_kept-Mirrors org j created w _ h
