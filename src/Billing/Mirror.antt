-- ===== src/Billing/Mirror.antt =====
-- The plan of an organization against its mirrored subscription.
use socialhub.Prelude.{
  ◌≡◌, refl, Bool, true, false, Option, none, some, List, [], ◌∷◌, ◌==◌, if◌then◌else◌, Result, ok,
  err, arith, map, String, ◌∙◌, ap, sym,
}
use socialhub.Schema.{RowId, PlanTier}
use socialhub.Billing.{
  Subscription, StripeObject, BillingPorts, Billing, upsert, first_sub, resolve_org_id, Invoice,
  BillingError,
}
use socialhub.Billing.Webhook.{
  Event, handle_webhook, sync_subscription, sync_resolved, synced, mirrored, remirrored,
  record_invoice, invoice_resolved, invoice_stored, past_due_of, marked, mark_past_due,
  after_invoice, checkout_of,
}

unfoldable pub subscription_of : RowId → List Subscription → Option Subscription
unfolding first_sub
subscription_of org subscriptions = first_sub (λ s. s.org_id == org) subscriptions

-- The tier of a subscription, and of an organization, which is free where there is none.
abbrev pub tier_of : Option Subscription → PlanTier
tier_of none = PlanTier.free
tier_of (some s) = s.plan_tier

abbrev pub plan_of : Option PlanTier → PlanTier
plan_of none = PlanTier.free
plan_of (some tier) = tier

-- The subscription of an organization has the organization's plan.
unfoldable pub Mirrors : RowId → Billing → Type 0
unfolding subscription_of
Mirrors org w = tier_of (subscription_of org w.subscriptions) ≡ plan_of (w.organizations org)

-- What an upsert leaves of the row that was there.
abbrev pub upserted :
    Subscription → (Subscription → Subscription) → Option Subscription → Option Subscription
upserted new change none = some new
upserted new change (some s) = some (change s)

pub subscription_of-upsert :
    (org : RowId) (new : Subscription) (change : Subscription → Subscription)
    → new.org_id ≡ org
    → ((s : Subscription) → (change s).org_id ≡ s.org_id)
    → (subscriptions : List Subscription) (j : RowId)
    → subscription_of j (upsert org new change subscriptions) ≡ (
        if org == j
        then upserted new change (subscription_of org subscriptions)
        else subscription_of j subscriptions)
unfolding subscription_of upsert first_sub
subscription_of-upsert org new change of_org keeps [] j = ground (arith, of_org)
subscription_of-upsert org new change of_org keeps (s ∷ rest) j =
    ground (arith, of_org, keeps s, subscription_of-upsert org new change of_org keeps rest j)

sync_tier :
    (org : RowId) (new : Subscription) (subscriptions : List Subscription) (j : RowId)
    → new.org_id ≡ org
    → tier_of (subscription_of j (upsert org new (remirrored new) subscriptions))
      ≡ (if org == j then new.plan_tier else tier_of (subscription_of j subscriptions))
unfolding subscription_of
sync_tier org new subscriptions j of_org =
    ground
      (arith, subscription_of-upsert org new (remirrored new) of_org (λ s. refl) subscriptions j)

module _ (ports : BillingPorts) (j : RowId) where
  synced-Mirrors :
      (org : RowId) (new : Subscription) (w : Billing) (known : Option PlanTier)
      → new.org_id ≡ org
      → Mirrors j w
      → Mirrors j (synced org new w known).1
  unfolding synced Mirrors
  synced-Mirrors org new w none of_org h = h
  synced-Mirrors org new w (some tier) of_org h =
      ground (arith, sync_tier org new w.subscriptions j of_org, h)

  sync_resolved-Mirrors :
      (object : StripeObject) (deleted : Bool) (w : Billing) (resolved : Option RowId)
      → Mirrors j w
      → Mirrors j (sync_resolved ports object deleted w resolved).1
  unfolding sync_resolved
  sync_resolved-Mirrors object deleted w none h = h
  sync_resolved-Mirrors object deleted w (some org) h =
      synced-Mirrors org (mirrored ports org object deleted) w _ (unfold mirrored in refl) h

  sync_subscription-Mirrors :
      (object : StripeObject) (deleted : Bool) (w : Billing)
      → Mirrors j w
      → Mirrors j (sync_subscription ports object deleted w).1
  unfolding sync_subscription
  sync_subscription-Mirrors object deleted w h = sync_resolved-Mirrors object deleted w _ h

-- What neither an invoice nor a failed payment changes: every organization's plan, and the tier of
-- every subscription.
abbrev pub PlansKept : Billing → Billing → Type 0
PlansKept w v =
    (v.organizations ≡ w.organizations)
    × ((j : RowId)
        → tier_of (subscription_of j v.subscriptions) ≡ tier_of (subscription_of j w.subscriptions))

past_due_tier :
    (org j : RowId) (subscriptions : List Subscription)
    → tier_of (subscription_of j (map (past_due_of org) subscriptions))
      ≡ tier_of (subscription_of j subscriptions)
unfolding subscription_of first_sub past_due_of
past_due_tier org j [] = refl
past_due_tier org j (s ∷ rest) = ground (arith, past_due_tier org j rest)

module _ (ports : BillingPorts) where
  invoice_stored-PlansKept :
      (org : RowId) (invoice : Invoice) (w : Billing) (known : Option PlanTier)
      → PlansKept w (invoice_stored org invoice w known).1
  unfolding invoice_stored
  invoice_stored-PlansKept org invoice w none = (refl, λ j. refl)
  invoice_stored-PlansKept org invoice w (some tier) = (refl, λ j. refl)

  invoice_resolved-PlansKept :
      (object : StripeObject) (w : Billing) (resolved : Option RowId) (id : Option String)
      → PlansKept w (invoice_resolved object w resolved id).1
  unfolding invoice_resolved
  invoice_resolved-PlansKept object w none id = (refl, λ j. refl)
  invoice_resolved-PlansKept object w (some org) none = (refl, λ j. refl)
  invoice_resolved-PlansKept object w (some org) (some id) = invoice_stored-PlansKept org _ w _

  record_invoice-PlansKept :
      (object : StripeObject) (w : Billing) → PlansKept w (record_invoice object w).1
  unfolding record_invoice
  record_invoice-PlansKept object w = invoice_resolved-PlansKept object w _ _

  marked-PlansKept : (w : Billing) (resolved : Option RowId) → PlansKept w (marked w resolved)
  unfolding marked
  marked-PlansKept w none = (refl, λ j. refl)
  marked-PlansKept w (some org) = (refl, λ j. past_due_tier org j w.subscriptions)

  after_invoice-PlansKept :
      (object : StripeObject) (w : Billing) (out : Result BillingError (Unit {0}) × Billing)
      → PlansKept w out.1
      → PlansKept w (after_invoice object out).1
  unfolding after_invoice mark_past_due
  after_invoice-PlansKept object w (err e, v) h = h
  after_invoice-PlansKept object w (ok done, v) (plans, tiers) =
      let (plans', tiers') = marked-PlansKept v (resolve_org_id v.subscriptions object) in
      (plans' ∙ plans, λ j. tiers' j ∙ tiers j)

  -- A failed payment cuts nobody off: every organization keeps its plan, and every subscription
  -- its tier.
  pub failed_payment-PlansKept :
      (object : StripeObject) (w : Billing)
      → PlansKept w (handle_webhook ports (Event.invoice_failed object) w).1
  unfolding handle_webhook
  failed_payment-PlansKept object w =
      after_invoice-PlansKept object w _ (record_invoice-PlansKept object w)

  kept-Mirrors : (w v : Billing) (j : RowId) → PlansKept w v → Mirrors j w → Mirrors j v
  unfolding Mirrors
  kept-Mirrors w v j (plans, tiers) h = tiers j ∙ h ∙ ap (λ o. plan_of (o j)) (sym plans)

  checkout_of-Mirrors :
      (j : RowId) (w : Billing) (object : Option (Option StripeObject))
      → Mirrors j w
      → Mirrors j (checkout_of ports w object).1
  unfolding checkout_of
  checkout_of-Mirrors j w none h = h
  checkout_of-Mirrors j w (some none) h = h
  checkout_of-Mirrors j w (some (some object)) h =
      sync_subscription-Mirrors ports j object false w h

  -- Whatever event Stripe reports, and whether or not its handling fails: where the subscription
  -- of an organization had the organization's plan (free where there is no row), it still has.
  pub handle_webhook-Mirrors :
      (event : Event) (w : Billing) (j : RowId)
      → Mirrors j w
      → Mirrors j (handle_webhook ports event w).1
  unfolding handle_webhook
  handle_webhook-Mirrors (Event.checkout_completed object) w j h = checkout_of-Mirrors j w _ h
  handle_webhook-Mirrors (Event.subscription_changed object) w j h =
      sync_subscription-Mirrors ports j object false w h
  handle_webhook-Mirrors (Event.subscription_deleted object) w j h =
      sync_subscription-Mirrors ports j object true w h
  handle_webhook-Mirrors (Event.invoice_paid object) w j h =
      kept-Mirrors w _ j (record_invoice-PlansKept object w) h
  handle_webhook-Mirrors (Event.invoice_failed object) w j h =
      kept-Mirrors w _ j (failed_payment-PlansKept object w) h
  handle_webhook-Mirrors Event.unhandled w j h = h
