-- ===== src/Billing/Webhook.antt =====
-- handleWebhook of billing.service.ts and what it calls.
use socialhub.Prelude.{
  ℕ, ◌*◌, String, Bool, true, false, Option, none, some, ◌==◌, if◌then◌else◌, or_option, or_else,
  Result, ok, err, map,
}
use socialhub.Schema.{RowId, Millis, PlanTier}
use socialhub.Billing.{
  SubscriptionStatus, Subscription, Invoice, StripeObject, BillingError, unknown_org, stripe_failed,
  BillingPorts, Billing, given, resolve_org_id, map_status, tier_from_subscription, upsert,
  upsert_invoice,
}

-- A verified event, by its type.
pub data Event : Type 0 where
  checkout_completed : StripeObject → Event
  subscription_changed subscription_deleted : StripeObject → Event
  invoice_paid invoice_failed : StripeObject → Event
  unhandled : Event

-- Seconds to milliseconds.
abbrev pub instant : Option ℕ → Option Millis
instant none = none
instant (some seconds) = some (seconds * 1000)

-- As `instant`, but 0 counts as missing.
abbrev pub instant_if : Option ℕ → Option Millis
instant_if none = none
instant_if (some seconds) = if seconds == 0 then none else some (seconds * 1000)

-- The change of a row that exists: an id that is not given is left as it is.
abbrev pub remirrored : Subscription → Subscription → Subscription
remirrored new old = record new {
  org_id = old.org_id;
  customer_id = or_option new.customer_id old.customer_id;
  subscription_id = or_option new.subscription_id old.subscription_id;
}

-- The transaction, which is rolled back where there is no such organization.
unfoldable pub synced :
    RowId → Subscription → Billing → Option PlanTier → Result BillingError (Unit {0}) × Billing
synced org new w none = (err unknown_org, w)
synced org new w (some _) = (
  ok tt,
  record w {
    subscriptions = upsert org new (remirrored new) w.subscriptions;
    organizations = λ id. if org == id then some new.plan_tier else w.organizations id;
  },
)

abbrev pub invoice_row : RowId → String → StripeObject → Invoice
invoice_row org id object = record {
  stripe_invoice_id = id;
  org_id = org;
  amount_due = or_else object.amount_due 0;
  amount_paid = or_else object.amount_paid 0;
  currency = or_else object.currency "usd";
  status = or_else object.status "open";
  hosted_invoice_url = object.hosted_invoice_url;
  period_start = instant_if object.period_start;
  period_end = instant_if object.period_end;
}

-- With the organization and the invoice's id, where both are given, and the organization's row.
unfoldable pub invoice_stored :
    RowId → Invoice → Billing → Option PlanTier → Result BillingError (Unit {0}) × Billing
invoice_stored org invoice w none = (err unknown_org, w)
invoice_stored org invoice w (some _) =
    (ok tt, record w { invoices = upsert_invoice invoice w.invoices })

unfoldable pub invoice_resolved :
    StripeObject → Billing → Option RowId → Option String → Result BillingError (Unit {0}) × Billing
invoice_resolved object w (some org) (some id) =
    invoice_stored org (invoice_row org id object) w (w.organizations org)
invoice_resolved object w _ _ = (ok tt, w)

unfoldable pub record_invoice : StripeObject → Billing → Result BillingError (Unit {0}) × Billing
record_invoice object w =
    invoice_resolved object w (resolve_org_id w.subscriptions object) (given object.id)

-- updateMany({ where: { orgId } })
unfoldable pub past_due_of : RowId → Subscription → Subscription
past_due_of org s = if s.org_id == org then record s { status = SubscriptionStatus.past_due } else s

unfoldable pub marked : Billing → Option RowId → Billing
marked w none = w
marked w (some org) = record w { subscriptions = map (past_due_of org) w.subscriptions }

unfoldable pub mark_past_due : StripeObject → Billing → Billing
mark_past_due object w = marked w (resolve_org_id w.subscriptions object)

-- A payment that failed: the second call follows only if the first has not thrown.
unfoldable pub after_invoice :
    StripeObject
    → Result BillingError (Unit {0}) × Billing
    → Result BillingError (Unit {0}) × Billing
after_invoice object (err e, w) = (err e, w)
after_invoice object (ok _, w) = (ok tt, mark_past_due object w)

module _ (ports : BillingPorts) where
  -- The columns of a subscription that a webhook writes, as the row that is created.
  unfoldable pub mirrored : RowId → StripeObject → Bool → Subscription
  mirrored org object deleted = record {
    org_id = org;
    customer_id = object.customer;
    subscription_id = object.id;
    plan_tier = if deleted then PlanTier.free else tier_from_subscription ports object;
    status = if deleted then SubscriptionStatus.canceled else map_status object.status;
    current_period_end = instant object.current_period_end;
    cancel_at_period_end = object.cancel_at_period_end;
  }

  unfoldable pub sync_resolved :
      StripeObject → Bool → Billing → Option RowId → Result BillingError (Unit {0}) × Billing
  sync_resolved object deleted w none = (ok tt, w)
  sync_resolved object deleted w (some org) =
      synced org (mirrored org object deleted) w (w.organizations org)

  unfoldable pub sync_subscription :
      StripeObject → (deleted : Bool) → Billing → Result BillingError (Unit {0}) × Billing
  sync_subscription object deleted w =
      sync_resolved object deleted w (resolve_org_id w.subscriptions object)

  unfoldable pub checkout_of :
      Billing → Option (Option StripeObject) → Result BillingError (Unit {0}) × Billing
  checkout_of w none = (ok tt, w)
  checkout_of w (some none) = (err stripe_failed, w)
  checkout_of w (some (some object)) = sync_subscription object false w

  abbrev pub fetched : Option String → Option (Option StripeObject)
  fetched none = none
  fetched (some id) = some (ports.get_subscription id)

  unfoldable pub handle_webhook : Event → Billing → Result BillingError (Unit {0}) × Billing
  handle_webhook (checkout_completed object) w = checkout_of w (fetched (given object.subscription))
  handle_webhook (subscription_changed object) w = sync_subscription object false w
  handle_webhook (subscription_deleted object) w = sync_subscription object true w
  handle_webhook (invoice_paid object) w = record_invoice object w
  handle_webhook (invoice_failed object) w = after_invoice object (record_invoice object w)
  handle_webhook unhandled w = (ok tt, w)
