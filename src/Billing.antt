-- ===== src/Billing.antt =====
-- backend/src/billing/billing.service.ts: the subscriptions and invoices that Stripe reports, and
-- the plan of an organization.
pub mod Webhook
pub mod Mirror
pub mod Changes
use socialhub.Prelude.{
  ℕ, ◌*◌, String, Bool, true, false, Option, none, some, List, [], ◌∷◌, ◌==◌, if◌then◌else◌,
  or_option, or_else, Result, ok, err, map,
}
use text.Mathlib.Text.{◌==◌ as str_eq}
use socialhub.Schema.{RowId, Millis, PlanTier}
use socialhub.SocialToken.{truthy}

-- `none` of the schema is `unsubscribed`.
pub data SubscriptionStatus : Type 0 where
  unsubscribed trialing active past_due canceled incomplete : SubscriptionStatus

pub record Subscription : Type 0 where
  pub org_id : RowId
  pub customer_id : Option String
  pub subscription_id : Option String
  pub plan_tier : PlanTier
  pub status : SubscriptionStatus
  pub current_period_end : Option Millis
  pub cancel_at_period_end : Bool

pub record Invoice : Type 0 where
  pub stripe_invoice_id : String
  pub org_id : RowId
  pub amount_due : ℕ
  pub amount_paid : ℕ
  pub currency : String
  pub status : String
  pub hosted_invoice_url : Option String
  pub period_start : Option Millis
  pub period_end : Option Millis

-- What the service reads of a Stripe object, a subscription or an invoice. The organization of its
-- metadata is missing also where it is empty.
pub record StripeObject : Type 0 where
  pub metadata_org_id : Option RowId
  pub id : Option String
  pub customer : Option String
  pub subscription : Option String
  pub status : Option String
  pub price_id : Option String
  pub current_period_end : Option ℕ
  pub cancel_at_period_end : Bool
  pub amount_due : Option ℕ
  pub amount_paid : Option ℕ
  pub currency : Option String
  pub hosted_invoice_url : Option String
  pub period_start : Option ℕ
  pub period_end : Option ℕ

-- A missing organization makes a write fail, and a call of Stripe may fail.
pub data BillingError : Type 0 where
  unknown_org stripe_failed : BillingError

-- `getSubscription` of Stripe, and the configured price of a tier.
pub record BillingPorts : Type 0 where
  pub get_subscription : String → Option StripeObject
  pub price_of : PlanTier → Option String

-- The mirror, with at most one subscription for each organization, and the plan of each
-- organization that there is.
pub record Billing : Type 0 where
  pub subscriptions : List Subscription
  pub invoices : List Invoice
  pub organizations : RowId → Option PlanTier

-- An empty string counts as missing.
abbrev pub given : Option String → Option String
given o = if truthy o then o else none

abbrev pub holds : Option String → String → Bool
holds none s = false
holds (some t) s = str_eq t s

unfoldable pub first_sub : (Subscription → Bool) → List Subscription → Option Subscription
first_sub p [] = none
first_sub p (s ∷ rest) = if p s then some s else first_sub p rest

abbrev pub org_of : Option Subscription → Option RowId
org_of none = none
org_of (some s) = some s.org_id

abbrev pub org_by :
    (Subscription → Option String) → List Subscription → Option String → Option RowId
unfolding first_sub
org_by column subscriptions none = none
org_by column subscriptions (some s) =
    org_of (first_sub (λ row. holds (column row) s) subscriptions)

-- The metadata, then the customer, then the subscription.
unfoldable pub resolve_org_id : List Subscription → StripeObject → Option RowId
unfolding org_by
resolve_org_id subscriptions object = or_option object.metadata_org_id (
    or_option (org_by (λ s. s.customer_id) subscriptions (given object.customer))
      (org_by (λ s. s.subscription_id) subscriptions (given object.subscription)))

unfoldable pub map_status : Option String → SubscriptionStatus
map_status none = SubscriptionStatus.incomplete
map_status (some s) =
    if str_eq s "active"
    then SubscriptionStatus.active
    else if str_eq s "trialing"
    then SubscriptionStatus.trialing
    else if str_eq s "past_due"
    then SubscriptionStatus.past_due
    else if str_eq s "unpaid"
    then SubscriptionStatus.past_due
    else if str_eq s "canceled"
    then SubscriptionStatus.canceled
    else SubscriptionStatus.incomplete

-- PURCHASABLE_TIERS
abbrev pub purchasable_tiers : List PlanTier
purchasable_tiers = PlanTier.starter ∷ PlanTier.pro ∷ PlanTier.enterprise ∷ []

unfoldable pub tier_at : (PlanTier → Option String) → String → List PlanTier → PlanTier
tier_at price_of price [] = PlanTier.free
tier_at price_of price (tier ∷ rest) =
    if holds (price_of tier) price then tier else tier_at price_of price rest

abbrev pub tier_for : BillingPorts → Option String → PlanTier
unfolding tier_at
tier_for ports none = PlanTier.free
tier_for ports (some price) = tier_at ports.price_of price purchasable_tiers

unfoldable pub tier_from_subscription : BillingPorts → StripeObject → PlanTier
unfolding tier_for
tier_from_subscription ports object = tier_for ports (given object.price_id)

-- subscription.upsert({ where: { orgId } }): the row to create, and the change of one that exists.
unfoldable pub upsert :
    RowId → Subscription → (Subscription → Subscription) → List Subscription → List Subscription
upsert org create update [] = create ∷ []
upsert org create update (s ∷ rest) =
    if s.org_id == org then update s ∷ rest else s ∷ upsert org create update rest

unfoldable pub upsert_invoice : Invoice → List Invoice → List Invoice
upsert_invoice invoice [] = invoice ∷ []
upsert_invoice invoice (i ∷ rest) =
    if str_eq i.stripe_invoice_id invoice.stripe_invoice_id
    then invoice ∷ rest
    else i ∷ upsert_invoice invoice rest

-- The row of an organization that has just got its Stripe customer.
abbrev pub new_customer : RowId → String → Subscription
new_customer org customer = record {
  org_id = org;
  customer_id = some customer;
  subscription_id = none;
  plan_tier = PlanTier.free;
  status = SubscriptionStatus.unsubscribed;
  current_period_end = none;
  cancel_at_period_end = false;
}

abbrev pub customer_of : Option Subscription → Option String
customer_of none = none
customer_of (some s) = given s.customer_id

abbrev pub customer_kept : RowId → (created : String) → Billing → Option String → String × Billing
unfolding upsert
customer_kept org created w (some customer) = (customer, w)
customer_kept org created w none = (
  created,
  record w {
    subscriptions =
        upsert org (new_customer org created) (λ s. record s { customer_id = some created })
          w.subscriptions;
  },
)

-- `created` is the customer that Stripe makes where the organization has none yet.
unfoldable pub ensure_customer : RowId → (created : String) → Billing → String × Billing
unfolding first_sub customer_kept
ensure_customer org created w =
    customer_kept org created w (customer_of (first_sub (λ s. s.org_id == org) w.subscriptions))
