-- ===== src/Samples/Payments.antt =====
-- Events of Stripe on a mirror with one subscription.
use socialhub.Prelude.{refl, false, Option, none, some, [], ◌∷◌, String}
use socialhub.Schema.{RowId, PlanTier}
use socialhub.Billing.{
  Subscription, SubscriptionStatus, StripeObject, BillingPorts, Billing, first_sub,
}
use socialhub.Billing.Webhook.{Event, handle_webhook}
use socialhub.Billing.Mirror.{Mirrors, subscription_of, handle_webhook-Mirrors}

abbrev prices : PlanTier → Option String
prices PlanTier.pro = some "price_pro"
prices _ = none

abbrev stripe : BillingPorts
stripe = record { get_subscription = λ id. none; price_of = prices }

abbrev object : StripeObject
object = record {
  metadata_org_id = some 7;
  id = some "sub_1";
  customer = some "cus_1";
  subscription = none;
  status = some "active";
  price_id = some "price_pro";
  current_period_end = some 2000;
  cancel_at_period_end = false;
  amount_due = some 900;
  amount_paid = none;
  currency = none;
  hosted_invoice_url = none;
  period_start = some 1000;
  period_end = none;
}

abbrev paid_subscription : Subscription
paid_subscription = record {
  org_id = 7;
  customer_id = some "cus_1";
  subscription_id = some "sub_1";
  plan_tier = PlanTier.pro;
  status = SubscriptionStatus.active;
  current_period_end = none;
  cancel_at_period_end = false;
}

abbrev all_pro : RowId → Option PlanTier
all_pro id = some PlanTier.pro

abbrev mirror : Billing
mirror = record { subscriptions = paid_subscription ∷ []; invoices = []; organizations = all_pro }

mirror-Mirrors : Mirrors 7 mirror
unfolding Mirrors subscription_of first_sub
mirror-Mirrors = refl

handle_webhook-Mirrors_example :
    Mirrors 7 (handle_webhook stripe (Event.subscription_deleted object) mirror).1
handle_webhook-Mirrors_example =
    handle_webhook-Mirrors stripe (Event.subscription_deleted object) mirror 7 mirror-Mirrors
