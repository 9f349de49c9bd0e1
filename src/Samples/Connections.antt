-- ===== src/Samples/Connections.antt =====
-- Connected accounts, and the events of a platform, on sample data.
use socialhub.Prelude.{
  ◌≡◌, refl, ◌+◌, ◌≤◌, ◌<◌, ◌⊎◌, String, false, none, some, ok, err, [], ◌∷◌, if◌then◌else◌, arith,
  ◌==◌, Bool-cases, inl, inr,
}
use text.Mathlib.Text.{◌==◌ as str_eq}
use socialhub.Schema.{Platform, PlanTier, PublishJobStatus}
use socialhub.Database.Rows.{rows}
use socialhub.Database.Slots.{find, count, stored}
use socialhub.Plans.{limits_for, plan_limits}
use socialhub.Connect.{
  ConnectPorts, World, OauthState, Connection, encode_state, state_expired, still_referenced,
}
use socialhub.Connect.Start.{handle_callback}
use socialhub.Connect.States.{Connected, handle_callback-Connected}
use socialhub.Connect.Caps.{callback, leave, WithinPlans, served_all, served_all-WithinPlans}
use socialhub.Connect.Deletion.{purge_platform_user, purge_platform_user-refused}
use socialhub.Webhooks.{
  WebhookPorts, MetaWebhookPayload, MetaWebhookChange, handle_meta_event, text_of, World as Events,
}
use socialhub.Webhooks.Redelivery.{deliver_all, handle_meta_event-again}
use socialhub.Webhooks.Settled.{Same}
use socialhub.Webhooks.Isolation.{Isolated, handle_meta_event-Isolated}
use socialhub.Samples.{account, job}

-- The state that the sample's browser carries, and the account that the platform answers with.
abbrev carried : OauthState
carried = record { org_id = 7; issued_at = 1000; code_verifier = none }

abbrev connection : Connection
connection = record {
  external_account_id = "threads-2";
  external_user_id = some "threads-2";
  access_token = "token";
  refresh_token = none;
  expires_at = none;
}

-- A cipher that leaves the text as it is, and no text but one.
abbrev connect_ports : ConnectPorts
connect_ports = record {
  accounts = rows;
  jobs = rows;
  requests = rows;
  encrypt = λ s. s;
  decrypt = λ s. some s;
  to_json = λ t. "state";
  of_json = λ s. some carried;
  connect = λ p code verifier. ok connection;
  authorization_url = λ p state challenge. ok state;
  names_missing_key = λ m. false;
  challenge_of = λ v. v;
}

-- One account with one job, in an organization with the free plan.
unfoldable desk : World connect_ports
unfolding rows
desk = record {
  accounts = stored (account ∷ []);
  jobs = stored (job ∷ []);
  requests = [];
  plan_tier = λ org. some PlanTier.free;
}

handle_callback-Connected_example :
    ((carried.issued_at ≤ 2000)
      × (2000 ≤ carried.issued_at + 600000)
      × Connected connect_ports 7 Platform.threads connection desk (
          handle_callback connect_ports Platform.threads "code"
            (encode_state connect_ports carried)
            2000
            desk))
    ⊎ (((carried.issued_at + 600000 < 2000) ⊎ (2000 < carried.issued_at))
        × (handle_callback connect_ports Platform.threads "code"
              (encode_state connect_ports carried)
              2000
              desk
            ≡ (err state_expired, desk)))
handle_callback-Connected_example =
    handle_callback-Connected connect_ports Platform.threads carried "code" connection 2000 desk
      refl refl refl

desk_within : WithinPlans connect_ports desk
unfolding desk rows count limits_for plan_limits
desk_within org = elim (Bool-cases (7 == org)) [
  | inl e ↦ rw e (omega arith)
  | inr e ↦ rw e (omega arith)
]

served_all-WithinPlans_example :
    WithinPlans connect_ports (
      served_all connect_ports desk
        (callback Platform.threads "code" "state" 2000 ∷ leave 0 7 ∷ []))
served_all-WithinPlans_example =
    served_all-WithinPlans connect_ports
      (callback Platform.threads "code" "state" 2000 ∷ leave 0 7 ∷ []) desk desk_within

purge_platform_user-refused_example :
    purge_platform_user connect_ports Platform.threads "threads-1" desk
    ≡ (err still_referenced, desk)
unfolding desk rows count find
purge_platform_user-refused_example =
    purge_platform_user-refused connect_ports Platform.threads "threads-1" 0 account desk refl refl
      (omega arith)

abbrev event_ports : WebhookPorts
event_ports = record { jobs = rows; accounts = rows }

-- The sample's job has published the post that is removed.
unfoldable events : Events event_ports
unfolding rows
events = record {
  accounts = stored (account ∷ []);
  jobs =
      stored
        (record job { status = PublishJobStatus.published; external_post_id = some "post-1" } ∷ []);
}

abbrev removal : String → String
removal name =
    if str_eq name "verb" then "remove" else if str_eq name "post_id" then "post-1" else "other"

abbrev change : MetaWebhookChange
change = record { field = some "feed"; value = some (λ name. text_of (removal name)) }

abbrev payload : MetaWebhookPayload
payload = record {
  entry = some (record { id = some "threads-1"; changes = some (change ∷ []) } ∷ []);
}

handle_meta_event-again_example :
    let v =
      deliver_all event_ports []
        (handle_meta_event event_ports Platform.threads payload events).1 in
    ((handle_meta_event event_ports Platform.threads payload v).0 ≡ 0)
    × Same event_ports v (handle_meta_event event_ports Platform.threads payload v).1
handle_meta_event-again_example =
    handle_meta_event-again event_ports Platform.threads payload [] events

handle_meta_event-Isolated_example :
    Isolated event_ports Platform.threads events
      (handle_meta_event event_ports Platform.threads payload events).1
handle_meta_event-Isolated_example =
    handle_meta_event-Isolated event_ports Platform.threads payload events
