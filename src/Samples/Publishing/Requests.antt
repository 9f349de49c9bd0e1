-- ===== src/Samples/Publishing/Requests.antt =====
-- Requests, ticks and cancellations on the sample world.
use socialhub.Publishing.Claims.{overlapping_ticks, cancel_or_dispatch}
use socialhub.Publishing.Cancel.{cancel_claimed}
use socialhub.Schema.{Platform, PublishJobStatus}
use socialhub.Database.Rows.{rows}
use socialhub.Database.Slots.{find}
use socialhub.Publishing.Dispatch.{DueJob, dispatch_one}
use socialhub.Publishing.Gate.{IsPublishable, load_and_validate_iff}
use socialhub.Publishing.Validate.{load_and_validate}
use socialhub.Samples.{
  world_of, ports, rows, variant, Platform, scheduled_job, job, account, PublishJobStatus,
}
use socialhub.Prelude.{refl, ◌≡◌, none, [], ◌∷◌, ok, err, false, ◌≢◌, ◌↔◌, inr, arith}
use socialhub.Publishing.{World, just_started}

publishable : IsPublishable (world_of []) 7 5 0 variant account
unfolding world_of rows find
publishable = record {
  variant_stored = refl;
  variant_owned = refl;
  approved = inr refl;
  account_stored = refl;
  account_owned = refl;
  ready = refl;
  rendered = refl;
  connected = refl;
  same_platform = refl;
}

load_and_validate_iff_example :
    (load_and_validate (world_of []) 7 5 0 ≡ ok (variant, account))
    ↔ IsPublishable (world_of []) 7 5 0 variant account
load_and_validate_iff_example = load_and_validate_iff (world_of []) 7 5 0 variant account

abbrev due : DueJob
due = record { id = 0; caption = none; platform = Platform.threads }

abbrev scheduled_world : World ports
scheduled_world = world_of (scheduled_job ∷ [])

overlapping_ticks_example :
    ((dispatch_one due (dispatch_one due scheduled_world).1).0 ≡ false)
    × ((dispatch_one due (dispatch_one due scheduled_world).1).1.queue
        ≡ (dispatch_one due scheduled_world).1.queue)
overlapping_ticks_example = overlapping_ticks due due scheduled_world refl

cancel_or_dispatch_example :
    ((dispatch_one due (cancel_claimed 0 7 scheduled_world).1).1.queue ≡ scheduled_world.queue)
    × ((cancel_claimed 0 7 (dispatch_one due scheduled_world).1).0 ≡ err just_started)
cancel_or_dispatch_example = cancel_or_dispatch due 7 scheduled_world

open_job : job.status ≢ PublishJobStatus.published
open_job h = absurd (ground arith)
