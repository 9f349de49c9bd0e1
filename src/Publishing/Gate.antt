-- ===== src/Publishing/Gate.antt =====
-- What may be published, and what a request does when it is accepted or refused.
use socialhub.Prelude.{
  String, ◌≡◌, ◌↔◌, refl, Bool, true, false, Option, none, some, List, [], ◌∷◌, ◌++◌, ◌==◌, arith,
  if◌then◌else◌, Result, ok, err, ==-refl, ◌⊎◌, Bool-cases, inl, ==_iff, inr,
}
use socialhub.Schema.{
  RowId, Millis, Platform, ApprovalStatus, SocialAccountStatus, VariantStatus, PublishJobStatus,
}
use socialhub.Publishing.{
  Ports, World, PublishJob, QueueEntry, PublishError, ContentVariant, queue_for,
}
use socialhub.SocialToken.{SocialAccount, truthy}
use socialhub.Publishing.Validate.{load_and_validate}
use socialhub.Publishing.Enqueue.{
  publish_now, publish_valid, publish_to, publish_carousel_now, publish_carousel_valid, schedule,
  schedule_valid, schedule_carousel, schedule_carousel_valid, new_job,
}

-- A variant of the organization that may go out through an account.
pub record IsPublishable {ports : Ports} (w : World ports) (org_id variant_id account_id : RowId)
    (variant : ContentVariant) (account : SocialAccount) : Type 0 where
  pub variant_stored : w.variants variant_id ≡ some variant
  pub variant_owned : variant.asset.org_id ≡ org_id
  pub approved :
      (variant.asset.requires_approval ≡ false)
      ⊎ (variant.asset.approval_status ≡ ApprovalStatus.approved)
  pub account_stored : ports.tokens.accounts.find w.accounts account_id ≡ some account
  pub account_owned : account.org_id ≡ org_id
  pub ready : variant.status ≡ VariantStatus.ready
  pub rendered : truthy variant.rendered_media_url ≡ true
  pub connected : account.status ≡ SocialAccountStatus.connected
  pub same_platform : account.platform ≡ variant.platform

module _ {ports : Ports} (w : World ports) (org_id variant_id account_id : RowId) where
  gate_sound :
      (variant : ContentVariant) (account : SocialAccount)
      → load_and_validate w org_id variant_id account_id ≡ ok (variant, account)
      → IsPublishable w org_id variant_id account_id variant account
  unfolding load_and_validate
  gate_sound variant account h = ground arith

  gate_complete :
      (variant : ContentVariant) (account : SocialAccount)
      → IsPublishable w org_id variant_id account_id variant account
      → load_and_validate w org_id variant_id account_id ≡ ok (variant, account)
  unfolding load_and_validate
  gate_complete variant account h = ground arith

  -- The validation passes, with a variant and an account, exactly when that variant and that
  -- account are the stored ones, both belong to the caller's organization, the design is approved
  -- if the organization requires it, the variant is ready and rendered, and the account is
  -- connected and of the variant's platform.
  pub load_and_validate_iff :
      (variant : ContentVariant) (account : SocialAccount)
      → (load_and_validate w org_id variant_id account_id ≡ ok (variant, account))
        ↔ IsPublishable w org_id variant_id account_id variant account
  load_and_validate_iff variant account =
      (gate_sound variant account, gate_complete variant account)

-- What an accepted request for an immediate post leaves behind.
pub record IsQueuedBy {ports : Ports} (w v : World ports) (id variant_id account_id : RowId)
    (caption : Option String) : Type 0 where
  pub fresh : ports.jobs.find w.jobs id ≡ none
  pub row :
      (job : PublishJob) × (ports.jobs.find v.jobs id ≡ some job)
      × (job.status ≡ PublishJobStatus.queued)
      × (job.variant_id ≡ some variant_id)
      × (job.social_account_id ≡ account_id)
      × (job.attempt_count ≡ 0)
  pub others : (j : RowId) → (id ≡ j) ⊎ (ports.jobs.find v.jobs j ≡ ports.jobs.find w.jobs j)
  pub entry :
      (e : QueueEntry) × (v.queue ≡ w.queue ++ (e ∷ []))
      × (e.job.publish_job_id ≡ id)
      × (e.job.caption ≡ caption)
      × (e.attempts ≡ 3)
      × (e.attempts_made ≡ 0)
  pub unsent : v.sent ≡ w.sent

-- Every platform has a queue.
pub queue_for_all : (p : Platform) → (queue : String) × (queue_for p ≡ some queue)
unfolding queue_for
queue_for_all Platform.instagram = (_, refl)
queue_for_all Platform.x = (_, refl)
queue_for_all Platform.facebook = (_, refl)
queue_for_all Platform.threads = (_, refl)
queue_for_all Platform.linkedin = (_, refl)

module _ {ports : Ports} (variant_id account_id : RowId) (caption : Option String)
    (w : World ports) where
  publish_to-IsQueuedBy :
      (p : Platform) (queue : String)
      → (id : RowId) × ((publish_to variant_id account_id caption w p (some queue)).0 ≡ ok id)
        × IsQueuedBy w
            (publish_to variant_id account_id caption w p (some queue)).1
            id
            variant_id
            account_id
            caption
  unfolding publish_to
  publish_to-IsQueuedBy p queue =
      let job = new_job account_id PublishJobStatus.queued in
      let row = record job { variant_id = some variant_id } in
      (
        _,
        refl,
        record {
          fresh = ports.jobs.create_fresh w.jobs _;
          row = (row, rw (ports.jobs.find-create, ==-refl) refl, refl, refl, refl, refl);
          others = λ j. elim (Bool-cases ((ports.jobs.create w.jobs row).0 == j)) [
            | inl same ↦ inl ((==_iff _ j).0 same)
            | inr ne ↦ inr (rw (ports.jobs.find-create, ne) refl)
          ];
          entry = (_, refl, refl, refl, refl, refl);
          unsent = refl;
        },
      )

  -- An immediate post of a publishable variant is accepted: it gets a new row, which is `queued`
  -- with no attempt yet, and one queue entry with the request's caption and three attempts. No
  -- other row changes, and nothing is posted yet.
  pub publish_now_accepted :
      (org_id : RowId) (variant : ContentVariant) (account : SocialAccount)
      → IsPublishable w org_id variant_id account_id variant account
      → (id : RowId) × ((publish_now org_id variant_id account_id caption w).0 ≡ ok id)
        × IsQueuedBy w
            (publish_now org_id variant_id account_id caption w).1
            id
            variant_id
            account_id
            caption
  unfolding publish_now publish_valid
  publish_now_accepted org_id variant account h =
      let (queue, e) = queue_for_all account.platform in
      rw (gate_complete w org_id variant_id account_id variant account h, e)
        (publish_to-IsQueuedBy account.platform queue)

-- A result with its world: if the request is refused, the world is the one before.
abbrev pub RefusalKeeps :
    {ports : Ports} → World ports → Result PublishError RowId × World ports → Type 0
RefusalKeeps w (ok id, v) = Unit
RefusalKeeps w (err e, v) = v ≡ w

module _ {ports : Ports} (w : World ports) where
  publish_to-RefusalKeeps :
      (v a : RowId) (caption : Option String) (p : Platform) (queue : Option String)
      → RefusalKeeps w (publish_to v a caption w p queue)
  unfolding publish_to
  publish_to-RefusalKeeps v a caption p none = refl
  publish_to-RefusalKeeps v a caption p (some queue) = tt

  publish_valid-RefusalKeeps :
      (v a : RowId) (caption : Option String)
      (checked : Result PublishError (ContentVariant × SocialAccount))
      → RefusalKeeps w (publish_valid v a caption w checked)
  unfolding publish_valid
  publish_valid-RefusalKeeps v a caption (err e) = refl
  publish_valid-RefusalKeeps v a caption (ok (variant, account)) =
      publish_to-RefusalKeeps v a caption account.platform _

  publish_carousel_valid-RefusalKeeps :
      (org user a : RowId) (urls : List String) (caption : Option String)
      (checked : Result PublishError (SocialAccount × String))
      → RefusalKeeps w (publish_carousel_valid org user a urls caption w checked)
  unfolding publish_carousel_valid
  publish_carousel_valid-RefusalKeeps org user a urls caption (err e) = refl
  publish_carousel_valid-RefusalKeeps org user a urls caption (ok (account, queue)) = tt

  schedule_valid-RefusalKeeps :
      (v a : RowId) (at : Millis) (caption : Option String)
      (checked : Result PublishError (ContentVariant × SocialAccount))
      → RefusalKeeps w (schedule_valid v a at caption w checked)
  unfolding schedule_valid
  schedule_valid-RefusalKeeps v a at caption (err e) = refl
  schedule_valid-RefusalKeeps v a at caption (ok (variant, account)) = tt

  schedule_carousel_valid-RefusalKeeps :
      (org user a : RowId) (urls : List String) (at : Millis) (caption : Option String)
      (checked : Result PublishError (SocialAccount × String))
      → RefusalKeeps w (schedule_carousel_valid org user a urls at caption w checked)
  unfolding schedule_carousel_valid
  schedule_carousel_valid-RefusalKeeps org user a urls at caption (err e) = refl
  schedule_carousel_valid-RefusalKeeps org user a urls at caption (ok (account, queue)) = tt

  later-RefusalKeeps :
      (late : Bool) (e : PublishError) (r : Result PublishError RowId × World ports)
      → RefusalKeeps w r
      → RefusalKeeps w (if late then (err e, w) else r)
  later-RefusalKeeps true e r h = refl
  later-RefusalKeeps false e r h = h

  -- Each of the four requests that create a job is checked before anything is written: if it is
  -- refused, for whatever reason, the world is the one before.
  pub refused_requests_keep :
      (org user v a : RowId) (urls : List String) (at now : Millis) (caption : Option String)
      → RefusalKeeps w (publish_now org v a caption w)
        × RefusalKeeps w (publish_carousel_now org user a urls caption w)
        × RefusalKeeps w (schedule org v a at now caption w)
        × RefusalKeeps w (schedule_carousel org user a urls at now caption w)
  unfolding publish_now publish_carousel_now schedule schedule_carousel
  refused_requests_keep org user v a urls at now caption = (
    publish_valid-RefusalKeeps v a caption _,
    publish_carousel_valid-RefusalKeeps org user a urls caption _,
    later-RefusalKeeps _ _ _ (schedule_valid-RefusalKeeps v a at caption _),
    later-RefusalKeeps _ _ _ (schedule_carousel_valid-RefusalKeeps org user a urls at caption _),
  )
