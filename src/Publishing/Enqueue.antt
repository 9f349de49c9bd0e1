-- ===== src/Publishing/Enqueue.antt =====
-- publishNow, publishCarouselNow, schedule and scheduleCarousel of publishing.service.ts.
use socialhub.Prelude.{String, Option, none, some, List, Result, ok, err, leb, if◌then◌else◌}
use socialhub.Schema.{RowId, Millis, PublishJobStatus}
use socialhub.Publishing.{
  Ports, World, PublishJob, CarouselPost, PublishError, not_in_future, not_supported, queue_for,
  add_to_queue, ContentVariant, SocialAccount, Platform,
}
use socialhub.Publishing.Validate.{load_and_validate, load_and_validate_carousel}

-- The columns that every `publishJob.create` of the service leaves at their defaults.
unfoldable pub new_job : RowId → PublishJobStatus → PublishJob
new_job social_account_id status = record {
  variant_id = none;
  carousel_post_id = none;
  social_account_id = social_account_id;
  scheduled_at = none;
  caption = none;
  status = status;
  attempt_count = 0;
  last_error = none;
  external_post_id = none;
}

module _ {ports : Ports} where
  unfoldable pub create_job : PublishJob → World ports → RowId × World ports
  create_job job w = let (id, jobs) = ports.jobs.create w.jobs job in (id, record w { jobs = jobs })

  unfoldable pub create_carousel : CarouselPost → World ports → RowId × World ports
  create_carousel carousel w =
      let (id, carousels) = ports.carousels.create w.carousels carousel in
      (id, record w { carousels = carousels })

  -- The row is recorded before the job is added to its queue.
  unfoldable pub publish_to :
      (variant_id social_account_id : RowId)
      → Option String
      → World ports
      → Platform
      → Option String
      → Result PublishError RowId × World ports
  unfolding new_job create_job add_to_queue
  publish_to variant_id social_account_id caption w platform none =
      (err (not_supported platform), w)
  publish_to variant_id social_account_id caption w platform (some queue) =
      let job = new_job social_account_id PublishJobStatus.queued in
      let (id, w') = create_job (record job { variant_id = some variant_id }) w in
      (ok id, add_to_queue queue id caption w')

  -- Each call validates, and goes on by what the validation returned.
  unfoldable pub publish_valid :
      (variant_id social_account_id : RowId)
      → Option String
      → World ports
      → Result PublishError (ContentVariant × SocialAccount)
      → Result PublishError RowId × World ports
  unfolding publish_to
  publish_valid variant_id social_account_id caption w (err e) = (err e, w)
  publish_valid variant_id social_account_id caption w (ok (variant, account)) =
      publish_to variant_id social_account_id caption w account.platform
        (queue_for account.platform)

  unfoldable pub publish_now :
      (org_id variant_id social_account_id : RowId)
      → Option String
      → World ports
      → Result PublishError RowId × World ports
  publish_now org_id variant_id social_account_id caption w =
      publish_valid variant_id social_account_id caption w
        (load_and_validate w org_id variant_id social_account_id)

  unfoldable pub publish_carousel_valid :
      (org_id created_by_id social_account_id : RowId)
      → List String
      → Option String
      → World ports
      → Result PublishError (SocialAccount × String)
      → Result PublishError RowId × World ports
  unfolding new_job create_job create_carousel add_to_queue
  publish_carousel_valid org_id created_by_id social_account_id media_urls caption w (err e) =
      (err e, w)
  publish_carousel_valid org_id created_by_id social_account_id media_urls caption w
        (ok (account, queue)) =
      let post : CarouselPost = record {
        org_id = org_id;
        created_by_id = created_by_id;
        media_urls = media_urls;
        caption = caption;
      } in
      let (post_id, w') = create_carousel post w in
      let job = new_job social_account_id PublishJobStatus.queued in
      let (id, w'') = create_job (record job { carousel_post_id = some post_id }) w' in
      (ok id, add_to_queue queue id caption w'')

  unfoldable pub publish_carousel_now :
      (org_id created_by_id social_account_id : RowId)
      → List String
      → Option String
      → World ports
      → Result PublishError RowId × World ports
  publish_carousel_now org_id created_by_id social_account_id media_urls caption w =
      publish_carousel_valid org_id created_by_id social_account_id media_urls caption w
        (load_and_validate_carousel w org_id social_account_id media_urls)

  unfoldable pub schedule_valid :
      (variant_id social_account_id : RowId) (scheduled_at : Millis)
      → Option String
      → World ports
      → Result PublishError (ContentVariant × SocialAccount)
      → Result PublishError RowId × World ports
  unfolding new_job create_job
  schedule_valid variant_id social_account_id scheduled_at caption w (err e) = (err e, w)
  schedule_valid variant_id social_account_id scheduled_at caption w (ok _) =
      let job = new_job social_account_id PublishJobStatus.scheduled in
      let (id, w') =
        create_job
          (record job {
            variant_id = some variant_id;
            scheduled_at = some scheduled_at;
            caption = caption;
          })
          w in
      (ok id, w')

  -- `now` is Date.now().
  unfoldable pub schedule :
      (org_id variant_id social_account_id : RowId) (scheduled_at now : Millis)
      → Option String
      → World ports
      → Result PublishError RowId × World ports
  schedule org_id variant_id social_account_id scheduled_at now caption w =
      if leb scheduled_at now
      then (err not_in_future, w)
      else schedule_valid variant_id social_account_id scheduled_at caption w
          (load_and_validate w org_id variant_id social_account_id)

  unfoldable pub schedule_carousel_valid :
      (org_id created_by_id social_account_id : RowId)
      → List String
      → (scheduled_at : Millis) → Option String
      → World ports
      → Result PublishError (SocialAccount × String)
      → Result PublishError RowId × World ports
  unfolding new_job create_job create_carousel
  schedule_carousel_valid org_id created_by_id social_account_id media_urls scheduled_at caption w
        (err e) =
      (err e, w)
  schedule_carousel_valid org_id created_by_id social_account_id media_urls scheduled_at caption w
        (ok _) =
      let post : CarouselPost = record {
        org_id = org_id;
        created_by_id = created_by_id;
        media_urls = media_urls;
        caption = caption;
      } in
      let (post_id, w') = create_carousel post w in
      let job = new_job social_account_id PublishJobStatus.scheduled in
      let (id, w'') =
        create_job
          (record job {
            carousel_post_id = some post_id;
            scheduled_at = some scheduled_at;
            caption = caption;
          })
          w' in
      (ok id, w'')

  unfoldable pub schedule_carousel :
      (org_id created_by_id social_account_id : RowId)
      → List String
      → (scheduled_at now : Millis) → Option String
      → World ports
      → Result PublishError RowId × World ports
  schedule_carousel org_id created_by_id social_account_id media_urls scheduled_at now caption w =
      if leb scheduled_at now
      then (err not_in_future, w)
      else schedule_carousel_valid org_id created_by_id social_account_id media_urls scheduled_at
          caption w (load_and_validate_carousel w org_id social_account_id media_urls)
