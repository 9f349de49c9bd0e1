-- ===== src/Publishing/Execute.antt =====
-- executePublish and executeCarouselPublish of publishing.service.ts, which the workers of
-- processors/ run for each job that leaves a queue.
mod Attempt
unfoldable pub use Attempt.*
use socialhub.Prelude.{String, Option, none, some, [], ◌∷◌, or_else, or_option, if◌then◌else◌}
use socialhub.Schema.{RowId}
use socialhub.SocialToken.{SocialAccount, truthy, has_adapter}
use socialhub.Publishing.{
  Ports, World, PublishJob, ContentVariant, CarouselPost, JobData, single, carousel,
  targets_neither, target_gone, carousel_gone,
}

module _ {ports : Ports} where
  -- The carousel with at least one image, and the account with its adapter.
  unfoldable pub carousel_target : World ports → PublishJob → Option (CarouselPost × SocialAccount)
  unfolding has_adapter
  carousel_target w job =
      let account = ports.tokens.accounts.find w.accounts job.social_account_id in
      elim job.carousel_post_id [
        | none ↦ none
        | some post_id ↦ elim (ports.carousels.find w.carousels post_id) [
          | none ↦ none
          | some post ↦ elim account [
            | none ↦ none
            | some a ↦ elim post.media_urls [
              | [] ↦ none
              | _ ∷ _ ↦ if has_adapter a.platform then some (post, a) else none
            ]
          ]
        ]
      ]

  -- What the handler does with its target.
  unfoldable pub publish_carousel :
      Run
      → RowId
      → PublishJob
      → JobData
      → Context
      → World ports
      → Option (CarouselPost × SocialAccount)
      → Outcome × World ports
  publish_carousel run id job given ctx w none = (returned, fail_job id carousel_gone w)
  publish_carousel run id job given ctx w (some (post, account)) =
      let caption = or_else (or_option given.caption post.caption) "" in
      attempt_publish run id ctx job.social_account_id account (user post.created_by_id)
        (carousel_request post.media_urls caption account.external_account_id)
        (begin_attempt id ctx w)

  unfoldable pub execute_carousel_publish :
      Run → RowId → PublishJob → JobData → Context → World ports → Outcome × World ports
  execute_carousel_publish run id job given ctx w =
      publish_carousel run id job given ctx w (carousel_target w job)

  -- The variant with a rendered image, and the account with its adapter.
  unfoldable pub variant_target :
      World ports → RowId → PublishJob → Option (ContentVariant × String × SocialAccount)
  unfolding has_adapter
  variant_target w variant_id job =
      let account = ports.tokens.accounts.find w.accounts job.social_account_id in
      elim (w.variants variant_id) [
        | none ↦ none
        | some variant ↦ elim variant.rendered_media_url [
          | none ↦ none
          | some url ↦ elim account [
            | none ↦ none
            | some a ↦
                if truthy (some url)
                then if has_adapter a.platform then some (variant, url, a) else none
                else none
          ]
        ]
      ]

  unfoldable pub publish_variant :
      Run
      → RowId
      → PublishJob
      → JobData
      → Context
      → World ports
      → Option (ContentVariant × String × SocialAccount)
      → Outcome × World ports
  publish_variant run id job given ctx w none = (returned, fail_job id target_gone w)
  publish_variant run id job given ctx w (some (variant, url, account)) =
      let caption = or_else (or_option given.caption variant.caption) "" in
      attempt_publish run id ctx job.social_account_id account (owner_of variant.asset_id)
        (single url caption account.external_account_id) (begin_attempt id ctx w)

  -- A carousel job takes its own path; a job with no target fails.
  unfoldable pub run_job :
      Run
      → RowId
      → PublishJob
      → JobData
      → Context
      → World ports
      → (carousel_post_id variant_id : Option RowId) → Outcome × World ports
  run_job run id job given ctx w (some _) v = execute_carousel_publish run id job given ctx w
  run_job run id job given ctx w none none = (returned, fail_job id targets_neither w)
  run_job run id job given ctx w none (some variant_id) =
      publish_variant run id job given ctx w (variant_target w variant_id job)

  -- With the row that was found; a job that is gone is done.
  unfoldable pub execute_found :
      Run → JobData → Context → World ports → Option PublishJob → Outcome × World ports
  execute_found run given ctx w none = (returned, w)
  execute_found run given ctx w (some job) =
      run_job run given.publish_job_id job given ctx w job.carousel_post_id job.variant_id

  unfoldable pub execute_publish : Run → JobData → Context → World ports → Outcome × World ports
  execute_publish run given ctx w =
      execute_found run given ctx w (ports.jobs.find w.jobs given.publish_job_id)
