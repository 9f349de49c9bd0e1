-- ===== src/Publishing.antt =====
-- The publishing service, backend/src/publishing: its rows, its queues and its world. The children
-- model the operations, one file for each group, and prove what they guarantee.
pub mod Validate
pub mod Enqueue
pub mod Dispatch
pub mod Cancel
pub mod Execute
pub mod Worker
pub mod Effects
pub mod Lifecycle
pub mod AtMostOnce
pub mod Gate
pub mod Claims
pub mod Attempts
pub mod Retries
pub mod Requeue
use socialhub.Prelude.{ℕ, String, ◌≡◌, Bool, Option, none, some, List, [], ◌∷◌, ◌++◌, Result}
use socialhub.Schema.{
  RowId, Millis, Platform, PublishJobStatus, SocialAccountStatus, VariantStatus, ApprovalStatus,
}
use socialhub.Database.{Table, update}
use socialhub.SocialToken.{SocialAccount, TokenPorts}

-- What `lastError` says.
pub data JobError : Type 0 where
  targets_neither target_gone carousel_gone : JobError
  reconnect : Platform → SocialAccountStatus → JobError
  platform_said : String → JobError
  no_queue_for : Platform → JobError
  removed_on : Platform → JobError

pub record PublishJob : Type 0 where
  pub variant_id : Option RowId
  pub carousel_post_id : Option RowId
  pub social_account_id : RowId
  pub scheduled_at : Option Millis
  pub caption : Option String
  pub status : PublishJobStatus
  pub attempt_count : ℕ
  pub last_error : Option JobError
  pub external_post_id : Option String

-- The asset of a variant as `loadAndValidate` selects it, its organization's policy included.
pub record AssetGate : Type 0 where
  pub org_id : RowId
  pub approval_status : ApprovalStatus
  pub requires_approval : Bool

pub record ContentVariant : Type 0 where
  pub asset_id : RowId
  pub asset : AssetGate
  pub platform : Platform
  pub status : VariantStatus
  pub rendered_media_url : Option String
  pub caption : Option String

pub record CarouselPost : Type 0 where
  pub org_id : RowId
  pub created_by_id : RowId
  pub media_urls : List String
  pub caption : Option String

-- PublishJobData
pub record JobData : Type 0 where
  pub publish_job_id : RowId
  pub caption : Option String

-- A job in a queue: `attempts` is the option it was added with, `attempts_made` the queue's count
-- of the attempts that have failed.
pub record QueueEntry : Type 0 where
  pub queue : String
  pub job : JobData
  pub attempts : ℕ
  pub attempts_made : ℕ

-- What an adapter is asked to post.
pub data PublishRequest : Type 0 where
  single : (image_url caption external_account_id access_token : String) → PublishRequest
  carousel :
      (media_urls : List String) (caption external_account_id access_token : String)
      → PublishRequest

-- A post that a platform has accepted; `confirmed` where the adapter's call also returned its id.
pub record Sent : Type 0 where
  pub confirmed : Bool
  pub job_id : RowId
  pub request : PublishRequest

pub data NoticeType : Type 0 where
  publish_succeeded publish_failed : NoticeType

-- How a call of an adapter ends: the platform accepts the post and the call returns its id; the
-- call throws and there is no post; or it throws although the post is made, as in a timeout.
pub data PublishAnswer : Type 0 where
  accepted refused doubtful : String → PublishAnswer

-- A call of `notifySafe`.
pub record Notice : Type 0 where
  pub user_id : RowId
  pub type : NoticeType
  pub title : String

-- The tables that the service writes.
pub record Ports : Type 1 where
  pub tokens : TokenPorts
  pub jobs : Table PublishJob
  pub carousels : Table CarouselPost

pub record World (ports : Ports) : Type 0 where
  pub jobs : ports.jobs.State
  pub carousels : ports.carousels.State
  pub accounts : ports.tokens.accounts.State
  -- Tables that the service only reads: a variant with its asset, and an asset's `createdById`.
  pub variants : RowId → Option ContentVariant
  pub authors : RowId → Option RowId
  pub queue : List QueueEntry
  pub sent : List Sent
  pub notices : List Notice

-- PUBLISH_QUEUES, as the constructor's `queues` holds them.
unfoldable pub queue_for : Platform → Option String
queue_for Platform.instagram = some "publish-instagram"
queue_for Platform.x = some "publish-x"
queue_for Platform.facebook = some "publish-facebook"
queue_for Platform.threads = some "publish-threads"
queue_for Platform.linkedin = some "publish-linkedin"

-- PUBLISH_JOB_OPTIONS.attempts
abbrev pub max_attempts : ℕ
max_attempts = 3

-- What a service call throws: an HTTP exception, one constructor for each message.
pub data PublishError : Type 0 where
  variant_not_found account_not_found job_not_found : PublishError
  not_approved variant_not_ready no_rendered_image : PublishError
  account_unusable : Platform → SocialAccountStatus → PublishError
  platform_mismatch : Platform → Platform → PublishError
  not_supported carousel_not_supported : Platform → PublishError
  carousel_empty : PublishError
  carousel_too_long : Platform → ℕ → PublishError
  not_in_future already_published published_not_cancellable just_started : PublishError
  not_scheduled : PublishJobStatus → PublishError
  no_queue : Platform → PublishError

module _ {ports : Ports} where
  -- queue.add('publish', { publishJobId, caption }, PUBLISH_JOB_OPTIONS)
  unfoldable pub add_to_queue : String → RowId → Option String → World ports → World ports
  add_to_queue queue id caption w = record w {
    queue =
        w.queue
        ++ record {
          queue = queue;
          job = record { publish_job_id = id; caption = caption };
          attempts = max_attempts;
          attempts_made = 0;
        }
          ∷ [];
  }

  -- publishJob.update({ where: { id }, data })
  unfoldable pub update_job : RowId → (PublishJob → PublishJob) → World ports → World ports
  update_job id change w = record w { jobs = update ports.jobs w.jobs id change }
