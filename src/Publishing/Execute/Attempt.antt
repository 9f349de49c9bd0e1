-- ===== src/Publishing/Execute/Attempt.antt =====
-- One attempt of a worker, from the row's `processing` to the platform's answer: the second half of
-- executePublish and of executeCarouselPublish.
use socialhub.Prelude.{
  ℕ, ◌+◌, String, Bool, Option, none, some, List, [], ◌∷◌, Result, ok, err, leb, true, false,
}
use socialhub.Schema.{RowId, Millis, Platform, PublishJobStatus}
use socialhub.SocialToken.{
  SocialAccount, TokenError, reconnect_required, other, ensure_fresh_access_token,
}
use socialhub.Publishing.{
  Ports, World, JobError, PublishRequest, single, carousel, NoticeType, publish_succeeded,
  publish_failed, reconnect, platform_said, update_job, PublishAnswer, accepted, refused, doubtful,
}

pub record Context : Type 0 where
  pub attempts_made : ℕ
  pub max_attempts : ℕ

-- Whether the handler returned, or threw (so that the queue tries again).
pub data Outcome : Type 0 where
  returned thrown : Outcome

-- Who hears of the result: a user, or the author of an asset, who is looked up then.
pub data Recipient : Type 0 where
  user owner_of : RowId → Recipient

-- What surrounds one execution: the clock, and how the adapters' calls end.
pub record Run : Type 0 where
  pub now : Millis
  pub answer : Platform → PublishRequest → PublishAnswer

abbrev pub is_final : Context → Bool
is_final ctx = leb ctx.max_attempts (ctx.attempts_made + 1)

-- One image is published as a single post, also when it was given as a carousel.
unfoldable pub carousel_request :
    List String → (caption external_account_id access_token : String) → PublishRequest
carousel_request (url ∷ []) caption account token = single url caption account token
carousel_request urls caption account token = carousel urls caption account token

module _ {ports : Ports} where
  -- The user that `notifyUser` is called with, if `notifyOwner` finds one.
  abbrev pub recipient_id : World ports → Recipient → Option RowId
  recipient_id w (user user_id) = some user_id
  recipient_id w (owner_of asset_id) = w.authors asset_id

  unfoldable pub notify : Recipient → NoticeType → String → World ports → World ports
  notify recipient type title w = record w {
    notices = elim (recipient_id w recipient) [
      | none ↦ w.notices
      | some user_id ↦ record { user_id = user_id; type = type; title = title } ∷ w.notices
    ];
  }

  unfoldable pub fail_job : RowId → JobError → World ports → World ports
  unfolding update_job
  fail_job id e =
      update_job id (λ r. record r { status = PublishJobStatus.failed; last_error = some e })

  unfoldable pub begin_attempt : RowId → Context → World ports → World ports
  unfolding update_job
  begin_attempt id ctx = update_job id (λ r. record r {
    status = PublishJobStatus.processing;
    attempt_count = ctx.attempts_made + 1;
  })

  -- The `catch`: a final attempt fails the job and tells the author, an earlier one leaves the job
  -- `processing`. The error is thrown on.
  unfoldable pub attempt_failed :
      Bool → RowId → Recipient → String → World ports → Outcome × World ports
  unfolding update_job notify
  attempt_failed true id recipient message w = (
    thrown,
    notify recipient publish_failed "Post failed" (
        update_job id
          (λ r. record r {
            status = PublishJobStatus.failed;
            last_error = some (platform_said message);
          })
          w),
  )
  attempt_failed false id recipient message w = (
    thrown,
    update_job id
        (λ r. record r {
          status = PublishJobStatus.processing;
          last_error = some (platform_said message);
        })
        w,
  )

  -- The `try` around the platform call. `recipient` is the author. The `catch` cannot tell whether
  -- a call that threw has made a post.
  unfoldable pub settle_publish :
      RowId
      → Context
      → PublishRequest
      → Recipient
      → PublishAnswer
      → World ports
      → Outcome × World ports
  unfolding update_job notify
  settle_publish id ctx request recipient (accepted external_post_id) w =
      let posted : World ports = record w {
        sent = record { confirmed = true; job_id = id; request = request } ∷ w.sent;
      } in
      (
        returned,
        notify recipient publish_succeeded "Post published" (
            update_job id
              (λ r. record r {
                status = PublishJobStatus.published;
                external_post_id = some external_post_id;
                last_error = none;
              })
              posted),
      )
  settle_publish id ctx request recipient (refused message) w =
      attempt_failed (is_final ctx) id recipient message w
  settle_publish id ctx request recipient (doubtful message) w =
      attempt_failed (is_final ctx) id recipient message
        (record w { sent = record { confirmed = false; job_id = id; request = request } ∷ w.sent })

  -- With the token service's answer: an account that must be reconnected ends the job, and any
  -- other error goes to the queue.
  unfoldable pub after_token :
      Run
      → RowId
      → Context
      → SocialAccount
      → Recipient
      → (String → PublishRequest)
      → World ports
      → Result TokenError String × ports.tokens.accounts.State
      → Outcome × World ports
  unfolding fail_job notify
  after_token run id ctx account recipient request w (ok token, accounts) =
      settle_publish id ctx (request token) recipient (run.answer account.platform (request token))
        (record w { accounts = accounts })
  after_token run id ctx account recipient request w (err (reconnect_required _ status), accounts) =
      (
        returned,
        notify recipient publish_failed "Reconnect required"
            (fail_job id (reconnect account.platform status) (record w { accounts = accounts })),
      )
  after_token run id ctx account recipient request w (err other, accounts) =
      (thrown, record w { accounts = accounts })

  -- From the access token on.
  unfoldable pub attempt_publish :
      Run
      → RowId
      → Context
      → RowId
      → SocialAccount
      → Recipient
      → (String → PublishRequest)
      → World ports
      → Outcome × World ports
  attempt_publish run id ctx account_id account recipient request w =
      after_token run id ctx account recipient request w
        (ensure_fresh_access_token ports.tokens w.accounts run.now account_id account)
