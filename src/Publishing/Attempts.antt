-- ===== src/Publishing/Attempts.antt =====
-- How an attempt ends: the status and the error that it leaves on the job's row.
use socialhub.Prelude.{
  String, ◌≡◌, refl, Bool, true, false, Option, none, some, if◌then◌else◌, inl, inr, Result, ok,
  err, ◌⊎◌,
}
use socialhub.Schema.{RowId, Millis, PublishJobStatus}
use socialhub.Database.{find-update_self}
use socialhub.SocialToken.{
  SocialAccount, TokenError, reconnect_required, other, ensure_fresh_access_token,
}
use socialhub.Publishing.Effects.{carousel_target-stored, variant_target-stored}
use socialhub.Publishing.{
  Ports, World, PublishJob, PublishRequest, JobError, JobData, CarouselPost, ContentVariant,
  carousel_gone, target_gone, targets_neither, PublishAnswer, accepted, refused, doubtful,
}
use socialhub.Publishing.Execute.{
  Run, Context, Outcome, returned, thrown, Recipient, is_final, fail_job, begin_attempt,
  attempt_failed, settle_publish, after_token, attempt_publish, publish_carousel,
  execute_carousel_publish, publish_variant, run_job, execute_found, execute_publish,
  carousel_target, variant_target,
}

-- What the row says after an attempt that returned, or threw.
abbrev pub Verdict : Context → Outcome → PublishJob → Type 0
Verdict ctx returned row =
    ((row.status ≡ PublishJobStatus.published)
      × (row.last_error ≡ none)
      × ((post : String) × (row.external_post_id ≡ some post)))
    ⊎ ((row.status ≡ PublishJobStatus.failed) × ((e : JobError) × (row.last_error ≡ some e)))
Verdict ctx thrown row =
    (row.status ≡ (if is_final ctx then PublishJobStatus.failed else PublishJobStatus.processing))
    × ((e : JobError) × (row.last_error ≡ some e))

-- With `crash` for what makes an attempt throw past its `catch`.
abbrev pub Ends :
    {ports : Ports}
    → (crash : World ports → Type 0) → RowId
    → Context
    → Outcome × World ports
    → Type 0
Ends {ports} crash id ctx (outcome, w) =
    (row : PublishJob) × (ports.jobs.find w.jobs id ≡ some row)
    × (Verdict ctx outcome row
        ⊎ ((outcome ≡ thrown) × (row.status ≡ PublishJobStatus.processing) × crash w))

-- The token service throws something else than TokenReconnectRequiredError for the account of the
-- job, as it is stored in `w`.
abbrev pub Crashes : {ports : Ports} → Millis → PublishJob → World ports → Type 0
Crashes {ports} now job w =
    (account : SocialAccount) × (ports.tokens.accounts.find w.accounts job.social_account_id
      ≡ some account)
    × ((ensure_fresh_access_token ports.tokens w.accounts now job.social_account_id account).0
        ≡ err other)

-- From `w` to `v` the token service throws, nothing is posted, and nobody is told.
abbrev pub CrashesSilently : {ports : Ports} → Millis → PublishJob → (w v : World ports) → Type 0
CrashesSilently now job w v = Crashes now job w × (v.sent ≡ w.sent) × (v.notices ≡ w.notices)

module _ {ports : Ports} (crash : World ports → Type 0) (id : RowId) (ctx : Context)
    (row : PublishJob) where
  fail_job-Ends :
      (e : JobError) (w : World ports)
      → ports.jobs.find w.jobs id ≡ some row
      → Ends crash id ctx (returned, fail_job id e w)
  unfolding fail_job
  fail_job-Ends e w h =
      (_, find-update_self ports.jobs w.jobs id _ row h, inl (inr (refl, (e, refl))))

  attempt_failed-Ends :
      (final : Bool) (recipient : Recipient) (message : String) (w : World ports)
      → is_final ctx ≡ final
      → ports.jobs.find w.jobs id ≡ some row
      → Ends crash id ctx (attempt_failed final id recipient message w)
  unfolding attempt_failed
  attempt_failed-Ends true recipient message w e h =
      (_, find-update_self ports.jobs w.jobs id _ row h, inl (rw e, (_, refl)))
  attempt_failed-Ends false recipient message w e h =
      (_, find-update_self ports.jobs w.jobs id _ row h, inl (rw e, (_, refl)))

module _ {ports : Ports} (crash : World ports → Type 0) (run : Run) (id : RowId)
    (ctx : Context) where
  settle_publish-Ends :
      (row : PublishJob) (recipient : Recipient) (request : PublishRequest) (answer : PublishAnswer)
      (w : World ports)
      → ports.jobs.find w.jobs id ≡ some row
      → Ends crash id ctx (settle_publish id ctx request recipient answer w)
  unfolding settle_publish
  settle_publish-Ends row recipient request (accepted post) w h =
      (_, find-update_self ports.jobs w.jobs id _ row h, inl (inl (refl, refl, (post, refl))))
  settle_publish-Ends row recipient request (refused message) w h =
      attempt_failed-Ends crash id ctx row (is_final ctx) recipient message w refl h
  settle_publish-Ends row recipient request (doubtful message) w h =
      attempt_failed-Ends crash id ctx row (is_final ctx) recipient message _ refl h

  after_token-Ends :
      (row : PublishJob) (recipient : Recipient) (account : SocialAccount)
      (request : String → PublishRequest) (w : World ports)
      (answer : Result TokenError String × ports.tokens.accounts.State)
      → row.status ≡ PublishJobStatus.processing
      → (answer.0 ≡ err other → crash (record w { accounts = answer.1 }))
      → ports.jobs.find w.jobs id ≡ some row
      → Ends crash id ctx (after_token run id ctx account recipient request w answer)
  unfolding after_token
  after_token-Ends row recipient account request w (ok token, s) begun crashed h =
      settle_publish-Ends row recipient (request token) _ (record w { accounts = s }) h
  after_token-Ends row recipient account request w (err (reconnect_required p status), s) begun
        crashed h =
      (_, find-update_self ports.jobs w.jobs id _ row h, inl (inr (refl, (_, refl))))
  after_token-Ends row recipient account request w (err other, s) begun crashed h =
      (row, h, inr (refl, begun, crashed refl))

module _ {ports : Ports} (run : Run) (id : RowId) (ctx : Context) (job : PublishJob)
    (given : JobData) (w : World ports) (found : ports.jobs.find w.jobs id ≡ some job) where
  abbrev Over : Outcome × World ports → Type 0
  Over = Ends (CrashesSilently run.now job w) id ctx

  begun-Ends :
      (account : SocialAccount) (recipient : Recipient) (request : String → PublishRequest)
      → ports.tokens.accounts.find w.accounts job.social_account_id ≡ some account
      → Over (
          attempt_publish run id ctx job.social_account_id account recipient request
            (begin_attempt id ctx w))
  unfolding attempt_publish begin_attempt
  begun-Ends account recipient request stored =
      after_token-Ends (CrashesSilently run.now job w) run id ctx _ recipient account request
        (begin_attempt id ctx w) _ refl (λ crashed. ((account, stored, crashed), refl, refl))
        (find-update_self ports.jobs w.jobs id _ job found)

  publish_carousel-Ends :
      (target : Option (CarouselPost × SocialAccount))
      → carousel_target w job ≡ target
      → Over (publish_carousel run id job given ctx w target)
  unfolding publish_carousel
  publish_carousel-Ends none h =
      fail_job-Ends (CrashesSilently run.now job w) id ctx job carousel_gone w found
  publish_carousel-Ends (some (post, account)) h =
      begun-Ends account _ _ (carousel_target-stored w job post account h)

  publish_variant-Ends :
      (variant_id : RowId) (target : Option (ContentVariant × String × SocialAccount))
      → variant_target w variant_id job ≡ target
      → Over (publish_variant run id job given ctx w target)
  unfolding publish_variant
  publish_variant-Ends variant_id none h =
      fail_job-Ends (CrashesSilently run.now job w) id ctx job target_gone w found
  publish_variant-Ends variant_id (some (variant, url, account)) h =
      begun-Ends account _ _ (variant_target-stored w variant_id job variant url account h)

  run_job-Ends : (c v : Option RowId) → Over (run_job run id job given ctx w c v)
  unfolding run_job execute_carousel_publish
  run_job-Ends (some c) v = publish_carousel-Ends _ refl
  run_job-Ends none none =
      fail_job-Ends (CrashesSilently run.now job w) id ctx job targets_neither w found
  run_job-Ends none (some v) = publish_variant-Ends v _ refl

-- An execution of a job whose row exists, on every branch: if it returns, the row is `published`
-- with the new post's id and no error, or `failed` with an error; if it throws, the row has an
-- error, and is `failed` when this was the last attempt and `processing` when the queue will try
-- again. There is one exception, on the last attempt too: where the token service throws anything
-- else than that the stored account of the job must be reconnected, the execution throws and the
-- row is left `processing`, with nothing posted and nobody told.
pub execute_publish-Ends :
    {ports : Ports} (run : Run) (given : JobData) (ctx : Context) (job : PublishJob)
    (w : World ports)
    → ports.jobs.find w.jobs given.publish_job_id ≡ some job
    → Ends
        (CrashesSilently run.now job w)
        given.publish_job_id
        ctx
        (execute_publish run given ctx w)
unfolding execute_publish
execute_publish-Ends run given ctx job w found =
    rw found
      (unfold execute_found in run_job-Ends run given.publish_job_id ctx job given w found _ _)
