-- ===== src/Publishing/Cancel.antt =====
-- requeueJob, cancelJob, findJobScoped and cancelScheduled of publishing.service.ts.
use socialhub.Prelude.{
  String, Bool, none, some, Result, ok, err, ◌>>=◌, ◌>>◌, require, require_some, ◌==◌,
  if◌then◌else◌, not, Option,
}
use socialhub.Schema.{RowId, PublishJobStatus, job_status_eq}
use socialhub.Publishing.{
  Ports, World, PublishJob, PublishError, job_not_found, already_published,
  published_not_cancellable, not_scheduled, just_started, no_queue, queue_for, add_to_queue,
  update_job,
}
use socialhub.Publishing.Dispatch.{is_scheduled}

abbrev pub is_published : PublishJob → Bool
is_published job = job_status_eq job.status PublishJobStatus.published

module _ {ports : Ports} where
  -- The joined account is there, since the schema restricts its deletion.
  unfoldable pub requeue_target : World ports → RowId → Result PublishError (PublishJob × String)
  requeue_target w job_id = do
    job ← require_some (ports.jobs.find w.jobs job_id) job_not_found
    account ←
        require_some (ports.tokens.accounts.find w.accounts job.social_account_id) job_not_found
    require (not (is_published job)) already_published
    queue ← require_some (queue_for account.platform) (no_queue account.platform)
    ok (job, queue)

  unfoldable pub requeue_found :
      RowId
      → World ports
      → Result PublishError (PublishJob × String)
      → Result PublishError (Unit {0}) × World ports
  unfolding update_job add_to_queue
  requeue_found job_id w (err e) = (err e, w)
  requeue_found job_id w (ok (job, queue)) = (
    ok tt,
    add_to_queue queue job_id job.caption (
        update_job job_id (λ r. record r { status = PublishJobStatus.queued; last_error = none })
          w),
  )

  unfoldable pub requeue_job : RowId → World ports → Result PublishError (Unit {0}) × World ports
  requeue_job job_id w = requeue_found job_id w (requeue_target w job_id)

  unfoldable pub cancel_found :
      RowId → World ports → Option PublishJob → Result PublishError (Unit {0}) × World ports
  unfolding update_job
  cancel_found job_id w none = (err job_not_found, w)
  cancel_found job_id w (some job) =
      if is_published job
      then (err published_not_cancellable, w)
      else (ok tt, update_job job_id (λ r. record r { status = PublishJobStatus.cancelled }) w)

  unfoldable pub cancel_job : RowId → World ports → Result PublishError (Unit {0}) × World ports
  cancel_job job_id w = cancel_found job_id w (ports.jobs.find w.jobs job_id)

  unfoldable pub find_job_scoped :
      World ports → (job_id org_id : RowId) → Result PublishError PublishJob
  find_job_scoped w job_id org_id = do
    job ← require_some (ports.jobs.find w.jobs job_id) job_not_found
    account ←
        require_some (ports.tokens.accounts.find w.accounts job.social_account_id) job_not_found
    require (account.org_id == org_id) job_not_found
    ok job

  -- The guarded update and what follows it, in the world at that moment.
  unfoldable pub cancel_claimed :
      (job_id org_id : RowId) → World ports → Result PublishError PublishJob × World ports
  unfolding find_job_scoped
  cancel_claimed job_id org_id w =
      let (count, jobs) =
        ports.jobs.update_many w.jobs job_id is_scheduled
          (λ r. record r { status = PublishJobStatus.cancelled }) in
      let w' : World ports = record w { jobs = jobs } in
      (if count == 1 then find_job_scoped w' job_id org_id else err just_started, w')

  -- The job as it was read, before the guarded update.
  unfoldable pub cancel_read :
      (job_id org_id : RowId)
      → World ports
      → Result PublishError PublishJob
      → Result PublishError PublishJob × World ports
  cancel_read job_id org_id w (err e) = (err e, w)
  cancel_read job_id org_id w (ok job) =
      if is_scheduled job
      then cancel_claimed job_id org_id w
      else (err (not_scheduled job.status), w)

  unfoldable pub cancel_scheduled :
      (job_id org_id : RowId) → World ports → Result PublishError PublishJob × World ports
  cancel_scheduled job_id org_id w = cancel_read job_id org_id w (find_job_scoped w job_id org_id)
