-- ===== src/Publishing/Dispatch.antt =====
-- dispatchDueScheduledJobs of publishing.service.ts, which schedule.cron.ts calls every 30 seconds.
use socialhub.SocialToken.{SocialAccount}
use socialhub.Prelude.{
  ℕ, ◌+◌, String, Bool, true, false, Option, none, some, List, [], ◌∷◌, leb, ◌==◌, if◌then◌else◌,
  ◌&&◌,
}
use socialhub.Schema.{RowId, Millis, Platform, PublishJobStatus, job_status_eq}
use socialhub.Publishing.{
  Ports, World, PublishJob, no_queue_for, queue_for, add_to_queue, update_job, SocialAccount,
}

-- A row of the query, with the platform of its account that the query joins.
pub record DueJob : Type 0 where
  pub id : RowId
  pub caption : Option String
  pub platform : Platform

abbrev pub is_scheduled : PublishJob → Bool
is_scheduled job = job_status_eq job.status PublishJobStatus.scheduled

-- `scheduledAt <= now`, which a missing time does not meet.
abbrev pub is_past : Option Millis → Millis → Bool
is_past none now = false
is_past (some at) now = leb at now

abbrev pub is_due : Millis → PublishJob → Bool
is_due now job = is_scheduled job && is_past job.scheduled_at now

-- The join of one row: its account is there, since the schema restricts its deletion.
unfoldable pub join_platform : RowId → PublishJob → Option SocialAccount → List DueJob → List DueJob
join_platform id job none others = others
join_platform id job (some account) others =
    record { id = id; caption = job.caption; platform = account.platform } ∷ others

module _ {ports : Ports} where
  unfoldable pub join_platforms : World ports → List (RowId × PublishJob) → List DueJob
  unfolding join_platform
  join_platforms w [] = []
  join_platforms w ((id, job) ∷ rest) =
      join_platform id job (ports.tokens.accounts.find w.accounts job.social_account_id)
        (join_platforms w rest)

  unfoldable pub due_jobs : Millis → World ports → List DueJob
  unfolding join_platforms
  due_jobs now w = join_platforms w (ports.jobs.find_many w.jobs (is_due now))

  -- A job that is claimed goes to its queue, or fails where its platform has none.
  unfoldable pub dispatch_claimed : DueJob → World ports → Option String → Bool × World ports
  unfolding add_to_queue update_job
  dispatch_claimed due w none = (
    false,
    update_job due.id
        (λ job. record job {
          status = PublishJobStatus.failed;
          last_error = some (no_queue_for due.platform);
        })
        w,
  )
  dispatch_claimed due w (some queue) = (true, add_to_queue queue due.id due.caption w)

  -- With the count of the claim: anything but one row is skipped.
  unfoldable pub dispatch_counted : DueJob → World ports → Bool → Bool × World ports
  dispatch_counted due w false = (false, w)
  dispatch_counted due w true = dispatch_claimed due w (queue_for due.platform)

  -- One round of the loop: `true` if the job was dispatched. Its row may have changed since it was
  -- read.
  unfoldable pub dispatch_one : DueJob → World ports → Bool × World ports
  dispatch_one due w =
      let (count, jobs) =
        ports.jobs.update_many w.jobs due.id is_scheduled
          (λ job. record job { status = PublishJobStatus.queued }) in
      dispatch_counted due (record w { jobs = jobs }) (count == 1)

  unfoldable pub dispatch_each : List DueJob → ℕ → World ports → ℕ × World ports
  dispatch_each [] dispatched w = (dispatched, w)
  dispatch_each (due ∷ rest) dispatched w =
      let (done, w') = dispatch_one due w in
      dispatch_each rest (if done then dispatched + 1 else dispatched) w'

  unfoldable pub dispatch_due_scheduled_jobs : Millis → World ports → ℕ × World ports
  unfolding due_jobs dispatch_each
  dispatch_due_scheduled_jobs now w = dispatch_each (due_jobs now w) 0 w
