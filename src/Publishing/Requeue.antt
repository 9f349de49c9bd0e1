-- ===== src/Publishing/Requeue.antt =====
-- The admin's requeue of publishing.service.ts, and what it does to a job that still waits.
use socialhub.Publishing.Gate.{queue_for_all}
use socialhub.Database.{find-update_self}
use socialhub.Publishing.Cancel.{requeue_job, requeue_found, requeue_target, is_published}
use socialhub.Prelude.{
  ℕ, ◌+◌, ◌≡◌, ◌≢◌, refl, some, ok, arith, ◌==◌, count_if-append, ==-refl, if◌then◌else◌, false,
  String,
}
use socialhub.Schema.{RowId, PublishJobStatus}
use socialhub.SocialToken.{SocialAccount}
use socialhub.Publishing.{Ports, World, PublishJob}
use socialhub.Publishing.AtMostOnce.{entries, is_entry_of}

requeue_target_ok :
    {ports : Ports} (id : RowId) (w : World ports) (job : PublishJob) (account : SocialAccount)
    → ports.jobs.find w.jobs id ≡ some job
    → ports.tokens.accounts.find w.accounts job.social_account_id ≡ some account
    → is_published job ≡ false
    → (queue : String) × (requeue_target w id ≡ ok (job, queue))
unfolding requeue_target
requeue_target_ok id w job account found there unpublished =
    let (queue, e) = queue_for_all account.platform in
    (queue, rw found (rw (there, unpublished) (rw e refl)))

unpublished :
    (job : PublishJob) → job.status ≢ PublishJobStatus.published → is_published job ≡ false
unpublished job ne = ground arith

-- A requeue is accepted for every job that is not `published` and has its account (it may be
-- waiting in a queue, or be cancelled): it makes the row `queued`, adds one more entry for the job, and posts nothing. So
-- a job that waits in a queue is in it twice.
pub requeue_adds_entry :
    {ports : Ports} (id : RowId) (w : World ports) (job : PublishJob) (account : SocialAccount)
    → ports.jobs.find w.jobs id ≡ some job
    → ports.tokens.accounts.find w.accounts job.social_account_id ≡ some account
    → job.status ≢ PublishJobStatus.published
    → ((requeue_job id w).0 ≡ ok tt)
      × (entries id (requeue_job id w).1 ≡ entries id w + 1)
      × ((requeue_job id w).1.sent ≡ w.sent)
      × ((row : PublishJob) × (ports.jobs.find (requeue_job id w).1.jobs id ≡ some row)
          × (row.status ≡ PublishJobStatus.queued))
unfolding requeue_job
requeue_adds_entry {ports} id w job account found there open_ =
    let (queue, target) = requeue_target_ok id w job account found there (unpublished job open_) in
    rw target (
      unfold requeue_found entries in
      (
        refl,
        omega (arith, count_if-append (is_entry_of id) w.queue _, one_entry),
        refl,
        (_, find-update_self ports.jobs w.jobs id _ job found, refl),
      ))
  where
    one_entry : ◌≡◌ {A = ℕ} (if id == id then 1 else 0) 1
    one_entry = rw ==-refl refl
