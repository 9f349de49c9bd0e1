-- ===== src/Publishing/AtMostOnce.antt =====
-- How often a job stands in the queues and has been posted, and the bound on both together; and
-- how often a call for it has made a post and thrown.
pub mod Steps
use socialhub.Prelude.{
  ℕ, ◌+◌, ◌≤◌, String, ◌≡◌, refl, Bool, true, false, Option, none, some, List, [], ◌∷◌, ◌++◌, ◌==◌,
  arith, count_if, count_if-append, subst, if◌then◌else◌, inl, inr, Result, ok, err, ap, Bool-cases,
  ==_iff, ==-refl,
}
use socialhub.Schema.{RowId, PublishJobStatus}
use socialhub.Database.{Table, update, touch, always}
use socialhub.Publishing.{Ports, World, PublishJob, QueueEntry, Sent}
use socialhub.Publishing.Dispatch.{DueJob, dispatch_one, is_scheduled}
use socialhub.Publishing.Effects.{Writes, here, write, Effect, PostsOnce, execute_publish-Effect}
use socialhub.Publishing.Lifecycle.{Step, Reach, finish}
use socialhub.Publishing.Execute.{Run, Outcome, returned, thrown, execute_publish}
use socialhub.Publishing.Worker.{after_attempt, process, context}

abbrev pub is_entry_of : RowId → QueueEntry → Bool
is_entry_of j e = e.job.publish_job_id == j

abbrev pub is_post_of : RowId → Sent → Bool
is_post_of j s = if s.confirmed then s.job_id == j else false

abbrev pub is_doubtful_of : RowId → Sent → Bool
is_doubtful_of j s = if s.confirmed then false else s.job_id == j

-- How often a call for a job has returned the id of its post.
unfoldable pub posts : {ports : Ports} → RowId → World ports → ℕ
posts j w = count_if (is_post_of j) w.sent

-- How often a call for it has made a post and thrown.
unfoldable pub doubtful_posts : {ports : Ports} → RowId → World ports → ℕ
doubtful_posts j w = count_if (is_doubtful_of j) w.sent

-- How often it waits in a queue.
unfoldable pub entries : {ports : Ports} → RowId → World ports → ℕ
entries j w = count_if (is_entry_of j) w.queue

-- A row that a dispatch may still claim, or an id that is not given yet.
abbrev pub may_start : Option PublishJob → Bool
may_start none = true
may_start (some job) = is_scheduled job

pub record AtMostOnce {ports : Ports} (j : RowId) (w : World ports) : Type 0 where
  pub once : entries j w + posts j w ≤ 1
  pub unstarted :
      may_start (ports.jobs.find w.jobs j) ≡ true → entries j w + posts j w + doubtful_posts j w ≡ 0

module _ (jobs : Table PublishJob) where
  pub may_start-update :
      (s : jobs.State) (id j : RowId) (p : PublishJob → Bool) (f : PublishJob → PublishJob)
      → ((r : PublishJob) → is_scheduled (f r) ≡ false)
      → may_start (jobs.find (jobs.update_many s id p f).1 j) ≡ true
      → may_start (jobs.find s j) ≡ true
  may_start-update s id j p f h m = may_start-touch (jobs.find s j) (rw jobs.find-update_many at m)
    where
      may_start-touch :
          (o : Option PublishJob)
          → may_start (if id == j then touch p f o else o) ≡ true
          → may_start o ≡ true
      may_start-touch none q = refl
      may_start-touch (some r) q = ground (arith, h r)

  may_start-Writes :
      (id j : RowId) {s t : jobs.State}
      → Writes jobs id s t
      → may_start (jobs.find t j) ≡ true
      → may_start (jobs.find s j) ≡ true
  may_start-Writes id j here m = m
  may_start-Writes id j (write before f h) m =
      may_start-Writes id j before (may_start-update _ id j always f h m)

-- The counts after the pieces of a step.
module _ (j : RowId) where
  entries-after_attempt :
      (e : QueueEntry) (o : Outcome)
      → count_if (is_entry_of j) (after_attempt e o) ≤ (if is_entry_of j e then 1 else 0)
  entries-after_attempt e returned = ground arith
  entries-after_attempt e thrown = ground arith

  entries-middle :
      (before after : List QueueEntry) (mid : List QueueEntry)
      → count_if (is_entry_of j) (before ++ (mid ++ after))
        ≡ count_if (is_entry_of j) mid + count_if (is_entry_of j) (before ++ after)
  entries-middle before after mid = omega (
    arith,
    count_if-append (is_entry_of j) before (mid ++ after),
    count_if-append (is_entry_of j) mid after,
    count_if-append (is_entry_of j) before after,
  )

  -- An attempt on `e` moves it from the queue to the posts at most once.
  tally-attempt :
      (e : QueueEntry) (o : Outcome) (sent sent' : List Sent)
      → PostsOnce e.job.publish_job_id sent o sent'
      → count_if (is_entry_of j) (after_attempt e o) + count_if (is_post_of j) sent'
        ≤ (if is_entry_of j e then 1 else 0) + count_if (is_post_of j) sent
  tally-attempt e o sent sent' (inl same) = rw same (omega (arith, entries-after_attempt e o))
  tally-attempt e o sent sent' (inr (request, inl (done, more))) = rw (done, more) (ground arith)
  tally-attempt e o sent sent' (inr (request, inr (failed, more))) =
      rw (failed, more) (omega (arith, entries-after_attempt e thrown))

  tally-doubtful :
      (e : QueueEntry) (o : Outcome) (sent sent' : List Sent)
      → PostsOnce e.job.publish_job_id sent o sent'
      → count_if (is_doubtful_of j) sent'
        ≤ (if is_entry_of j e then 1 else 0) + count_if (is_doubtful_of j) sent
  tally-doubtful e o sent sent' (inl same) = rw same (omega arith)
  tally-doubtful e o sent sent' (inr (request, inl (done, more))) = rw more (omega arith)
  tally-doubtful e o sent sent' (inr (request, inr (failed, more))) = rw more (ground arith)

module _ {ports : Ports} (j : RowId) where
  -- From one world to the next: the counts do not grow, and no row becomes ready to start.
  pub AtMostOnce-shrink :
      (w v : World ports)
      → entries j v + posts j v ≤ entries j w + posts j w
      → doubtful_posts j v ≤ entries j w + doubtful_posts j w
      → (may_start (ports.jobs.find v.jobs j) ≡ true → may_start (ports.jobs.find w.jobs j) ≡ true)
      → AtMostOnce j w
      → AtMostOnce j v
  AtMostOnce-shrink w v less doubt back h = record {
    once = omega (arith, h.once);
    unstarted = λ m. omega (arith, h.unstarted (back m));
  }

  pub AtMostOnce-work :
      (run : Run) (e : QueueEntry) (before after : List QueueEntry) (w : World ports)
      → w.queue ≡ before ++ (e ∷ after)
      → AtMostOnce j w
      → AtMostOnce j (finish e before after (process run e w))
  unfolding entries posts doubtful_posts process
  AtMostOnce-work run e before after w split h =
      let out = execute_publish run e.job (context e) w in
      let effect = execute_publish-Effect run e.job (context e) w in
      AtMostOnce-shrink w (finish e before after out)
        (omega (
          arith,
          tally-attempt j e out.0 w.sent out.1.sent effect.sent,
          entries-middle j before after (after_attempt e out.0),
          entries-middle j before after (e ∷ []),
          ap (count_if (is_entry_of j)) split,
        ))
        (omega (
          arith,
          tally-doubtful j e out.0 w.sent out.1.sent effect.sent,
          entries-middle j before after (e ∷ []),
          ap (count_if (is_entry_of j)) split,
        ))
        (may_start-Writes ports.jobs e.job.publish_job_id j effect.jobs) h

  -- A step that may put `id` into a queue, where `id` was ready to start and is so no more.
  pub AtMostOnce-start :
      (id : RowId) (w v : World ports)
      → may_start (ports.jobs.find w.jobs id) ≡ true
      → may_start (ports.jobs.find v.jobs id) ≡ false
      → ((id == j) ≡ false → ports.jobs.find v.jobs j ≡ ports.jobs.find w.jobs j)
      → entries j v + posts j v ≤ (if id == j then 1 else 0) + (entries j w + posts j w)
      → doubtful_posts j v ≤ doubtful_posts j w
      → AtMostOnce j w
      → AtMostOnce j v
  AtMostOnce-start id w v ready started same less doubt h = elim (Bool-cases (id == j)) [
    | inl e ↦
        let is_j : id ≡ j = (==_iff id j).0 e in
        let none_yet =
          h.unstarted (subst (λ k. may_start (ports.jobs.find w.jobs k) ≡ true) is_j ready) in
        let started_j = subst (λ k. may_start (ports.jobs.find v.jobs k) ≡ false) is_j started in
        record { once = ground (arith, none_yet); unstarted = λ m. cc (started_j) }
    | inr e ↦ AtMostOnce-shrink w v (ground arith) (omega arith) (λ m. rw (← same e) m) h
  ]

  -- A step that creates a `queued` row and adds it to a queue.
  pub AtMostOnce-create :
      (job : PublishJob) (e : QueueEntry) (w v : World ports)
      → is_scheduled job ≡ false
      → e.job.publish_job_id ≡ (ports.jobs.create w.jobs job).0
      → v.jobs ≡ (ports.jobs.create w.jobs job).1
      → v.queue ≡ w.queue ++ (e ∷ [])
      → v.sent ≡ w.sent
      → AtMostOnce j w
      → AtMostOnce j v
  unfolding entries posts doubtful_posts
  AtMostOnce-create job e w v unscheduled id_is jobs_are queue_is sent_is h =
      let id = (ports.jobs.create w.jobs job).0 in
      AtMostOnce-start id w v (rw ports.jobs.create_fresh refl)
        (rw (jobs_are, ports.jobs.find-create, ==-refl) unscheduled)
        (λ ne. rw (jobs_are, ports.jobs.find-create, ne) refl)
        (rw (queue_is, sent_is, ← id_is)
          (omega (arith, count_if-append (is_entry_of j) w.queue (e ∷ []))))
        (rw sent_is (omega arith)) h

  -- A step that creates a `scheduled` row.
  pub AtMostOnce-plan :
      (job : PublishJob) (w v : World ports)
      → v.jobs ≡ (ports.jobs.create w.jobs job).1
      → v.queue ≡ w.queue
      → v.sent ≡ w.sent
      → AtMostOnce j w
      → AtMostOnce j v
  unfolding entries posts doubtful_posts
  AtMostOnce-plan job w v jobs_are queue_is sent_is h =
      AtMostOnce-shrink w v (rw (queue_is, sent_is) (omega arith)) (rw sent_is (omega arith))
        (rw (jobs_are, ports.jobs.find-create) (ground (arith, ports.jobs.create_fresh w.jobs job)))
        h
