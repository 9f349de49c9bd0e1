-- ===== src/Publishing/Claims.antt =====
-- The atomic claim, where two dispatch ticks, or a tick and a cancellation, meet.
use socialhub.SocialToken.{SocialAccount}
use socialhub.Prelude.{
  ℕ, ◌+◌, ◌≤◌, String, ◌≡◌, refl, Bool, true, false, Option, none, some, List, [], ◌∷◌, ◌==◌, arith,
  if◌then◌else◌, err, length, All, ==-refl, ◌∙◌, length-append,
}
use socialhub.Schema.{RowId, Millis, PublishJobStatus}
use socialhub.Database.{Table, matches, touch, always, Listed}
use socialhub.Publishing.{Ports, World, PublishJob, just_started, SocialAccount}
use socialhub.Publishing.Dispatch.{
  DueJob, is_scheduled, is_due, dispatch_claimed, dispatch_counted, dispatch_one, dispatch_each,
  join_platforms, due_jobs, is_past, join_platform,
}
use socialhub.Publishing.Cancel.{cancel_claimed}

abbrev pub holds_scheduled : Option PublishJob → Bool
holds_scheduled none = false
holds_scheduled (some job) = is_scheduled job

unclaimed :
    (o : Option PublishJob) → holds_scheduled o ≡ false → (matches is_scheduled o == 1) ≡ false
unclaimed none h = refl
unclaimed (some r) h = ground arith

module _ (jobs : Table PublishJob) (id : RowId) (f : PublishJob → PublishJob)
    (never : (r : PublishJob) → is_scheduled (f r) ≡ false) where
  -- After a guarded write that schedules nothing, the row is not `scheduled`.
  guarded-unscheduled :
      (s : jobs.State)
      → holds_scheduled (jobs.find (jobs.update_many s id is_scheduled f).1 id) ≡ false
  guarded-unscheduled s = rw (jobs.find-update_many, ==-refl) (touched (jobs.find s id))
    where
      touched : (o : Option PublishJob) → holds_scheduled (touch is_scheduled f o) ≡ false
      touched none = refl
      touched (some r) = ground (arith, never r)

  written-unscheduled :
      (s : jobs.State)
      → holds_scheduled (jobs.find s id) ≡ false
      → holds_scheduled (jobs.find (jobs.update_many s id always f).1 id) ≡ false
  written-unscheduled s h = rw (jobs.find-update_many, ==-refl) (touched (jobs.find s id))
    where
      touched : (o : Option PublishJob) → holds_scheduled (touch always f o) ≡ false
      touched none = refl
      touched (some r) = never r

module _ {ports : Ports} where
  dispatch_claimed-unscheduled :
      (due : DueJob) (w : World ports) (queue : Option String)
      → holds_scheduled (ports.jobs.find w.jobs due.id) ≡ false
      → holds_scheduled (ports.jobs.find (dispatch_claimed due w queue).1.jobs due.id) ≡ false
  unfolding dispatch_claimed
  dispatch_claimed-unscheduled due w none h =
      written-unscheduled ports.jobs due.id _ (λ r. refl) w.jobs h
  dispatch_claimed-unscheduled due w (some queue) h = h

  dispatch_counted-unscheduled :
      (due : DueJob) (w : World ports) (one : Bool)
      → holds_scheduled (ports.jobs.find w.jobs due.id) ≡ false
      → holds_scheduled (ports.jobs.find (dispatch_counted due w one).1.jobs due.id) ≡ false
  unfolding dispatch_counted
  dispatch_counted-unscheduled due w true h = dispatch_claimed-unscheduled due w _ h
  dispatch_counted-unscheduled due w false h = h

  dispatch_one-unscheduled :
      (due : DueJob) (w : World ports)
      → holds_scheduled (ports.jobs.find (dispatch_one due w).1.jobs due.id) ≡ false
  unfolding dispatch_one
  dispatch_one-unscheduled due w =
      dispatch_counted-unscheduled due _ _
        (guarded-unscheduled ports.jobs due.id _ (λ r. refl) w.jobs)

  -- A round of the loop on a row that is not `scheduled` any more dispatches nothing.
  dispatch_one-skips :
      (due : DueJob) (w : World ports)
      → holds_scheduled (ports.jobs.find w.jobs due.id) ≡ false
      → ((dispatch_one due w).0 ≡ false) × ((dispatch_one due w).1.queue ≡ w.queue)
  unfolding dispatch_one dispatch_counted
  dispatch_one-skips due w h =
      rw (ports.jobs.count-update_many, unclaimed (ports.jobs.find w.jobs due.id) h) (refl, refl)

  -- Two ticks that have both read the same due job: whatever each had read of it, the second to
  -- reach it dispatches nothing and adds nothing to a queue.
  pub overlapping_ticks :
      (first second : DueJob) (w : World ports)
      → second.id ≡ first.id
      → ((dispatch_one second (dispatch_one first w).1).0 ≡ false)
        × ((dispatch_one second (dispatch_one first w).1).1.queue ≡ (dispatch_one first w).1.queue)
  overlapping_ticks first second w same =
      dispatch_one-skips second (dispatch_one first w).1
        (rw same (dispatch_one-unscheduled first w))

  cancel_claimed-unscheduled :
      (id org : RowId) (w : World ports)
      → holds_scheduled (ports.jobs.find (cancel_claimed id org w).1.jobs id) ≡ false
  unfolding cancel_claimed
  cancel_claimed-unscheduled id org w = guarded-unscheduled ports.jobs id _ (λ r. refl) w.jobs

  cancel_claimed-refuses :
      (id org : RowId) (w : World ports)
      → holds_scheduled (ports.jobs.find w.jobs id) ≡ false
      → (cancel_claimed id org w).0 ≡ err just_started
  unfolding cancel_claimed
  cancel_claimed-refuses id org w h =
      rw (ports.jobs.count-update_many, unclaimed (ports.jobs.find w.jobs id) h) refl

  -- A dispatch and a cancellation of one job, in either order and with stale reads: after the
  -- cancellation's write a dispatch adds nothing, and after the dispatch's claim the cancellation
  -- is refused.
  pub cancel_or_dispatch :
      (due : DueJob) (org : RowId) (w : World ports)
      → ((dispatch_one due (cancel_claimed due.id org w).1).1.queue ≡ w.queue)
        × ((cancel_claimed due.id org (dispatch_one due w).1).0 ≡ err just_started)
  cancel_or_dispatch due org w = (
    (dispatch_one-skips due (cancel_claimed due.id org w).1
          (cancel_claimed-unscheduled due.id org w)).1
        ∙ kept,
    cancel_claimed-refuses due.id org (dispatch_one due w).1 (dispatch_one-unscheduled due w),
  )
    where
      kept : (cancel_claimed due.id org w).1.queue ≡ w.queue
      kept = unfold cancel_claimed in refl

  dispatch_claimed-length :
      (due : DueJob) (w : World ports) (queue : Option String)
      → length (dispatch_claimed due w queue).1.queue
        ≡ length w.queue + (if (dispatch_claimed due w queue).0 then 1 else 0)
  unfolding dispatch_claimed
  dispatch_claimed-length due w none = omega arith
  dispatch_claimed-length due w (some queue) = length-append w.queue _

  dispatch_one-length :
      (due : DueJob) (w : World ports)
      → length (dispatch_one due w).1.queue
        ≡ length w.queue + (if (dispatch_one due w).0 then 1 else 0)
  unfolding dispatch_one
  dispatch_one-length due w = counted _ _
    where
      counted :
          (v : World ports) (one : Bool)
          → length (dispatch_counted due v one).1.queue
            ≡ length v.queue + (if (dispatch_counted due v one).0 then 1 else 0)
      counted v true = unfold dispatch_counted in dispatch_claimed-length due v _
      counted v false = unfold dispatch_counted in omega arith

  -- The number that a tick returns is the number of entries that it adds to the queues.
  pub dispatch_each_counts :
      (due : List DueJob) (n : ℕ) (w : World ports)
      → length (dispatch_each due n w).1.queue + n ≡ length w.queue + (dispatch_each due n w).0
  unfolding dispatch_each
  dispatch_each_counts [] n w = refl
  dispatch_each_counts (d ∷ rest) n w = ground (
    arith,
    dispatch_one-length d w,
    dispatch_each_counts rest (if (dispatch_one d w).0 then n + 1 else n) (dispatch_one d w).1,
  )

  -- A row that is scheduled for `now` or earlier.
  abbrev pub IsDueRow : Millis → World ports → DueJob → Type 0
  IsDueRow now w due =
      (job : PublishJob) × (ports.jobs.find w.jobs due.id ≡ some job)
      × (job.status ≡ PublishJobStatus.scheduled)
      × ((at : Millis) × (job.scheduled_at ≡ some at) × (at ≤ now))

  is_due-IsDueRow :
      (now : Millis) (w : World ports) (due : DueJob) (job : PublishJob)
      → ports.jobs.find w.jobs due.id ≡ some job
      → is_due now job ≡ true
      → IsDueRow now w due
  is_due-IsDueRow now w due job found ready =
      let (at, set, past) = past_time job.scheduled_at (ground arith) in
      (job, found, ground arith, (at, set, past))
    where
      past_time :
          (o : Option Millis) → is_past o now ≡ true → (at : Millis) × (o ≡ some at) × (at ≤ now)
      past_time none h = cc
      past_time (some at) h = (at, refl, ground arith)

  join_platform-IsDueRow :
      (now : Millis) (w : World ports) (id : RowId) (job : PublishJob)
      (account : Option SocialAccount) (others : List DueJob)
      → ports.jobs.find w.jobs id ≡ some job
      → is_due now job ≡ true
      → All (IsDueRow now w) others
      → All (IsDueRow now w) (join_platform id job account others)
  unfolding join_platform
  join_platform-IsDueRow now w id job none others found ready h = h
  join_platform-IsDueRow now w id job (some account) others found ready h = (
    is_due-IsDueRow now w (record { id = id; caption = job.caption; platform = account.platform })
        job found ready,
    h,
  )

  join_platforms-IsDueRow :
      (now : Millis) (w : World ports) (rows : List (RowId × PublishJob))
      → All (Listed (ports.jobs.find w.jobs) (is_due now)) rows
      → All (IsDueRow now w) (join_platforms w rows)
  unfolding join_platforms
  join_platforms-IsDueRow now w [] h = tt
  join_platforms-IsDueRow now w ((id, job) ∷ rest) ((found, ready), h) =
      join_platform-IsDueRow now w id job _ (join_platforms w rest) found ready
        (join_platforms-IsDueRow now w rest h)

  -- A tick takes up only jobs whose row is `scheduled`, for a time that has come.
  pub dispatch_not_early : (now : Millis) (w : World ports) → All (IsDueRow now w) (due_jobs now w)
  unfolding due_jobs
  dispatch_not_early now w =
      join_platforms-IsDueRow now w _ (ports.jobs.find_many-Listed w.jobs (is_due now))
