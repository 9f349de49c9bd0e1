-- ===== src/Publishing/AtMostOnce/Steps.antt =====
-- Every step keeps the bound, so every reachable world has it.
use socialhub.Database.{matches, touch}
use socialhub.Prelude.{
  ℕ, ◌+◌, ◌≤◌, String, ◌≡◌, refl, Bool, true, false, Option, none, some, List, [], ◌==◌, arith, inl,
  inr, Result, ok, err, Bool-cases, ==-refl, count_if-append, leb, ◌⊎◌,
}
use socialhub.Schema.{RowId, Millis, Platform}
use socialhub.Publishing.{Ports, World, PublishJob, PublishError, ContentVariant, PublishJobStatus}
use socialhub.SocialToken.{SocialAccount}
use socialhub.Publishing.Lifecycle.{Step, Reach}
use socialhub.Publishing.Lifecycle
use socialhub.Publishing.Enqueue.{
  publish_to, publish_valid, publish_now, publish_carousel_valid, publish_carousel_now,
  schedule_valid, schedule, schedule_carousel_valid, schedule_carousel,
}
use socialhub.Publishing.Dispatch.{
  DueJob, is_scheduled, dispatch_claimed, dispatch_counted, dispatch_one,
}
use socialhub.Publishing.Cancel.{cancel_found, cancel_job, cancel_claimed, is_published}
use socialhub.Publishing.AtMostOnce.{
  AtMostOnce, entries, posts, doubtful_posts, AtMostOnce-shrink, AtMostOnce-start, AtMostOnce-work,
  AtMostOnce-create, AtMostOnce-plan, may_start-update, always, is_entry_of, may_start,
}

module _ {ports : Ports} (j : RowId) where
  publish_to-AtMostOnce :
      (v a : RowId) (caption : Option String) (w : World ports) (p : Platform)
      (queue : Option String)
      → AtMostOnce j w
      → AtMostOnce j (publish_to v a caption w p queue).1
  unfolding publish_to
  publish_to-AtMostOnce v a caption w p none h = h
  publish_to-AtMostOnce v a caption w p (some queue) h =
      AtMostOnce-create j _ _ w _ refl refl refl refl refl h

  publish_now-AtMostOnce :
      (v a : RowId) (caption : Option String) (w : World ports)
      (checked : Result PublishError (ContentVariant × SocialAccount))
      → AtMostOnce j w
      → AtMostOnce j (publish_valid v a caption w checked).1
  unfolding publish_valid
  publish_now-AtMostOnce v a caption w (err e) h = h
  publish_now-AtMostOnce v a caption w (ok (variant, account)) h =
      publish_to-AtMostOnce v a caption w account.platform _ h

  publish_carousel-AtMostOnce :
      (org user account : RowId) (urls : List String) (caption : Option String) (w : World ports)
      (checked : Result PublishError (SocialAccount × String))
      → AtMostOnce j w
      → AtMostOnce j (publish_carousel_valid org user account urls caption w checked).1
  unfolding publish_carousel_valid
  publish_carousel-AtMostOnce org user account urls caption w (err e) h = h
  publish_carousel-AtMostOnce org user account urls caption w (ok (a, queue)) h =
      AtMostOnce-create j _ _ w _ refl refl refl refl refl h

  schedule-AtMostOnce :
      (v a : RowId) (at : Millis) (caption : Option String) (w : World ports)
      (checked : Result PublishError (ContentVariant × SocialAccount))
      → AtMostOnce j w
      → AtMostOnce j (schedule_valid v a at caption w checked).1
  unfolding schedule_valid
  schedule-AtMostOnce v a at caption w (err e) h = h
  schedule-AtMostOnce v a at caption w (ok (variant, account)) h =
      AtMostOnce-plan j _ w _ refl refl refl h

  schedule_carousel-AtMostOnce :
      (org user account : RowId) (urls : List String) (at : Millis) (caption : Option String)
      (w : World ports) (checked : Result PublishError (SocialAccount × String))
      → AtMostOnce j w
      → AtMostOnce j (schedule_carousel_valid org user account urls at caption w checked).1
  unfolding schedule_carousel_valid
  schedule_carousel-AtMostOnce org user account urls at caption w (err e) h = h
  schedule_carousel-AtMostOnce org user account urls at caption w (ok (a, queue)) h =
      AtMostOnce-plan j _ w _ refl refl refl h

  -- A write that schedules nothing, and touches neither the queue nor the posts.
  rewrite-AtMostOnce :
      (id : RowId) (p : PublishJob → Bool) (f : PublishJob → PublishJob) (w : World ports)
      → ((r : PublishJob) → is_scheduled (f r) ≡ false)
      → AtMostOnce j w
      → AtMostOnce j (record w { jobs = (ports.jobs.update_many w.jobs id p f).1 })
  unfolding entries posts doubtful_posts
  rewrite-AtMostOnce id p f w never h =
      AtMostOnce-shrink j w (record w { jobs = (ports.jobs.update_many w.jobs id p f).1 })
        (omega arith) (omega arith) (may_start-update ports.jobs w.jobs id j p f never) h

  cancel_job-AtMostOnce :
      (id : RowId) (w : World ports) (found : Option PublishJob)
      → AtMostOnce j w
      → AtMostOnce j (cancel_found id w found).1
  unfolding cancel_found
  cancel_job-AtMostOnce id w none h = h
  cancel_job-AtMostOnce id w (some job) h = elim (Bool-cases (is_published job)) [
    | inl e ↦ rw e h
    | inr e ↦ rw e (rewrite-AtMostOnce id always _ w (λ r. refl) h)
  ]

  edit-AtMostOnce :
      (accounts : ports.tokens.accounts.State) (variants : RowId → Option ContentVariant)
      (authors : RowId → Option RowId) (w : World ports)
      → AtMostOnce j w
      → AtMostOnce j (record w { accounts = accounts; variants = variants; authors = authors })
  unfolding entries posts doubtful_posts
  edit-AtMostOnce accounts variants authors w h = record { once = h.once; unstarted = h.unstarted }

-- A claim that matched one row found it ready, and leaves it started.
claimed-ready : (o : Option PublishJob) → (matches is_scheduled o == 1) ≡ true → may_start o ≡ true
claimed-ready none h = refl
claimed-ready (some r) h = ground arith

claimed-started :
    (f : PublishJob → PublishJob) (o : Option PublishJob)
    → ((r : PublishJob) → is_scheduled (f r) ≡ false)
    → (matches is_scheduled o == 1) ≡ true
    → may_start (touch is_scheduled f o) ≡ false
claimed-started f none never h = ground arith
claimed-started f (some r) never h = ground (arith, never r)

module _ {ports : Ports} (j : RowId) (due : DueJob) (w : World ports) where
  abbrev to_queued : PublishJob → PublishJob
  to_queued job = record job { status = PublishJobStatus.queued }

  abbrev claimed : ℕ × ports.jobs.State
  claimed = ports.jobs.update_many w.jobs due.id is_scheduled to_queued

  dispatch_claimed-AtMostOnce :
      (queue : Option String)
      → (claimed.0 == 1) ≡ true
      → AtMostOnce j w
      → AtMostOnce j (dispatch_claimed due (record w { jobs = claimed.1 }) queue).1
  unfolding dispatch_claimed entries posts doubtful_posts
  dispatch_claimed-AtMostOnce none one h =
      rewrite-AtMostOnce j due.id always _ (record w { jobs = claimed.1 }) (λ r. refl)
        (rewrite-AtMostOnce j due.id is_scheduled to_queued w (λ r. refl) h)
  dispatch_claimed-AtMostOnce (some queue) one h =
      let matched = rw (ports.jobs.count-update_many) at one in
      AtMostOnce-start j due.id w _ (claimed-ready (ports.jobs.find w.jobs due.id) matched)
        (rw (ports.jobs.find-update_many, ==-refl)
          (claimed-started to_queued (ports.jobs.find w.jobs due.id) (λ r. refl) matched))
        (λ ne. rw (ports.jobs.find-update_many, ne) refl)
        (omega (arith, count_if-append (is_entry_of j) w.queue _)) (omega arith) h

  dispatch_counted-AtMostOnce :
      (one : Bool)
      → (claimed.0 == 1) ≡ one
      → AtMostOnce j w
      → AtMostOnce j (dispatch_counted due (record w { jobs = claimed.1 }) one).1
  unfolding dispatch_counted
  dispatch_counted-AtMostOnce true e h = dispatch_claimed-AtMostOnce _ e h
  dispatch_counted-AtMostOnce false e h =
      rewrite-AtMostOnce j due.id is_scheduled to_queued w (λ r. refl) h

  -- One round of the dispatch loop, with a row that may be stale.
  dispatch_one-AtMostOnce : AtMostOnce j w → AtMostOnce j (dispatch_one due w).1
  unfolding dispatch_one
  dispatch_one-AtMostOnce h = dispatch_counted-AtMostOnce _ refl h

module _ {ports : Ports} (j : RowId) where
  -- Every step keeps the bound.
  pub Step-AtMostOnce : {w v : World ports} → Step w v → AtMostOnce j w → AtMostOnce j v
  unfolding publish_now publish_carousel_now schedule schedule_carousel cancel_claimed cancel_job
  Step-AtMostOnce (Step.publish org v a caption w) h = publish_now-AtMostOnce j v a caption w _ h
  Step-AtMostOnce (Step.publish_carousel org user a urls caption w) h =
      publish_carousel-AtMostOnce j org user a urls caption w _ h
  Step-AtMostOnce (Step.plan org v a at now caption w) h = elim (Bool-cases (leb at now)) [
    | inl e ↦ rw e h
    | inr e ↦ rw e (schedule-AtMostOnce j v a at caption w _ h)
  ]
  Step-AtMostOnce (Step.plan_carousel org user a urls at now caption w) h =
      elim (Bool-cases (leb at now)) [
        | inl e ↦ rw e h
        | inr e ↦ rw e (schedule_carousel-AtMostOnce j org user a urls at caption w _ h)
      ]
  Step-AtMostOnce (Step.claim due w) h = dispatch_one-AtMostOnce j due w h
  Step-AtMostOnce (Step.cancel job org w) h =
      rewrite-AtMostOnce j job is_scheduled _ w (λ r. refl) h
  Step-AtMostOnce (Step.admin_cancel job w) h = cancel_job-AtMostOnce j job w _ h
  Step-AtMostOnce (Step.work run e before after w split) h =
      AtMostOnce-work j run e before after w split h
  Step-AtMostOnce (Step.edit accounts variants authors w) h =
      edit-AtMostOnce j accounts variants authors w h

  pub Reach-AtMostOnce : {w v : World ports} → AtMostOnce j w → Reach w v → AtMostOnce j v
  Reach-AtMostOnce h Lifecycle.here = h
  Reach-AtMostOnce h (Lifecycle.next r step) = Step-AtMostOnce step (Reach-AtMostOnce h r)

-- From a world whose queues and posts are empty, by requests, schedules, overlapping dispatch
-- ticks with stale rows, cancellations, edits and worker runs in any order (but no admin requeue):
-- at most one call for a job ever returns the id of a post, and a job with such a post waits in no
-- queue; a job that a dispatch may still claim waits in no queue and has not been posted at all. A
-- call that posts and then throws is not bounded: the queue tries again, and may post again.
pub no_double_post :
    {ports : Ports} (j : RowId) {w v : World ports}
    → w.queue ≡ []
    → w.sent ≡ []
    → Reach w v
    → (entries j v + posts j v ≤ 1)
      × ((may_start (ports.jobs.find v.jobs j) ≡ false)
          ⊎ (entries j v + posts j v + doubtful_posts j v ≡ 0))
unfolding entries posts doubtful_posts
no_double_post {ports} j {w} {v} no_queue no_posts r =
    let start : AtMostOnce j w = record {
      once = rw (no_queue, no_posts) (omega arith);
      unstarted = λ _. rw (no_queue, no_posts) refl;
    } in
    let h = Reach-AtMostOnce j start r in
    (
      h.once,
      elim (Bool-cases (may_start (ports.jobs.find v.jobs j))) [
        | inl open_ ↦ inr (h.unstarted open_)
        | inr shut ↦ inl shut
      ],
    )
