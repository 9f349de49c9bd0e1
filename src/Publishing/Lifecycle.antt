-- ===== src/Publishing/Lifecycle.antt =====
-- The life of the publish jobs as a step relation. A step is one call of the service, one round of
-- the dispatch loop with a row that may be stale, the guarded write of a cancellation, or one run
-- of a worker on any entry of any queue; so every interleaving of overlapping ticks, requests and
-- workers is a sequence of steps. `requeueJob`, the admin's second chance, is not a step.
use socialhub.Prelude.{String, ◌≡◌, Option, List, ◌∷◌, ◌++◌}
use socialhub.Schema.{RowId, Millis}
use socialhub.Publishing.{Ports, World, ContentVariant, QueueEntry}
use socialhub.Publishing.Enqueue.{publish_now, publish_carousel_now, schedule, schedule_carousel}
use socialhub.Publishing.Dispatch.{DueJob, dispatch_one}
use socialhub.Publishing.Cancel.{cancel_job, cancel_claimed}
use socialhub.Publishing.Execute.{Run, Outcome}
use socialhub.Publishing.Worker.{after_attempt, process}

module _ {ports : Ports} where
  -- What the queue holds once the attempt on `e` is over.
  abbrev pub finish :
      QueueEntry → (before after : List QueueEntry) → Outcome × World ports → World ports
  finish e before after (outcome, w) = record w {
    queue = before ++ (after_attempt e outcome ++ after);
  }

  pub data Step : World ports → World ports → Type 0 where
    publish :
        (org variant account : RowId) (caption : Option String) (w : World ports)
        → Step w (publish_now org variant account caption w).1
    publish_carousel :
        (org user account : RowId) (urls : List String) (caption : Option String) (w : World ports)
        → Step w (publish_carousel_now org user account urls caption w).1
    plan :
        (org variant account : RowId) (at now : Millis) (caption : Option String) (w : World ports)
        → Step w (schedule org variant account at now caption w).1
    plan_carousel :
        (org user account : RowId) (urls : List String) (at now : Millis) (caption : Option String)
        (w : World ports)
        → Step w (schedule_carousel org user account urls at now caption w).1
    claim : (due : DueJob) (w : World ports) → Step w (dispatch_one due w).1
    cancel : (job org : RowId) (w : World ports) → Step w (cancel_claimed job org w).1
    admin_cancel : (job : RowId) (w : World ports) → Step w (cancel_job job w).1
    work :
        (run : Run) (e : QueueEntry) (before after : List QueueEntry) (w : World ports)
        → w.queue ≡ before ++ (e ∷ after)
        → Step w (finish e before after (process run e w))
    -- Anything else that changes designs, accounts and their tokens.
    edit :
        (accounts : ports.tokens.accounts.State) (variants : RowId → Option ContentVariant)
        (authors : RowId → Option RowId) (w : World ports)
        → Step w (record w { accounts = accounts; variants = variants; authors = authors })

  pub data Reach (w : World ports) : World ports → Type 0 where
    here : Reach w w
    next : {u v : World ports} → Reach w u → Step u v → Reach w v
