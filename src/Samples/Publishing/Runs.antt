-- ===== src/Samples/Publishing/Runs.antt =====
-- Runs of a worker on the sample worlds.
use socialhub.Publishing.AtMostOnce.Steps.{no_double_post}
use socialhub.Publishing.Worker.{process}
use socialhub.Publishing.Retries.{SettledAt, AllReadable, retry, three_attempts_settle}
use socialhub.Publishing.Attempts.{Ends, CrashesSilently, execute_publish-Ends}
use socialhub.Publishing.AtMostOnce.{entries, posts, doubtful_posts, may_start}
use socialhub.Publishing.Lifecycle.{finish, Reach, Step}
use socialhub.Schema.{Platform}
use socialhub.Database.Rows.{rows}
use socialhub.Database.Slots.{find, update_many}
use socialhub.Publishing.Dispatch.{DueJob, dispatch_one, dispatch_counted, dispatch_claimed}
use socialhub.Publishing.Effects.{Effect, execute_publish-Effect}
use socialhub.Samples.{
  world_of, ports, rows, job, Platform, scheduled_job, entry, accepting, first_attempt, refusing,
}
use socialhub.SocialToken.{token_for_refresh}
use socialhub.Prelude.{
  Bool-cases, inl, inr, ◌==◌, ◌⊎◌, ◌++◌, refl, ◌≡◌, none, some, [], ◌∷◌, ◌+◌, ◌≤◌, false,
}
use socialhub.Publishing.{World, queue_for, max_attempts, add_to_queue}
use socialhub.Publishing.Execute.{execute_publish}

execute_publish-Ends_example :
    Ends
      (CrashesSilently 100 job (world_of (job ∷ [])))
      0
      first_attempt
      (execute_publish refusing entry.job first_attempt (world_of (job ∷ [])))
unfolding world_of rows find
execute_publish-Ends_example =
    execute_publish-Ends refusing entry.job first_attempt job (world_of (job ∷ [])) refl

readable : AllReadable (world_of (job ∷ []))
unfolding world_of rows find token_for_refresh
readable k = elim (Bool-cases (0 == k)) [
  | inl e ↦ rw e (record { access = refl; for_refresh = refl })
  | inr e ↦ rw e tt
]

three_attempts_settle_example :
    SettledAt 0 (retry max_attempts (λ n. refusing) entry (world_of (job ∷ [])))
unfolding world_of rows find
three_attempts_settle_example =
    three_attempts_settle (λ s. refl) (λ n. refusing) entry (world_of (job ∷ [])) job readable refl
      refl refl

execute_publish-Effect_example :
    Effect 100
      (some job)
      0
      (world_of (job ∷ []))
      (execute_publish accepting entry.job first_attempt (world_of (job ∷ [])))
unfolding rows world_of
execute_publish-Effect_example =
    execute_publish-Effect accepting entry.job first_attempt (world_of (job ∷ []))

abbrev due : DueJob
due = record { id = 0; caption = none; platform = Platform.threads }

abbrev start : World ports
start = world_of (scheduled_job ∷ [])

unfoldable dispatched : World ports
dispatched = (dispatch_one due start).1

unfoldable executed : World ports
executed = finish entry [] [] (process accepting entry dispatched)

waiting : dispatched.queue ≡ [] ++ (entry ∷ [])
unfolding dispatched world_of dispatch_one dispatch_counted dispatch_claimed queue_for add_to_queue
    rows find update_many
waiting = refl

life : Reach start executed
unfolding dispatched executed
life =
    Reach.next (Reach.next Reach.here (Step.claim due start))
      (Step.work accepting entry [] [] dispatched waiting)

no_double_post_example :
    (entries 0 executed + posts 0 executed ≤ 1)
    × ((may_start (ports.jobs.find executed.jobs 0) ≡ false)
        ⊎ (entries 0 executed + posts 0 executed + doubtful_posts 0 executed ≡ 0))
unfolding world_of
no_double_post_example = no_double_post 0 refl refl life
