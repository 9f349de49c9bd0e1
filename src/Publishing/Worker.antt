-- ===== src/Publishing/Worker.antt =====
-- The workers: BasePublishProcessor.process of processors/base-publish.processor.ts, and the
-- queue's side of the contract. BullMQ runs an added job until an attempt returns, or until
-- `attempts` attempts have thrown.
use socialhub.Prelude.{◌+◌, List, [], ◌∷◌, ltb, if◌then◌else◌}
use socialhub.Publishing.{Ports, World, QueueEntry}
use socialhub.Publishing.Execute.{Run, Context, Outcome, returned, thrown, execute_publish}

abbrev pub context : QueueEntry → Context
context e = record { attempts_made = e.attempts_made; max_attempts = e.attempts }

-- What is left of a queue entry after an attempt: nothing, or the entry with one attempt more.
abbrev pub after_attempt : QueueEntry → Outcome → List QueueEntry
after_attempt e returned = []
after_attempt e thrown =
    if ltb (e.attempts_made + 1) e.attempts
    then record e { attempts_made = e.attempts_made + 1 } ∷ []
    else []

module _ {ports : Ports} where
  unfoldable pub process : Run → QueueEntry → World ports → Outcome × World ports
  process run e w = execute_publish run e.job (context e) w
