-- ===== src/Publishing/Retries.antt =====
-- The whole life of one queue entry: the queue runs it, and runs it again after each attempt that
-- throws, until it has no attempt left.
use socialhub.Prelude.{
  Option, ℕ, ◌+◌, ◌≤◌, ◌<◌, ◌≡◌, refl, some, List, [], ◌∷◌, arith, inl, inr, Bool-cases, ◌⊎◌, zero,
  suc, ltb, ltb→lt,
}
use socialhub.Schema.{RowId, PublishJobStatus}
use socialhub.Publishing.{Ports, World, PublishJob, QueueEntry, max_attempts}
use socialhub.Publishing.Execute.{Run, execute_publish, Outcome, returned, thrown}
use socialhub.Publishing.Worker.{process, context, after_attempt}
use socialhub.Publishing.Attempts.{Verdict, Crashes, execute_publish-Ends}
use socialhub.Publishing.Effects.{Served, execute_publish-Effect}
use socialhub.SocialToken.Readable.{
  IsReadable, IsCipher, ensure_fresh-IsReadable, ensure_fresh_steady,
}
use socialhub.Database.Every.{Every, Holds-found}

abbrev one_more : QueueEntry → QueueEntry
one_more e = record e { attempts_made = e.attempts_made + 1 }

-- With what an attempt has left of the entry.
go_on :
    {ports : Ports}
    → (QueueEntry → World ports → List QueueEntry × World ports)
    → List QueueEntry
    → World ports
    → List QueueEntry × World ports
go_on again [] w = ([], w)
go_on again (next ∷ _) w = again next w

-- One round for each unit of fuel; `runs n` surrounds the attempt that follows `n` failed ones.
-- Returns what is left of the entry in its queue.
unfoldable pub retry :
    {ports : Ports} → ℕ → (ℕ → Run) → QueueEntry → World ports → List QueueEntry × World ports
unfolding go_on
retry zero runs e w = (e ∷ [], w)
retry (suc fuel) runs e w =
    let (outcome, w') = process (runs e.attempts_made) e w in
    go_on (retry fuel runs) (after_attempt e outcome) w'

abbrev pub IsSettled : PublishJob → Type 0
IsSettled row = (row.status ≡ PublishJobStatus.published) ⊎ (row.status ≡ PublishJobStatus.failed)

abbrev pub SettledAt : {ports : Ports} → RowId → List QueueEntry × World ports → Type 0
SettledAt {ports} id (left, w) =
    (left ≡ []) × ((row : PublishJob) × (ports.jobs.find w.jobs id ≡ some row) × IsSettled row)

module _ {ports : Ports} where
  go_on-settled :
      (again : QueueEntry → World ports → List QueueEntry × World ports) (e : QueueEntry)
      (outcome : Outcome) (w : World ports) (row : PublishJob)
      → (e.attempts_made + 1 < e.attempts → SettledAt e.job.publish_job_id (again (one_more e) w))
      → ports.jobs.find w.jobs e.job.publish_job_id ≡ some row
      → Verdict (context e) outcome row
      → SettledAt e.job.publish_job_id (go_on again (after_attempt e outcome) w)
  unfolding go_on
  go_on-settled again e returned w row more found (inl v) = (refl, (row, found, inl v.0))
  go_on-settled again e returned w row more found (inr v) = (refl, (row, found, inr v.0))
  go_on-settled again e thrown w row more found v =
      elim (Bool-cases (ltb (e.attempts_made + 1) e.attempts)) [
        | inl left ↦ rw left (more (ltb→lt _ _ left))
        | inr last ↦ rw last (refl, (row, found, inr (ground (arith, v.0))))
      ]

  -- Every stored token can be read.
  abbrev pub AllReadable : World ports → Type 0
  AllReadable w = Every ports.tokens.accounts w.accounts (IsReadable ports.tokens)

  module _ (cipher : IsCipher ports.tokens) where
    Served-AllReadable :
        (run : Run) (found : Option PublishJob) (w v : World ports)
        → AllReadable w
        → Served ports run.now found w.accounts v.accounts
        → AllReadable v
    Served-AllReadable run found w v h (inl same) = rw same h
    Served-AllReadable run found w v h (inr (job, account, there, stored, after)) = rw after (
        ensure_fresh-IsReadable ports.tokens cipher w.accounts run.now job.social_account_id account
          h (Holds-found (IsReadable ports.tokens) _ account stored (h _)))

    never-Crashes :
        (run : Run) (job : PublishJob) (w : World ports) → AllReadable w → Crashes run.now job w → ⊥
    never-Crashes run job w h (account, stored, crashed) =
        ensure_fresh_steady ports.tokens cipher w.accounts run.now job.social_account_id account h
          (Holds-found (IsReadable ports.tokens) _ account stored (h _)) stored crashed

    process-AllReadable :
        (run : Run) (e : QueueEntry) (w : World ports)
        → AllReadable w
        → AllReadable (process run e w).1
    unfolding process
    process-AllReadable run e w h =
        Served-AllReadable run _ w (execute_publish run e.job (context e) w).1 h
          (execute_publish-Effect run e.job (context e) w).accounts

    process-Verdict :
        (run : Run) (e : QueueEntry) (w : World ports) (job : PublishJob)
        → AllReadable w
        → ports.jobs.find w.jobs e.job.publish_job_id ≡ some job
        → (row : PublishJob) × (ports.jobs.find (process run e w).1.jobs e.job.publish_job_id
            ≡ some row)
          × Verdict (context e) (process run e w).0 row
    unfolding process
    process-Verdict run e w job h found =
        let (row, there, ends) = execute_publish-Ends run e.job (context e) job w found in
        (
          row,
          there,
          elim ends [
            | inl v ↦ v
            | inr (_, _, silent) ↦ absurd (never-Crashes run job w h silent.0)
          ],
        )

    retry-settled :
        (runs : ℕ → Run) (fuel : ℕ) (e : QueueEntry) (w : World ports) (job : PublishJob)
        → AllReadable w
        → e.attempts ≤ e.attempts_made + fuel
        → e.attempts_made < e.attempts
        → ports.jobs.find w.jobs e.job.publish_job_id ≡ some job
        → SettledAt e.job.publish_job_id (retry fuel runs e w)
    unfolding retry
    retry-settled runs zero e w job readable enough left found = absurd (omega arith)
    retry-settled runs (suc fuel) e w job readable enough left found =
        let out = process (runs e.attempts_made) e w in
        let (row, there, v) = process-Verdict (runs e.attempts_made) e w job readable found in
        go_on-settled (retry fuel runs) e out.0 out.1 row
          (λ more.
            retry-settled runs fuel (one_more e) out.1 row
              (process-AllReadable (runs e.attempts_made) e w readable) (omega arith) more there)
          there v

    -- A queue entry as it is added, with its three attempts, of a job whose row exists, where the
    -- cipher reads what it has encrypted, and every stored token can be read at the start: after at
    -- most three attempts nothing of the entry is left in its queue, and the job is `published` or
    -- `failed`, whatever the platform answers.
    pub three_attempts_settle :
        (runs : ℕ → Run) (e : QueueEntry) (w : World ports) (job : PublishJob)
        → AllReadable w
        → e.attempts ≡ max_attempts
        → e.attempts_made ≡ 0
        → ports.jobs.find w.jobs e.job.publish_job_id ≡ some job
        → SettledAt e.job.publish_job_id (retry max_attempts runs e w)
    three_attempts_settle runs e w job readable three none_yet found =
        retry-settled runs max_attempts e w job readable (omega arith) (omega arith) found
