-- ===== src/Publishing/Effects.antt =====
-- What one execution may change: the rows it writes, the post that it makes, and who is told.
use socialhub.Prelude.{
  String, ◌≡◌, refl, Bool, true, false, List, ◌∷◌, Result, ok, err, ◌⊎◌, inl, inr, Option, some,
  none, arith,
}
use socialhub.Schema.{RowId, Millis}
use socialhub.Database.{Table, update}
use socialhub.SocialToken.{
  SocialAccount, TokenError, reconnect_required, other, ensure_fresh_access_token,
}
use socialhub.Publishing.{
  Ports, World, PublishJob, PublishRequest, Sent, JobError, JobData, CarouselPost, ContentVariant,
  carousel_gone, target_gone, targets_neither, update_job, PublishAnswer, accepted, refused,
  doubtful, Notice, NoticeType,
}
use socialhub.Publishing.Dispatch.{is_scheduled}
use socialhub.Publishing.Execute.{
  Run, Context, Outcome, returned, thrown, carousel_target, variant_target, notify, Recipient,
  is_final, fail_job, begin_attempt, settle_publish, after_token, attempt_failed, attempt_publish,
  execute_carousel_publish, publish_carousel, recipient_id, publish_variant, run_job, execute_found,
  execute_publish,
}

-- A series of writes to one row, none of which makes it `scheduled`.
pub data Writes (jobs : Table PublishJob) (id : RowId) (s : jobs.State) : jobs.State → Type 0 where
  here : Writes jobs id s s
  write :
      {t : jobs.State}
      → Writes jobs id s t
      → (f : PublishJob → PublishJob) → ((r : PublishJob) → is_scheduled (f r) ≡ false)
      → Writes jobs id s (update jobs t id f)

pub Writes-trans :
    (jobs : Table PublishJob) (id : RowId) {s t u : jobs.State}
    → Writes jobs id s t
    → Writes jobs id t u
    → Writes jobs id s u
Writes-trans jobs id a here = a
Writes-trans jobs id a (write b f h) = write (Writes-trans jobs id a b) f h

-- What one execution adds to the posts: nothing; or one post for the job, confirmed where the
-- handler returns and unconfirmed where it throws.
abbrev pub PostsOnce : RowId → List Sent → Outcome → List Sent → Type 0
PostsOnce id before outcome after =
    (after ≡ before)
    ⊎ ((request : PublishRequest) × (((outcome ≡ returned)
            × (after ≡ record { confirmed = true; job_id = id; request = request } ∷ before))
          ⊎ ((outcome ≡ thrown)
              × (after ≡ record { confirmed = false; job_id = id; request = request } ∷ before))))

-- The accounts are as they were, or as the token service leaves them for the job's account.
abbrev pub Served :
    (ports : Ports)
    → Millis
    → Option PublishJob
    → (before after : ports.tokens.accounts.State) → Type 0
Served ports now found before after =
    (after ≡ before)
    ⊎ ((job : PublishJob) × (account : SocialAccount) × (found ≡ some job)
        × (ports.tokens.accounts.find before job.social_account_id ≡ some account)
        × (after
            ≡ (ensure_fresh_access_token ports.tokens before now job.social_account_id account).1))

-- Nobody, or one user, has been told.
abbrev pub TellsOnce : (before after : List Notice) → Type 0
TellsOnce before after = (after ≡ before) ⊎ ((notice : Notice) × (after ≡ notice ∷ before))

-- One execution of job `id`, whose row is `found`, from `w` to the outcome and world `out`.
pub record Effect {ports : Ports} (now : Millis) (found : Option PublishJob) (id : RowId)
    (w : World ports) (out : Outcome × World ports) : Type 0 where
  pub jobs : Writes ports.jobs id w.jobs out.1.jobs
  pub accounts : Served ports now found w.accounts out.1.accounts
  pub sent : PostsOnce id w.sent out.0 out.1.sent
  pub notices : TellsOnce w.notices out.1.notices
  pub queue : out.1.queue ≡ w.queue
  pub carousels : out.1.carousels ≡ w.carousels
  pub variants : out.1.variants ≡ w.variants
  pub authors : out.1.authors ≡ w.authors

-- A target names an account that is stored.
module _ {ports : Ports} (w : World ports) where
  pub carousel_target-stored :
      (job : PublishJob) (post : CarouselPost) (account : SocialAccount)
      → carousel_target w job ≡ some (post, account)
      → ports.tokens.accounts.find w.accounts job.social_account_id ≡ some account
  unfolding carousel_target
  carousel_target-stored job post account h = ground arith

  pub variant_target-stored :
      (variant_id : RowId) (job : PublishJob) (variant : ContentVariant) (url : String)
      (account : SocialAccount)
      → variant_target w variant_id job ≡ some (variant, url, account)
      → ports.tokens.accounts.find w.accounts job.social_account_id ≡ some account
  unfolding variant_target
  variant_target-stored variant_id job variant url account h = ground arith

  notify-TellsOnce :
      (recipient : Recipient) (type : NoticeType) (title : String)
      → TellsOnce w.notices (notify recipient type title w).notices
  unfolding notify
  notify-TellsOnce recipient type title = told (recipient_id w recipient) refl
    where
      told :
          (o : Option RowId)
          → recipient_id w recipient ≡ o
          → TellsOnce w.notices (notify recipient type title w).notices
      told none e = inl (rw (notify, e) refl)
      told (some user_id) e =
          inr (record { user_id = user_id; type = type; title = title }, rw (notify, e) refl)

module _ {ports : Ports} (now : Millis) (found : Option PublishJob) (id : RowId) where
  fail_job-Effect :
      (e : JobError) (w : World ports) → Effect now found id w (returned, fail_job id e w)
  unfolding fail_job
  fail_job-Effect e w = record {
    jobs = write here _ (λ r. refl);
    accounts = inl refl;
    sent = inl refl;
    notices = inl refl;
    queue = refl;
    carousels = refl;
    variants = refl;
    authors = refl;
  }

  -- From a world in which the job's row is `processing`, and the token service has done its part.
  begin_attempt-Effect :
      (ctx : Context) (w : World ports) (out : Outcome × World ports)
      → Effect now found id (begin_attempt id ctx w) out
      → Effect now found id w out
  unfolding begin_attempt
  begin_attempt-Effect ctx w out h = record {
    jobs = Writes-trans ports.jobs id (write here _ (λ r. refl)) h.jobs;
    accounts = h.accounts;
    sent = h.sent;
    notices = h.notices;
    queue = h.queue;
    carousels = h.carousels;
    variants = h.variants;
    authors = h.authors;
  }

  module _ (w : World ports) (accounts : ports.tokens.accounts.State)
      (served : Served ports now found w.accounts accounts) (recipient : Recipient) where
    abbrev fresh : World ports
    fresh = record w { accounts = accounts }

    -- The `catch`, after a call that has made the posts `sent`.
    attempt_failed-Effect :
        (final : Bool) (message : String) (sent : List Sent)
        → PostsOnce id w.sent thrown sent
        → Effect now found id w
            (attempt_failed final id recipient message (record fresh { sent = sent }))
    unfolding attempt_failed
    attempt_failed-Effect true message sent once = record {
      jobs = write here _ (λ r. refl);
      accounts = served;
      sent = once;
      notices = notify-TellsOnce w recipient _ _;
      queue = refl;
      carousels = refl;
      variants = refl;
      authors = refl;
    }
    attempt_failed-Effect false message sent once = record {
      jobs = write here _ (λ r. refl);
      accounts = served;
      sent = once;
      notices = inl refl;
      queue = refl;
      carousels = refl;
      variants = refl;
      authors = refl;
    }

    settle_publish-Effect :
        (ctx : Context) (request : PublishRequest) (answer : PublishAnswer)
        → Effect now found id w (settle_publish id ctx request recipient answer fresh)
    unfolding settle_publish
    settle_publish-Effect ctx request (accepted post) = record {
      jobs = write here _ (λ r. refl);
      accounts = served;
      sent = inr (request, inl (refl, refl));
      notices = notify-TellsOnce w recipient _ _;
      queue = refl;
      carousels = refl;
      variants = refl;
      authors = refl;
    }
    settle_publish-Effect ctx request (refused message) =
        attempt_failed-Effect (is_final ctx) message w.sent (inl refl)
    settle_publish-Effect ctx request (doubtful message) =
        attempt_failed-Effect (is_final ctx) message _ (inr (request, inr (refl, refl)))

  after_token-Effect :
      (run : Run) (ctx : Context) (recipient : Recipient) (account : SocialAccount)
      (request : String → PublishRequest) (w : World ports)
      (answer : Result TokenError String × ports.tokens.accounts.State)
      → Served ports now found w.accounts answer.1
      → Effect now found id w (after_token run id ctx account recipient request w answer)
  unfolding after_token
  after_token-Effect run ctx recipient account request w (ok token, accounts) served =
      settle_publish-Effect w accounts served recipient ctx (request token) _
  after_token-Effect run ctx recipient account request w
        (err (reconnect_required p status), accounts) served =
      record {
        jobs = write here _ (λ r. refl);
        accounts = served;
        sent = inl refl;
        notices = notify-TellsOnce w recipient _ _;
        queue = refl;
        carousels = refl;
        variants = refl;
        authors = refl;
      }
  after_token-Effect run ctx recipient account request w (err other, accounts) served = record {
    jobs = here;
    accounts = served;
    sent = inl refl;
    notices = inl refl;
    queue = refl;
    carousels = refl;
    variants = refl;
    authors = refl;
  }

module _ {ports : Ports} (run : Run) (id : RowId) (ctx : Context) (job : PublishJob)
    (given : JobData) (w : World ports) where
  abbrev Done : Outcome × World ports → Type 0
  Done = Effect run.now (some job) id w

  begun-Effect :
      (account : SocialAccount) (recipient : Recipient) (request : String → PublishRequest)
      → ports.tokens.accounts.find w.accounts job.social_account_id ≡ some account
      → Done (
          attempt_publish run id ctx job.social_account_id account recipient request
            (begin_attempt id ctx w))
  unfolding attempt_publish
  begun-Effect account recipient request stored =
      let served : Served ports run.now (some job) (begin_attempt id ctx w).accounts
          (ensure_fresh_access_token ports.tokens (begin_attempt id ctx w).accounts run.now
            job.social_account_id account).1 =
        unfold begin_attempt update_job in inr (job, account, refl, stored, refl) in
      begin_attempt-Effect run.now (some job) id ctx w _ (
        after_token-Effect run.now (some job) id run ctx recipient account request
          (begin_attempt id ctx w) _ served)

  publish_carousel-Effect :
      (target : Option (CarouselPost × SocialAccount))
      → carousel_target w job ≡ target
      → Done (publish_carousel run id job given ctx w target)
  unfolding publish_carousel
  publish_carousel-Effect none h = fail_job-Effect run.now (some job) id carousel_gone w
  publish_carousel-Effect (some (post, account)) h =
      begun-Effect account _ _ (carousel_target-stored w job post account h)

  publish_variant-Effect :
      (variant_id : RowId) (target : Option (ContentVariant × String × SocialAccount))
      → variant_target w variant_id job ≡ target
      → Done (publish_variant run id job given ctx w target)
  unfolding publish_variant
  publish_variant-Effect variant_id none h = fail_job-Effect run.now (some job) id target_gone w
  publish_variant-Effect variant_id (some (variant, url, account)) h =
      begun-Effect account _ _ (variant_target-stored w variant_id job variant url account h)

  run_job-Effect : (c v : Option RowId) → Done (run_job run id job given ctx w c v)
  unfolding run_job execute_carousel_publish
  run_job-Effect (some c) v = publish_carousel-Effect _ refl
  run_job-Effect none none = fail_job-Effect run.now (some job) id targets_neither w
  run_job-Effect none (some v) = publish_variant-Effect v _ refl

module _ {ports : Ports} (run : Run) (given : JobData) (ctx : Context) where
  execute_found-Effect :
      (w : World ports) (found : Option PublishJob)
      → Effect run.now found given.publish_job_id w (execute_found run given ctx w found)
  unfolding execute_found
  execute_found-Effect w none = record {
    jobs = here;
    accounts = inl refl;
    sent = inl refl;
    notices = inl refl;
    queue = refl;
    carousels = refl;
    variants = refl;
    authors = refl;
  }
  execute_found-Effect w (some job) = run_job-Effect run given.publish_job_id ctx job given w _ _

  -- Every execution, on every branch: of the jobs it writes only its own row, which it never makes
  -- `scheduled`; the accounts are as they were, or as the token service leaves them for the account
  -- of the job; at most one user is told; the queues, the carousels, the variants and the assets
  -- are left alone; and at most one post is made, with the handler returning where the call of the
  -- adapter returned, and throwing where the call threw although the post was made.
  pub execute_publish-Effect :
      (w : World ports)
      → Effect run.now
          (ports.jobs.find w.jobs given.publish_job_id)
          given.publish_job_id
          w
          (execute_publish run given ctx w)
  unfolding execute_publish
  execute_publish-Effect w = execute_found-Effect w _
