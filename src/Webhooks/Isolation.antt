-- ===== src/Webhooks/Isolation.antt =====
-- What an event may change.
use socialhub.Prelude.{
  ◌≡◌, refl, sym, ◌∙◌, ℕ, String, Bool, true, false, Option, none, some, List, [], ◌∷◌, Bool-cases,
  inl, inr, ◌⊎◌, subst, ◌&&◌,
}
use mathlib.Core.Option.{some-injective}
use socialhub.Schema.{RowId, Platform, platform_eq, PublishJobStatus, job_status_eq}
use socialhub.Database.{touch}
use socialhub.SocialToken.{SocialAccount}
use socialhub.Publishing.{PublishJob}
use socialhub.Webhooks.{
  WebhookPorts, World, MetaWebhookChange, MetaWebhookEntry, MetaWebhookPayload, Action,
  post_removed, account_revoked, unmapped, action_of, account_on, fail_removed, revocable, revoke,
  removable, mark_post_removed, mark_account_revoked, perform, handle_changes, handle_entries,
  handle_meta_event, or_empty,
}

-- What an event of a platform may do to an account: nothing, or the account is on the platform and
-- is revoked.
abbrev pub AccountStep : Platform → Option SocialAccount → Option SocialAccount → Type 0
AccountStep p o t =
    (t ≡ o)
    ⊎ ((a : SocialAccount) × (o ≡ some a)
        × (platform_eq a.platform p ≡ true)
        × (t ≡ some (revoke a)))

-- What it may do to a job: nothing, or the job was published on the platform and has failed now.
abbrev pub JobStep :
    Platform → (on : PublishJob → Bool) → Option PublishJob → Option PublishJob → Type 0
JobStep p on o t =
    (t ≡ o)
    ⊎ ((j : PublishJob) × (o ≡ some j)
        × (job_status_eq j.status PublishJobStatus.published ≡ true)
        × (on j ≡ true)
        × (t ≡ some (fail_removed p j)))

and_left : (a b : Bool) → (a && b) ≡ true → a ≡ true
and_left true b h = refl
and_left false b h = cc

and_right : (a b : Bool) → (a && b) ≡ true → b ≡ true
and_right true b h = h
and_right false b h = cc

touch-AccountStep :
    (p : Platform) (user : String) (o : Option SocialAccount)
    → AccountStep p o (touch (revocable p user) revoke o)
touch-AccountStep p user none = inl refl
touch-AccountStep p user (some a) = elim (Bool-cases (revocable p user a)) [
  | inl e ↦ inr (a, refl, and_left (platform_eq a.platform p) _ e, rw e refl)
  | inr e ↦ inl (rw e refl)
]

AccountStep-trans :
    (p : Platform) (o t u : Option SocialAccount)
    → AccountStep p o t
    → AccountStep p t u
    → AccountStep p o u
AccountStep-trans p o t u (inl e) (inl f) = inl (f ∙ e)
AccountStep-trans p o t u (inl e) (inr (a, f, q, g)) = inr (a, sym e ∙ f, q, g)
AccountStep-trans p o t u (inr (a, e, q, g)) (inl f) = inr (a, e, q, f ∙ g)
AccountStep-trans p o t u (inr (a, e, q, g)) (inr (b, f, r, h)) =
    let same : revoke a ≡ b = some-injective (revoke a) b (sym g ∙ f) in
    inr (a, e, q, subst (λ (x : SocialAccount). u ≡ some (revoke x)) (sym same) h)

AccountStep-on :
    (p q : Platform) (o t : Option SocialAccount)
    → AccountStep p o t
    → account_on q t ≡ account_on q o
AccountStep-on p q o t (inl e) = cc
AccountStep-on p q o t (inr (a, e, r, f)) = rw (e, f) refl

touch-JobStep :
    (p : Platform) (has on : PublishJob → Bool) (q : PublishJob → Bool) (o : Option PublishJob)
    → ((j : PublishJob)
        → q j ≡ (has j && (job_status_eq j.status PublishJobStatus.published && on j)))
    → JobStep p on o (touch q (fail_removed p) o)
touch-JobStep p has on q none h = inl refl
touch-JobStep p has on q (some j) h = elim (Bool-cases (q j)) [
  | inl e ↦
      let both = and_right (has j) _ (sym (h j) ∙ e) in
      inr (
        j,
        refl,
        and_left (job_status_eq j.status PublishJobStatus.published) (on j) both,
        and_right (job_status_eq j.status PublishJobStatus.published) (on j) both,
        rw e refl,
      )
  | inr e ↦ inl (rw e refl)
]

failed_is_not_published :
    (p : Platform) (j k : PublishJob)
    → fail_removed p j ≡ k
    → ¬ (job_status_eq k.status PublishJobStatus.published ≡ true)
failed_is_not_published p j k e h =
    let z : job_status_eq (fail_removed p j).status PublishJobStatus.published ≡ true =
      subst (λ (x : PublishJob). job_status_eq x.status PublishJobStatus.published ≡ true) (sym e)
        h in
    cc

JobStep-trans :
    (p : Platform) (on after : PublishJob → Bool) (o t u : Option PublishJob)
    → ((j : PublishJob) → after j ≡ on j)
    → JobStep p on o t
    → JobStep p after t u
    → JobStep p on o u
JobStep-trans p on after o t u k (inl e) (inl f) = inl (f ∙ e)
JobStep-trans p on after o t u k (inl e) (inr (j, f, s, r, g)) =
    inr (j, sym e ∙ f, s, sym (k j) ∙ r, g)
JobStep-trans p on after o t u k (inr (j, e, s, r, g)) (inl f) = inr (j, e, s, r, f ∙ g)
JobStep-trans p on after o t u k (inr (j, e, s, r, g)) (inr (i, f, z, q, h)) =
    absurd (failed_is_not_published p j i (some-injective (fail_removed p j) i (sym g ∙ f)) z)

module _ (ports : WebhookPorts) where
  -- A job whose account is on the platform.
  abbrev pub on_platform : Platform → World ports → PublishJob → Bool
  on_platform p w j = account_on p (ports.accounts.find w.accounts j.social_account_id)

  -- Jobs fail and accounts are revoked, on the platform only; nothing else changes.
  abbrev pub Isolated : Platform → World ports → World ports → Type 0
  Isolated p w v =
      ((k : RowId)
        → AccountStep p (ports.accounts.find w.accounts k) (ports.accounts.find v.accounts k))
      × ((k : RowId)
          → JobStep p (on_platform p w) (ports.jobs.find w.jobs k) (ports.jobs.find v.jobs k))

  Isolated-refl : (p : Platform) (w : World ports) → Isolated p w w
  Isolated-refl p w = ((λ k. inl refl), (λ k. inl refl))

  Isolated-trans :
      (p : Platform) (u v w : World ports) → Isolated p u v → Isolated p v w → Isolated p u w
  Isolated-trans p u v w (a, b) (c, d) = (
    (λ k. AccountStep-trans p _ _ _ (a k) (c k)),
    (λ k.
        JobStep-trans p (on_platform p u) (on_platform p v) _ _ _
          (λ j. AccountStep-on p p _ _ (a j.social_account_id)) (b k) (d k)),
  )

  perform-Isolated :
      (p : Platform) (a : Action) (w : World ports) → Isolated p w (perform ports p a w).1
  unfolding perform mark_post_removed mark_account_revoked
  perform-Isolated p (post_removed post) w = (
    (λ k. inl refl),
    (λ k.
        rw
          (ports.jobs.find-update_all w.jobs (removable ports w.accounts p post) (fail_removed p) k)
          (touch-JobStep p _ (on_platform p w) (removable ports w.accounts p post)
            (ports.jobs.find w.jobs k) (λ j. refl))),
  )
  perform-Isolated p (account_revoked user) w = (
    (λ k.
        rw (ports.accounts.find-update_all w.accounts (revocable p user) revoke k)
          (touch-AccountStep p user (ports.accounts.find w.accounts k))),
    (λ k. inl refl),
  )
  perform-Isolated p unmapped w = Isolated-refl p w

  handle_changes-Isolated :
      (p : Platform) (e : MetaWebhookEntry) (cs : List MetaWebhookChange) (n : ℕ) (w : World ports)
      → Isolated p w (handle_changes ports p e cs (n, w)).1
  unfolding handle_changes
  handle_changes-Isolated p e [] n w = Isolated-refl p w
  handle_changes-Isolated p e (c ∷ cs) n w =
      Isolated-trans p w (perform ports p (action_of e c) w).1 _
        (perform-Isolated p (action_of e c) w) (handle_changes-Isolated p e cs _ _)

  handle_entries-Isolated :
      (p : Platform) (es : List MetaWebhookEntry) (n : ℕ) (w : World ports)
      → Isolated p w (handle_entries ports p es (n, w)).1
  unfolding handle_entries
  handle_entries-Isolated p [] n w = Isolated-refl p w
  handle_entries-Isolated p (e ∷ es) n w =
      Isolated-trans p w (handle_changes ports p e (or_empty e.changes) (n, w)).1 _
        (handle_changes-Isolated p e (or_empty e.changes) n w) (handle_entries-Isolated p es _ _)

  -- Whatever an event of a platform says, it changes only accounts on the platform, which it
  -- revokes, and published jobs whose account is on the platform, which it marks as failed.
  pub handle_meta_event-Isolated :
      (p : Platform) (payload : MetaWebhookPayload) (w : World ports)
      → Isolated p w (handle_meta_event ports p payload w).1
  unfolding handle_meta_event
  handle_meta_event-Isolated p payload w = handle_entries-Isolated p (or_empty payload.entry) 0 w
