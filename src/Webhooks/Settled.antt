-- ===== src/Webhooks/Settled.antt =====
-- An event of which nothing is left to do.
use socialhub.Prelude.{
  ◌≡◌, refl, ◌∙◌, ℕ, String, false, Option, none, some, List, [], ◌∷◌, Bool-cases, inl, inr, All,
}
use socialhub.Schema.{RowId, Platform, platform_eq}
use socialhub.Database.{touch}
use socialhub.Database.Every.{
  Every, Holds-map, touch-Holds_new, touch_idle, count_every, update_all-Every,
}
use socialhub.SocialToken.{SocialAccount}
use socialhub.Publishing.{PublishJob}
use socialhub.Webhooks.{
  WebhookPorts, World, MetaWebhookChange, MetaWebhookEntry, Action, post_removed, account_revoked,
  unmapped, action_of, account_on, has_text, fail_removed, revocable, revoke, removable,
  mark_post_removed, mark_account_revoked, perform, handle_changes, handle_entries, or_empty,
}

account_on-touch :
    (p q : Platform) (user : String) (o : Option SocialAccount)
    → account_on p (touch (revocable q user) revoke o) ≡ account_on p o
account_on-touch p q user none = refl
account_on-touch p q user (some a) = elim (Bool-cases (revocable q user a)) [
  | inl e ↦ rw e refl
  | inr e ↦ rw e refl
]

revoked_is_not_revocable :
    (p : Platform) (user : String) (a : SocialAccount) → revocable p user (revoke a) ≡ false
revoked_is_not_revocable p user a = elim (Bool-cases (platform_eq a.platform p)) [
  | inl e ↦ elim (Bool-cases (has_text user a.external_user_id)) [
    | inl f ↦ rw (e, f) refl
    | inr f ↦ rw (e, f) refl
  ]
  | inr e ↦ rw e refl
]

module _ (ports : WebhookPorts) where
  -- No row is left that the action would change.
  abbrev pub Settled : Platform → Action → World ports → Type 0
  Settled p (post_removed post) w =
      Every ports.jobs w.jobs (λ j. removable ports w.accounts p post j ≡ false)
  Settled p (account_revoked user) w =
      Every ports.accounts w.accounts (λ a. revocable p user a ≡ false)
  Settled p unmapped w = Unit {0}

  abbrev pub Same : World ports → World ports → Type 0
  Same w v =
      ((k : RowId) → ports.jobs.find v.jobs k ≡ ports.jobs.find w.jobs k)
      × ((k : RowId) → ports.accounts.find v.accounts k ≡ ports.accounts.find w.accounts k)

  pub failed_is_not_removable :
      (s : ports.accounts.State) (p q : Platform) (post : String) (j : PublishJob)
      → removable ports s p post (fail_removed q j) ≡ false
  failed_is_not_removable s p q post j = elim (Bool-cases (has_text post j.external_post_id)) [
    | inl e ↦ rw e refl
    | inr e ↦ rw e refl
  ]

  pub perform-Settles :
      (p : Platform) (a : Action) (w : World ports) → Settled p a (perform ports p a w).1
  unfolding perform mark_post_removed mark_account_revoked
  perform-Settles p (post_removed post) w = λ k.
      rw (ports.jobs.find-update_all w.jobs (removable ports w.accounts p post) (fail_removed p) k)
        (touch-Holds_new (λ j. removable ports w.accounts p post j ≡ false)
          (removable ports w.accounts p post) (fail_removed p) (ports.jobs.find w.jobs k)
          (λ j. failed_is_not_removable w.accounts p p post j) (λ j e. e))
  perform-Settles p (account_revoked user) w = λ k.
      rw (ports.accounts.find-update_all w.accounts (revocable p user) revoke k) (
        touch-Holds_new (λ a. revocable p user a ≡ false) (revocable p user) revoke
          (ports.accounts.find w.accounts k) (λ a. revoked_is_not_revocable p user a) (λ a e. e))
  perform-Settles p unmapped w = tt

  pub perform-Settled :
      (p q : Platform) (a b : Action) (w : World ports)
      → Settled p a w
      → Settled p a (perform ports q b w).1
  unfolding perform mark_post_removed mark_account_revoked
  perform-Settled p q (post_removed post) (post_removed other) w h =
      update_all-Every ports.jobs w.jobs (removable ports w.accounts q other) (fail_removed q) _
        (λ j e. failed_is_not_removable w.accounts p q post j) h
  perform-Settled p q (post_removed post) (account_revoked user) w h = λ k.
      Holds-map _ _ (ports.jobs.find w.jobs k)
        (λ j e. rw (ports.accounts.find-update_all, account_on-touch p q user) e) (h k)
  perform-Settled p q (account_revoked user) (post_removed other) w h = h
  perform-Settled p q (account_revoked user) (account_revoked other) w h =
      update_all-Every ports.accounts w.accounts (revocable q other) revoke _
        (λ a e. revoked_is_not_revocable p user a) h
  perform-Settled p q unmapped b w h = tt
  perform-Settled p q (post_removed post) unmapped w h = h
  perform-Settled p q (account_revoked user) unmapped w h = h

  pub perform_idle :
      (p : Platform) (a : Action) (w : World ports)
      → Settled p a w
      → ((perform ports p a w).0 ≡ false) × Same w (perform ports p a w).1
  unfolding perform mark_post_removed mark_account_revoked
  perform_idle p (post_removed post) w h = (
    rw (count_every ports.jobs w.jobs (removable ports w.accounts p post) h) refl,
    (
      λ k.
          ports.jobs.find-update_all w.jobs (removable ports w.accounts p post) (fail_removed p) k
          ∙ touch_idle (removable ports w.accounts p post) (fail_removed p)
              (ports.jobs.find w.jobs k) (h k),
      λ k. refl,
    ),
  )
  perform_idle p (account_revoked user) w h = (
    rw (count_every ports.accounts w.accounts (revocable p user) h) refl,
    (
      λ k. refl,
      λ k.
          ports.accounts.find-update_all w.accounts (revocable p user) revoke k
          ∙ touch_idle (revocable p user) revoke (ports.accounts.find w.accounts k) (h k),
    ),
  )
  perform_idle p unmapped w h = (refl, ((λ k. refl), (λ k. refl)))

  pub Same-trans : (u v w : World ports) → Same u v → Same v w → Same u w
  Same-trans u v w (a, b) (c, d) = ((λ k. c k ∙ a k), (λ k. d k ∙ b k))

  -- Every change of an entry, and of a list of entries, is settled.
  abbrev pub ChangesSettled :
      Platform → MetaWebhookEntry → List MetaWebhookChange → World ports → Type 0
  ChangesSettled p e cs w = All (λ (c : MetaWebhookChange). Settled p (action_of e c) w) cs

  abbrev pub EntriesSettled : Platform → List MetaWebhookEntry → World ports → Type 0
  EntriesSettled p es w =
      All (λ (e : MetaWebhookEntry). ChangesSettled p e (or_empty e.changes) w) es

  pub handle_changes-Settled :
      (p q : Platform) (a : Action) (e : MetaWebhookEntry) (cs : List MetaWebhookChange) (n : ℕ)
      (w : World ports)
      → Settled p a w
      → Settled p a (handle_changes ports q e cs (n, w)).1
  unfolding handle_changes
  handle_changes-Settled p q a e [] n w h = h
  handle_changes-Settled p q a e (c ∷ cs) n w h =
      handle_changes-Settled p q a e cs _ _ (perform-Settled p q a (action_of e c) w h)

  pub handle_entries-Settled :
      (p q : Platform) (a : Action) (es : List MetaWebhookEntry) (n : ℕ) (w : World ports)
      → Settled p a w
      → Settled p a (handle_entries ports q es (n, w)).1
  unfolding handle_entries
  handle_entries-Settled p q a [] n w h = h
  handle_entries-Settled p q a (e ∷ es) n w h =
      handle_entries-Settled p q a es _ _
        (handle_changes-Settled p q a e (or_empty e.changes) n w h)
