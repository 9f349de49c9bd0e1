-- ===== src/Webhooks/Redelivery.antt =====
-- An event that is delivered again.
use socialhub.Prelude.{◌≡◌, refl, ◌∙◌, ◌+◌, if◌then◌else◌, ℕ, List, [], ◌∷◌}
use socialhub.Schema.{Platform}
use socialhub.Webhooks.{
  WebhookPorts, World, MetaWebhookChange, MetaWebhookEntry, MetaWebhookPayload, Action, action_of,
  perform, handle_changes, handle_entries, handle_meta_event, or_empty,
}
use socialhub.Webhooks.Settled.{
  Settled, Same, Same-trans, ChangesSettled, EntriesSettled, perform-Settles, perform-Settled,
  perform_idle, handle_changes-Settled, handle_entries-Settled,
}

module _ (ports : WebhookPorts) where
  pub handle_changes-Settles :
      (p : Platform) (e : MetaWebhookEntry) (cs : List MetaWebhookChange) (n : ℕ) (w : World ports)
      → ChangesSettled ports p e cs (handle_changes ports p e cs (n, w)).1
  unfolding handle_changes
  handle_changes-Settles p e [] n w = tt
  handle_changes-Settles p e (c ∷ cs) n w = (
    handle_changes-Settled ports p p (action_of e c) e cs _ _
        (perform-Settles ports p (action_of e c) w),
    handle_changes-Settles p e cs _ _,
  )

  changes_map :
      (p : Platform) (e : MetaWebhookEntry) (cs : List MetaWebhookChange) (w v : World ports)
      → ((a : Action) → Settled ports p a w → Settled ports p a v)
      → ChangesSettled ports p e cs w
      → ChangesSettled ports p e cs v
  changes_map p e [] w v f h = tt
  changes_map p e (c ∷ cs) w v f (h, hs) = (f (action_of e c) h, changes_map p e cs w v f hs)

  entries_map :
      (p : Platform) (l : List MetaWebhookEntry) (w v : World ports)
      → ((a : Action) → Settled ports p a w → Settled ports p a v)
      → EntriesSettled ports p l w
      → EntriesSettled ports p l v
  entries_map p [] w v f h = tt
  entries_map p (e ∷ l) w v f (h, hs) =
      (changes_map p e (or_empty e.changes) w v f h, entries_map p l w v f hs)

  handle_entries-Settles :
      (p : Platform) (es : List MetaWebhookEntry) (n : ℕ) (w : World ports)
      → EntriesSettled ports p es (handle_entries ports p es (n, w)).1
  unfolding handle_entries
  handle_entries-Settles p [] n w = tt
  handle_entries-Settles p (e ∷ es) n w = (
    changes_map p e (or_empty e.changes) (handle_changes ports p e (or_empty e.changes) (n, w)).1 _
        (λ a h. handle_entries-Settled ports p p a es _ _ h)
        (handle_changes-Settles p e (or_empty e.changes) n w),
    handle_entries-Settles p es _ _,
  )

  changes_idle :
      (p : Platform) (e : MetaWebhookEntry) (cs : List MetaWebhookChange) (n : ℕ) (w : World ports)
      → ChangesSettled ports p e cs w
      → ((handle_changes ports p e cs (n, w)).0 ≡ n)
        × Same ports w (handle_changes ports p e cs (n, w)).1
  unfolding handle_changes
  changes_idle p e [] n w h = (refl, ((λ k. refl), (λ k. refl)))
  changes_idle p e (c ∷ cs) n w (h, hs) =
      let (acted, same) = perform_idle ports p (action_of e c) w h in
      let v = (perform ports p (action_of e c) w).1 in
      let m = if (perform ports p (action_of e c) w).0 then n + 1 else n in
      let q : m ≡ n = rw acted refl in
      let rest =
        changes_idle p e cs m v
          (changes_map p e cs w v (λ a k. perform-Settled ports p p a (action_of e c) w k) hs) in
      (rest.0 ∙ q, Same-trans ports w v _ same rest.1)

  entries_idle :
      (p : Platform) (es : List MetaWebhookEntry) (n : ℕ) (w : World ports)
      → EntriesSettled ports p es w
      → ((handle_entries ports p es (n, w)).0 ≡ n)
        × Same ports w (handle_entries ports p es (n, w)).1
  unfolding handle_entries
  entries_idle p [] n w h = (refl, ((λ k. refl), (λ k. refl)))
  entries_idle p (e ∷ es) n w (h, hs) =
      let cs = or_empty e.changes in
      let v = (handle_changes ports p e cs (n, w)).1 in
      let (m, same) = changes_idle p e cs n w h in
      let rest =
        entries_idle p es (handle_changes ports p e cs (n, w)).0 v
          (entries_map p es w v (λ a q. handle_changes-Settled ports p p a e cs n w q) hs) in
      (rest.0 ∙ m, Same-trans ports w v _ same rest.1)

  -- Deliveries of events, one after the other.
  unfoldable pub deliver_all : List (Platform × MetaWebhookPayload) → World ports → World ports
  deliver_all [] w = w
  deliver_all ((p, payload) ∷ l) w = deliver_all l (handle_meta_event ports p payload w).1

  delivered_kept :
      (p : Platform) (es : List MetaWebhookEntry) (l : List (Platform × MetaWebhookPayload))
      (w : World ports)
      → EntriesSettled ports p es w
      → EntriesSettled ports p es (deliver_all l w)
  unfolding deliver_all handle_meta_event
  delivered_kept p es [] w h = h
  delivered_kept p es ((q, payload) ∷ l) w h = delivered_kept p es l _ (
      entries_map p es w _
        (λ a k. handle_entries-Settled ports p q a (or_empty payload.entry) 0 w k) h)

  -- An event that is delivered a second time is not acted on: it counts 0, and every job and every
  -- account stays as it is, whatever other events were delivered in between.
  pub handle_meta_event-again :
      (p : Platform) (payload : MetaWebhookPayload) (between : List (Platform × MetaWebhookPayload))
      (w : World ports)
      → let v = deliver_all between (handle_meta_event ports p payload w).1 in
        ((handle_meta_event ports p payload v).0 ≡ 0)
        × Same ports v (handle_meta_event ports p payload v).1
  unfolding handle_meta_event
  handle_meta_event-again p payload between w = entries_idle p (or_empty payload.entry) 0 _ (
      delivered_kept p (or_empty payload.entry) between _
        (handle_entries-Settles p (or_empty payload.entry) 0 w))
