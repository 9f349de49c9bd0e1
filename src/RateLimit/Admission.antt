-- ===== src/RateLimit/Admission.antt =====
-- What the limit of an organization lets through in a window.
use socialhub.Prelude.{
  ℕ, suc, ◌+◌, ◌-◌, ◌<◌, ◌≡◌, refl, Bool, true, false, Option, none, some, List, [], ◌∷◌, ltb,
  if◌then◌else◌, arith, ◌==◌, ◌&&◌, Bool-cases, inl, inr, Option-cases, subst,
}
use socialhub.Schema.{RowId, Millis}
use socialhub.RateLimit.{Key, org_requests, key_eq, Redis, all_up, bucket, hit}
use socialhub.RateLimit.Counting.{Counted, hit-own, hit-other, Counted-same}
use socialhub.RateLimit.Guard.{RateConfig, is_allowed, decided, can_activate}

-- A request: the organization of its user, if it has one, and when it comes.
pub record Arrival : Type 0 where
  pub org : Option RowId
  pub at : Millis

abbrev pub min : ℕ → ℕ → ℕ
min a b = if ltb a b then a else b

module _ (config : RateConfig) (o : RowId) (b : ℕ) where
  -- A request of organization `o` in window `b`.
  abbrev pub concerns : Arrival → Bool
  concerns r = elim r.org [
    | none ↦ false
    | some p ↦ p == o && (bucket r.at config.window_seconds == b)
  ]

  -- How many of the requests are.
  unfoldable pub requested : List Arrival → ℕ
  requested [] = 0
  requested (r ∷ rs) = (if concerns r then 1 else 0) + requested rs

module _ (redis : Redis) (config : RateConfig) (o : RowId) (b : ℕ) where
  -- How many of these the guard lets through when it decides on all requests in turn.
  unfoldable pub admitted : redis.State → List Arrival → ℕ
  admitted s [] = 0
  admitted s (r ∷ rs) =
      let d = can_activate redis config all_up r.org r.at s in
      (if concerns config o b r && is_allowed d.0 then 1 else 0) + admitted d.1 rs

  decided-state : (r : Option ℕ × redis.State) → (decided redis config r).1 ≡ r.1
  unfolding decided
  decided-state (none, s) = refl
  decided-state (some n, s) = refl

  decided-count :
      (r : Option ℕ × redis.State) (n : ℕ)
      → r.0 ≡ some (suc n)
      → is_allowed (decided redis config r).0 ≡ ltb n config.limit
  unfolding decided
  decided-count (none, s) n h = cc
  decided-count (some m, s) n h = ground (arith, h)

  can_activate-own :
      (s : redis.State) (n : ℕ) (at : Millis)
      → 0 < config.window_seconds
      → bucket at config.window_seconds ≡ b
      → Counted redis config.window_seconds (org_requests o b) b s n
      → (is_allowed (can_activate redis config all_up (some o) at s).0 ≡ ltb n config.limit)
        × Counted redis config.window_seconds
            (org_requests o b)
            b
            (can_activate redis config all_up (some o) at s).1
            (suc n)
  unfolding can_activate
  can_activate-own s n at p q c =
      let k : Key = org_requests o b in
      let h = hit-own redis config.window_seconds k b s n at p q c in
      let r = hit redis all_up config.window_seconds s at k in
      rw q (rw (decided-state r) (decided-count r n h.0, h.1))

  can_activate-other :
      (s : redis.State) (r : Arrival)
      → concerns config o b r ≡ false
      → redis.entry (can_activate redis config all_up r.org r.at s).1 (org_requests o b)
        ≡ redis.entry s (org_requests o b)
  unfolding can_activate
  can_activate-other s r h = elim (Option-cases r.org) [
    | inl e ↦ rw e refl
    | inr (p, e) ↦
        let k : Key = org_requests p (bucket r.at config.window_seconds) in
        let q : key_eq k (org_requests o b) ≡ false =
          subst
            (λ x.
              (elim x [
                | none ↦ false
                | some p ↦ p == o && (bucket r.at config.window_seconds == b)
              ])
              ≡ false)
            e h in
        rw (e, decided-state (hit redis all_up config.window_seconds s r.at k))
          (hit-other redis config.window_seconds (org_requests o b) b s k r.at q)
  ]

  concerned :
      (r : Arrival)
      → concerns config o b r ≡ true
      → (r.org ≡ some o) × (bucket r.at config.window_seconds ≡ b)
  concerned r h = ground arith

  admitted-Counted :
      (rs : List Arrival) (s : redis.State) (n : ℕ)
      → 0 < config.window_seconds
      → Counted redis config.window_seconds (org_requests o b) b s n
      → admitted s rs ≡ min (config.limit - n) (requested config o b rs)
  unfolding admitted requested
  admitted-Counted [] s n p c = ground arith
  admitted-Counted (r ∷ rs) s n p c = elim (Bool-cases (concerns config o b r)) [
    | inl e ↦
        let (f, q) = concerned r e in
        let (d, c') = can_activate-own s n r.at p q c in
        rw (e, f, d)
          (ground (
            arith,
            admitted-Counted rs (can_activate redis config all_up (some o) r.at s).1 (suc n) p c',
          ))
    | inr e ↦
        let s' = (can_activate redis config all_up r.org r.at s).1 in
        rw e (
          ground (
            arith,
            admitted-Counted rs s' n p (
                Counted-same redis config.window_seconds (org_requests o b) b s s' n
                  (can_activate-other s r e) c),
          ))
  ]

  -- Whatever requests come, of whatever organizations and in whatever order, an organization that
  -- has not been counted in a window has of its requests in this window exactly as many let
  -- through as there are, and as the limit allows. Redis answers every command, and the window is
  -- not empty.
  pub can_activate_fair :
      (s : redis.State) (rs : List Arrival)
      → 0 < config.window_seconds
      → redis.entry s (org_requests o b) ≡ none
      → admitted s rs ≡ min config.limit (requested config o b rs)
  can_activate_fair s rs p c = ground (arith, admitted-Counted rs s 0 p c)
