-- ===== src/RateLimit/Counting.antt =====
-- One counter over a window. The calls that hit it are counted, and nothing else changes it.
use socialhub.Prelude.{
  ℕ, zero, suc, ◌+◌, ◌*◌, ◌/◌, ◌≤◌, ◌<◌, ◌≡◌, refl, true, false, none, some, ltb, lt→ltb, arith,
  ◌==◌, inl, inr, Bool-cases, ap, ◌∙◌,
}
use socialhub.Schema.{Millis}
use socialhub.RateLimit.{
  Key, key_eq, incremented, Redis, all_up, bucket, peek, first_expiry, hit, key_eq_refl,
}
use native.Mathlib.Numerals.{add-one}
use native.Mathlib.Nat.{le-div_iff_mul-le, div-lt_iff_lt-mul}

-- A first hit in a window sets an expiry that no time of this window reaches.
pub same_window : (now t w : ℕ) → 0 < w → bucket now w ≡ bucket t w → now < t + w * 1000
same_window now t w p h =
    let q : ℕ = bucket t w in
    let lo : q * w ≤ t / 1000 = (le-div_iff_mul-le p).0 (omega arith) in
    let hi : now / 1000 < suc q * w = (div-lt_iff_lt-mul p).0 (omega (arith, h)) in
    omega (arith, lo, hi)

module _ (redis : Redis) (w : ℕ) (k : Key) (b : ℕ) where
  -- The counter holds `n` hits of window `b`.
  abbrev pub Counted : redis.State → ℕ → Type 0
  Counted s zero = redis.entry s k ≡ none
  Counted s (suc n) =
      (t : Millis) × (redis.entry s k
        ≡ some (record { count = suc n; expires_at = some (t + w * 1000) }))
      × (bucket t w ≡ b)

  pub peek-Counted :
      (s : redis.State) (n : ℕ) (now : Millis)
      → 0 < w
      → bucket now w ≡ b
      → Counted s n
      → peek redis all_up s now k ≡ n
  unfolding peek
  peek-Counted s zero now p q c = rw c refl
  peek-Counted s (suc n) now p q (t, e, r) =
      rw e (rw (lt→ltb now (t + w * 1000) (same_window now t w p (cc))) refl)

  pub hit-other :
      (s : redis.State) (j : Key) (now : Millis)
      → key_eq j k ≡ false
      → redis.entry (hit redis all_up w s now j).1 k ≡ redis.entry s k
  unfolding hit first_expiry
  hit-other s j now h = elim (Bool-cases ((redis.incr s now j).0 == 1)) [
    | inl e ↦
        rw
          (
            e,
            redis.entry-expire (redis.incr s now j).1 (now + w * 1000) j k,
            redis.entry-incr s now j k,
            h,
          )
          refl
    | inr e ↦ rw (e, redis.entry-incr s now j k, h) refl
  ]

  pub hit-own :
      (s : redis.State) (n : ℕ) (now : Millis)
      → 0 < w
      → bucket now w ≡ b
      → Counted s n
      → ((hit redis all_up w s now k).0 ≡ some (suc n))
        × Counted (hit redis all_up w s now k).1 (suc n)
  unfolding hit first_expiry
  hit-own s zero now p q c =
      let i : (redis.incr s now k).0 ≡ 1 =
        redis.incr_count s now k ∙ ap (λ o. (incremented now o).count) c in
      rw
        (
          i,
          redis.entry-expire (redis.incr s now k).1 (now + w * 1000) k k,
          redis.entry-incr s now k k,
          key_eq_refl k,
          c,
        )
        (refl, (now, refl, q))
  hit-own s (suc n) now p q (t, e, r) =
      let l : ltb now (t + w * 1000) ≡ true =
        lt→ltb now (t + w * 1000) (same_window now t w p (cc)) in
      let i : (redis.incr s now k).0 ≡ suc (suc n) =
        redis.incr_count s now k ∙ rw (e, l) (omega arith) in
      let d : (suc (suc n) == 1) ≡ false = ground arith in
      rw (i, d, redis.entry-incr s now k k, key_eq_refl k, e, l, add-one (suc n))
        (refl, (t, refl, r))

  pub Counted-same :
      (s s' : redis.State) (n : ℕ) → redis.entry s' k ≡ redis.entry s k → Counted s n → Counted s' n
  Counted-same s s' zero h c = rw h c
  Counted-same s s' (suc n) h c = rw h c
