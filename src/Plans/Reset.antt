-- ===== src/Plans/Reset.antt =====
-- When an organization that has used up its allowance may generate again.
use socialhub.Prelude.{
  ℕ, ◌+◌, ◌-◌, ◌≤◌, ◌<◌, ◌≡◌, refl, Bool, some, List, [], ◌∷◌, leb, ltb, count_if, arith, length,
  zero, suc, All, Bool-cases, inl, inr, lt→ltb, subst, sym, ◌∙◌,
}
use socialhub.Schema.{Millis}
use socialhub.Plans.Quota.{
  window, in_window, rows_in_window, nth, metered, allowed, used_up, resolve_reset_at,
}

-- Oldest first.
abbrev pub IsAscending : List Millis → Type 0
IsAscending [] = Unit
IsAscending (t ∷ rows) = All (λ u. t ≤ u) rows × IsAscending rows

count-All :
    (d : Millis) (rows : List Millis)
    → All (λ u. d ≤ u) rows
    → count_if (λ u. leb d u) rows ≡ length rows
count-All d [] h = refl
count-All d (t ∷ rows) (le, h) = ground (arith, count-All d rows h)

count_bound : (p : Millis → Bool) (rows : List Millis) → count_if p rows ≤ length rows
count_bound p [] = omega arith
count_bound p (t ∷ rows) = ground (arith, count_bound p rows)

nth-All :
    (n : ℕ) (rows : List Millis) (t d : Millis)
    → All (λ u. t ≤ u) rows
    → nth n rows ≡ some d
    → t ≤ d
nth-All n [] t d h e = absurd (ground arith)
nth-All zero (u ∷ rows) t d (le, h) e = ground arith
nth-All (suc n) (u ∷ rows) t d (le, h) e = nth-All n rows t d h e

-- Of the n-th oldest row: what is at or after it, and what is strictly after it.
nth_bound :
    (n : ℕ) (rows : List Millis) (d : Millis)
    → IsAscending rows
    → nth n rows ≡ some d
    → (length rows ≤ count_if (λ u. leb d u) rows + n)
      × (count_if (λ u. ltb d u) rows + n + 1 ≤ length rows)
nth_bound n [] d h e = absurd (ground arith)
nth_bound zero (t ∷ rows) d (le, h) e =
    (ground (arith, count-All t rows le), ground (arith, count_bound (λ u. ltb d u) rows))
nth_bound (suc n) (t ∷ rows) d (le, h) e =
    let below = nth-All n rows t d le e in
    let (all, after) = nth_bound n rows d h e in (ground (arith, all), ground (arith, after, below))

module _ (now : Millis) where
  in_window-All :
      (t : Millis) (rows : List Millis)
      → All (λ u. t ≤ u) rows
      → All (λ u. t ≤ u) (rows_in_window now rows)
  in_window-All t [] h = tt
  in_window-All t (u ∷ rows) (le, h) = elim (Bool-cases (in_window now u)) [
    | inl e ↦ rw e (le, in_window-All t rows h)
    | inr e ↦ rw e (in_window-All t rows h)
  ]

  in_window-IsAscending :
      (rows : List Millis) → IsAscending rows → IsAscending (rows_in_window now rows)
  in_window-IsAscending [] h = tt
  in_window-IsAscending (u ∷ rows) (le, h) = elim (Bool-cases (in_window now u)) [
    | inl e ↦ rw e (in_window-All u rows le, in_window-IsAscending rows h)
    | inr e ↦ rw e (in_window-IsAscending rows h)
  ]

  length-rows_in_window :
      (rows : List Millis) → length (rows_in_window now rows) ≡ count_if (in_window now) rows
  length-rows_in_window [] = refl
  length-rows_in_window (u ∷ rows) = ground (arith, length-rows_in_window rows)

  count-rows_in_window :
      (p : Millis → Bool) (rows : List Millis)
      → count_if p (rows_in_window now rows) ≤ count_if p rows
  count-rows_in_window p [] = omega arith
  count-rows_in_window p (u ∷ rows) = ground (arith, count-rows_in_window p rows)

  nth-rows_in_window :
      (n : ℕ) (rows : List Millis) (d : Millis)
      → nth n (rows_in_window now rows) ≡ some d
      → now - window ≤ d
  nth-rows_in_window n [] d e = absurd (ground arith)
  nth-rows_in_window zero (u ∷ rows) d e = ground (arith, nth-rows_in_window zero rows d)
  nth-rows_in_window (suc n) (u ∷ rows) d e =
      ground (arith, nth-rows_in_window n rows d, nth-rows_in_window (suc n) rows d)

  later-rows_in_window :
      (d : Millis) (rows : List Millis)
      → now - window ≤ d
      → count_if (λ u. ltb d u) rows ≤ count_if (λ u. ltb d u) (rows_in_window now rows)
  later-rows_in_window d [] h = omega arith
  later-rows_in_window d (u ∷ rows) h = ground (arith, later-rows_in_window d rows h)

nth_found : (n : ℕ) (rows : List Millis) → n < length rows → (d : Millis) × (nth n rows ≡ some d)
nth_found n [] h = absurd (omega arith)
nth_found zero (t ∷ rows) h = (t, refl)
nth_found (suc n) (t ∷ rows) h = nth_found n rows (omega (arith, h))

at_reset :
    (d : Millis) (rows : List Millis)
    → (count_if (in_window (d + window)) rows ≡ count_if (λ u. leb d u) rows)
      × (count_if (in_window (d + window + 1)) rows ≡ count_if (λ u. ltb d u) rows)
at_reset d [] = (refl, refl)
at_reset d (u ∷ rows) = (ground (arith, at_reset d rows), ground (arith, at_reset d rows))

-- How many rows a later window holds, if no row is added: at the announced time, and after it.
reset_counts :
    (rows : List Millis) (now limit d : Millis)
    → IsAscending rows
    → limit ≤ count_if (in_window now) rows
    → nth (count_if (in_window now) rows - limit) (rows_in_window now rows) ≡ some d
    → (limit ≤ count_if (in_window (d + window)) rows)
      × (count_if (in_window (d + window + 1)) rows < limit)
reset_counts rows now limit d sorted over e =
    let n = count_if (in_window now) rows - limit in
    let (all, after) =
      nth_bound n (rows_in_window now rows) d (in_window-IsAscending now rows sorted) e in
    let (at, later) = at_reset d rows in
    let kept = count-rows_in_window now (λ u. leb d u) rows in
    let gone = later-rows_in_window now d rows (nth-rows_in_window now n rows d e) in
    let used = length-rows_in_window now rows in
    (omega (arith, all, at, kept, used, over), omega (arith, after, later, gone, used, over))

decided :
    (rows : List Millis) (now limit : Millis)
    → (count_if (in_window now) rows < limit → metered rows now (some limit) ≡ allowed)
      × (limit ≤ count_if (in_window now) rows
          → metered rows now (some limit)
            ≡ used_up limit (resolve_reset_at rows (count_if (in_window now) rows) limit now))
unfolding metered
decided rows now limit = (λ h. rw (lt→ltb _ _ h) refl, λ h. ground (arith, h))

refused_over :
    (rows : List Millis) (now limit reset : Millis)
    → metered rows now (some limit) ≡ used_up limit reset
    → (limit ≤ count_if (in_window now) rows)
      × (resolve_reset_at rows (count_if (in_window now) rows) limit now ≡ reset)
unfolding metered
refused_over rows now limit reset refused = (ground arith, ground arith)

resolved :
    (rows : List Millis) (now used limit d : Millis)
    → nth (used - limit) (rows_in_window now rows) ≡ some d
    → resolve_reset_at rows used limit now ≡ d + window
unfolding resolve_reset_at
resolved rows now used limit d e = rw (resolve_reset_at, e) refl

-- An organization that is refused because its allowance is used up, and that adds no usage: it is
-- still refused at the very millisecond that the refusal announces, and it is allowed one
-- millisecond later. So the announced time is exact but for that millisecond.
pub reset_at_exact :
    (rows : List Millis) (now limit reset : Millis)
    → IsAscending rows
    → 0 < limit
    → metered rows now (some limit) ≡ used_up limit reset
    → ((again : Millis) × (metered rows reset (some limit) ≡ used_up limit again))
      × (metered rows (reset + 1) (some limit) ≡ allowed)
reset_at_exact rows now limit reset sorted positive refused =
    let used = count_if (in_window now) rows in
    let (over, announced) = refused_over rows now limit reset refused in
    let (d, e) =
      nth_found (used - limit) (rows_in_window now rows)
        (omega (arith, length-rows_in_window now rows)) in
    let (at, later) = reset_counts rows now limit d sorted over e in
    subst
      (λ t.
        ((again : Millis) × (metered rows t (some limit) ≡ used_up limit again))
        × (metered rows (t + 1) (some limit) ≡ allowed))
      (sym (resolved rows now used limit d e) ∙ announced)
      ((_, (decided rows (d + window) limit).1 at), (decided rows (d + window + 1) limit).0 later)
