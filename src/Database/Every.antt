-- ===== src/Database/Every.antt =====
-- What holds of every row of a table, and how the calls keep it.
use socialhub.Prelude.{
  ◌||◌, Bool, false, Option, none, some, ◌≡◌, Bool-cases, inl, inr, ◌==◌, subst, refl, ◌⊎◌, true,
  ltb,
}
use socialhub.Schema.{RowId}
use socialhub.Database.{Table, touch, dropped}

module _ {Row : Type 0} where
  abbrev pub Holds : (Row → Type 0) → Option Row → Type 0
  Holds Q none = Unit {0}
  Holds Q (some r) = Q r

  pub touch-Holds :
      (Q : Row → Type 0) (p : Row → Bool) (f : Row → Row) (o : Option Row)
      → ((r : Row) → Q r → Q (f r))
      → Holds Q o
      → Holds Q (touch p f o)
  touch-Holds Q p f none g h = tt
  touch-Holds Q p f (some r) g h = elim (Bool-cases (p r)) [ inl e ↦ rw e (g r h) | inr e ↦ rw e h ]

  -- What is kept of a row by a deletion.
  pub dropped-Holds :
      (Q : Row → Type 0) (p : Row → Bool) (o : Option Row)
      → ((r : Row) → p r ≡ false → Q r)
      → Holds Q (dropped p o)
  dropped-Holds Q p none h = tt
  dropped-Holds Q p (some r) h = elim (Bool-cases (p r)) [ inl e ↦ rw e tt | inr e ↦ rw e (h r e) ]

  pub dropped-Holds_kept :
      (Q : Row → Type 0) (p : Row → Bool) (o : Option Row) → Holds Q o → Holds Q (dropped p o)
  dropped-Holds_kept Q p none h = tt
  dropped-Holds_kept Q p (some r) h = elim (Bool-cases (p r)) [ inl e ↦ rw e tt | inr e ↦ rw e h ]

  -- An update that makes the property hold of the rows that it matches.
  pub touch-Holds_new :
      (Q : Row → Type 0) (p : Row → Bool) (f : Row → Row) (o : Option Row)
      → ((r : Row) → Q (f r))
      → ((r : Row) → p r ≡ false → Q r)
      → Holds Q (touch p f o)
  touch-Holds_new Q p f none g h = tt
  touch-Holds_new Q p f (some r) g h = elim (Bool-cases (p r)) [
    | inl e ↦ rw e (g r)
    | inr e ↦ rw e (h r e)
  ]

  pub touch_idle :
      (p : Row → Bool) (f : Row → Row) (o : Option Row)
      → Holds (λ r. p r ≡ false) o
      → touch p f o ≡ o
  touch_idle p f none h = refl
  touch_idle p f (some r) h = rw h refl

  pub Holds-map :
      (Q R : Row → Type 0) (o : Option Row) → ((r : Row) → Q r → R r) → Holds Q o → Holds R o
  Holds-map Q R none g h = tt
  Holds-map Q R (some r) g h = g r h

  pub dropped-Holds_from :
      (Q R : Row → Type 0) (p : Row → Bool) (o : Option Row)
      → ((r : Row) → p r ≡ false → Q r → R r)
      → Holds Q o
      → Holds R (dropped p o)
  dropped-Holds_from Q R p none h q = tt
  dropped-Holds_from Q R p (some r) h q = elim (Bool-cases (p r)) [
    | inl e ↦ rw e tt
    | inr e ↦ rw e (h r e q)
  ]

  -- What a deletion leaves is what was there, or nothing.
  abbrev pub Kept : (Row → Bool) → (before after : Option Row) → Type 0
  Kept p o t = (o ≡ t) ⊎ ((r : Row) × (o ≡ some r) × (p r ≡ true))

  pub dropped-Kept : (p : Row → Bool) (o : Option Row) → Kept p o (dropped p o)
  dropped-Kept p none = inl refl
  dropped-Kept p (some r) = elim (Bool-cases (p r)) [
    | inl e ↦ inr (r, refl, e)
    | inr e ↦ inl (rw e refl)
  ]

  -- Two deletions in a row, where the second reads the rows as `t` once the first has gone.
  module _ (p q t : Row → Bool) (reads : (r : Row) → p r ≡ false → q r ≡ t r) where
    pub dropped_twice-Holds :
        (o : Option Row) → Holds (λ r. (p r || t r) ≡ false) (dropped q (dropped p o))
    dropped_twice-Holds none = tt
    dropped_twice-Holds (some r) = elim (Bool-cases (p r)) [
      | inl e ↦ rw e tt
      | inr e ↦ elim (Bool-cases (t r)) [
        | inl f ↦ rw (e, reads r e, f) tt
        | inr f ↦ rw (e, reads r e, f) (rw (e, f) refl)
      ]
    ]

    pub dropped_twice-Kept : (o : Option Row) → Kept (λ r. p r || t r) o (dropped q (dropped p o))
    dropped_twice-Kept none = inl refl
    dropped_twice-Kept (some r) = elim (Bool-cases (p r)) [
      | inl e ↦ inr (r, refl, rw e refl)
      | inr e ↦ elim (Bool-cases (t r)) [
        | inl f ↦ inr (r, refl, rw (e, f) refl)
        | inr f ↦ inl (rw (e, reads r e, f) refl)
      ]
    ]

  pub Holds-found : (Q : Row → Type 0) (o : Option Row) (r : Row) → o ≡ some r → Holds Q o → Q r
  Holds-found Q o r e h = subst (λ (x : Option Row). Holds Q x) e h

module _ {Row : Type 0} (t : Table Row) where
  -- Every row of the table has the property.
  abbrev pub Every : t.State → (Row → Type 0) → Type 0
  Every s Q = (k : RowId) → Holds Q (t.find s k)

  pub create-Every :
      (s : t.State) (r : Row) (Q : Row → Type 0) → Every s Q → Q r → Every (t.create s r).1 Q
  create-Every s r Q h q k = elim (Bool-cases ((t.create s r).0 == k)) [
    | inl e ↦ rw (t.find-create s r k, e) q
    | inr e ↦ rw (t.find-create s r k, e) (h k)
  ]

  pub update_many-Every :
      (s : t.State) (j : RowId) (p : Row → Bool) (f : Row → Row) (Q : Row → Type 0)
      → ((r : Row) → Q r → Q (f r))
      → Every s Q
      → Every (t.update_many s j p f).1 Q
  update_many-Every s j p f Q g h k = elim (Bool-cases (j == k)) [
    | inl e ↦ rw (t.find-update_many s j p f k, e) (touch-Holds Q p f (t.find s k) g (h k))
    | inr e ↦ rw (t.find-update_many s j p f k, e) (h k)
  ]

  pub update_all-Every :
      (s : t.State) (p : Row → Bool) (f : Row → Row) (Q : Row → Type 0)
      → ((r : Row) → Q r → Q (f r))
      → Every s Q
      → Every (t.update_all s p f) Q
  update_all-Every s p f Q g h k =
      rw (t.find-update_all s p f k) (touch-Holds Q p f (t.find s k) g (h k))

  pub delete_all-Every :
      (s : t.State) (p : Row → Bool) (Q : Row → Type 0)
      → ((r : Row) → p r ≡ false → Q r)
      → Every (t.delete_all s p) Q
  delete_all-Every s p Q h k = rw (t.find-delete_all s p k) (dropped-Holds Q p (t.find s k) h)

  pub delete_all-Every_kept :
      (s : t.State) (p : Row → Bool) (Q : Row → Type 0) → Every s Q → Every (t.delete_all s p) Q
  delete_all-Every_kept s p Q h k =
      rw (t.find-delete_all s p k) (dropped-Holds_kept Q p (t.find s k) (h k))

  pub count_every : (s : t.State) (p : Row → Bool) → Every s (λ r. p r ≡ false) → t.count s p ≡ 0
  count_every s p h =
      t.count_none s p (λ k r e. Holds-found (λ r. p r ≡ false) (t.find s k) r e (h k))

  -- A deletion by a condition: no row that meets it is left, and every other row is kept.
  abbrev pub Swept : (before after : t.State) → (Row → Bool) → Type 0
  Swept s v p = Every v (λ r. p r ≡ false) × ((k : RowId) → Kept p (t.find s k) (t.find v k))

  pub delete_all-Swept : (s : t.State) (p : Row → Bool) → Swept s (t.delete_all s p) p
  delete_all-Swept s p = (
    delete_all-Every s p _ (λ r e. e),
    λ k. rw (t.find-delete_all s p k) (dropped-Kept p (t.find s k)),
  )

  pub delete_all-Every_from :
      (s : t.State) (p : Row → Bool) (Q R : Row → Type 0)
      → ((r : Row) → p r ≡ false → Q r → R r)
      → Every s Q
      → Every (t.delete_all s p) R
  delete_all-Every_from s p Q R g h k =
      rw (t.find-delete_all s p k) (dropped-Holds_from Q R p (t.find s k) g (h k))

  pub count-delete_all :
      (s : t.State) (p : Row → Bool) → ltb 0 (t.count (t.delete_all s p) p) ≡ false
  count-delete_all s p =
      rw (count_every (t.delete_all s p) p (delete_all-Every s p _ (λ r e. e))) refl

  pub delete_twice-Swept :
      (s : t.State) (p q read : Row → Bool)
      → ((r : Row) → p r ≡ false → q r ≡ read r)
      → Swept s (t.delete_all (t.delete_all s p) q) (λ r. p r || read r)
  delete_twice-Swept s p q read reads = (
    λ k.
        rw (t.find-delete_all, t.find-delete_all) (dropped_twice-Holds p q read reads (t.find s k)),
    λ k. rw (t.find-delete_all, t.find-delete_all) (dropped_twice-Kept p q read reads (t.find s k)),
  )
