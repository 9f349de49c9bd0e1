-- ===== src/Database/Slots.antt =====
-- A table kept as a list of slots, with ids given in order: an implementation of the interface.
use socialhub.Prelude.{
  ℕ, ◌+◌, ◌≤◌, ◌≡◌, refl, Bool, Option, none, some, List, [], ◌∷◌, ◌==◌, if◌then◌else◌, length,
  arith, Bool-cases, inl, inr,
}
use socialhub.Schema.{RowId}
use socialhub.Database.{touch, matches, dropped}

module _ {Row : Type 0} where
  -- A table with these rows, and none deleted.
  abbrev pub stored : List Row → List (Option Row)
  stored [] = []
  stored (r ∷ rs) = some r ∷ stored rs

  -- The newest slot is first, and its id is the number of slots below it. A deletion empties it.
  unfoldable pub find : List (Option Row) → RowId → Option Row
  find [] k = none
  find (r ∷ rs) k = if length rs == k then r else find rs k

  unfoldable pub update_many :
      List (Option Row) → RowId → (Row → Bool) → (Row → Row) → ℕ × List (Option Row)
  update_many [] k p f = (0, [])
  update_many (r ∷ rs) k p f =
      let rest = update_many rs k p f in
      if length rs == k then (matches p r, touch p f r ∷ rs) else (rest.0, r ∷ rest.1)

  unfoldable pub update_all : List (Option Row) → (Row → Bool) → (Row → Row) → List (Option Row)
  update_all [] p f = []
  update_all (r ∷ rs) p f = touch p f r ∷ update_all rs p f

  unfoldable pub delete_all : List (Option Row) → (Row → Bool) → List (Option Row)
  delete_all [] p = []
  delete_all (r ∷ rs) p = dropped p r ∷ delete_all rs p

  unfoldable pub delete : List (Option Row) → RowId → List (Option Row)
  delete [] k = []
  delete (r ∷ rs) k = let rest = delete rs k in if length rs == k then none ∷ rs else r ∷ rest

  unfoldable pub create : List (Option Row) → Row → RowId × List (Option Row)
  create rs r = (length rs, some r ∷ rs)

  abbrev pub listed : (Row → Bool) → RowId → Option Row → List (RowId × Row) → List (RowId × Row)
  listed p k none rest = rest
  listed p k (some r) rest = if p r then (k, r) ∷ rest else rest

  unfoldable pub find_many : List (Option Row) → (Row → Bool) → List (RowId × Row)
  find_many [] p = []
  find_many (r ∷ rs) p = let rest = find_many rs p in listed p (length rs) r rest

  unfoldable pub count : List (Option Row) → (Row → Bool) → ℕ
  count [] p = 0
  count (r ∷ rs) p = matches p r + count rs p

  pub find_past : (rs : List (Option Row)) (k : RowId) → length rs ≤ k → find rs k ≡ none
  unfolding find
  find_past [] k h = refl
  find_past (r ∷ rs) k h = ground (arith, find_past rs k)

  matches_past :
      (rs : List (Option Row)) (k : RowId) (p : Row → Bool)
      → length rs ≤ k
      → matches p (find rs k) ≡ 0
  matches_past rs k p h = rw (find_past rs k h) refl

  length-update_many :
      (rs : List (Option Row)) (k : RowId) (p : Row → Bool) (f : Row → Row)
      → length (update_many rs k p f).1 ≡ length rs
  unfolding update_many
  length-update_many [] k p f = refl
  length-update_many (r ∷ rs) k p f = ground (arith, length-update_many rs k p f)

  pub find-update_many :
      (rs : List (Option Row)) (k : RowId) (p : Row → Bool) (f : Row → Row) (j : RowId)
      → find (update_many rs k p f).1 j ≡ (if k == j then touch p f (find rs j) else find rs j)
  unfolding find update_many
  find-update_many [] k p f j = ground arith
  find-update_many (r ∷ rs) k p f j =
      ground (arith, find-update_many rs k p f j, length-update_many rs k p f)

  pub count-update_many :
      (rs : List (Option Row)) (k : RowId) (p : Row → Bool) (f : Row → Row)
      → (update_many rs k p f).0 ≡ matches p (find rs k)
  unfolding find update_many
  count-update_many [] k p f = refl
  count-update_many (r ∷ rs) k p f = elim (Bool-cases (length rs == k)) [
    | inl e ↦ rw e refl
    | inr e ↦ rw e (count-update_many rs k p f)
  ]

  length-update_all :
      (rs : List (Option Row)) (p : Row → Bool) (f : Row → Row)
      → length (update_all rs p f) ≡ length rs
  unfolding update_all
  length-update_all [] p f = refl
  length-update_all (r ∷ rs) p f = omega (arith, length-update_all rs p f)

  pub find-update_all :
      (rs : List (Option Row)) (p : Row → Bool) (f : Row → Row) (j : RowId)
      → find (update_all rs p f) j ≡ touch p f (find rs j)
  unfolding find update_all
  find-update_all [] p f j = refl
  find-update_all (r ∷ rs) p f j = elim (Bool-cases (length rs == j)) [
    | inl e ↦ rw (length-update_all, e) refl
    | inr e ↦ rw (length-update_all, e) (find-update_all rs p f j)
  ]

  length-delete_all :
      (rs : List (Option Row)) (p : Row → Bool) → length (delete_all rs p) ≡ length rs
  unfolding delete_all
  length-delete_all [] p = refl
  length-delete_all (r ∷ rs) p = omega (arith, length-delete_all rs p)

  pub find-delete_all :
      (rs : List (Option Row)) (p : Row → Bool) (j : RowId)
      → find (delete_all rs p) j ≡ dropped p (find rs j)
  unfolding find delete_all
  find-delete_all [] p j = refl
  find-delete_all (r ∷ rs) p j = elim (Bool-cases (length rs == j)) [
    | inl e ↦ rw (length-delete_all, e) refl
    | inr e ↦ rw (length-delete_all, e) (find-delete_all rs p j)
  ]

  length-delete : (rs : List (Option Row)) (k : RowId) → length (delete rs k) ≡ length rs
  unfolding delete
  length-delete [] k = refl
  length-delete (r ∷ rs) k = ground (arith, length-delete rs k)

  pub find-delete :
      (rs : List (Option Row)) (k j : RowId)
      → find (delete rs k) j ≡ (if k == j then none else find rs j)
  unfolding find delete
  find-delete [] k j = ground arith
  find-delete (r ∷ rs) k j = ground (arith, find-delete rs k j, length-delete rs k)

  pub find-create :
      (rs : List (Option Row)) (r : Row) (j : RowId)
      → find (create rs r).1 j ≡ (if (create rs r).0 == j then some r else find rs j)
  unfolding find create
  find-create rs r j = refl

  pub create_fresh : (rs : List (Option Row)) (r : Row) → find rs (create rs r).0 ≡ none
  unfolding create
  create_fresh rs r = find_past rs (length rs) (omega arith)
