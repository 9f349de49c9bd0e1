-- ===== src/Database.antt =====
-- One Prisma model (a database table), as the interface that the services rely on. The client
-- and the database are not part of the repository: a table is a parameter of every service, with
-- the documented behaviour of its calls as laws.
pub mod Slots
pub mod Rows
pub mod Every
use socialhub.Prelude.{
  ◌<◌, false, ◌≢◌, ℕ, ◌+◌, ◌≡◌, Bool, true, Option, none, some, List, ◌==◌, if◌then◌else◌, All,
  ==-refl, refl, ◌∷◌, [], subst, Bool-cases, inl, ==_iff, inr, Option-cases, ◌∙◌, ◌⊎◌,
}
use mathlib.Core.Option.{some-injective}
use socialhub.Schema.{RowId}

module _ {Row : Type 0} where
  -- What an update leaves of a row that it may match.
  abbrev pub touch : (Row → Bool) → (Row → Row) → Option Row → Option Row
  touch p f none = none
  touch p f (some r) = some (if p r then f r else r)

  -- How many rows an update by id and condition matches.
  abbrev pub matches : (Row → Bool) → Option Row → ℕ
  matches p none = 0
  matches p (some r) = if p r then 1 else 0

  -- What a deletion leaves of a row.
  abbrev pub dropped : (Row → Bool) → Option Row → Option Row
  dropped p none = none
  dropped p (some r) = if p r then none else some r

  -- A listed pair is a row of the table that meets the condition.
  abbrev pub Listed : (RowId → Option Row) → (Row → Bool) → RowId × Row → Type 0
  Listed find p (k, r) = (find k ≡ some r) × (p r ≡ true)

  -- The pair is in the list.
  abbrev pub Lists : List (RowId × Row) → RowId × Row → Type 0
  Lists [] y = ⊥
  Lists (x ∷ l) y = (x ≡ y) ⊎ Lists l y

  abbrev pub always : Row → Bool
  always _ = true

-- findUnique on another unique column, or findFirst.
abbrev pub first : {Row : Type 0} → List (RowId × Row) → Option (RowId × Row)
first [] = none
first (row ∷ _) = some row

pub record Table (Row : Type 0) : Type 1 where
  pub State : Type 0
  -- findUnique({ where: { id } })
  pub find : State → RowId → Option Row
  -- updateMany({ where: { id, ... }, data }): the count, and the table after.
  pub update_many : State → RowId → (Row → Bool) → (Row → Row) → ℕ × State
  -- updateMany({ where, data }) by a condition on the rows alone.
  pub update_all : State → (Row → Bool) → (Row → Row) → State
  -- deleteMany({ where })
  pub delete_all : State → (Row → Bool) → State
  -- delete({ where: { id } })
  pub delete : State → RowId → State
  -- create({ data }): the new id, and the table after.
  pub create : State → Row → RowId × State
  -- findMany({ where })
  pub find_many : State → (Row → Bool) → List (RowId × Row)
  -- count({ where })
  pub count : State → (Row → Bool) → ℕ
  pub find-update_many :
      (s : State) (k : RowId) (p : Row → Bool) (f : Row → Row) (j : RowId)
      → find (update_many s k p f).1 j ≡ (if k == j then touch p f (find s j) else find s j)
  pub count-update_many :
      (s : State) (k : RowId) (p : Row → Bool) (f : Row → Row)
      → (update_many s k p f).0 ≡ matches p (find s k)
  pub find-update_all :
      (s : State) (p : Row → Bool) (f : Row → Row) (j : RowId)
      → find (update_all s p f) j ≡ touch p f (find s j)
  pub find-delete_all :
      (s : State) (p : Row → Bool) (j : RowId) → find (delete_all s p) j ≡ dropped p (find s j)
  pub find-delete :
      (s : State) (k j : RowId) → find (delete s k) j ≡ (if k == j then none else find s j)
  pub find-create :
      (s : State) (r : Row) (j : RowId)
      → find (create s r).1 j ≡ (if (create s r).0 == j then some r else find s j)
  pub create_fresh : (s : State) (r : Row) → find s (create s r).0 ≡ none
  pub find_many-Listed : (s : State) (p : Row → Bool) → All (Listed (find s) p) (find_many s p)
  -- A row that meets the condition is not overlooked.
  pub find_many_finds :
      (s : State) (p : Row → Bool) (k : RowId) (r : Row)
      → find s k ≡ some r
      → p r ≡ true
      → first (find_many s p) ≢ none
  pub find_many-Lists :
      (s : State) (p : Row → Bool) (k : RowId) (r : Row)
      → find s k ≡ some r
      → p r ≡ true
      → Lists (find_many s p) (k, r)
  pub count-create :
      (s : State) (r : Row) (p : Row → Bool)
      → count (create s r).1 p ≡ (if p r then 1 else 0) + count s p
  pub count_finds :
      (s : State) (p : Row → Bool) (k : RowId) (r : Row)
      → find s k ≡ some r
      → p r ≡ true
      → 0 < count s p
  pub count_none :
      (s : State) (p : Row → Bool)
      → ((k : RowId) (r : Row) → find s k ≡ some r → p r ≡ false)
      → count s p ≡ 0
  -- An update that does not touch what a condition reads.
  pub count-kept :
      (s : State) (k : RowId) (q : Row → Bool) (f : Row → Row) (p : Row → Bool)
      → ((r : Row) → p (f r) ≡ p r)
      → count (update_many s k q f).1 p ≡ count s p

-- The row that an update has left, from the row that was there.
pub touch-some :
    {Row : Type 0} (p : Row → Bool) (f : Row → Row) (o : Option Row) (t : Row)
    → touch p f o ≡ some t
    → (r : Row) × (o ≡ some r) × ((if p r then f r else r) ≡ t)
touch-some p f none t h = cc
touch-some p f (some r) t h = (r, refl, cc)

first-All :
    {Row : Type 0} (P : RowId × Row → Type 0) (l : List (RowId × Row)) (x : RowId × Row)
    → All P l
    → first l ≡ some x
    → P x
first-All P [] x h e = cc
first-All P (y ∷ l) x (h, hs) e = subst P (cc) h

module _ {Row : Type 0} (t : Table Row) where
  -- update({ where: { id }, data }) of a row that was found.
  abbrev pub update : t.State → RowId → (Row → Row) → t.State
  update s k f = (t.update_many s k always f).1

  -- What an update leaves on the row that it names.
  pub find-update_self :
      (s : t.State) (k : RowId) (f : Row → Row) (r : Row)
      → t.find s k ≡ some r
      → t.find (update s k f) k ≡ some (f r)
  find-update_self s k f r h = rw (t.find-update_many, ==-refl, h) refl

  -- What findUnique on another column, or findFirst, has found.
  pub first-Listed :
      (s : t.State) (p : Row → Bool) (k : RowId) (r : Row)
      → first (t.find_many s p) ≡ some (k, r)
      → Listed (t.find s) p (k, r)
  first-Listed s p k r h =
      first-All (Listed (t.find s) p) (t.find_many s p) (k, r) (t.find_many-Listed s p) h

  -- A row that is there stays when another is created.
  pub find-create_old :
      (s : t.State) (r x : Row) (k : RowId)
      → t.find s k ≡ some r
      → t.find (t.create s x).1 k ≡ some r
  find-create_old s r x k h = elim (Bool-cases ((t.create s x).0 == k)) [
    | inl e ↦ let q : (t.create s x).0 ≡ k = (==_iff _ _).0 e in let n = t.create_fresh s x in cc
    | inr e ↦ rw (t.find-create s x k, e) h
  ]

  pub find-create_new : (s : t.State) (x : Row) → t.find (t.create s x).1 (t.create s x).0 ≡ some x
  find-create_new s x = rw (t.find-create, ==-refl) refl

  -- A new row, where no row before it meets the condition.
  Listed-created :
      (s : t.State) (x r : Row) (p : Row → Bool) (k : RowId)
      → ((j : RowId) (y : Row) → t.find s j ≡ some y → p y ≡ false)
      → Listed (t.find (t.create s x).1) p (k, r)
      → (x ≡ r) × ((t.create s x).0 ≡ k)
  Listed-created s x r p k fresh (f, q) = elim (Bool-cases ((t.create s x).0 == k)) [
    | inl e ↦ (some-injective x r (rw (t.find-create s x k, e) at f), (==_iff _ _).0 e)
    | inr e ↦ let z = fresh k r (rw (t.find-create s x k, e) at f) in cc
  ]

  pub first-create :
      (s : t.State) (x : Row) (p : Row → Bool)
      → ((j : RowId) (y : Row) → t.find s j ≡ some y → p y ≡ false)
      → p x ≡ true
      → first (t.find_many (t.create s x).1 p) ≡ some ((t.create s x).0, x)
  first-create s x p fresh h = elim (Option-cases (first (t.find_many (t.create s x).1 p))) [
    | inl e ↦ absurd (t.find_many_finds (t.create s x).1 p _ x (find-create_new s x) h e)
    | inr ((k, r), e) ↦
        let q = Listed-created s x r p k fresh (first-Listed (t.create s x).1 p k r e) in e ∙ cc
  ]

  -- Where nothing is found, nothing is counted.
  pub count-first :
      (s : t.State) (p : Row → Bool) → first (t.find_many s p) ≡ none → t.count s p ≡ 0
  count-first s p h = t.count_none s p (λ k r e. elim (Bool-cases (p r)) [
    | inl q ↦ absurd (t.find_many_finds s p k r e q h)
    | inr q ↦ q
  ])
