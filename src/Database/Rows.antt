-- ===== src/Database/Rows.antt =====
-- What the lists and the counts of a table of slots hold, and the implementation.
use mathlib.Core.Option.{some-injective}
use socialhub.Prelude.{
  ◌<◌, ◌≡◌, ◌≢◌, refl, Bool, true, false, Option, none, some, List, [], ◌∷◌, ◌==◌, All, length,
  arith, Bool-cases, inl, inr, ◌⊎◌, ==_iff, sym,
}
use socialhub.Schema.{RowId}
use socialhub.Database.{Lists, Table, first, touch, matches, Listed, subst}
use socialhub.Database.Slots.{
  delete, find-delete, find, update_many, update_all, delete_all, create, find_many, count,
  find_past, find-update_many, count-update_many, find-update_all, find-delete_all, find-create,
  create_fresh, listed,
}

some_is_not_none : {A : Type 0} {x : A} → some x ≢ none
some_is_not_none h = cc

none_is_not_some : {A : Type 0} {x : A} → none ≢ some x
none_is_not_some h = cc

module _ {Row : Type 0} where
  find_push :
      (rs : List (Option Row)) (s : Option Row) (r : Row) (k : RowId)
      → find rs k ≡ some r
      → find (s ∷ rs) k ≡ some r
  unfolding find
  find_push rs s r k h = ground (arith, find_past rs k)

  Listed-push :
      (rs : List (Option Row)) (s : Option Row) (p : Row → Bool) (l : List (RowId × Row))
      → All (Listed (find rs) p) l
      → All (Listed (find (s ∷ rs)) p) l
  Listed-push rs s p [] h = tt
  Listed-push rs s p ((k, r) ∷ l) ((e, q), h) = ((find_push rs s r k e, q), Listed-push rs s p l h)

  find_self : (rs : List (Option Row)) (r : Option Row) → find (r ∷ rs) (length rs) ≡ r
  unfolding find
  find_self rs r = ground arith

  pub find_many-Listed :
      (rs : List (Option Row)) (p : Row → Bool) → All (Listed (find rs) p) (find_many rs p)
  unfolding find_many
  find_many-Listed [] p = tt
  find_many-Listed (none ∷ rs) p = Listed-push rs none p (find_many rs p) (find_many-Listed rs p)
  find_many-Listed (some r ∷ rs) p =
      let rest = Listed-push rs (some r) p (find_many rs p) (find_many-Listed rs p) in
      elim (Bool-cases (p r)) [
        | inl q ↦ rw q ((find_self rs (some r), q), rest)
        | inr q ↦ rw q rest
      ]

  -- A row below the newest slot, or in it.
  find_down :
      (rs : List (Option Row)) (s : Option Row) (k : RowId) (r : Row)
      → find (s ∷ rs) k ≡ some r
      → (s ≡ some r) ⊎ (find rs k ≡ some r)
  unfolding find
  find_down rs s k r h = elim (Bool-cases (length rs == k)) [
    | inl e ↦ inl (rw e at h)
    | inr e ↦ inr (rw e at h)
  ]

  pub find_many_finds :
      (rs : List (Option Row)) (p : Row → Bool) (k : RowId) (r : Row)
      → find rs k ≡ some r
      → p r ≡ true
      → first (find_many rs p) ≢ none
  unfolding find find_many
  find_many_finds [] p k r h q e = cc
  find_many_finds (none ∷ rs) p k r h q e = elim (find_down rs none k r h) [
    | inl a ↦ cc
    | inr a ↦ find_many_finds rs p k r a q e
  ]
  find_many_finds (some x ∷ rs) p k r h q e = elim (Bool-cases (p x)) [
    | inl a ↦ some_is_not_none (rw a at e)
    | inr a ↦ elim (find_down rs (some x) k r h) [
      | inl b ↦ let c = some-injective x r b in cc
      | inr b ↦ find_many_finds rs p k r b q (rw a at e)
    ]
  ]

  newest :
      (rs : List (Option Row)) (x r : Row) (k : RowId)
      → length rs ≡ k
      → x ≡ r
      → ◌≡◌ {A = RowId × Row} (length rs, x) (k, r)
  newest rs x r k e q = cc

  -- A row of the table is in the newest slot, or in one below.
  found_where :
      (rs : List (Option Row)) (s : Option Row) (k : RowId) (r : Row)
      → find (s ∷ rs) k ≡ some r
      → ((s ≡ some r) × (length rs ≡ k)) ⊎ (find rs k ≡ some r)
  unfolding find
  found_where rs s k r h = elim (Bool-cases (length rs == k)) [
    | inl e ↦ inl (rw e at h, (==_iff _ _).0 e)
    | inr e ↦ inr (rw e at h)
  ]

  listed-Lists :
      (p : Row → Bool) (n : RowId) (s : Option Row) (l : List (RowId × Row)) (y : RowId × Row)
      → Lists l y
      → Lists (listed p n s l) y
  listed-Lists p n none l y h = h
  listed-Lists p n (some x) l y h = elim (Bool-cases (p x)) [
    | inl e ↦ rw e (inr h)
    | inr e ↦ rw e h
  ]

  pub find_many-Lists :
      (rs : List (Option Row)) (p : Row → Bool) (k : RowId) (r : Row)
      → find rs k ≡ some r
      → p r ≡ true
      → Lists (find_many rs p) (k, r)
  unfolding find find_many
  find_many-Lists [] p k r h q = absurd (none_is_not_some h)
  find_many-Lists (none ∷ rs) p k r h q = elim (found_where rs none k r h) [
    | inl (a, e) ↦ absurd (none_is_not_some a)
    | inr a ↦ find_many-Lists rs p k r a q
  ]
  find_many-Lists (some x ∷ rs) p k r h q = elim (found_where rs (some x) k r h) [
    | inl (a, e) ↦
        let b = some-injective x r a in
        let c : p x ≡ true = subst (λ (y : Row). p y ≡ true) (sym b) q in
        rw c (inl (newest rs x r k e b))
    | inr a ↦
        listed-Lists p (length rs) (some x) (find_many rs p) (k, r) (find_many-Lists rs p k r a q)
  ]

  pub count_finds :
      (rs : List (Option Row)) (p : Row → Bool) (k : RowId) (r : Row)
      → find rs k ≡ some r
      → p r ≡ true
      → 0 < count rs p
  unfolding find count
  count_finds [] p k r h q = absurd (none_is_not_some h)
  count_finds (s ∷ rs) p k r h q = elim (find_down rs s k r h) [
    | inl a ↦ rw (a, q) (omega arith)
    | inr a ↦ omega (arith, count_finds rs p k r a q)
  ]

  pub count_none :
      (rs : List (Option Row)) (p : Row → Bool)
      → ((k : RowId) (r : Row) → find rs k ≡ some r → p r ≡ false)
      → count rs p ≡ 0
  unfolding count
  count_none [] p h = refl
  count_none (none ∷ rs) p h =
      let rest = count_none rs p (λ k r e. h k r (find_push rs none r k e)) in omega (arith, rest)
  count_none (some x ∷ rs) p h =
      let q = h (length rs) x (find_self rs (some x)) in
      let rest = count_none rs p (λ k r e. h k r (find_push rs (some x) r k e)) in
      rw q (omega (arith, rest))

  matches-touch :
      (q : Row → Bool) (f : Row → Row) (p : Row → Bool)
      → ((r : Row) → p (f r) ≡ p r)
      → (s : Option Row) → matches p (touch q f s) ≡ matches p s
  matches-touch q f p h none = refl
  matches-touch q f p h (some r) = elim (Bool-cases (q r)) [
    | inl e ↦ rw (e, h r) refl
    | inr e ↦ rw e refl
  ]

  pub count-kept :
      (rs : List (Option Row)) (k : RowId) (q : Row → Bool) (f : Row → Row) (p : Row → Bool)
      → ((r : Row) → p (f r) ≡ p r)
      → count (update_many rs k q f).1 p ≡ count rs p
  unfolding count update_many
  count-kept [] k q f p h = refl
  count-kept (r ∷ rs) k q f p h = elim (Bool-cases (length rs == k)) [
    | inl e ↦ rw (e, matches-touch q f p h r) refl
    | inr e ↦ rw (e, count-kept rs k q f p h) refl
  ]

  unfoldable pub rows : Table Row
  unfolding find update_many update_all delete_all delete create find_many count
  rows = record {
    State = List (Option Row);
    find = find;
    update_many = update_many;
    update_all = update_all;
    delete_all = delete_all;
    delete = delete;
    create = create;
    find_many = find_many;
    count = count;
    find-update_many = find-update_many;
    count-update_many = count-update_many;
    find-update_all = find-update_all;
    find-delete_all = find-delete_all;
    find-delete = find-delete;
    find-create = find-create;
    create_fresh = create_fresh;
    find_many-Listed = find_many-Listed;
    find_many_finds = find_many_finds;
    count-create = λ rs r p. refl;
    find_many-Lists = find_many-Lists;
    count_finds = count_finds;
    count_none = count_none;
    count-kept = count-kept;
  }
