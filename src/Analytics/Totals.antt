-- ===== src/Analytics/Totals.antt =====
-- The totals of the overview, and the share of each platform.
use socialhub.Prelude.{
  ◌≡◌, refl, sym, ◌∙◌, ℕ, ◌+◌, ◌≤◌, String, Bool, true, false, List, [], ◌∷◌, if◌then◌else◌, length,
  count_if, arith, Bool-cases, inl, inr, subst,
}
use text.Mathlib.Text.{◌==◌ as str_eq}
use text.Mathlib.TextEquality.{eq_iff}
use socialhub.Analytics.{
  CanonicalMetrics, MetricRow, MetricKey, metric, add_into, PlatformBreakdown, counted, new_bucket,
  bump, Sums, no_sums, add_row, add_rows, insert_by, sort_by, aggregate_overview,
}

not_both : (b : Bool) → b ≡ false → b ≡ true → ⊥
not_both b e f = cc

-- The sum of a number over the entries that pass a test.
abbrev pub sum_if : {A : Type 0} → (A → Bool) → (A → ℕ) → List A → ℕ
sum_if p f [] = 0
sum_if p f (x ∷ xs) = (if p x then f x else 0) + sum_if p f xs

abbrev pub on : String → MetricRow → Bool
on q row = str_eq row.platform q

abbrev pub of_platform : String → PlatformBreakdown → Bool
of_platform q b = str_eq b.platform q

abbrev pub bucket_metric : MetricKey → PlatformBreakdown → ℕ
bucket_metric k b = metric k b.metrics

abbrev pub row_metric : MetricKey → MetricRow → ℕ
row_metric k row = metric k row.metrics

abbrev pub any_row : MetricRow → Bool
any_row row = true

metric-add_into :
    (k : MetricKey) (a b : CanonicalMetrics) → metric k (add_into a b) ≡ metric k a + metric k b
metric-add_into MetricKey.impressions a b = refl
metric-add_into MetricKey.reach a b = refl
metric-add_into MetricKey.likes a b = refl
metric-add_into MetricKey.comments a b = refl
metric-add_into MetricKey.shares a b = refl
metric-add_into MetricKey.clicks a b = refl

metric-new_bucket : (k : MetricKey) (q : String) → bucket_metric k (new_bucket q) ≡ 0
metric-new_bucket MetricKey.impressions q = refl
metric-new_bucket MetricKey.reach q = refl
metric-new_bucket MetricKey.likes q = refl
metric-new_bucket MetricKey.comments q = refl
metric-new_bucket MetricKey.shares q = refl
metric-new_bucket MetricKey.clicks q = refl

sum_if-insert_by :
    {A : Type 0} (p : A → Bool) (f : A → ℕ) (before : A → A → Bool) (x : A) (xs : List A)
    → sum_if p f (insert_by before x xs) ≡ (if p x then f x else 0) + sum_if p f xs
unfolding insert_by
sum_if-insert_by p f before x [] = refl
sum_if-insert_by p f before x (y ∷ ys) = elim (Bool-cases (before y x)) [
  | inl e ↦ rw e (omega (arith, sum_if-insert_by p f before x ys))
  | inr e ↦ rw e refl
]

pub sum_if-sort_by :
    {A : Type 0} (p : A → Bool) (f : A → ℕ) (before : A → A → Bool) (xs : List A)
    → sum_if p f (sort_by before xs) ≡ sum_if p f xs
unfolding sort_by
sum_if-sort_by p f before [] = refl
sum_if-sort_by p f before (x ∷ xs) =
    omega (arith, sum_if-insert_by p f before x (sort_by before xs), sum_if-sort_by p f before xs)

-- A bucket's number grows by the row's where it is the bucket of the row's platform.
sum_if-bump :
    (q : String) (f : PlatformBreakdown → ℕ) (g : ℕ) (row : MetricRow) (bs : List PlatformBreakdown)
    → ((b : PlatformBreakdown) → f (counted row b) ≡ f b + g)
    → f (new_bucket row.platform) ≡ 0
    → sum_if (of_platform q) f (bump row bs)
      ≡ sum_if (of_platform q) f bs + (if on q row then g else 0)
unfolding bump
sum_if-bump q f g row [] h z = elim (Bool-cases (str_eq row.platform q)) [
  | inl e ↦ rw e (omega (arith, h (new_bucket row.platform), z))
  | inr e ↦ rw e refl
]
sum_if-bump q f g row (b ∷ bs) h z = elim (Bool-cases (str_eq b.platform row.platform)) [
  | inl e ↦
      let same : b.platform ≡ row.platform = (eq_iff b.platform row.platform).0 e in
      elim (Bool-cases (str_eq row.platform q)) [
        | inl d ↦
            let c : str_eq b.platform q ≡ true =
              subst (λ (x : String). str_eq x q ≡ true) (sym same) d in
            rw (e, d, c) (omega (arith, h b))
        | inr d ↦
            let c : str_eq b.platform q ≡ false =
              subst (λ (x : String). str_eq x q ≡ false) (sym same) d in
            rw (e, d, c) (omega arith)
      ]
  | inr e ↦ rw e (omega (arith, sum_if-bump q f g row bs h z))
]

-- A bucket is not made twice.
count-bump_other :
    (q : String) (row : MetricRow) (bs : List PlatformBreakdown)
    → str_eq row.platform q ≡ false
    → count_if (of_platform q) (bump row bs) ≡ count_if (of_platform q) bs
unfolding bump
count-bump_other q row [] h = rw h refl
count-bump_other q row (b ∷ bs) h = elim (Bool-cases (str_eq b.platform row.platform)) [
  | inl e ↦ rw e refl
  | inr e ↦ rw e (omega (arith, count-bump_other q row bs h))
]

text_differs : (s t q : String) → str_eq s t ≡ false → str_eq s q ≡ true → str_eq t q ≡ false
text_differs s t q h e = elim (Bool-cases (str_eq t q)) [
  | inl d ↦
      let a : s ≡ q = (eq_iff s q).0 e in
      let b : t ≡ q = (eq_iff t q).0 d in
      let c : str_eq s t ≡ true = (eq_iff s t).1 (a ∙ sym b) in absurd (not_both (str_eq s t) h c)
  | inr d ↦ d
]

count-bump :
    (q : String) (row : MetricRow) (bs : List PlatformBreakdown)
    → count_if (of_platform q) bs ≤ 1
    → count_if (of_platform q) (bump row bs) ≤ 1
unfolding bump
count-bump q row [] h = elim (Bool-cases (str_eq row.platform q)) [
  | inl e ↦ rw e (omega arith)
  | inr e ↦ rw e (omega arith)
]
count-bump q row (b ∷ bs) h = elim (Bool-cases (str_eq b.platform row.platform)) [
  | inl e ↦ rw e h
  | inr e ↦ rw e (elim (Bool-cases (str_eq b.platform q)) [
    | inl d ↦
        let c = count-bump_other q row bs (text_differs b.platform row.platform q e d) in
        let k : 1 + count_if (of_platform q) bs ≤ 1 = rw d at h in rw (d, c) k
    | inr d ↦
        let k : 0 + count_if (of_platform q) bs ≤ 1 = rw d at h in
        rw d (omega (arith, count-bump q row bs (omega (arith, k))))
  ])
]

count-add_rows :
    (q : String) (s : Sums) (rows : List MetricRow)
    → count_if (of_platform q) s.per_platform ≤ 1
    → count_if (of_platform q) (add_rows s rows).per_platform ≤ 1
unfolding add_rows
count-add_rows q s [] h = h
count-add_rows q s (row ∷ rows) h =
    count-add_rows q (add_row s row) rows (count-bump q row s.per_platform h)

total-add_rows :
    (k : MetricKey) (s : Sums) (rows : List MetricRow)
    → metric k (add_rows s rows).totals ≡ metric k s.totals + sum_if any_row (row_metric k) rows
unfolding add_rows
total-add_rows k s [] = omega arith
total-add_rows k s (row ∷ rows) =
    omega (arith, total-add_rows k (add_row s row) rows, metric-add_into k s.totals row.metrics)

posts-add_rows :
    (q : String) (s : Sums) (rows : List MetricRow)
    → sum_if (of_platform q) (λ b. b.post_count) (add_rows s rows).per_platform
      ≡ sum_if (of_platform q) (λ b. b.post_count) s.per_platform + count_if (on q) rows
unfolding add_rows
posts-add_rows q s [] = omega arith
posts-add_rows q s (row ∷ rows) = omega (
  arith,
  posts-add_rows q (add_row s row) rows,
  sum_if-bump q (λ b. b.post_count) 1 row s.per_platform (λ b. refl) refl,
)

share-add_rows :
    (k : MetricKey) (q : String) (s : Sums) (rows : List MetricRow)
    → sum_if (of_platform q) (bucket_metric k) (add_rows s rows).per_platform
      ≡ sum_if (of_platform q) (bucket_metric k) s.per_platform + sum_if (on q) (row_metric k) rows
unfolding add_rows
share-add_rows k q s [] = omega arith
share-add_rows k q s (row ∷ rows) = omega (
  arith,
  share-add_rows k q (add_row s row) rows,
  sum_if-bump q (bucket_metric k) (row_metric k row) row s.per_platform
      (λ b. metric-add_into k b.metrics row.metrics) (metric-new_bucket k row.platform),
)

count-sort_by :
    {A : Type 0} (p : A → Bool) (before : A → A → Bool) (xs : List A)
    → count_if p (sort_by before xs) ≡ count_if p xs
count-sort_by p before xs = sum_if-sort_by p (λ x. 1) before xs

from_zero : (a b z c : ℕ) → a ≡ b → b ≡ z + c → z ≡ 0 → a ≡ c
from_zero a b z c h e n = omega (arith, h, e, n)

-- The overview adds up. Each metric's total is its sum over all posts. Each platform has at most
-- one entry, whose number of posts and whose metrics are those of the posts on that platform; and
-- the posts are counted.
pub aggregate_overview-totals :
    (precedes : String → String → Bool) (rows : List MetricRow) (top_n : ℕ) (k : MetricKey)
    (q : String)
    → let o = aggregate_overview precedes rows top_n in
      (metric k o.totals ≡ sum_if any_row (row_metric k) rows)
      × (count_if (of_platform q) o.by_platform ≤ 1)
      × (sum_if (of_platform q) (λ b. b.post_count) o.by_platform ≡ count_if (on q) rows)
      × (sum_if (of_platform q) (bucket_metric k) o.by_platform ≡ sum_if (on q) (row_metric k) rows)
      × (o.post_count ≡ length rows)
unfolding aggregate_overview
aggregate_overview-totals precedes rows top_n k q =
    let s = (add_rows no_sums rows).per_platform in
    let before : PlatformBreakdown → PlatformBreakdown → Bool =
      λ a b. precedes a.platform b.platform in
    (
      from_zero _ _ _ _ refl (total-add_rows k no_sums rows) (metric-new_bucket k ""),
      rw (count-sort_by (of_platform q) before s) (count-add_rows q no_sums rows (omega arith)),
      from_zero _ _ 0 _ (sum_if-sort_by (of_platform q) (λ b. b.post_count) before s)
          (posts-add_rows q no_sums rows) refl,
      from_zero _ _ 0 _ (sum_if-sort_by (of_platform q) (bucket_metric k) before s)
          (share-add_rows k q no_sums rows) refl,
      refl,
    )
