-- ===== src/Analytics/Ranking.antt =====
-- The top posts of the overview.
use socialhub.Prelude.{
  ◌≡◌, refl, ap, ◌∙◌, ℕ, zero, suc, ◌+◌, ◌≤◌, String, Bool, false, List, [], ◌∷◌, if◌then◌else◌,
  length, length-take-le, take, count_if, arith, Bool-cases, inl, inr, All, map, ltb, ltb→lt, ◌++◌,
  ◌⊎◌,
}
use socialhub.Analytics.{
  MetricRow, TopPost, top_post, by_score, insert_by, sort_by, ranked, aggregate_overview,
}

-- What a slice leaves out.
abbrev pub drop : {A : Type 0} → ℕ → List A → List A
drop zero xs = xs
drop (suc n) [] = []
drop (suc n) (x ∷ xs) = drop n xs

-- Every post of the list has at most the score.
abbrev pub AtMost : ℕ → List TopPost → Type 0
AtMost score posts = All (λ (p : TopPost). p.engagement_score ≤ score) posts

-- Every post has at least the score of those behind it.
abbrev pub Descending : List TopPost → Type 0
Descending [] = Unit {0}
Descending (p ∷ ps) = AtMost p.engagement_score ps × Descending ps

AtMost-le : (m n : ℕ) (posts : List TopPost) → m ≤ n → AtMost m posts → AtMost n posts
AtMost-le m n [] h a = tt
AtMost-le m n (p ∷ ps) h (a, more) = (omega (arith, a, h), AtMost-le m n ps h more)

AtMost-insert_by :
    (n : ℕ) (x : TopPost) (posts : List TopPost)
    → x.engagement_score ≤ n
    → AtMost n posts
    → AtMost n (insert_by by_score x posts)
unfolding insert_by
AtMost-insert_by n x [] h a = (h, tt)
AtMost-insert_by n x (p ∷ ps) h (a, more) = elim (Bool-cases (by_score p x)) [
  | inl e ↦ rw e (a, AtMost-insert_by n x ps h more)
  | inr e ↦ rw e (h, (a, more))
]

not_less : (m n : ℕ) → ltb m n ≡ false → n ≤ m
not_less m n h = ground arith

Descending-insert_by :
    (x : TopPost) (posts : List TopPost)
    → Descending posts
    → Descending (insert_by by_score x posts)
unfolding insert_by
Descending-insert_by x [] d = (tt, tt)
Descending-insert_by x (p ∷ ps) (a, d) = elim (Bool-cases (by_score p x)) [
  | inl e ↦
      let l = ltb→lt x.engagement_score p.engagement_score e in
      rw e
        (AtMost-insert_by p.engagement_score x ps (omega (arith, l)) a, Descending-insert_by x ps d)
  | inr e ↦
      let l = not_less x.engagement_score p.engagement_score e in
      rw e ((l, AtMost-le p.engagement_score x.engagement_score ps l a), (a, d))
]

Descending-sort_by : (posts : List TopPost) → Descending (sort_by by_score posts)
unfolding sort_by
Descending-sort_by [] = tt
Descending-sort_by (p ∷ ps) = Descending-insert_by p (sort_by by_score ps) (Descending-sort_by ps)

AtMost-take : (n m : ℕ) (posts : List TopPost) → AtMost m posts → AtMost m (take n posts)
AtMost-take zero m posts a = tt
AtMost-take (suc n) m [] a = tt
AtMost-take (suc n) m (p ∷ ps) (a, more) = (a, AtMost-take n m ps more)

AtMost-drop : (n m : ℕ) (posts : List TopPost) → AtMost m posts → AtMost m (drop n posts)
AtMost-drop zero m posts a = a
AtMost-drop (suc n) m [] a = tt
AtMost-drop (suc n) m (p ∷ ps) (a, more) = AtMost-drop n m ps more

Descending-take : (n : ℕ) (posts : List TopPost) → Descending posts → Descending (take n posts)
Descending-take zero posts d = tt
Descending-take (suc n) [] d = tt
Descending-take (suc n) (p ∷ ps) (a, d) =
    (AtMost-take n p.engagement_score ps a, Descending-take n ps d)

-- Each of the posts has at least the score of every post that is left out.
abbrev pub Beats : List TopPost → List TopPost → Type 0
Beats top rest = All (λ (p : TopPost). AtMost p.engagement_score rest) top

Beats-take : (n : ℕ) (posts : List TopPost) → Descending posts → Beats (take n posts) (drop n posts)
Beats-take zero posts d = tt
Beats-take (suc n) [] d = tt
Beats-take (suc n) (p ∷ ps) (a, d) = (AtMost-drop n p.engagement_score ps a, Beats-take n ps d)

take-drop : {A : Type 0} → (n : ℕ) (xs : List A) → take n xs ++ drop n xs ≡ xs
take-drop zero xs = refl
take-drop (suc n) [] = refl
take-drop (suc n) (x ∷ xs) = let h = take-drop n xs in cc

count-insert_by :
    (p : TopPost → Bool) (x : TopPost) (posts : List TopPost)
    → count_if p (insert_by by_score x posts) ≡ (if p x then 1 else 0) + count_if p posts
unfolding insert_by
count-insert_by p x [] = refl
count-insert_by p x (y ∷ ys) = elim (Bool-cases (by_score y x)) [
  | inl e ↦ rw e (omega (arith, count-insert_by p x ys))
  | inr e ↦ rw e refl
]

count-sort_by :
    (p : TopPost → Bool) (posts : List TopPost)
    → count_if p (sort_by by_score posts) ≡ count_if p posts
unfolding sort_by
count-sort_by p [] = refl
count-sort_by p (x ∷ xs) =
    omega (arith, count-insert_by p x (sort_by by_score xs), count-sort_by p xs)

take_all : {A : Type 0} → (n : ℕ) (xs : List A) → (length (take n xs) ≡ n) ⊎ (drop n xs ≡ [])
take_all zero xs = inl refl
take_all (suc n) [] = inr refl
take_all (suc n) (x ∷ xs) = elim (take_all n xs) [ inl e ↦ inl (omega (arith, e)) | inr e ↦ inr e ]

-- The top posts are in descending order of their score. They are as many as were asked for, or, where the rows are fewer, all the posts. With the
-- others they are the posts of the rows, each as often as there, and no other has a higher score
-- than one of them.
pub top_posts-Beats :
    (precedes : String → String → Bool) (rows : List MetricRow) (top_n : ℕ)
    → let top = (aggregate_overview precedes rows top_n).top_posts in
      (length top ≤ top_n)
      × Descending top
      × ((rest : List TopPost) × Beats top rest
          × ((length top ≡ top_n) ⊎ (rest ≡ []))
          × ((p : TopPost → Bool) → count_if p (top ++ rest) ≡ count_if p (map top_post rows)))
unfolding aggregate_overview ranked
top_posts-Beats precedes rows top_n =
    let posts = sort_by by_score (map top_post rows) in
    let d = Descending-sort_by (map top_post rows) in
    (
      length-take-le top_n posts,
      Descending-take top_n posts d,
      (
        drop top_n posts,
        Beats-take top_n posts d,
        take_all top_n posts,
        λ p. ap (λ l. count_if p l) (take-drop top_n posts) ∙ count-sort_by p (map top_post rows),
      ),
    )
