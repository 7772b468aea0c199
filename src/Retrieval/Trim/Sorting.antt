-- ===== src/Retrieval/Trim/Sorting.antt =====
-- The sort keeps its elements, and puts them in the order of the scores or of the document.
use lens_lm.Base.{
  ℕ, ◌+◌, ◌<◌, ◌≤◌, ◌≡◌, ◌⊎◌, refl, sym, Bool, Bool-cases, true, false, inl, inr, Option, none,
  some, List, [], ◌∷◌, arith,
}
use lens_lm.Base.Text.{Str}
use lens_lm.Retrieval.Trim.{
  Comparison, less, equal, greater, rank_of, unwrap_or_equal, by_score, cmp, then_with, is_greater,
  sort_insert, sort_by, Candidate, doc_order_key, key_cmp, by_key,
}

-- The sum of a measure over a list.
abbrev pub sum_by : {A : Type 0} → (A → ℕ) → List A → ℕ
sum_by f [] = 0
sum_by f (x ∷ xs) = f x + sum_by f xs

-- Every measure has one sum over both: each value stands in both as often.
abbrev pub IsReordering : {A : Type 0} → List A → List A → Type 0
IsReordering {A = A} xs ys = (f : A → ℕ) → sum_by f xs ≡ sum_by f ys

module _ {A : Type 0} (gt : A → A → Bool) where
  sum_by-sort_insert :
      (f : A → ℕ) (x : A) (xs : List A) → sum_by f (sort_insert gt x xs) ≡ f x + sum_by f xs
  unfolding sort_insert
  sum_by-sort_insert f x [] = refl
  sum_by-sort_insert f x (y ∷ ys) = elim (Bool-cases (gt x y)) [
    | inl e ↦ rw e (omega (arith, sum_by-sort_insert f x ys))
    | inr e ↦ rw e refl
  ]

  pub sort_by-IsReordering : (xs : List A) → IsReordering (sort_by gt xs) xs
  unfolding sort_by
  sort_by-IsReordering [] f = refl
  sort_by-IsReordering (x ∷ xs) f =
      omega (arith, sum_by-sort_insert f x (sort_by gt xs), sort_by-IsReordering xs f)

  -- No element is behind one that belongs behind it.
  abbrev pub IsSorted : List A → Type 0
  IsSorted [] = Unit
  IsSorted (x ∷ []) = Unit
  IsSorted (x ∷ y ∷ r) = (gt x y ≡ false) × IsSorted (y ∷ r)

  module _ (asym : (x y : A) → gt x y ≡ true → gt y x ≡ false) where
    sort_insert-IsSorted :
        (x z : A) (ys : List A)
        → gt z x ≡ false
        → IsSorted (z ∷ ys)
        → IsSorted (z ∷ sort_insert gt x ys)
    unfolding sort_insert
    sort_insert-IsSorted x z [] h sorted = (h, tt)
    sort_insert-IsSorted x z (y ∷ ys) h (zy, sorted) = elim (Bool-cases (gt x y)) [
      | inl e ↦ rw e (zy, sort_insert-IsSorted x y ys (asym x y e) sorted)
      | inr e ↦ rw e (h, (e, sorted))
    ]

    first-IsSorted : (x : A) (ys : List A) → IsSorted ys → IsSorted (sort_insert gt x ys)
    unfolding sort_insert
    first-IsSorted x [] sorted = tt
    first-IsSorted x (y ∷ ys) sorted = elim (Bool-cases (gt x y)) [
      | inl e ↦ rw e (sort_insert-IsSorted x y ys (asym x y e) sorted)
      | inr e ↦ rw e (e, sorted)
    ]

    pub sort_by-IsSorted : (xs : List A) → IsSorted (sort_by gt xs)
    unfolding sort_by
    sort_by-IsSorted [] = tt
    sort_by-IsSorted (x ∷ xs) = first-IsSorted x (sort_by gt xs) (sort_by-IsSorted xs)

-- Each element and the next one are so related.
abbrev pub IsChain : {A : Type 0} → (A → A → Type 0) → List A → Type 0
IsChain R [] = Unit
IsChain R (x ∷ []) = Unit
IsChain R (x ∷ y ∷ r) = R x y × IsChain R (y ∷ r)

IsSorted-IsChain :
    {A : Type 0} (gt : A → A → Bool) (R : A → A → Type 0)
    → ((x y : A) → gt x y ≡ false → R x y)
    → (xs : List A) → IsSorted gt xs
    → IsChain R xs
IsSorted-IsChain gt R h [] sorted = tt
IsSorted-IsChain gt R h (x ∷ []) sorted = tt
IsSorted-IsChain gt R h (x ∷ y ∷ r) (xy, sorted) =
    (h x y xy, IsSorted-IsChain gt R h (y ∷ r) sorted)

-- The sort puts the elements in a relation that holds where one does not belong behind the next.
pub sort_by-IsChain :
    {A : Type 0} (gt : A → A → Bool) (R : A → A → Type 0)
    → ((x y : A) → gt x y ≡ true → gt y x ≡ false)
    → ((x y : A) → gt x y ≡ false → R x y)
    → (xs : List A) → IsChain R (sort_by gt xs)
sort_by-IsChain gt R asym h xs =
    IsSorted-IsChain gt R h (sort_by gt xs) (sort_by-IsSorted gt asym xs)

-- `partial_cmp` the other way round.
abbrev pub reverse : Option Comparison → Option Comparison
reverse none = none
reverse (some less) = some greater
reverse (some equal) = some equal
reverse (some greater) = some less

-- What compares `y`'s score with `x`'s: it is less, or it is not greater and `x` goes first by a
-- second order.
abbrev pub GoesFirst : Option Comparison → Type 0 → Type 0
GoesFirst (some less) Second = Unit
GoesFirst (some equal) Second = Second
GoesFirst none Second = Second
GoesFirst (some greater) Second = ⊥

pub then_with-asym :
    (o : Option Comparison) (m n : Comparison)
    → (is_greater m ≡ true → is_greater n ≡ false)
    → is_greater (then_with (unwrap_or_equal o) m) ≡ true
    → is_greater (then_with (unwrap_or_equal (reverse o)) n) ≡ false
unfolding is_greater then_with unwrap_or_equal
then_with-asym none m n asym h = asym h
then_with-asym (some less) m n asym h = absurd (cc h)
then_with-asym (some equal) m n asym h = asym h
then_with-asym (some greater) m n asym h = refl

pub then_with-GoesFirst :
    (o : Option Comparison) (m : Comparison) (Second : Type 0)
    → (is_greater m ≡ false → Second)
    → is_greater (then_with (unwrap_or_equal o) m) ≡ false
    → GoesFirst o Second
unfolding is_greater then_with unwrap_or_equal
then_with-GoesFirst none m Second second h = second h
then_with-GoesFirst (some less) m Second second h = tt
then_with-GoesFirst (some equal) m Second second h = second h
then_with-GoesFirst (some greater) m Second second h = absurd (cc h)

-- The document order: of the sources, none last, then of the levels, then of the places.
abbrev pub source_place : Option ℕ → ℕ
source_place none = 18446744073709551615
source_place (some r) = r

abbrev pub InDocOrder : {F P : Type 0} → (Str → Option ℕ) → Candidate F P → Candidate F P → Type 0
InDocOrder source_rank x y =
    let rank = source_place (source_rank x.source_id) in
    let rank' = source_place (source_rank y.source_id) in
    (rank < rank')
    ⊎ ((rank ≡ rank')
        × ((x.level < y.level) ⊎ ((x.level ≡ y.level) × (x.token_start ≤ y.token_start))))

source_place-rank_of : (o : Option ℕ) → rank_of o ≡ source_place o
unfolding rank_of
source_place-rank_of none = refl
source_place-rank_of (some r) = refl

triple_order :
    (a b c a' b' c' : ℕ)
    → is_greater (then_with (cmp a a') (then_with (cmp b b') (cmp c c'))) ≡ false
    → (a < a') ⊎ ((a ≡ a') × ((b < b') ⊎ ((b ≡ b') × (c ≤ c'))))
unfolding is_greater then_with cmp
triple_order a b c a' b' c' h = ground (arith, h)

triple_asym :
    (a b c a' b' c' : ℕ)
    → is_greater (then_with (cmp a a') (then_with (cmp b b') (cmp c c'))) ≡ true
    → is_greater (then_with (cmp a' a) (then_with (cmp b' b) (cmp c' c))) ≡ false
unfolding is_greater then_with cmp
triple_asym a b c a' b' c' h = ground (arith, h)

pub by_key_asym :
    {F P : Type 0} (partial_cmp : F → F → Option Comparison) (source_rank : Str → Option ℕ)
    (x y : Candidate F P)
    → by_key partial_cmp source_rank x y ≡ true
    → by_key partial_cmp source_rank y x ≡ false
unfolding by_key key_cmp
by_key_asym partial_cmp source_rank x y h =
    let (a, b, c) = doc_order_key partial_cmp source_rank x in
    let (a', b', c') = doc_order_key partial_cmp source_rank y in triple_asym a b c a' b' c' h

pub by_key-InDocOrder :
    {F P : Type 0} (partial_cmp : F → F → Option Comparison) (source_rank : Str → Option ℕ)
    (x y : Candidate F P)
    → by_key partial_cmp source_rank x y ≡ false
    → InDocOrder source_rank x y
unfolding by_key key_cmp doc_order_key
by_key-InDocOrder partial_cmp source_rank x y h =
    rw
      (
        sym (source_place-rank_of (source_rank x.source_id)),
        sym (source_place-rank_of (source_rank y.source_id)),
      )
      (triple_order (rank_of (source_rank x.source_id)) x.level x.token_start
        (rank_of (source_rank y.source_id)) y.level y.token_start h)

-- The next one's score is less, or no greater and it is behind in the document order.
abbrev pub InScoreOrder :
    {F P : Type 0}
    → (F → F → Option Comparison)
    → (Str → Option ℕ)
    → Candidate F P
    → Candidate F P
    → Type 0
InScoreOrder partial_cmp source_rank x y =
    GoesFirst (partial_cmp y.score x.score) (InDocOrder source_rank x y)

pub by_score-IsChain :
    {F P : Type 0} (partial_cmp : F → F → Option Comparison) (source_rank : Str → Option ℕ)
    (cs : List (Candidate F P))
    → ((a b : F) → partial_cmp b a ≡ reverse (partial_cmp a b))
    → IsChain (InScoreOrder partial_cmp source_rank) (sort_by (by_score partial_cmp source_rank) cs)
unfolding by_score by_key
by_score-IsChain partial_cmp source_rank cs dual =
    sort_by-IsChain (by_score partial_cmp source_rank) (InScoreOrder partial_cmp source_rank)
      (λ x y h. rw (dual y.score x.score) (
        then_with-asym (partial_cmp y.score x.score) (key_cmp partial_cmp source_rank x y)
          (key_cmp partial_cmp source_rank y x) (by_key_asym partial_cmp source_rank x y) h))
      (λ x y h.
        then_with-GoesFirst (partial_cmp y.score x.score) (key_cmp partial_cmp source_rank x y)
          (InDocOrder source_rank x y) (by_key-InDocOrder partial_cmp source_rank x y) h)
      cs
