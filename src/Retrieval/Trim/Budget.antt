-- ===== src/Retrieval/Trim/Budget.antt =====
-- trim_and_order keeps the best units within the budget, and gives them in document order.
use mathlib.Core.Path.{subst}
use lens_lm.Base.{
  suc, ℕ, ◌+◌, ◌-◌, ◌/◌, ◌≤◌, ◌<◌, ◌≡◌, ◌∙◌, refl, sym, ap, ◌⊎◌, Bool, Bool-cases, true, false,
  ◌&&◌, ◌||◌, if◌then◌else◌, inl, inr, Option, List, [], ◌∷◌, ◌++◌, length, ltb, leb, arith,
}
use lens_lm.Base.Text.{Str}
use lens_lm.Retrieval.Trim.{
  Comparison, sort_by, Candidate, is_cjk, count_chars, by_score, by_key, estimate_tokens,
  total_tokens, choose_loop, survivors_of, number_units, trim_and_order,
}
use lens_lm.Citation.Extract.{ContextUnit}
use lens_lm.Retrieval.Trim.Sorting.{
  sum_by, IsReordering, sort_by-IsReordering, IsChain, sort_by-IsChain, reverse, InDocOrder,
  InScoreOrder, by_score-IsChain, by_key-InDocOrder, by_key_asym,
}

-- The scripts that count a token for each character.
abbrev cjk_ranges : List (ℕ × ℕ)
cjk_ranges = (12352, 12543) ∷ (13312, 19903) ∷ (19968, 40959) ∷ (63744, 64255) ∷ (44032, 55215) ∷ []

abbrev pub in_ranges : ℕ → List (ℕ × ℕ) → Bool
in_ranges c [] = false
in_ranges c ((lo, hi) ∷ r) = (leb lo c && leb c hi) || in_ranges c r

abbrev pub cjk_in : Str → ℕ
cjk_in [] = 0
cjk_in (c ∷ s) = (if in_ranges c cjk_ranges then 1 else 0) + cjk_in s

-- A token for each of these characters, and one for four others.
abbrev pub tokens_in : Str → ℕ
tokens_in text = cjk_in text + (length text - cjk_in text) / 4

is_cjk-in_ranges : (c : ℕ) → is_cjk c ≡ in_ranges c cjk_ranges
unfolding is_cjk
is_cjk-in_ranges c = ground arith

count_chars-cjk_in :
    (text : Str)
    → ((count_chars text).0 ≡ cjk_in text)
      × ((count_chars text).0 + (count_chars text).1 ≡ length text)
unfolding count_chars
count_chars-cjk_in [] = (refl, refl)
count_chars-cjk_in (c ∷ s) =
    let (cjk, all) = count_chars-cjk_in s in
    elim (Bool-cases (in_ranges c cjk_ranges)) [
      | inl e ↦ rw (is_cjk-in_ranges c, e) (omega (arith, cjk), omega (arith, all))
      | inr e ↦ rw (is_cjk-in_ranges c, e) (omega (arith, cjk), omega (arith, all))
    ]

estimate_tokens-tokens_in : (text : Str) → estimate_tokens text ≡ tokens_in text
unfolding estimate_tokens
estimate_tokens-tokens_in text = let (cjk, all) = count_chars-cjk_in text in omega (arith, cjk, all)

module _ {F P : Type 0} where
  abbrev pub tokens_of : List (Candidate F P) → ℕ
  tokens_of [] = 0
  tokens_of (c ∷ r) = tokens_in c.text + tokens_of r

  total_tokens-tokens_of : (cs : List (Candidate F P)) → total_tokens cs ≡ tokens_of cs
  unfolding total_tokens
  total_tokens-tokens_of [] = refl
  total_tokens-tokens_of (c ∷ r) =
      omega (arith, estimate_tokens-tokens_in c.text, total_tokens-tokens_of r)

  -- The first one that is left would not have fitted.
  abbrev pub IsFull : ℕ → ℕ → List (Candidate F P) → Type 0
  IsFull cap used [] = Unit
  IsFull cap used (c ∷ r) = cap < used + tokens_in c.text

  choose_loop-split :
      (cap running : ℕ) (chosen : Bool) (cs : List (Candidate F P))
      → let (more, left) = choose_loop cap running chosen cs in
        (more ++ left ≡ cs) × IsFull cap (running + total_tokens more) left
  unfolding choose_loop total_tokens
  choose_loop-split cap running chosen [] = (refl, tt)
  choose_loop-split cap running chosen (c ∷ r) =
      let n = estimate_tokens c.text in
      let (more, left) = choose_loop cap (running + n) true r in
      let (joined, full) = choose_loop-split cap (running + n) true r in
      let shift : running + n + total_tokens more ≡ running + (n + total_tokens more) =
        omega arith in
      elim (Bool-cases (ltb cap (running + n) && chosen)) [
        | inl e ↦ rw (e, choose_loop) (refl, ground (arith, e, estimate_tokens-tokens_in c.text))
        | inr e ↦
            rw (e, choose_loop) (ap (λ t. c ∷ t) joined, subst (λ u. IsFull cap u left) shift full)
      ]

  -- Behind a first choice within the cap the loop stays within it.
  choose_loop-within :
      (cap running : ℕ) (cs : List (Candidate F P))
      → running ≤ cap
      → running + total_tokens (choose_loop cap running true cs).0 ≤ cap
  unfolding choose_loop total_tokens
  choose_loop-within cap running [] h = omega arith
  choose_loop-within cap running (c ∷ r) h =
      let n = estimate_tokens c.text in
      elim (Bool-cases (ltb cap (running + n) && true)) [
        | inl e ↦ rw (e, choose_loop) (omega arith)
        | inr e ↦
            rw (e, choose_loop)
              (omega (arith, choose_loop-within cap (running + n) r (ground (arith, e))))
      ]

  -- Behind one over the cap it takes no more.
  choose_loop-over :
      (cap running : ℕ) (cs : List (Candidate F P))
      → cap < running
      → (choose_loop cap running true cs).0 ≡ []
  unfolding choose_loop
  choose_loop-over cap running [] h = refl
  choose_loop-over cap running (c ∷ r) h =
      let over : (ltb cap (running + estimate_tokens c.text) && true) ≡ true = ground (arith, h) in
      rw over refl

  abbrev pub InBudget : ℕ → List (Candidate F P) → Type 0
  InBudget cap cs = (tokens_of cs ≤ cap) ⊎ (length cs ≡ 1)

  choose_loop-InBudget :
      (cap : ℕ) (cs : List (Candidate F P)) → InBudget cap (choose_loop cap 0 false cs).0
  unfolding choose_loop total_tokens
  choose_loop-InBudget cap [] = inl (omega arith)
  choose_loop-InBudget cap (c ∷ r) =
      let n = estimate_tokens c.text in
      let first : (ltb cap (0 + n) && false) ≡ false = ground arith in
      elim (Bool-cases (ltb cap (0 + n))) [
        | inl e ↦
            let none = choose_loop-over cap (0 + n) r (ground (arith, e)) in
            rw first (inr (ap (λ t. suc (length t)) none))
        | inr e ↦
            let within = choose_loop-within cap (0 + n) r (ground (arith, e)) in
            rw first (
              inl (
                omega
                  (arith, within, total_tokens-tokens_of (c ∷ (choose_loop cap (0 + n) true r).0))))
      ]

module _ {F P : Type 0} (partial_cmp : F → F → Option Comparison)
    (source_rank : Str → Option ℕ) where
  -- All candidates, if they fit; or the first of them by score, as many as fit.
  abbrev pub Trimmed : List (Candidate F P) → ℕ → List (Candidate F P) → Type 0
  Trimmed candidates cap kept =
      ((kept ≡ candidates) × (tokens_of candidates ≤ cap))
      ⊎ ((left : List (Candidate F P)) × (cap < tokens_of candidates)
          × IsReordering (kept ++ left) candidates
          × IsChain (InScoreOrder partial_cmp source_rank) (kept ++ left)
          × InBudget cap kept
          × IsFull cap (tokens_of kept) left)

  survivors_of-Trimmed :
      (candidates : List (Candidate F P)) (cap : ℕ)
      → ((a b : F) → partial_cmp b a ≡ reverse (partial_cmp a b))
      → Trimmed candidates cap (survivors_of partial_cmp source_rank candidates cap)
  unfolding survivors_of
  survivors_of-Trimmed candidates cap dual =
      let gt = by_score partial_cmp source_rank in
      let sorted = sort_by gt candidates in
      let (joined, full) = choose_loop-split cap 0 false sorted in
      let (kept, left) = choose_loop cap 0 false sorted in
      let total = total_tokens-tokens_of candidates in
      let used : 0 + total_tokens kept ≡ tokens_of kept =
        omega (arith, total_tokens-tokens_of kept) in
      elim (Bool-cases (leb (total_tokens candidates) cap)) [
        | inl e ↦ rw e (inl (refl, ground (arith, e, total)))
        | inr e ↦ rw e (
            inr (
              left,
              ground (arith, e, total),
              λ f. ap (sum_by f) joined ∙ sort_by-IsReordering gt candidates f,
              subst (IsChain (InScoreOrder partial_cmp source_rank)) (sym joined)
                  (by_score-IsChain partial_cmp source_rank candidates dual),
              choose_loop-InBudget cap sorted,
              subst (λ u. IsFull cap u left) used full,
            ))
      ]

  -- The units are of these candidates, numbered from `i` on.
  abbrev pub Tells : ℕ → List (Candidate F P) → List (ContextUnit × P) → Type 0
  Tells i [] [] = Unit
  Tells i (c ∷ cs) ((u, p) ∷ us) =
      (u.text ≡ c.text)
      × (u.source_id ≡ c.source_id)
      × (u.chunk_id ≡ c.chunk_id)
      × (u.parent_id ≡ c.parent_id)
      × (u.locator ≡ c.locator)
      × (u.order_index ≡ i)
      × (p ≡ c.provenance)
      × Tells (i + 1) cs us
  Tells i [] (u ∷ us) = ⊥
  Tells i (c ∷ cs) [] = ⊥

  number_units-Tells : (i : ℕ) (cs : List (Candidate F P)) → Tells i cs (number_units i cs)
  unfolding number_units
  number_units-Tells i [] = tt
  number_units-Tells i (c ∷ r) =
      (refl, refl, refl, refl, refl, refl, refl, number_units-Tells (i + 1) r)

  -- The units are of the candidates kept, in document order.
  abbrev pub TrimmedTo : List (Candidate F P) → ℕ → List (ContextUnit × P) → Type 0
  TrimmedTo candidates cap units =
      (kept : List (Candidate F P)) × (ordered : List (Candidate F P)) × Trimmed candidates cap kept
      × IsReordering ordered kept
      × IsChain (InDocOrder source_rank) ordered
      × Tells 0 ordered units

  -- Where partial_cmp answers the reverse for two scores the other way round, and in whatever
  -- order the candidates come: if they fit the budget, trim_and_order keeps all. If not, it puts
  -- them in an order in which each score is greater than the next one, or neither is greater and
  -- the one in front is no later in document order. It keeps the first of them, so many that the
  -- next one would not fit, and these fit the budget or are a single one. The kept ones are given
  -- in document order: by the rank of the source, the level and the token where they start, each
  -- with its index. A token is counted for each CJK character and for four others.
  pub trim_and_order-Trimmed :
      (candidates : List (Candidate F P)) (cap : ℕ)
      → ((a b : F) → partial_cmp b a ≡ reverse (partial_cmp a b))
      → TrimmedTo candidates cap (trim_and_order partial_cmp source_rank candidates cap)
  unfolding trim_and_order
  trim_and_order-Trimmed candidates cap dual =
      let kept = survivors_of partial_cmp source_rank candidates cap in
      let gt = by_key partial_cmp source_rank in
      (
        kept,
        sort_by gt kept,
        survivors_of-Trimmed candidates cap dual,
        sort_by-IsReordering gt kept,
        sort_by-IsChain gt (InDocOrder source_rank) (by_key_asym partial_cmp source_rank)
            (by_key-InDocOrder partial_cmp source_rank) kept,
        number_units-Tells 0 (sort_by gt kept),
      )
