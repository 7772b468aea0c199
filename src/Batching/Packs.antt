-- ===== src/Batching/Packs.antt =====
-- The batches hold the items in order, within the budget or alone, and each was closed for want of
-- room.
use lens_lm.Base.{
  ℕ, ◌+◌, ◌<◌, ◌≤◌, ◌≡◌, ◌∙◌, refl, ap, ◌⊎◌, Bool-cases, inl, inr, List, [], ◌∷◌, ◌++◌,
  append_assoc, length, ltb, arith,
}
use lens_lm.Chunk.Parent.{is_empty}
use lens_lm.Batching.{batch_loop, batch_by_char_budget}

abbrev pub concat : {T : Type 0} → List (List T) → List T
concat [] = []
concat (b ∷ r) = b ++ concat r

module _ {T : Type 0} (budget separator_len : ℕ) (len_fn : T → ℕ) where
  abbrev pub cost : List T → ℕ
  cost [] = 0
  cost (x ∷ r) = len_fn x + separator_len + cost r

  cost-append : (xs ys : List T) → cost (xs ++ ys) ≡ cost xs + cost ys
  cost-append [] ys = omega arith
  cost-append (x ∷ r) ys = omega (arith, cost-append r ys)

  -- A batch is not empty, and is within the budget unless it is one item.
  abbrev pub IsBatch : List T → Type 0
  IsBatch b = (1 ≤ length b) × ((cost b ≤ budget) ⊎ (length b ≡ 1))

  -- The first item of the batch behind would not have fitted.
  abbrev pub IsFull : List T → List (List T) → Type 0
  IsFull b [] = Unit
  IsFull b ([] ∷ r) = ⊥
  IsFull b ((x ∷ _) ∷ r) = budget < cost b + (len_fn x + separator_len)

  abbrev pub IsPacked : List (List T) → Type 0
  IsPacked [] = Unit
  IsPacked (b ∷ r) = IsBatch b × IsFull b r × IsPacked r

  -- The first batch begins with `x`.
  abbrev Heads : T → List (List T) → Type 0
  Heads x [] = ⊥
  Heads x ([] ∷ r) = ⊥
  Heads x ((y ∷ _) ∷ r) = y ≡ x

  Heads-IsFull :
      (b : List T) (x : T) (rest : List (List T))
      → Heads x rest
      → budget < cost b + (len_fn x + separator_len)
      → IsFull b rest
  Heads-IsFull b x [] h over = tt
  Heads-IsFull b x ([] ∷ r) h over = h
  Heads-IsFull b x ((y ∷ _) ∷ r) h over = rw h over

  -- What the loop adds to the batches when `x ∷ c` is open.
  batch_loop-IsPacked :
      (items : List T) (batches : List (List T)) (x : T) (c : List T) (current_len : ℕ)
      → current_len ≡ cost (x ∷ c)
      → IsBatch (x ∷ c)
      → (rest : List (List T)) × (batch_loop budget separator_len len_fn items batches
            (x ∷ c)
            current_len
          ≡ batches ++ rest)
        × IsPacked rest
        × (concat rest ≡ (x ∷ c) ++ items)
        × Heads x rest
  unfolding batch_loop is_empty
  batch_loop-IsPacked [] batches x c current_len e batch =
      ((x ∷ c) ∷ [], refl, (batch, tt, tt), refl, refl)
  batch_loop-IsPacked (item ∷ r) batches x c current_len e batch =
      elim (Bool-cases (ltb budget (current_len + (len_fn item + separator_len)))) [
        | inl over ↦
            let (rest, run, packed, all, head) =
              batch_loop-IsPacked r (batches ++ (x ∷ c) ∷ []) item []
                (0 + (len_fn item + separator_len)) (omega arith) (omega arith, inr refl) in
            (
              (x ∷ c) ∷ rest,
              rw over (run ∙ append_assoc batches ((x ∷ c) ∷ []) rest),
              (batch, Heads-IsFull (x ∷ c) item rest head (ground (arith, e)), packed),
              ap (λ t. (x ∷ c) ++ t) all,
              refl,
            )
        | inr fits ↦
            let (rest, run, packed, all, head) =
              batch_loop-IsPacked r batches x (c ++ item ∷ [])
                (current_len + (len_fn item + separator_len))
                (omega (arith, e, cost-append c (item ∷ [])))
                (omega arith, inl (ground (arith, e, cost-append c (item ∷ [])))) in
            (rest, rw fits run, packed, all ∙ append_assoc (x ∷ c) (item ∷ []) r, head)
      ]

  -- The batches hold the items in their order, and none is empty. A batch costs at most the budget
  -- or is one item, and the first item of the next batch would have put it over the budget.
  pub batch_by_char_budget-IsPacked :
      (items : List T)
      → let batches : List (List T) = batch_by_char_budget budget separator_len len_fn items in
        (concat batches ≡ items) × IsPacked batches
  unfolding batch_by_char_budget batch_loop is_empty
  batch_by_char_budget-IsPacked [] = (refl, tt)
  batch_by_char_budget-IsPacked (item ∷ r) =
      let (rest, run, packed, all, head) =
        batch_loop-IsPacked r [] item [] (0 + (len_fn item + separator_len)) (omega arith)
          (omega arith, inr refl) in
      rw run (all, packed)
