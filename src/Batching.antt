-- ===== src/Batching.antt =====
-- lens-core/src/enrichment/batching.rs: batch_by_char_budget. usize sums are unbounded.
pub mod Packs
use lens_lm.Base.{ℕ, ◌+◌, ◌&&◌, not, List, [], ◌∷◌, ◌++◌, ltb, if◌then◌else◌}
use lens_lm.Chunk.Parent.{is_empty}

module _ {T : Type 0} (budget separator_len : ℕ) (len_fn : T → ℕ) where
  -- The loop, on the items that are left.
  unfoldable pub batch_loop : List T → List (List T) → List T → ℕ → List (List T)
  unfolding is_empty
  batch_loop [] batches current current_len =
      if not (is_empty current) then batches ++ current ∷ [] else batches
  batch_loop (item ∷ r) batches current current_len =
      let item_cost = len_fn item + separator_len in
      let full = not (is_empty current) && ltb budget (current_len + item_cost) in
      batch_loop r (if full then batches ++ current ∷ [] else batches)
        ((if full then [] else current) ++ item ∷ [])
        ((if full then 0 else current_len) + item_cost)

  unfoldable pub batch_by_char_budget : List T → List (List T)
  unfolding batch_loop
  batch_by_char_budget items = batch_loop items [] [] 0
