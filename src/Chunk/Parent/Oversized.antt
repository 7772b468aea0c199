-- ===== src/Chunk/Parent/Oversized.antt =====
-- split_oversized_parent_block: an oversized block becomes windows that tile it.
use lens_lm.Base.{
  ℕ, ◌+◌, ◌<◌, ◌≤◌, ◌≡◌, ◌∙◌, sym, ap, inr, List, [], ◌∷◌, ◌++◌, append_assoc, append-nil, arith,
  some,
}
use lens_lm.Base.Text.{Str, slice, byte_len}
use lens_lm.Base.Text.Spans.{slice-Boundary, slice-join, slice_empty}
use lens_lm.Chunk.Types.{Tokenizer, Block}
use lens_lm.Chunk.Ends.{Ends, Ends-map}
use lens_lm.Chunk.Split.Tiles.{IsBounded, split_oversized-Inv}
use lens_lm.Chunk.Parent.{ParentWindow, parent_limit, push_sub_window, split_oversized_parent_block}
use lens_lm.Chunk.Parent.Placed.{WindowsTo-weaken}
use lens_lm.Chunk.Parent.Flush.{IsFlushed, push-IsFlushed}

module _ (tokenizer : Tokenizer) (src : Str) where
  -- A sub-window of an oversized block moves the frontier on.
  abbrev IsSplitting : Block → Str → ℕ → List ParentWindow → Type 0
  IsSplitting block d a ws =
      (done : Str) × IsFlushed tokenizer src a (d ++ done) ws
      × slice src block.char_start a ≡ some done

  push_sub_window-IsSplitting :
      (block : Block) (d : Str) (ws : List ParentWindow) (seg : Str) (a b : ℕ)
      → IsSplitting block d a ws
      → a < b
      → slice src a b ≡ some seg
      → IsBounded tokenizer parent_limit seg
      → Ends tokenizer (IsSplitting block d b) (push_sub_window block ws seg a b)
  unfolding push_sub_window
  push_sub_window-IsSplitting block d ws seg a b (done, flushed, e) lt sl bounded =
      let sub : ParentWindow = record {
        text = seg;
        section_path = block.section_path;
        block_type = some block.block_type;
        char_start = a;
        char_end = b;
        blocks = record block { text = seg; char_start = a; char_end = b } ∷ [];
      } in
      let (ws_ok, all) =
        push-IsFlushed tokenizer src a (d ++ done) ws sub flushed (omega arith) sl
          (omega arith, sl, omega arith) (inr bounded) in
      (
        done ++ seg,
        (
          ws_ok,
          all ∙ append_assoc d done (seg ++ []) ∙ ap (λ t. d ++ (done ++ t)) (append-nil seg),
        ),
        slice-join src block.char_start a b done seg e sl,
      )

  IsFlushed-at :
      {i j : ℕ} {t u : Str} (ws : List ParentWindow) (d : Str)
      → i ≡ j
      → t ≡ u
      → IsFlushed tokenizer src i (d ++ t) ws
      → IsFlushed tokenizer src j (d ++ u) ws
  IsFlushed-at ws d p q f = rw (← p, ← q) f

  pub split_oversized_parent_block-IsFlushed :
      (hi : ℕ) (d : Str) (ws : List ParentWindow) (block : Block)
      → IsFlushed tokenizer src hi d ws
      → hi ≤ block.char_start
      → slice src block.char_start block.char_end ≡ some block.text
      → Ends tokenizer
          (IsFlushed tokenizer src block.char_end (d ++ block.text))
          (split_oversized_parent_block src block tokenizer parent_limit ws)
  unfolding split_oversized_parent_block push_sub_window
  split_oversized_parent_block-IsFlushed hi d ws block flushed h sl =
      let (at_b, at_e, len) = slice-Boundary src _ _ _ sl in
      Ends-map tokenizer (IsSplitting block d (block.char_start + byte_len block.text))
        (IsFlushed tokenizer src block.char_end (d ++ block.text)) _
        (split_oversized-Inv tokenizer src block parent_limit (push_sub_window block)
          (IsSplitting block d) (rw len sl) (push_sub_window-IsSplitting block d) ws
          (
            [],
            (
              WindowsTo-weaken tokenizer src 0 hi block.char_start ws flushed.0 h,
              flushed.1 ∙ sym (append-nil d),
            ),
            slice_empty src block.char_start at_b,
          ))
        λ ws' _ (done, f, e).
          let e' : slice src block.char_start block.char_end ≡ some done = rw (← len) e in
          let same : done ≡ block.text = cc in IsFlushed-at ws' d len same f
