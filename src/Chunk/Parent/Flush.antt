-- ===== src/Chunk/Parent/Flush.antt =====
-- flush_parent_window: the open blocks become one window, and no text is lost.
use lens_lm.Base.{ℕ, ◌≤◌, ◌≡◌, min, refl, inl, List, [], ◌∷◌, ◌++◌, append-nil, arith, some}
use lens_lm.Base.Text.{Str, slice, byte_len}
use lens_lm.Base.Text.Spans.{Boundary, Boundary-le, slice-Boundary}
use lens_lm.Chunk.Types.{Tokenizer, Block, index}
use lens_lm.Chunk.Ends.{Ends, Ends-bind, Ends-index}
use lens_lm.Chunk.Parent.{ParentWindow, Packing, parent_limit, flush_parent_window}
use lens_lm.Chunk.Parent.Placed.{
  PlacedTo, TokenSum, content, window_content, window_content-append, IsPacked, WindowsTo,
  WindowsTo-append,
}

PlacedTo-le : (src : Str) (lo : ℕ) (bs : List Block) (hi : ℕ) → PlacedTo src lo bs hi → lo ≤ hi
PlacedTo-le src lo [] hi h = h
PlacedTo-le src lo (b ∷ r) hi (h, s, k) =
    omega (arith, (slice-Boundary src _ _ _ s).2, PlacedTo-le src b.char_end r hi k)

module _ (tokenizer : Tokenizer) (src : Str) where
  -- The open window's bounds are those of its blocks.
  abbrev pub OpenAt : List Block → ℕ → ℕ → ℕ → Type 0
  OpenAt [] cs ce hi = Unit
  OpenAt (b ∷ r) cs ce hi = (cs ≡ b.char_start) × (ce ≡ hi) × Boundary src hi

  -- The state between two blocks: all before byte `hi` is done, and `d` is the blocks' text.
  abbrev pub PackedAt : ℕ → Str → List ParentWindow → List Block → ℕ → ℕ → ℕ → Type 0
  PackedAt hi d ws cur cs ce toks =
      (mid : ℕ) × WindowsTo tokenizer src 0 ws mid
      × PlacedTo src mid cur hi
      × OpenAt cur cs ce hi
      × TokenSum tokenizer cur toks
      × (toks ≤ parent_limit)
      × (window_content ws ++ content cur ≡ d)

  abbrev pub IsPacking : ℕ → Str → Packing → Type 0
  IsPacking hi d p =
      PackedAt hi d p.windows p.current_blocks p.current_char_start p.current_char_end
        p.current_tokens

  -- The windows alone: nothing is open.
  abbrev pub IsFlushed : ℕ → Str → List ParentWindow → Type 0
  IsFlushed hi d ws = WindowsTo tokenizer src 0 ws hi × (window_content ws ≡ d)

  pub push-IsFlushed :
      (mid : ℕ) (d : Str) (ws : List ParentWindow) (w : ParentWindow)
      → IsFlushed mid d ws
      → mid ≤ w.char_start
      → slice src w.char_start w.char_end ≡ some w.text
      → PlacedTo src w.char_start w.blocks w.char_end
      → IsPacked tokenizer w
      → IsFlushed w.char_end (d ++ content w.blocks) (ws ++ w ∷ [])
  push-IsFlushed mid d ws w (before, all) h whole placed packed = (
    WindowsTo-append tokenizer src 0 mid w.char_end ws (w ∷ []) before
        (h, whole, placed, packed, omega arith),
    rw (window_content-append ws (w ∷ []), append-nil (content w.blocks), all),
  )

  pub flush-IsFlushed :
      (hi : ℕ) (d : Str) (ws : List ParentWindow) (b : Block) (r : List Block) (cs ce toks : ℕ)
      → PackedAt hi d ws (b ∷ r) cs ce toks
      → Ends tokenizer (IsFlushed hi d) (flush_parent_window src (b ∷ r) cs ce ws)
  unfolding flush_parent_window
  flush-IsFlushed hi d ws b r cs ce toks
        (mid, before, (h, sl, placed), (cs_eq, ce_eq, at_hi), toks_sum, small, all) =
      let (at_b, at_e, len) = slice-Boundary src _ _ _ sl in
      let le = PlacedTo-le src b.char_end r hi placed in
      let clip : min ce (byte_len src) ≡ hi = omega (arith, Boundary-le src hi at_hi) in
      rw (clip, cs_eq, ce_eq)
        (Ends-bind tokenizer (λ t. slice src b.char_start hi ≡ some t) (IsFlushed hi d)
          (index src b.char_start hi) _
          (Ends-index tokenizer src b.char_start hi at_b at_hi (omega arith))
          λ t _ whole. rw (← all) (
            push-IsFlushed mid (window_content ws) ws
              (record {
                text = t;
                section_path = b.section_path;
                block_type = some b.block_type;
                char_start = b.char_start;
                char_end = hi;
                blocks = b ∷ r;
              })
              (before, refl) h whole (omega arith, sl, placed) (inl (toks, toks_sum, small))))
