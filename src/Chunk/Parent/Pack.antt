-- ===== src/Chunk/Parent/Pack.antt =====
-- build_parent_windows: it returns windows that are verbatim, ordered, packed, and hold every block.
use lens_lm.Base.{
  ℕ, ◌+◌, ◌≤◌, ◌≡◌, refl, inl, inr, Bool, true, false, Bool-cases, List, [], ◌∷◌, ◌++◌,
  append_assoc, append-nil, arith, some, not, ◌&&◌, ltb,
}
use lens_lm.Base.Text.{Str, slice}
use lens_lm.Chunk.Types.{Tokenizer, Block, token_count}
use lens_lm.Chunk.Ends.{Ends, Ends-bind, Ends-token_count}
use lens_lm.Chunk.Parent.{
  Packing, parent_limit, packing_init, is_empty, flush_if, pack_block, pack_blocks,
  build_parent_windows,
}
use lens_lm.Chunk.Parent.Placed.{
  PlacedTo, TokenSum, content, window_content, WindowsTo, WindowsTo-weaken,
}
use lens_lm.Chunk.Parent.Flush.{IsPacking}
use lens_lm.Chunk.Parent.Push.{
  After, flush_if-IsPacking, push_block-IsPacking, nothing_open, pack_oversized-IsPacking,
}

module _ (tokenizer : Tokenizer) (src : Str) where
  small_sum :
      (cur : List Block) (toks n : ℕ)
      → (not (is_empty cur) && ltb parent_limit (toks + n)) ≡ false
      → TokenSum tokenizer cur toks
      → n ≤ parent_limit
      → toks + n ≤ parent_limit
  unfolding is_empty
  small_sum [] toks n e sum small = omega arith
  small_sum (x ∷ r) toks n e sum small = ground arith

  -- After tokenizer src the flush before an oversized block nothing is open.
  closed :
      (p q : Packing) (test : Bool)
      → not (is_empty p.current_blocks) ≡ test
      → After tokenizer src test p q
      → TokenSum tokenizer p.current_blocks p.current_tokens
      → (q.current_blocks ≡ []) × (q.current_tokens ≡ 0)
  closed p q true e after sum = after
  closed p q false e after sum = rw after (empty_sum p.current_blocks p.current_tokens e sum)
    where
      empty_sum :
          (cur : List Block) (toks : ℕ)
          → not (is_empty cur) ≡ false
          → TokenSum tokenizer cur toks
          → (cur ≡ []) × (toks ≡ 0)
      empty_sum [] toks e sum = (refl, sum)
      empty_sum (x ∷ r) toks e sum = unfold is_empty in cc

  -- After tokenizer src the flush before any other block it fits.
  fits-After :
      (p q : Packing) (test : Bool) (n : ℕ)
      → (not (is_empty p.current_blocks) && ltb parent_limit (p.current_tokens + n)) ≡ test
      → After tokenizer src test p q
      → TokenSum tokenizer p.current_blocks p.current_tokens
      → n ≤ parent_limit
      → q.current_tokens + n ≤ parent_limit
  fits-After p q true n e after sum small = omega arith
  fits-After p q false n e after sum small =
      rw after (small_sum p.current_blocks p.current_tokens n e sum small)

  not_empty : (b : Bool) → not b ≡ true → b ≡ false
  not_empty false h = refl
  not_empty true h = cc

  and_not_empty : (b c : Bool) → (not b && c) ≡ true → b ≡ false
  and_not_empty false c h = refl
  and_not_empty true c h = cc

  pack_block-IsPacking :
      (hi : ℕ) (d : Str) (p : Packing) (b : Block)
      → IsPacking tokenizer src hi d p
      → hi ≤ b.char_start
      → slice src b.char_start b.char_end ≡ some b.text
      → Ends tokenizer
          (IsPacking tokenizer src b.char_end (d ++ b.text))
          (pack_block src tokenizer p b)
  unfolding pack_block
  pack_block-IsPacking hi d p b inv h sl =
      Ends-bind tokenizer (λ n. tokenizer.encode b.text ≡ some n)
        (IsPacking tokenizer src b.char_end (d ++ b.text)) (token_count tokenizer b.text) _
        (Ends-token_count tokenizer b.text)
        λ n _ counted. elim (Bool-cases (ltb parent_limit n)) [
          | inl e ↦ rw e (
              Ends-bind tokenizer _ (IsPacking tokenizer src b.char_end (d ++ b.text))
                (flush_if (not (is_empty p.current_blocks)) src p) _
                (flush_if-IsPacking tokenizer src hi d (not (is_empty p.current_blocks)) p.windows
                  p.current_blocks p.current_char_start p.current_char_end p.current_tokens
                  (not_empty (is_empty p.current_blocks)) inv)
                λ q _ (inv', after).
                  let (none_open, no_tokens) = closed p q _ refl after inv.4 in
                  pack_oversized-IsPacking tokenizer src hi d q b inv' none_open no_tokens h sl)
          | inr e ↦ rw e (
              Ends-bind tokenizer _ (IsPacking tokenizer src b.char_end (d ++ b.text))
                (flush_if
                  (not (is_empty p.current_blocks) && ltb parent_limit (p.current_tokens + n)) src
                  p)
                _
                (flush_if-IsPacking tokenizer src hi d _ p.windows p.current_blocks
                  p.current_char_start p.current_char_end p.current_tokens
                  (and_not_empty (is_empty p.current_blocks) _) inv)
                λ q _ (inv', after).
                  push_block-IsPacking tokenizer src hi d b n q.windows q.current_blocks
                    q.current_char_start q.current_char_end q.current_tokens counted h sl
                    (fits-After p q _ n refl after inv.4 (ground arith)) inv')
        ]

  abbrev IsPackingBelow : ℕ → Str → Packing → Type 0
  IsPackingBelow end d p = (hi : ℕ) × (hi ≤ end) × IsPacking tokenizer src hi d p

  pack_blocks-IsPacking :
      (hi end : ℕ) (d : Str) (p : Packing) (bs : List Block)
      → IsPacking tokenizer src hi d p
      → PlacedTo src hi bs end
      → Ends tokenizer (IsPackingBelow end (d ++ content bs)) (pack_blocks src tokenizer p bs)
  unfolding pack_blocks
  pack_blocks-IsPacking hi end d p [] inv placed = rw append-nil (hi, placed, inv)
  pack_blocks-IsPacking hi end d p (b ∷ r) inv (h, sl, placed) =
      Ends-bind tokenizer (IsPacking tokenizer src b.char_end (d ++ b.text))
        (IsPackingBelow end (d ++ (b.text ++ content r))) (pack_block src tokenizer p b) _
        (pack_block-IsPacking hi d p b inv h sl)
        λ q _ inv'.
          rw (← append_assoc d b.text (content r))
            (pack_blocks-IsPacking b.char_end end (d ++ b.text) q r inv' placed)

  -- Let the blocks be slices of the source, in order and apart. Then build_parent_windows does not
  -- panic, and an error is the tokenizer's. The windows of an `ok` are in order and apart, each is
  -- the slice of the source that its offsets name, holds its blocks between them, and has blocks of
  -- at most 513 tokens in sum, or a text of at most 513 tokens or of one character. The blocks of
  -- the windows spell the text of the given blocks: nothing is lost, doubled or reordered.
  pub build_parent_windows-WindowsTo :
      (blocks : List Block) (end : ℕ)
      → PlacedTo src 0 blocks end
      → Ends tokenizer
          (λ ws. WindowsTo tokenizer src 0 ws end × (window_content ws ≡ content blocks))
          (build_parent_windows src blocks tokenizer)
  unfolding build_parent_windows
  build_parent_windows-WindowsTo blocks end placed =
      Ends-bind tokenizer (IsPackingBelow end (content blocks)) _
        (pack_blocks src tokenizer packing_init blocks) _
        (pack_blocks-IsPacking 0 end [] packing_init blocks
          (0, omega arith, omega arith, tt, refl, omega arith, refl) placed)
        λ p _ (hi, below, inv).
          Ends-bind tokenizer _ _ (flush_if (not (is_empty p.current_blocks)) src p) _
            (flush_if-IsPacking tokenizer src hi (content blocks) (not (is_empty p.current_blocks))
              p.windows p.current_blocks p.current_char_start p.current_char_end p.current_tokens
              (not_empty (is_empty p.current_blocks)) inv)
            λ q _ (inv', after).
              let (none_open, no_tokens) = closed p q _ refl after inv.4 in
              let (before, all) =
                nothing_open tokenizer src hi (content blocks) q.windows q.current_blocks
                  q.current_char_start q.current_char_end q.current_tokens none_open inv' in
              (WindowsTo-weaken tokenizer src 0 hi end q.windows before below, all)
