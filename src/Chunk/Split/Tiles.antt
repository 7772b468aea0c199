-- ===== src/Chunk/Split/Tiles.antt =====
-- split_oversized: its segments tile the block, whatever the caller does with them.
use lens_lm.Base.{
  ℕ, zero, suc, ◌+◌, ◌<◌, ◌≤◌, min, max, ◌≡◌, ◌⊎◌, inl, inr, ap, false, Bool-cases, some, [], ◌∷◌,
  ◌++◌, ltb, ltb→lt, arith, append_assoc,
}
use native.Mathlib.Nat.{add_assoc}
use lens_lm.Base.Outcome.{ok}
use lens_lm.Base.Text.{Str, byte_len, byte_len-append, slice, slice_parts}
use lens_lm.Base.Text.Spans.{
  Boundary, Boundary-zero, Boundary-byte_len, Boundary-le, slice-within, slice-Boundary,
  slice-Boundary-within,
}
use lens_lm.Chunk.Types.{Tokenizer, Block, index}
use lens_lm.Chunk.Ends.{Ends, Ends-bind, Ends-index}
use lens_lm.Chunk.Split.{Emit, find_split, segment_end, split_loop, split_oversized}
use lens_lm.Chunk.Split.Search.{IsSplit, find_split-IsSplit}

-- At most `limit` tokens, or one character.
abbrev pub IsBounded : Tokenizer → ℕ → Str → Type 0
IsBounded tokenizer limit t =
    ((k : ℕ) × (tokenizer.encode t ≡ some k) × (k ≤ limit)) ⊎ ((c : ℕ) × (t ≡ c ∷ []))

ltb-false : {a b : ℕ} → ltb a b ≡ false → b ≤ a
ltb-false h = ground arith

index_ok : (s : Str) (i j : ℕ) (t : Str) → slice s i j ≡ some t → index s i j ≡ ok t
unfolding index
index_ok s i j t h = rw (h, index)

pub segment_end_lem :
    (seg_start n text_len : ℕ)
    → 0 < n
    → seg_start + n ≤ text_len
    → segment_end seg_start n text_len ≡ seg_start + n
unfolding segment_end
segment_end_lem seg_start n text_len h fits = ground arith

pub find_split-nonempty :
    (tokenizer : Tokenizer) (limit : ℕ) (t : Str)
    → 0 < byte_len t
    → Ends tokenizer (IsSplit tokenizer t limit) (find_split t tokenizer limit)
find_split-nonempty tokenizer limit [] h = absurd (unfold byte_len in omega (arith, h))
find_split-nonempty tokenizer limit (c ∷ s) h = find_split-IsSplit tokenizer limit c s

module _ (tokenizer : Tokenizer) (src : Str) (block : Block) (limit : ℕ) {S : Type 0}
    (emit : Emit S) (Inv : ℕ → S → Type 0)
    (verbatim : slice src block.char_start (block.char_start + byte_len block.text)
      ≡ some block.text)
    (keep : (s : S) (seg : Str) (a b : ℕ)
      → Inv a s
      → a < b
      → slice src a b ≡ some seg
      → IsBounded tokenizer (max limit 1) seg
      → Ends tokenizer (Inv b) (emit s seg a b)) where
  block_end : ℕ
  block_end = block.char_start + byte_len block.text

  -- The segment in the block's text is the slice of the source at the same place.
  segment_slice :
      (seg_start stop : ℕ) (remaining front rest : Str)
      → slice block.text seg_start stop ≡ some remaining
      → front ++ rest ≡ remaining
      → slice src (block.char_start + seg_start) (block.char_start + (seg_start + byte_len front))
        ≡ some front
  segment_slice seg_start stop remaining front rest sl joined =
      let (p, q, whole, at, _) = slice_parts block.text seg_start stop remaining sl in
      let text_eq : block.text ≡ p ++ (front ++ (rest ++ q)) =
        cc (whole, joined, append_assoc front rest q) in
      let inner =
        slice-within src block.char_start (block.char_start + byte_len block.text) p front
          (rest ++ q) (rw verbatim (ap some text_eq)) in
      rw (← at, ← add_assoc block.char_start (byte_len p) (byte_len front)) inner

  segment_Boundary :
      (seg_start n stop : ℕ) (remaining front rest : Str)
      → slice block.text seg_start stop ≡ some remaining
      → front ++ rest ≡ remaining
      → byte_len front ≡ n
      → Boundary block.text (seg_start + n)
  segment_Boundary seg_start n stop remaining front rest sl joined at_n =
      slice-Boundary-within block.text seg_start stop n remaining sl (front, rest, joined, at_n)

  split_loop-Inv :
      (fuel seg_start : ℕ) (s : S)
      → byte_len block.text < seg_start + fuel
      → Boundary block.text seg_start
      → Inv (block.char_start + seg_start) s
      → Ends tokenizer
          (Inv block_end)
          (split_loop src block (max limit 1) tokenizer emit fuel seg_start s)
  unfolding split_loop block_end
  split_loop-Inv zero seg_start s enough at inv =
      absurd (omega (arith, Boundary-le block.text seg_start at))
  split_loop-Inv (suc fuel) seg_start s enough at inv =
      elim (Bool-cases (ltb seg_start (byte_len block.text))) [
        | inr e ↦
            let whole : seg_start ≡ byte_len block.text =
              omega (arith, Boundary-le block.text seg_start at, ltb-false e) in
            rw (e, split_loop) (rw whole at inv)
        | inl e ↦
            rw (e, split_loop)
              (Ends-bind tokenizer (λ t. slice block.text seg_start (byte_len block.text) ≡ some t)
                (Inv block_end) (index block.text seg_start (byte_len block.text)) _
                (Ends-index tokenizer block.text seg_start (byte_len block.text) at
                  (Boundary-byte_len block.text) (Boundary-le block.text seg_start at))
                λ remaining _ sl.
                  Ends-bind tokenizer (IsSplit tokenizer remaining (max limit 1)) (Inv block_end)
                    (find_split remaining tokenizer (max limit 1)) _
                    (find_split-nonempty tokenizer (max limit 1) remaining (
                      omega (
                        arith,
                        (slice-Boundary block.text seg_start _ remaining sl).2,
                        ltb→lt _ _ e,
                      )))
                    λ n _ (front, rest, joined, at_n, positive, bound).
                      let len = (slice-Boundary block.text seg_start _ remaining sl).2 in
                      let fits : seg_start + n ≤ byte_len block.text =
                        omega (arith, byte_len-append front rest, ap byte_len joined) in
                      let seg : slice src (block.char_start + seg_start)
                            (block.char_start + (seg_start + n))
                          ≡ some front =
                        rw (← at_n) (segment_slice seg_start _ remaining front rest sl joined) in
                      let in_src = Boundary-le src _ (slice-Boundary src _ _ _ verbatim).1 in
                      let clip : min (block.char_start + (seg_start + n)) (byte_len src)
                          ≡ block.char_start + (seg_start + n) =
                        omega arith in
                      rw
                        (
                          segment_end_lem seg_start n (byte_len block.text) positive fits,
                          clip,
                          index_ok src _ _ front seg,
                        )
                        (Ends-bind tokenizer (Inv (block.char_start + (seg_start + n)))
                          (Inv block_end)
                          (emit s front (block.char_start + seg_start)
                            (block.char_start + (seg_start + n)))
                          _ (keep s front _ _ inv (omega arith) seg bound)
                          λ s' _ inv'.
                            split_loop-Inv fuel (seg_start + n) s' (omega arith)
                              (segment_Boundary seg_start n _ remaining front rest sl joined at_n)
                              inv'))
      ]

  -- From a state with the invariant at the block's start, split_oversized does not panic, and an
  -- `ok` state has the invariant at the block's end. Each segment on the way is not empty, starts
  -- where the one before it ended, is the slice of the source that its offsets name, and has at
  -- most `limit` tokens or one character.
  pub split_oversized-Inv :
      (s : S)
      → Inv block.char_start s
      → Ends tokenizer
          (Inv (block.char_start + byte_len block.text))
          (split_oversized src block limit tokenizer emit s)
  unfolding split_oversized block_end
  split_oversized-Inv s inv =
      let start : block.char_start ≡ block.char_start + 0 = omega arith in
      split_loop-Inv (suc (byte_len block.text)) 0 s (omega arith) (Boundary-zero block.text)
        (rw (← start) inv)
