-- ===== src/Chunk/Overlap.antt =====
-- lens-core/src/chunk.rs: overlap_back_off and seed_overlap_tokens.
use lens_lm.Base.{
  ℕ, ◌+◌, min, true, false, ◌&&◌, Option, none, some, List, [], ◌∷◌, ltb, leb, ◌==◌, if◌then◌else◌,
}
use lens_lm.Base.Outcome.{Outcome, ok, ◌>>=◌}
use lens_lm.Base.Text.{Str, byte_len, len_utf8, is_whitespace}
use lens_lm.Chunk.Types.{Tokenizer, Chunk, child_overlap_tokens, token_count, index}
use lens_lm.Chunk.Parent.{ParentWindow}
use lens_lm.Chunk.Split.{char_indices}

-- The offsets behind a whitespace, strictly inside the previous child.
unfoldable pub candidates : ℕ → ℕ → List (ℕ × ℕ) → List ℕ
candidates prev_start prev_end [] = []
candidates prev_start prev_end ((idx, ch) ∷ r) =
    let rest = candidates prev_start prev_end r in
    let abs = prev_start + idx + len_utf8 ch in
    if is_whitespace ch && (ltb prev_start abs && ltb abs prev_end) then abs ∷ rest else rest

-- The earliest candidate whose tail is small enough.
unfoldable pub choose : Str → Tokenizer → ℕ → List ℕ → Outcome (Option ℕ)
choose src tokenizer prev_end [] = ok none
choose src tokenizer prev_end (b ∷ r) = do
  tail ← index src b prev_end
  n ← token_count tokenizer tail
  elim (leb n child_overlap_tokens) [ true ↦ ok (some b) | false ↦ choose src tokenizer prev_end r ]

within : ℕ → Option ℕ → Option ℕ
within char_end none = none
within char_end (some b) = if ltb b char_end then some b else none

-- The constant 16 makes the early return on no overlap dead code.
unfoldable pub overlap_back_off : Str → ParentWindow → Option Chunk → Tokenizer → Outcome (Option ℕ)
unfolding candidates choose within
overlap_back_off src win none tokenizer = ok none
overlap_back_off src win (some prev) tokenizer =
    let prev_end = min prev.char_end (byte_len src) in
    if child_overlap_tokens == 0
    then ok none
    else if leb prev_end prev.char_start
    then ok none
    else do
      text ← index src prev.char_start prev_end
      chosen ←
          choose src tokenizer prev_end (candidates prev.char_start prev_end (char_indices 0 text))
      ok (within win.char_end chosen)

unfoldable pub seed_overlap_tokens : Str → ℕ → ℕ → Tokenizer → Outcome ℕ
seed_overlap_tokens src overlap_start block_start tokenizer =
    let end = min block_start (byte_len src) in
    if leb end overlap_start
    then ok 0
    else do seed ← index src overlap_start end; token_count tokenizer seed
