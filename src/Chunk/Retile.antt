-- ===== src/Chunk/Retile.antt =====
-- lens-core/src/chunk.rs: retile_child_token_offsets.
pub mod Chained
use lens_lm.Base.{ℕ, ◌+◌, min, max, List, [], ◌∷◌, leb, if◌then◌else◌}
use lens_lm.Base.Outcome.{Outcome, ok, ◌>>=◌}
use lens_lm.Base.Text.{Str, byte_len}
use lens_lm.Chunk.Types.{Tokenizer, Chunk, token_count, index}
use lens_lm.Chunk.Parent.{ParentWindow}

unfoldable pub prefix_tokens : Str → ℕ → Tokenizer → ℕ → Outcome ℕ
prefix_tokens src parent_char_start tokenizer boundary =
    let end = min boundary (byte_len src) in
    if leb end parent_char_start
    then ok 0
    else do prefix ← index src parent_char_start end; token_count tokenizer prefix

-- `c` stands before `rest`; the last child takes the parent's end.
unfoldable pub retile_from :
    Str → ℕ → Tokenizer → ℕ → ℕ → ℕ → Chunk → List Chunk → Outcome (List Chunk)
unfolding prefix_tokens
retile_from src parent_char_start tokenizer parent_token_start parent_token_end tile_start last [] =
    do
      a ← prefix_tokens src parent_char_start tokenizer tile_start
      ok (record last { token_start = parent_token_start + a; token_end = parent_token_end } ∷ [])
retile_from src parent_char_start tokenizer parent_token_start parent_token_end tile_start child
      (next ∷ rest) =
    do
      let child_end = min child.char_end (byte_len src)
      a ← prefix_tokens src parent_char_start tokenizer tile_start
      b ← prefix_tokens src parent_char_start tokenizer child_end
      tail ←
          retile_from src parent_char_start tokenizer parent_token_start parent_token_end
            (max child_end tile_start) next rest
      ok (
          record child { token_start = parent_token_start + a; token_end = parent_token_start + b }
          ∷ tail)

unfoldable pub retile_child_token_offsets :
    Str → ParentWindow → Tokenizer → ℕ → ℕ → List Chunk → Outcome (List Chunk)
unfolding retile_from
retile_child_token_offsets src win tokenizer parent_token_start parent_token_end [] = ok []
retile_child_token_offsets src win tokenizer parent_token_start parent_token_end (c ∷ rest) =
    retile_from src win.char_start tokenizer parent_token_start parent_token_end win.char_start c
      rest
