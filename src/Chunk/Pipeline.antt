-- ===== src/Chunk/Pipeline.antt =====
-- lens-core/src/chunk.rs: chunk_blocks, chunk_blocks_deterministic and chunk_blocks_inner.
use lens_lm.Base.{ℕ, ◌+◌, Bool, true, ◌&&◌, none, List, [], ◌∷◌, ◌++◌, if◌then◌else◌}
use lens_lm.Base.Outcome.{Outcome, ok, ◌>>=◌}
use lens_lm.Base.Text.{Str, is_whitespace}
use lens_lm.Chunk.Types.{
  Tokenizer, Block, Chunk, IdStrategy, v7, content_derived, kind_parent, make_id, token_count,
}
use lens_lm.Chunk.Parent.{ParentWindow, build_parent_windows}
use lens_lm.Chunk.Child.{build_child_chunks}
use lens_lm.Chunk.Retile.{retile_child_token_offsets}

-- `text.trim().is_empty()`
unfoldable pub is_blank : Str → Bool
is_blank [] = true
is_blank (c ∷ s) = is_whitespace c && is_blank s

unfoldable pub non_blank_blocks : List Block → List Block
unfolding is_blank
non_blank_blocks [] = []
non_blank_blocks (b ∷ r) = if is_blank b.text then non_blank_blocks r else b ∷ non_blank_blocks r

unfoldable pub parent_chunk : ParentWindow → Str → ℕ → ℕ → Chunk
parent_chunk win id token_start token_end = record {
  id = id;
  parent_id = none;
  kind = kind_parent;
  level = 0;
  section_path = win.section_path;
  text = win.text;
  token_start = token_start;
  token_end = token_end;
  char_start = win.char_start;
  char_end = win.char_end;
  block_type = win.block_type;
  source_anchor = none;
}

-- The loop over the parent windows: the running token offset and the two ordinals.
unfoldable pub window_loop :
    Str → Tokenizer → IdStrategy → ℕ → ℕ → ℕ → List ParentWindow → Outcome (List Chunk)
unfolding parent_chunk
window_loop src tokenizer strategy offset child_ordinal parent_ordinal [] = ok []
window_loop src tokenizer strategy offset child_ordinal parent_ordinal (win ∷ rest) = do
  parent_token_count ← token_count tokenizer win.text
  let parent_id = make_id strategy 0 win.section_path win.text parent_ordinal
  let parent_token_end = offset + parent_token_count
  built ← build_child_chunks src win tokenizer parent_id offset strategy child_ordinal
  children ← retile_child_token_offsets src win tokenizer offset parent_token_end built.0
  later ← window_loop src tokenizer strategy parent_token_end built.1 (parent_ordinal + 1) rest
  ok (parent_chunk win parent_id offset parent_token_end ∷ (children ++ later))

unfoldable pub chunk_blocks_inner : Str → List Block → Tokenizer → IdStrategy → Outcome (List Chunk)
unfolding non_blank_blocks window_loop
chunk_blocks_inner src blocks tokenizer strategy = elim (non_blank_blocks blocks) [
  | [] ↦ ok []
  | b ∷ r ↦ do
    windows ← build_parent_windows src (b ∷ r) tokenizer
    window_loop src tokenizer strategy 0 0 0 windows
]

-- `now` is the supply of UUIDs.
unfoldable pub chunk_blocks : (ℕ → ℕ → Str) → Str → List Block → Tokenizer → Outcome (List Chunk)
unfolding chunk_blocks_inner
chunk_blocks now src blocks tokenizer = chunk_blocks_inner src blocks tokenizer (v7 now)

unfoldable pub chunk_blocks_deterministic :
    (List ℕ → Str) → Str → List Block → Tokenizer → Outcome (List Chunk)
unfolding chunk_blocks_inner
chunk_blocks_deterministic sha256 src blocks tokenizer =
    chunk_blocks_inner src blocks tokenizer (content_derived sha256)
