-- ===== src/Chunk/Child.antt =====
-- lens-core/src/chunk.rs: build_child_chunks, flush_child_window and split_oversized_child_block.
use mathlib.Core.List.{get_last?}
use mathlib.Core.Option.{get_or}
use lens_lm.Base.{
  ℕ, zero, suc, ◌+◌, min, max, true, false, Option, none, some, List, [], ◌∷◌, ◌++◌, ltb, leb,
  if◌then◌else◌,
}
use lens_lm.Base.Outcome.{Outcome, ok, panic, ◌>>=◌}
use lens_lm.Base.Text.{Str, byte_len}
use lens_lm.Chunk.Types.{
  Tokenizer, Block, Chunk, IdStrategy, kind_child, child_token_target, child_token_tolerance,
  make_id, token_count, index,
}
use lens_lm.Chunk.Split.{find_split}
use lens_lm.Chunk.Parent.{ParentWindow, is_empty, first_section_path, first_block_type}
use lens_lm.Chunk.Overlap.{overlap_back_off, seed_overlap_tokens}

abbrev pub child_limit : ℕ
child_limit = child_token_target + child_token_tolerance

pub record ChildAccumulator : Type 0 where
  pub blocks : List Block
  pub char_start : ℕ
  pub char_end : ℕ
  pub tokens : ℕ

abbrev pub accumulator_new : ChildAccumulator
accumulator_new = record { blocks = []; char_start = 0; char_end = 0; tokens = 0 }

pub record ChildCtx : Type 0 where
  pub src : Str
  pub tokenizer : Tokenizer
  pub parent_id : Str
  pub strategy : IdStrategy

-- What the functions below share by mutable references.
pub record ChildState : Type 0 where
  pub acc : ChildAccumulator
  pub children : List Chunk
  pub running_token_offset : ℕ
  pub child_ordinal : ℕ
  pub pending_overlap_start : Option ℕ

-- Appends the child with this text and span, and moves the offset and the ordinal on.
unfoldable pub push_child :
    ChildCtx → Str → Option Str → Str → ℕ → ℕ → ChildState → Outcome ChildState
push_child ctx section_path block_type text char_start char_end s = do
  toks ← token_count ctx.tokenizer text
  ok (record s {
    children =
        s.children
        ++ record {
          id = make_id ctx.strategy 1 section_path text s.child_ordinal;
          parent_id = some ctx.parent_id;
          kind = kind_child;
          level = 1;
          section_path = section_path;
          text = text;
          token_start = s.running_token_offset;
          token_end = s.running_token_offset + toks;
          char_start = char_start;
          char_end = char_end;
          block_type = block_type;
          source_anchor = none;
        }
          ∷ [];
    running_token_offset = s.running_token_offset + toks;
    child_ordinal = s.child_ordinal + 1;
  })

unfoldable pub flush_child_window : ChildCtx → ChildState → Outcome ChildState
unfolding push_child is_empty first_section_path first_block_type
flush_child_window ctx s = if is_empty s.acc.blocks then ok s else do
  let end = min s.acc.char_end (byte_len ctx.src)
  text ← index ctx.src s.acc.char_start end
  t ←
      push_child ctx (first_section_path s.acc.blocks) (first_block_type s.acc.blocks) text
        s.acc.char_start end s
  ok (record t { acc = accumulator_new })

-- The loop of split_oversized_child_block, from the frontier `consumed_end` on.
unfoldable pub child_loop :
    ChildCtx → ParentWindow → Block → ℕ → ℕ → ℕ → ℕ → ChildState → Outcome ChildState
child_loop ctx win block limit block_end zero consumed_end s = panic
child_loop ctx win block limit block_end (suc fuel) consumed_end s =
    elim (ltb consumed_end block_end) [
      | false ↦ ok s
      | true ↦ do
        found ← overlap_back_off ctx.src win (get_last? s.children) ctx.tokenizer
        let ov = get_or found consumed_end
        let win_start = if ltb ov consumed_end then ov else consumed_end
        remaining ← index ctx.src win_start block_end
        seg_len ← find_split remaining ctx.tokenizer limit
        let seg_end = min (win_start + seg_len) block_end
        let abs_end = if leb seg_end consumed_end then min (consumed_end + 1) block_end else seg_end
        seg_text ← index ctx.src win_start abs_end
        t ← push_child ctx block.section_path (some block.block_type) seg_text win_start abs_end s
        child_loop ctx win block limit block_end fuel abs_end t
    ]

unfoldable pub split_oversized_child_block :
    ChildCtx → ParentWindow → Block → ℕ → ChildState → Outcome ChildState
unfolding child_loop
split_oversized_child_block ctx win block limit s =
    child_loop ctx win block (max limit 1)
      (min (block.char_start + byte_len block.text) (byte_len ctx.src)) (suc (byte_len block.text))
      block.char_start s

-- `match pending_overlap_start { Some(ov) => seed_overlap_tokens(…)?, None => 0 }`
seed_cost : ChildCtx → Option ℕ → ℕ → Outcome ℕ
seed_cost ctx none block_start = ok 0
seed_cost ctx (some ov) block_start = seed_overlap_tokens ctx.src ov block_start ctx.tokenizer

-- Opens a window with the block, and with the pending overlap if both fit.
unfoldable pub open_window : ChildCtx → Block → ℕ → ChildState → Outcome ChildState
unfolding seed_cost
open_window ctx block block_tokens s = do
  overlap_tokens ← seed_cost ctx s.pending_overlap_start block.char_start
  let too_long = ltb child_limit (overlap_tokens + block_tokens)
  ok (record s {
    pending_overlap_start = if too_long then none else s.pending_overlap_start;
    acc = record {
      blocks = s.acc.blocks ++ block ∷ [];
      char_start =
          if too_long then block.char_start else get_or s.pending_overlap_start block.char_start;
      char_end = block.char_end;
      tokens = (if too_long then 0 else overlap_tokens) + block_tokens;
    };
  })

unfoldable pub extend_window : Block → ℕ → ChildState → ChildState
extend_window block block_tokens s = record s {
  acc = record s.acc {
    blocks = s.acc.blocks ++ block ∷ [];
    char_end = block.char_end;
    tokens = s.acc.tokens + block_tokens;
  };
}

-- The branch of a block over the limit.
unfoldable pub oversized_child : ChildCtx → ParentWindow → Block → ChildState → Outcome ChildState
unfolding flush_child_window split_oversized_child_block
oversized_child ctx win block s = do
  t ← flush_child_window ctx s
  split_oversized_child_block ctx win block child_limit (record t { pending_overlap_start = none })

-- The branch of a block that does not fit behind the open window.
unfoldable pub reopen_window : ChildCtx → ParentWindow → Block → ℕ → ChildState → Outcome ChildState
unfolding flush_child_window open_window
reopen_window ctx win block block_tokens s = do
  t ← flush_child_window ctx s
  pending ← overlap_back_off ctx.src win (get_last? t.children) ctx.tokenizer
  open_window ctx block block_tokens (record t { pending_overlap_start = pending })

unfoldable pub child_block : ChildCtx → ParentWindow → ChildState → Block → Outcome ChildState
unfolding oversized_child reopen_window open_window extend_window
child_block ctx win s block = do
  block_tokens ← token_count ctx.tokenizer block.text
  if ltb child_limit block_tokens
      then oversized_child ctx win block s
      else if is_empty s.acc.blocks
      then open_window ctx block block_tokens s
      else if ltb child_limit (s.acc.tokens + block_tokens)
      then reopen_window ctx win block block_tokens s
      else ok (extend_window block block_tokens s)

unfoldable pub child_blocks : ChildCtx → ParentWindow → ChildState → List Block → Outcome ChildState
unfolding child_block
child_blocks ctx win s [] = ok s
child_blocks ctx win s (block ∷ blocks) = do
  t ← child_block ctx win s block
  child_blocks ctx win t blocks

-- Returns the children and the ordinal that follows.
unfoldable pub build_child_chunks :
    Str → ParentWindow → Tokenizer → Str → ℕ → IdStrategy → ℕ → Outcome (List Chunk × ℕ)
unfolding child_blocks
build_child_chunks src win tokenizer parent_id parent_token_start strategy child_ordinal = do
  let ctx : ChildCtx = record {
    src = src;
    tokenizer = tokenizer;
    parent_id = parent_id;
    strategy = strategy;
  }
  s ←
      child_blocks ctx win
        (record {
          acc = accumulator_new;
          children = [];
          running_token_offset = parent_token_start;
          child_ordinal = child_ordinal;
          pending_overlap_start = none;
        })
        win.blocks
  t ← flush_child_window ctx s
  ok (t.children, t.child_ordinal)
