-- ===== src/Chunk/Parent.antt =====
-- lens-core/src/chunk.rs: build_parent_windows and what it calls.
pub mod Placed
pub mod Flush
pub mod Oversized
pub mod Push
pub mod Pack
use lens_lm.Base.{
  ℕ, ◌+◌, min, Bool, true, false, ◌&&◌, Option, none, some, List, [], ◌∷◌, ◌++◌, ltb, if◌then◌else◌,
  not,
}
use lens_lm.Base.Outcome.{Outcome, ok, ◌>>=◌}
use lens_lm.Base.Text.{Str, byte_len}
use lens_lm.Chunk.Types.{
  Tokenizer, Block, parent_token_target, parent_token_tolerance, token_count, index,
}
use lens_lm.Chunk.Split.{Emit, split_oversized}

pub record ParentWindow : Type 0 where
  pub text : Str
  pub section_path : Str
  pub block_type : Option Str
  pub char_start : ℕ
  pub char_end : ℕ
  pub blocks : List Block

abbrev pub parent_limit : ℕ
parent_limit = parent_token_target + parent_token_tolerance

unfoldable pub is_empty {ℓ} : {A : Type ℓ} → List A → Bool
is_empty [] = true
is_empty (_ ∷ _) = false

-- `blocks.first().map(|b| b.section_path.as_str()).unwrap_or("")`
unfoldable pub first_section_path : List Block → Str
first_section_path [] = []
first_section_path (b ∷ _) = b.section_path

unfoldable pub first_block_type : List Block → Option Str
first_block_type [] = none
first_block_type (b ∷ _) = some b.block_type

unfoldable pub flush_parent_window :
    Str → List Block → ℕ → ℕ → List ParentWindow → Outcome (List ParentWindow)
unfolding first_section_path first_block_type
flush_parent_window src blocks char_start char_end windows = do
  text ← index src char_start (min char_end (byte_len src))
  ok (
      windows
      ++ record {
        text = text;
        section_path = first_section_path blocks;
        block_type = first_block_type blocks;
        char_start = char_start;
        char_end = char_end;
        blocks = blocks;
      }
        ∷ [])

-- The closure of split_oversized_parent_block.
unfoldable pub push_sub_window : Block → Emit (List ParentWindow)
push_sub_window block windows seg_text abs_start abs_end = ok (
    windows
    ++ record {
      text = seg_text;
      section_path = block.section_path;
      block_type = some block.block_type;
      char_start = abs_start;
      char_end = abs_end;
      blocks = record block { text = seg_text; char_start = abs_start; char_end = abs_end } ∷ [];
    }
      ∷ [])

unfoldable pub split_oversized_parent_block :
    Str → Block → Tokenizer → ℕ → List ParentWindow → Outcome (List ParentWindow)
unfolding push_sub_window
split_oversized_parent_block src block tokenizer limit windows =
    split_oversized src block limit tokenizer (push_sub_window block) windows

-- The variables of the loop of build_parent_windows.
pub record Packing : Type 0 where
  pub windows : List ParentWindow
  pub current_blocks : List Block
  pub current_char_start : ℕ
  pub current_char_end : ℕ
  pub current_tokens : ℕ

abbrev pub packing_init : Packing
packing_init = record {
  windows = [];
  current_blocks = [];
  current_char_start = 0;
  current_char_end = 0;
  current_tokens = 0;
}

-- `if test { flush; current_blocks.clear(); current_tokens = 0 }`
unfoldable pub flush_if : Bool → Str → Packing → Outcome Packing
flush_if false src p = ok p
flush_if true src p = do
  windows ←
      flush_parent_window src p.current_blocks p.current_char_start p.current_char_end p.windows
  ok (record p { windows = windows; current_blocks = []; current_tokens = 0 })

-- The end of the loop's body: the block joins the open window.
unfoldable pub push_block : Block → ℕ → Packing → Packing
unfolding is_empty
push_block block block_tokens p = record p {
  current_char_start = if is_empty p.current_blocks then block.char_start else p.current_char_start;
  current_char_end = block.char_end;
  current_tokens = p.current_tokens + block_tokens;
  current_blocks = p.current_blocks ++ block ∷ [];
}

unfoldable pub pack_block : Str → Tokenizer → Packing → Block → Outcome Packing
unfolding flush_if push_block split_oversized_parent_block
pack_block src tokenizer p block = do
  block_tokens ← token_count tokenizer block.text
  elim (ltb parent_limit block_tokens) [
    | true ↦ do
      q ← flush_if (not (is_empty p.current_blocks)) src p
      windows ← split_oversized_parent_block src block tokenizer parent_limit q.windows
      ok (record q { windows = windows })
    | false ↦ do
      q ←
          flush_if
            (not (is_empty p.current_blocks) && ltb parent_limit (p.current_tokens + block_tokens))
            src p
      ok (push_block block block_tokens q)
  ]

unfoldable pub pack_blocks : Str → Tokenizer → Packing → List Block → Outcome Packing
unfolding pack_block
pack_blocks src tokenizer p [] = ok p
pack_blocks src tokenizer p (block ∷ blocks) = do
  q ← pack_block src tokenizer p block
  pack_blocks src tokenizer q blocks

unfoldable pub build_parent_windows : Str → List Block → Tokenizer → Outcome (List ParentWindow)
unfolding pack_blocks
build_parent_windows src blocks tokenizer = do
  p ← pack_blocks src tokenizer packing_init blocks
  q ← flush_if (not (is_empty p.current_blocks)) src p
  ok q.windows
