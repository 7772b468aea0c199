-- ===== src/Parse/Text.antt =====
-- lens-core/src/parse.rs: parse_text, skip_blank_lines and find_paragraph_end. A position is modelled
-- with the text from there on; usize is unbounded. A round takes a character at least, so that their
-- number is enough fuel.
pub mod Trimming
pub mod Lines
pub mod Placed
pub mod Windows
use lens_lm.Base.{
  ℕ, zero, suc, ◌+◌, ◌-◌, Bool, true, false, List, [], ◌∷◌, ◌++◌, length, ◌==◌, if◌then◌else◌,
}
use lens_lm.Base.Text.{Str, codes, byte_len}
use lens_lm.Chunk.Parent.{is_empty}
use lens_lm.Chunk.Pipeline.{is_blank}
use lens_lm.Chunk.Types.{Block}
use lens_lm.Citation.Markers.{trim, trim_start}

-- The line at the front, with its `\n`, and the text behind it.
unfoldable pub next_line : Str → Str × Str
next_line [] = ([], [])
next_line (c ∷ s) =
    let (line, rest) = next_line s in if c == 10 then (c ∷ [], s) else (c ∷ line, rest)

-- What is skipped, and the text behind it.
unfoldable pub skip_blank_lines : ℕ → Str → Str × Str
unfolding next_line is_blank
skip_blank_lines zero text = ([], text)
skip_blank_lines (suc fuel) [] = ([], [])
skip_blank_lines (suc fuel) (c ∷ s) =
    let (line, rest) = next_line (c ∷ s) in
    let (skipped, behind) = skip_blank_lines fuel rest in
    if is_blank line then (line ++ skipped, behind) else ([], c ∷ s)

-- The lines up to a blank one, and the text behind them.
unfoldable pub find_paragraph_end : ℕ → Str → Str × Str
unfolding next_line is_blank
find_paragraph_end zero text = ([], text)
find_paragraph_end (suc fuel) [] = ([], [])
find_paragraph_end (suc fuel) (c ∷ s) =
    let (line, rest) = next_line (c ∷ s) in
    let (paragraph, behind) = find_paragraph_end fuel rest in
    if is_blank line then ([], c ∷ s) else (line ++ paragraph, behind)

-- The trimmed text is a part of `raw`, which stands at `para_start`.
unfoldable pub paragraph_block : ℕ → Str → Block
unfolding trim trim_start
paragraph_block para_start raw =
    let trim_offset = para_start + (byte_len raw - byte_len (trim_start raw)) in
    record {
      block_type = codes "paragraph";
      section_path = [];
      text = trim raw;
      char_start = trim_offset;
      char_end = trim_offset + byte_len (trim raw);
    }

-- What a round does with a paragraph; `rest` is the later rounds.
unfoldable pub push_paragraph : ℕ → Str → List Block → List Block
unfolding paragraph_block
push_paragraph para_start raw rest =
    if is_empty (trim raw) then rest else paragraph_block para_start raw ∷ rest

-- A round, behind the search for the paragraph's end and behind that for its start; `again` is the
-- later rounds.
unfoldable pub after_paragraph : (ℕ → Str → List Block) → ℕ → Str × Str → List Block
unfolding push_paragraph
after_paragraph again para_start (raw, behind) =
    push_paragraph para_start raw (again (para_start + byte_len raw) behind)

unfoldable pub after_skip : (ℕ → Str → List Block) → ℕ → Str × Str → List Block
unfolding after_paragraph find_paragraph_end
after_skip again pos (skipped, []) = []
after_skip again pos (skipped, c ∷ s) =
    after_paragraph again (pos + byte_len skipped) (find_paragraph_end (length (c ∷ s)) (c ∷ s))

unfoldable pub parse_loop : ℕ → ℕ → Str → List Block
unfolding skip_blank_lines after_skip
parse_loop zero pos text = []
parse_loop (suc fuel) pos [] = []
parse_loop (suc fuel) pos (c ∷ s) =
    after_skip (parse_loop fuel) pos (skip_blank_lines (length (c ∷ s)) (c ∷ s))

unfoldable pub parse_text : Str → List Block
unfolding parse_loop
parse_text src = parse_loop (length src) 0 src
