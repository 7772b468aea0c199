-- ===== src/Examples/Chunks.antt =====
-- Runs of the chunker and of the outline.
use lens_lm.Base.{
  ℕ, zero, suc, ◌+◌, ◌≡◌, refl, Bool, true, false, none, some, List, [], ◌∷◌, ◌++◌, length, map,
  arith,
}
use lens_lm.Base.Outcome.{Outcome, ok, err, panic}
use lens_lm.Base.Text.{Str, codes, len_utf8, split_at, byte_len, slice}
use lens_lm.Base.Text.Spans.{slice-join}
use lens_lm.Chunk.Types.{Tokenizer, Block, Chunk}
use lens_lm.Chunk.Ends.{Ends}
use lens_lm.Chunk.Split.{find_split, split_oversized}
use lens_lm.Chunk.Split.Search.{IsSplit, find_split-IsSplit}
use lens_lm.Chunk.Split.Tiles.{split_oversized-Inv}
use lens_lm.Chunk.Parent.{build_parent_windows}
use lens_lm.Chunk.Parent.Placed.{WindowsTo, content, window_content}
use lens_lm.Chunk.Parent.Pack.{build_parent_windows-WindowsTo}
use lens_lm.Chunk.Pipeline.{chunk_blocks}
use lens_lm.Chunk.Parent.{ParentWindow}
use lens_lm.Chunk.Retile.{retile_child_token_offsets}
use lens_lm.Chunk.Retile.Chained.{Chained, untiled, retile_child_token_offsets-Chained}
use lens_lm.Section.{build_sections}
use lens_lm.Section.Nesting.{IsNested, build_sections-IsNested}

-- Each character is a token, between CLS and SEP.
abbrev per_char : Tokenizer
per_char = record { encode = λ s. some (length s + 2) }

block_of : Str → ℕ → ℕ → Block
block_of t i j = record {
  block_type = codes "p";
  section_path = codes "A";
  text = t;
  char_start = i;
  char_end = j;
}

heading_of : Str → Str → ℕ → ℕ → Block
heading_of path t i j = record {
  block_type = codes "heading";
  section_path = path;
  text = t;
  char_start = i;
  char_end = j;
}

find_split-IsSplit_example :
    Ends per_char (IsSplit per_char (codes "aa bb") 5) (find_split (codes "aa bb") per_char 5)
find_split-IsSplit_example = find_split-IsSplit per_char 5 b'a' (codes "a bb")

-- The segments, put together again.
Glued : Str → ℕ → Str → Type 0
Glued src a s = slice src 0 a ≡ some s

glue : Str → Str → ℕ → ℕ → Outcome Str
glue s seg a b = ok (s ++ seg)

split_oversized-Inv_example :
    Ends per_char
      (Glued (codes "aa bb") 5)
      (split_oversized (codes "aa bb") (block_of (codes "aa bb") 0 5) 4 per_char glue [])
unfolding Glued glue block_of slice byte_len len_utf8 split_at
split_oversized-Inv_example =
    split_oversized-Inv per_char (codes "aa bb") (block_of (codes "aa bb") 0 5) 4 glue
      (Glued (codes "aa bb")) refl (λ s seg a b e _ f _. slice-join (codes "aa bb") 0 a b s seg e f)
      [] refl

abbrev two_blocks : List Block
two_blocks = block_of (codes "ab") 0 2 ∷ block_of (codes "cd") 3 5 ∷ []

build_parent_windows-WindowsTo_example :
    Ends per_char
      (λ ws. WindowsTo per_char (codes "ab cd") 0 ws 5 × (window_content ws ≡ content two_blocks))
      (build_parent_windows (codes "ab cd") two_blocks per_char)
unfolding block_of slice len_utf8 split_at
build_parent_windows-WindowsTo_example =
    build_parent_windows-WindowsTo per_char (codes "ab cd") two_blocks 5
      (omega arith, refl, (omega arith, refl, omega arith))

-- The guard of split_oversized_child_block steps one byte past the block's overlap, into a
-- character of three bytes: the slice panics.
fill : ℕ → ℕ → Str
fill zero c = []
fill (suc n) c = c ∷ fill n c

abbrev cjk : Str
cjk = codes "aa bb cc " ++ fill 200 0x6f22

abbrev fails {ℓ} : {A : Type ℓ} → Outcome A → Bool
fails (ok a) = false
fails (err e) = false
fails panic = true

chunk_cjk : Bool
chunk_cjk = fails (chunk_blocks (λ _ _. []) cjk (block_of cjk 0 (byte_len cjk) ∷ []) per_char)

abbrev outline_blocks : List Block
outline_blocks =
    heading_of (codes "A") (codes "A") 0 1
    ∷ heading_of (codes "A > B") (codes "B") 2 3
    ∷ heading_of (codes "C") (codes "C") 4 5
    ∷ []

build_sections-IsNested_example : IsNested (build_sections outline_blocks)
unfolding heading_of
build_sections-IsNested_example =
    build_sections-IsNested outline_blocks
      (omega arith, omega arith, (omega arith, omega arith, (omega arith, omega arith, tt)))

child_of : Str → ℕ → ℕ → Chunk
child_of t i j = record {
  id = codes "c";
  parent_id = some (codes "p");
  kind = codes "child";
  level = 1;
  section_path = codes "A";
  text = t;
  token_start = 0;
  token_end = 0;
  char_start = i;
  char_end = j;
  block_type = none;
  source_anchor = none;
}

abbrev one_window : ParentWindow
one_window = record {
  text = codes "ab cd";
  section_path = codes "A";
  block_type = none;
  char_start = 0;
  char_end = 5;
  blocks = two_blocks;
}

-- The second child shares a byte with the first.
abbrev two_children : List Chunk
two_children = child_of (codes "ab ") 0 3 ∷ child_of (codes " cd") 2 5 ∷ []

retile_child_token_offsets-Chained_example :
    Ends per_char
      (λ out. Chained 7 15 out × (map untiled out ≡ map untiled two_children))
      (retile_child_token_offsets (codes "ab cd") one_window per_char 7 15 two_children)
unfolding child_of byte_len len_utf8
retile_child_token_offsets-Chained_example =
    retile_child_token_offsets-Chained (codes "ab cd") one_window per_char 7 15
      (child_of (codes "ab ") 0 3) (child_of (codes " cd") 2 5 ∷ []) ([], codes "ab cd", refl, refl)
      (
        omega arith,
        (codes "ab ", codes "cd", refl, refl),
        (omega arith, (codes "ab cd", [], refl, refl), tt),
      )
