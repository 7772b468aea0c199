-- ===== src/Chunk/Split.antt =====
-- lens-core/src/chunk.rs: find_split and split_oversized. A loop that runs out of fuel panics here,
-- so that a theorem that a call returns also says that the fuel is enough.
pub mod Cuts
pub mod Search
pub mod Tiles
use mathlib.Core.Option.{get_or}
use lens_lm.Base.{
  ℕ, zero, suc, ◌+◌, ◌-◌, ◌/◌, ◌<◌, ◌≤◌, min, max, ◌≡◌, refl, Bool, true, false, ◌&&◌, Option, none,
  some, List, [], ◌∷◌, leb, ltb, if◌then◌else◌, length, get_elem?, arith,
}
use lens_lm.Base.Outcome.{Outcome, ok, err, panic, ◌>>=◌}
use lens_lm.Base.Text.{Str, len_utf8, byte_len, is_whitespace}
use lens_lm.Chunk.Types.{Tokenizer, Block, token_count, index}

-- `text.char_indices()`, from offset `i` on.
unfoldable pub char_indices : ℕ → Str → List (ℕ × ℕ)
char_indices i [] = []
char_indices i (c ∷ s) = (i, c) ∷ char_indices (i + len_utf8 c) s

unfoldable pub ws_boundaries : List (ℕ × ℕ) → List ℕ
ws_boundaries [] = []
ws_boundaries ((idx, ch) ∷ r) =
    if ltb 0 idx && is_whitespace ch then idx ∷ ws_boundaries r else ws_boundaries r

-- `.map(|(idx, _)| idx).skip(1)`
unfoldable pub offsets : List (ℕ × ℕ) → List ℕ
offsets [] = []
offsets ((idx, _) ∷ r) = idx ∷ offsets r

unfoldable pub char_boundaries : Str → List ℕ
char_boundaries text = elim (offsets (char_indices 0 text)) [ [] ↦ [] | _ ∷ r ↦ r ]

-- Both binary searches: the last cut that was seen to fit.
unfoldable pub search_cut : Tokenizer → Str → ℕ → List ℕ → ℕ → ℕ → ℕ → Option ℕ → Outcome (Option ℕ)
search_cut tokenizer text limit cuts zero lo hi best = panic
search_cut tokenizer text limit cuts (suc fuel) lo hi best = elim (ltb lo hi) [
  | false ↦ ok best
  | true ↦
      let mid = lo + (hi - lo) / 2 in
      elim (get_elem? cuts mid) [
        | none ↦ panic
        | some cut ↦ do
          prefix ← index text 0 cut
          n ← token_count tokenizer prefix
          elim (leb n limit) [
            | true ↦ search_cut tokenizer text limit cuts fuel (mid + 1) hi (some cut)
            | false ↦ search_cut tokenizer text limit cuts fuel lo mid best
          ]
      ]
]

-- The search over all the cuts.
unfoldable pub search : Tokenizer → Str → ℕ → List ℕ → Outcome (Option ℕ)
search tokenizer text limit cuts =
    search_cut tokenizer text limit cuts (suc (length cuts)) 0 (length cuts) none

-- `first().copied().unwrap_or(d)`
unfoldable pub first_or : List ℕ → ℕ → ℕ
first_or [] d = d
first_or (b ∷ _) d = b

-- The second search: at char boundaries, from the first one, and at least one byte.
unfoldable pub hard_split : Tokenizer → Str → ℕ → Outcome ℕ
hard_split tokenizer text limit = do
  found ← search tokenizer text limit (char_boundaries text)
  let first = first_or (char_boundaries text) (byte_len text)
  ok (max (get_or found first) 1)

-- What follows the search at whitespace.
abbrev pub after_ws : Str → Tokenizer → ℕ → Option ℕ → Outcome ℕ
after_ws text tokenizer limit (some cut) = ok cut
after_ws text tokenizer limit none = hard_split tokenizer text limit

unfoldable pub find_split : Str → Tokenizer → ℕ → Outcome ℕ
find_split text tokenizer limit = do
  whole ← token_count tokenizer text
  if leb whole limit then ok (byte_len text) else do
    found ← search tokenizer text limit (ws_boundaries (char_indices 0 text))
    after_ws text tokenizer limit found

-- `emit` receives the text of a segment and its absolute offsets, and the caller's state.
abbrev pub Emit : Type 0 → Type 0
Emit S = S → Str → ℕ → ℕ → Outcome S

-- The end of a segment in the block's text, at least a byte behind its start.
unfoldable pub segment_end : ℕ → ℕ → ℕ → ℕ
segment_end seg_start seg_len text_len =
    let sum_end = min (seg_start + seg_len) text_len in
    if leb sum_end seg_start then min (seg_start + 1) text_len else sum_end

unfoldable pub split_loop :
    {S : Type 0} → Str → Block → ℕ → Tokenizer → Emit S → ℕ → ℕ → S → Outcome S
split_loop src block limit tokenizer emit zero seg_start s = panic
split_loop src block limit tokenizer emit (suc fuel) seg_start s =
    elim (ltb seg_start (byte_len block.text)) [
      | false ↦ ok s
      | true ↦ do
        remaining ← index block.text seg_start (byte_len block.text)
        seg_len ← find_split remaining tokenizer limit
        let seg_end = segment_end seg_start seg_len (byte_len block.text)
        let abs_start = block.char_start + seg_start
        let abs_end = min (block.char_start + seg_end) (byte_len src)
        seg_text ← index src abs_start abs_end
        s' ← emit s seg_text abs_start abs_end
        split_loop src block limit tokenizer emit fuel seg_end s'
    ]

unfoldable pub split_oversized : {S : Type 0} → Str → Block → ℕ → Tokenizer → Emit S → S → Outcome S
split_oversized src block limit tokenizer emit s =
    split_loop src block (max limit 1) tokenizer emit (suc (byte_len block.text)) 0 s
