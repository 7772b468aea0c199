-- ===== src/Citation/Markers.antt =====
-- lens-core/src/citation.rs: parse_markers and parse_marker_list. The scan goes by characters and
-- keeps the byte position; the brackets, commas and digits of the grammar are ASCII.
use lens_lm.Base.{
  ℕ, zero, suc, ◌+◌, ◌-◌, ◌*◌, ◌^◌, Bool, true, false, ◌&&◌, Option, none, some, List, [], ◌∷◌,
  ◌++◌, ltb, leb, ◌==◌, if◌then◌else◌, length,
}
use mathlib.Core.List.{reverse}
use lens_lm.Base.Text.{Str, len_utf8, is_whitespace}

-- The text before the first `]` and the text behind it.
unfoldable pub find_close : Str → Option Str
find_close [] = none
find_close (c ∷ s) =
    if c == b']' then some [] else elim (find_close s) [ none ↦ none | some t ↦ some (c ∷ t) ]

-- `inner.split(',')`
unfoldable pub split_comma : Str → List Str
split_comma [] = [] ∷ []
split_comma (c ∷ s) =
    if c == b','
    then [] ∷ split_comma s
    else elim (split_comma s) [ [] ↦ (c ∷ []) ∷ [] | p ∷ ps ↦ (c ∷ p) ∷ ps ]

unfoldable pub trim_start : Str → Str
trim_start [] = []
trim_start (c ∷ s) = if is_whitespace c then trim_start s else c ∷ s

-- `str::trim`
unfoldable pub trim : Str → Str
unfolding trim_start
trim s = reverse (trim_start (reverse (trim_start s)))

unfoldable pub is_digit : ℕ → Bool
is_digit c = leb b'0' c && leb c b'9'

unfoldable pub all_digits : Str → Bool
unfolding is_digit
all_digits [] = true
all_digits (c ∷ s) = is_digit c && all_digits s

-- The number that digits spell behind `n`.
unfoldable pub value : ℕ → Str → ℕ
value n [] = n
value n (c ∷ s) = value (n * 10 + (c - b'0')) s

abbrev pub usize_mod : ℕ
usize_mod = 2 ^ 64

-- One part of the list: digits alone, and no overflow of usize.
unfoldable pub parse_part : Str → Option ℕ
unfolding trim all_digits value
parse_part [] = none
parse_part (c ∷ s) =
    if all_digits (c ∷ s) && ltb (value 0 (c ∷ s)) usize_mod then some (value 0 (c ∷ s)) else none

unfoldable pub parse_parts : List Str → Option (List ℕ)
unfolding parse_part
parse_parts [] = some []
parse_parts (p ∷ ps) = elim (parse_part (trim p)) [
  | none ↦ none
  | some n ↦ elim (parse_parts ps) [ none ↦ none | some ns ↦ some (n ∷ ns) ]
]

-- The parts of a split are never none, so the last test of the source always passes.
unfoldable pub parse_marker_list : Str → Option (List ℕ)
unfolding parse_parts split_comma
parse_marker_list inner = parse_parts (split_comma inner)

-- What follows a `[`: the numbers of the marker, and how many characters it takes.
unfoldable pub marker_at : Str → Option (List ℕ × ℕ)
unfolding find_close parse_marker_list
marker_at s = elim (find_close s) [
  | none ↦ none
  | some inner ↦ elim (parse_marker_list inner) [
    | none ↦ none
    | some ns ↦ some (ns, length inner + 1)
  ]
]

abbrev pub at_position : ℕ → List ℕ → List (ℕ × ℕ)
at_position pos [] = []
at_position pos (n ∷ ns) = (pos, n) ∷ at_position pos ns

-- The loop at byte `pos`; the next `skip` characters belong to a marker.
unfoldable pub markers_from : Str → ℕ → ℕ → List (ℕ × ℕ)
unfolding marker_at
markers_from [] pos skip = []
markers_from (c ∷ s) pos (suc skip) = markers_from s (pos + len_utf8 c) skip
markers_from (c ∷ s) pos zero = elim (c == b'[') [
  | false ↦ markers_from s (pos + len_utf8 c) 0
  | true ↦ elim (marker_at s) [
    | none ↦ markers_from s (pos + 1) 0
    | some (ns, width) ↦ at_position pos ns ++ markers_from s (pos + 1) width
  ]
]

unfoldable pub parse_markers : Str → List (ℕ × ℕ)
unfolding markers_from
parse_markers answer = markers_from answer 0 0
