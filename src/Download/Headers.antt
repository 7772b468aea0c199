-- ===== src/Download/Headers.antt =====
-- lens-core/src/download.rs: content_length_header and content_range. A header is absent, or its
-- text; one that is no text counts as absent.
pub mod Reads
use lens_lm.Base.{
  ℕ, Bool, true, false, ◌||◌, ◌&&◌, Option, none, some, List, [], ◌∷◌, ltb, ◌==◌, if◌then◌else◌,
}
use lens_lm.Base.Text.{Str}
use lens_lm.Citation.Markers.{trim, parse_part}

pub record Headers : Type 0 where
  pub content_length : Option Str
  pub content_range : Option Str

-- `str::parse::<u64>`: digits alone behind one `+` at most, and no overflow.
unfoldable pub parse_u64 : Str → Option ℕ
parse_u64 [] = none
parse_u64 (c ∷ s) = if c == b'+' then parse_part s else parse_part (c ∷ s)

unfoldable pub content_length_header : Headers → Option ℕ
content_length_header h = elim h.content_length [ none ↦ none | some t ↦ parse_u64 t ]

unfoldable pub strip_prefix : Str → Str → Option Str
strip_prefix [] s = some s
strip_prefix (p ∷ ps) [] = none
strip_prefix (p ∷ ps) (c ∷ s) = if p == c then strip_prefix ps s else none

-- `s.split_once(p)`: the text before the first `p` and the text behind it.
unfoldable pub split_once : Str → Str → Option (Str × Str)
split_once p [] = elim (strip_prefix p []) [ none ↦ none | some t ↦ some ([], t) ]
split_once p (c ∷ s) = elim (strip_prefix p (c ∷ s)) [
  | some t ↦ some ([], t)
  | none ↦ elim (split_once p s) [ none ↦ none | some (a, b) ↦ some (c ∷ a, b) ]
]

-- `s.trim_start_matches(['=', ' '])`
unfoldable pub trim_separator : Str → Str
trim_separator [] = []
trim_separator (c ∷ s) = if c == b'=' || c == b' ' then trim_separator s else c ∷ s

-- `s.split('-').next()`
unfoldable pub before_dash : Str → Str
before_dash [] = []
before_dash (c ∷ s) = if c == b'-' then [] else c ∷ before_dash s

unfoldable pub range_numbers : Str → Str → Option (ℕ × ℕ)
range_numbers range total = elim (parse_u64 (trim (before_dash range))) [
  | none ↦ none
  | some start ↦ elim (parse_u64 (trim total)) [ none ↦ none | some n ↦ some (start, n) ]
]

abbrev pub bytes_unit : Str
bytes_unit = b'b' ∷ b'y' ∷ b't' ∷ b'e' ∷ b's' ∷ []

unfoldable pub range_text : Str → Option (ℕ × ℕ)
range_text raw = elim (split_once bytes_unit raw) [
  | none ↦ none
  | some (_, rest) ↦ elim (split_once (b'/' ∷ []) (trim_separator rest)) [
    | none ↦ none
    | some (range, total) ↦ range_numbers range total
  ]
]

unfoldable pub content_range : Headers → Option (ℕ × ℕ)
content_range h = elim h.content_range [ none ↦ none | some raw ↦ range_text raw ]
