-- ===== src/Retrieval/Structural.antt =====
-- lens-core/src/retrieval/structural.rs: the structural target of a query. The lowercase mapping and
-- `char::is_alphanumeric` are parameters.
pub mod Roman
use lens_lm.Base.{
  ℕ, ◌+◌, ◌-◌, ◌^◌, ◌%◌, Bool, true, false, ◌&&◌, ◌||◌, not, Option, none, some, List, [], ◌∷◌, ltb,
  ◌==◌, if◌then◌else◌,
}
use mathlib.Core.List.{reverse}
use lens_lm.Base.Text.{Str, codes, is_whitespace, str_eq}
use lens_lm.Citation.Markers.{is_digit, value}

pub data StructuralKind : Type 0 where
  chapter section part : StructuralKind

pub data NamedSection : Type 0 where
  introduction conclusion : NamedSection

pub data StructuralTarget : Type 0 where
  ordinal : StructuralKind → ℕ → StructuralTarget
  named : NamedSection → StructuralTarget

unfoldable pub structural_noun : Str → Option StructuralKind
structural_noun tok =
    if str_eq tok (codes "chapter") || str_eq tok (codes "ch")
    then some chapter
    else if str_eq tok (codes "section")
    then some section
    else if str_eq tok (codes "part")
    then some part
    else none

unfoldable pub named_section : Str → Option NamedSection
named_section tok =
    if str_eq tok (codes "introduction") || str_eq tok (codes "intro")
    then some introduction
    else if str_eq tok (codes "conclusion")
    then some conclusion
    else none

abbrev pub words : List Str
words =
    codes "one"
    ∷ codes "two"
    ∷ codes "three"
    ∷ codes "four"
    ∷ codes "five"
    ∷ codes "six"
    ∷ codes "seven"
    ∷ codes "eight"
    ∷ codes "nine"
    ∷ codes "ten"
    ∷ codes "eleven"
    ∷ codes "twelve"
    ∷ codes "thirteen"
    ∷ codes "fourteen"
    ∷ codes "fifteen"
    ∷ codes "sixteen"
    ∷ codes "seventeen"
    ∷ codes "eighteen"
    ∷ codes "nineteen"
    ∷ codes "twenty"
    ∷ []

abbrev pub ordinals : List Str
ordinals =
    codes "first"
    ∷ codes "second"
    ∷ codes "third"
    ∷ codes "fourth"
    ∷ codes "fifth"
    ∷ codes "sixth"
    ∷ codes "seventh"
    ∷ codes "eighth"
    ∷ codes "ninth"
    ∷ codes "tenth"
    ∷ codes "eleventh"
    ∷ codes "twelfth"
    ∷ codes "thirteenth"
    ∷ codes "fourteenth"
    ∷ codes "fifteenth"
    ∷ codes "sixteenth"
    ∷ codes "seventeenth"
    ∷ codes "eighteenth"
    ∷ codes "nineteenth"
    ∷ codes "twentieth"
    ∷ []

-- `iter().position(|w| *w == tok)`, counted from `i`.
unfoldable pub position : List Str → Str → ℕ → Option ℕ
position [] tok i = none
position (w ∷ ws) tok i = if str_eq w tok then some i else position ws tok (i + 1)

unfoldable pub word_cardinal : Str → Option ℕ
word_cardinal tok = elim (position words tok 0) [
  | some i ↦ some (i + 1)
  | none ↦ elim (position ordinals tok 0) [ none ↦ none | some i ↦ some (i + 1) ]
]

unfoldable pub roman_value : ℕ → ℕ
roman_value c =
    if c == b'i'
    then 1
    else if c == b'v'
    then 5
    else if c == b'x'
    then 10
    else if c == b'l'
    then 50
    else if c == b'c'
    then 100
    else if c == b'd'
    then 500
    else if c == b'm'
    then 1000
    else 0

-- The letters are those of "ivxlcdm".
unfoldable pub all_roman : Str → Bool
all_roman [] = true
all_roman (c ∷ s) = ltb 0 (roman_value c) && all_roman s

unfoldable pub next_value : Str → ℕ
next_value [] = 0
next_value (c ∷ s) = roman_value c

-- What the loop adds to the total, which may be negative on the way, and what it takes from it.
unfoldable pub roman_sums : Str → ℕ × ℕ
roman_sums [] = (0, 0)
roman_sums (c ∷ s) =
    let (added, taken) = roman_sums s in
    if ltb (roman_value c) (next_value s)
    then (added, taken + roman_value c)
    else (added + roman_value c, taken)

unfoldable pub roman_cardinal : Str → Option ℕ
roman_cardinal [] = none
roman_cardinal (c ∷ s) =
    let (added, taken) = roman_sums (c ∷ s) in
    if all_roman (c ∷ s) && ltb taken added then some ((added - taken) % 2 ^ 32) else none

unfoldable pub take_digits : Str → Str × Str
take_digits [] = ([], [])
take_digits (c ∷ s) =
    let (digits, rest) = take_digits s in if is_digit c then (c ∷ digits, rest) else ([], c ∷ s)

unfoldable pub is_suffix : Str → Bool
is_suffix rest =
    str_eq rest []
    || str_eq rest (codes "st")
    || str_eq rest (codes "nd")
    || str_eq rest (codes "rd")
    || str_eq rest (codes "th")

-- The token, its leading digits, and what is behind them.
unfoldable pub cardinal_of : Str → Str × Str → Option ℕ
cardinal_of tok ([], rest) = elim (word_cardinal tok) [
  | some n ↦ some n
  | none ↦ roman_cardinal tok
]
cardinal_of tok (d ∷ ds, rest) =
    if is_suffix rest && ltb (value 0 (d ∷ ds)) (2 ^ 32) then some (value 0 (d ∷ ds)) else none

unfoldable pub parse_cardinal : Str → Option ℕ
parse_cardinal tok = cardinal_of tok (take_digits tok)

unfoldable pub optional_cardinal : Option Str → Option ℕ
optional_cardinal none = none
optional_cardinal (some tok) = parse_cardinal tok

unfoldable pub first_token : List Str → Option Str
first_token [] = none
first_token (t ∷ r) = some t

-- The loop over the tokens, `prev` being the one before.
unfoldable pub ordinal_loop : Option Str → List Str → Option StructuralTarget
ordinal_loop prev [] = none
ordinal_loop prev (t ∷ r) =
    let rest = ordinal_loop (some t) r in
    elim (structural_noun t) [
      | none ↦ rest
      | some kind ↦ elim (optional_cardinal (first_token r)) [
        | some n ↦ some (ordinal kind n)
        | none ↦ elim (optional_cardinal prev) [ some n ↦ some (ordinal kind n) | none ↦ rest ]
      ]
    ]

unfoldable pub named_at : Option Str → Option NamedSection
named_at none = none
named_at (some t) = named_section t

unfoldable pub named_loop : List Str → Option StructuralTarget
named_loop [] = none
named_loop (t ∷ r) =
    let rest = named_loop r in
    if str_eq t (codes "the")
    then elim (named_at (first_token r)) [ some n ↦ some (named n) | none ↦ rest ]
    else rest

unfoldable pub detect_tokens : List Str → Option StructuralTarget
detect_tokens toks = elim (ordinal_loop none toks) [ some t ↦ some t | none ↦ named_loop toks ]

-- `split_whitespace`, with empty texts that are dropped later.
unfoldable pub split_whitespace : Str → List Str
split_whitespace [] = [] ∷ []
split_whitespace (c ∷ s) =
    if is_whitespace c
    then [] ∷ split_whitespace s
    else elim (split_whitespace s) [ [] ↦ (c ∷ []) ∷ [] | p ∷ ps ↦ (c ∷ p) ∷ ps ]

module _ (lowercase : Str → Str) (is_alphanumeric : ℕ → Bool) where
  unfoldable pub trim_front : Str → Str
  trim_front [] = []
  trim_front (c ∷ s) = if is_alphanumeric c then c ∷ s else trim_front s

  unfoldable pub trim_token : Str → Str
  trim_token s = reverse (trim_front (reverse (trim_front s)))

  unfoldable pub trimmed_tokens : List Str → List Str
  trimmed_tokens [] = []
  trimmed_tokens (p ∷ ps) =
      let rest = trimmed_tokens ps in elim (trim_token p) [ [] ↦ rest | c ∷ s ↦ (c ∷ s) ∷ rest ]

  unfoldable pub detect_structural_target : Str → Option StructuralTarget
  detect_structural_target query =
      detect_tokens (trimmed_tokens (split_whitespace (lowercase query)))
