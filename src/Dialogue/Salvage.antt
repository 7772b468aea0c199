-- ===== src/Dialogue/Salvage.antt =====
-- lens-core/src/dialogue.rs: preclean, extract_json_array, find_turns_array and parse_dialogue. The
-- code reads bytes where it looks for ASCII, which is whole characters of a text. What serde reads
-- is a parameter.
pub mod Commas
pub mod Arrays
use lens_lm.Base.{
  ℕ, zero, suc, ◌-◌, Bool, true, false, ◌&&◌, ◌||◌, not, Option, none, some, List, [], ◌∷◌, ◌==◌,
  if◌then◌else◌,
}
use lens_lm.Base.Outcome.{Outcome, ok, err, panic, parse, ◌>>=◌}
use lens_lm.Base.Text.{Str}
use lens_lm.Dialogue.Script.{Turn}
use lens_lm.Enrichment.Json.{extract_json_object}

-- `in_str` and `escaped`.
pub data Place : Type 0 where
  outside in_string behind_escape : Place

-- Where the character behind one stands.
unfoldable pub next_place : Place → ℕ → Place
next_place outside c = if c == 0x22 then in_string else outside
next_place in_string c =
    if c == 0x5c then behind_escape else if c == 0x22 then outside else in_string
next_place behind_escape c = in_string

unfoldable pub is_ascii_whitespace : ℕ → Bool
is_ascii_whitespace c = c == 0x20 || c == 0x9 || c == 0xa || c == 0xc || c == 0xd

-- The next character that is no whitespace is `]` or `}`.
unfoldable pub closes_next : Str → Bool
closes_next [] = false
closes_next (c ∷ s) =
    let rest = closes_next s in if is_ascii_whitespace c then rest else c == 0x5d || c == 0x7d

unfoldable pub is_outside : Place → Bool
is_outside outside = true
is_outside in_string = false
is_outside behind_escape = false

-- A comma that is dropped.
unfoldable pub is_trailing : Place → ℕ → Str → Bool
is_trailing p c s = is_outside p && c == 0x2c && closes_next s

-- The first pass: a comma is to be dropped.
unfoldable pub needs_clean : Place → Str → Bool
needs_clean p [] = false
needs_clean p (c ∷ s) = is_trailing p c s || needs_clean (next_place p c) s

-- The second pass.
unfoldable pub clean_loop : Place → Str → Str
clean_loop p [] = []
clean_loop p (c ∷ s) =
    let rest = clean_loop (next_place p c) s in if is_trailing p c s then rest else c ∷ rest

unfoldable pub preclean : Str → Str
preclean text = if needs_clean outside text then clean_loop outside text else text

-- The walk of extract_json_array: the depth of brackets and of braces.
pub record Walk : Type 0 where
  pub brackets : ℕ
  pub braces : ℕ
  pub place : Place

-- A character outside a string; none where the array is closed.
unfoldable pub walk_outside : Walk → ℕ → Option Walk
walk_outside w c =
    if c == 0x22
    then some (record w { place = in_string })
    else if c == 0x7b
    then some (record w { braces = suc w.braces })
    else if c == 0x7d
    then some (record w { braces = w.braces - 1 })
    else if c == 0x5b
    then some (record w { brackets = suc w.brackets })
    else if c == 0x5d
    then (if w.brackets - 1 == 0 && w.braces == 0
        then none
        else some (record w { brackets = w.brackets - 1 }))
    else some w

unfoldable pub walk_char : Walk → ℕ → Option Walk
walk_char w c = elim w.place [
  | outside ↦ walk_outside w c
  | in_string ↦ some (record w { place = next_place in_string c })
  | behind_escape ↦ some (record w { place = in_string })
]

unfoldable pub with_first : ℕ → Option Str → Option Str
with_first c none = none
with_first c (some t) = some (c ∷ t)

-- The text from here to the bracket that closes.
unfoldable pub walk_loop : Walk → Str → Option Str
walk_loop w [] = none
walk_loop w (c ∷ s) = elim (walk_char w c) [
  | none ↦ some (c ∷ [])
  | some w' ↦ with_first c (walk_loop w' s)
]

unfoldable pub extract_json_array : Str → Option Str
extract_json_array [] = none
extract_json_array (c ∷ s) = elim (c == 0x5b) [
  | true ↦ walk_loop (record { brackets = 0; braces = 0; place = outside }) (c ∷ s)
  | false ↦ extract_json_array s
]

-- A JSON value: an array is what serde reads of it as turns, an object the values of its map.
mutual
  pub data Value : Type 0 where
    array : Option (List Turn) → Value
    fields : Values → Value
    scalar : Value

  pub data Values : Type 0 where
    last : Values
    value : Value → Values → Values

unfoldable pub not_empty : Option (List Turn) → Option (List Turn)
not_empty none = none
not_empty (some []) = none
not_empty (some (t ∷ r)) = some (t ∷ r)

unfoldable pub first_some : Option (List Turn) → Option (List Turn) → Option (List Turn)
first_some none b = b
first_some (some a) b = some a

unfoldable mutual
  unfolding not_empty first_some

  pub find_turns_array : Value → Option (List Turn)
  find_turns_array (array turns) = not_empty turns
  find_turns_array (fields vs) = find_in_values vs
  find_turns_array scalar = none

  pub find_in_values : Values → Option (List Turn)
  find_in_values last = none
  find_in_values (value v vs) = first_some (find_turns_array v) (find_in_values vs)

module _ (read_turns read_script : Str → Option (List Turn)) (read_value : Str → Option Value) where
  -- The object form, and turns somewhere in it.
  unfoldable pub parse_object : Str → Outcome (List Turn)
  parse_object obj = elim (read_script obj) [
    | some turns ↦ ok turns
    | none ↦ elim (read_value obj) [
      | none ↦ err parse
      | some v ↦ elim (find_turns_array v) [ none ↦ err parse | some turns ↦ ok turns ]
    ]
  ]

  unfoldable pub parse_objects : Str → Outcome (List Turn)
  parse_objects cleaned = do
    obj ← extract_json_object cleaned
    elim obj [ none ↦ err parse | some o ↦ parse_object o ]

  unfoldable pub read_array : Option Str → Option (List Turn)
  read_array none = none
  read_array (some arr) = read_turns arr

  unfoldable pub parse_dialogue : Str → Outcome (List Turn)
  parse_dialogue text =
      let cleaned = preclean text in
      elim (read_array (extract_json_array cleaned)) [
        | some turns ↦ ok turns
        | none ↦ parse_objects cleaned
      ]
