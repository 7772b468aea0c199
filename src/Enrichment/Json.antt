-- ===== src/Enrichment/Json.antt =====
-- lens-core/src/enrichment/meta.rs: extract_json_object. The code reads bytes; the bytes that it
-- looks for are ASCII, which are whole characters of a text.
pub mod Parts
pub mod Objects
use lens_lm.Base.{
  ℕ, zero, suc, Bool, true, false, Option, none, some, List, [], ◌∷◌, ◌==◌, if◌then◌else◌,
}
use lens_lm.Base.Outcome.{Outcome, ok, panic, ◌>>=◌}
use lens_lm.Base.Text.{Str}

-- The loop's `depth`, `in_str` and `escaped`.
pub record Scan : Type 0 where
  depth : ℕ
  in_str : Bool
  escaped : Bool

pub data Scanned : Type 0 where
  open_at : Scan → Scanned
  closed : Scanned
  underflow : Scanned

-- `depth -= 1`, and the test behind it.
unfoldable pub close_brace : Scan → ℕ → Scanned
close_brace s zero = underflow
close_brace s (suc d) = if d == 0 then closed else open_at (record s { depth = d })

-- The body, on one character.
unfoldable pub scan_char : Scan → ℕ → Scanned
unfolding close_brace
scan_char s c =
    if s.in_str
    then if s.escaped
      then open_at (record s { escaped = false })
      else if c == 0x5c
      then open_at (record s { escaped = true })
      else if c == 0x22
      then open_at (record s { in_str = false })
      else open_at s
    else if c == 0x22
    then open_at (record s { in_str = true })
    else if c == 0x7b
    then open_at (record s { depth = suc s.depth })
    else if c == 0x7d
    then close_brace s s.depth
    else open_at s

unfoldable pub keep : ℕ → Option Str → Option Str
keep c none = none
keep c (some t) = some (c ∷ t)

-- The text from here to the brace that closes.
unfoldable pub scan_loop : Scan → Str → Outcome (Option Str)
unfolding scan_char keep
scan_loop s [] = ok none
scan_loop s (c ∷ r) = elim (scan_char s c) [
  | open_at s' ↦ do t ← scan_loop s' r; ok (keep c t)
  | closed ↦ ok (some (c ∷ []))
  | underflow ↦ panic
]

unfoldable pub extract_json_object : Str → Outcome (Option Str)
unfolding scan_loop
extract_json_object [] = ok none
extract_json_object (c ∷ r) = elim (c == 0x7b) [
  | true ↦ scan_loop (record { depth = 0; in_str = false; escaped = false }) (c ∷ r)
  | false ↦ extract_json_object r
]
