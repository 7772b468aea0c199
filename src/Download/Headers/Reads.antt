-- ===== src/Download/Headers/Reads.antt =====
-- A Content-Range header that conforms is read, and so is one with `=` for the space.
use lens_lm.Base.{
  ℕ, ◌<◌, ◌≤◌, ◌≡◌, ◌≢◌, refl, sym, ◌∙◌, ◌⊎◌, true, none, some, [], ◌∷◌, ◌++◌, All, All-append,
  append_assoc, arith,
}
use mathlib.Core.List.{reverse, reverse-cons, reverse-reverse}
use lens_lm.Base.Text.{Str, is_whitespace}
use lens_lm.Citation.Markers.{trim, trim_start, parse_part, is_digit, all_digits, value, usize_mod}
use lens_lm.Download.Headers.{
  Headers, parse_u64, strip_prefix, split_once, trim_separator, before_dash, range_numbers,
  range_text, content_range, bytes_unit,
}

-- A number as the header spells it: digits, and in range.
abbrev pub IsNumber : Str → Type 0
IsNumber s = (s ≢ []) × (all_digits s ≡ true) × (value 0 s < usize_mod)

abbrev IsDigit : ℕ → Type 0
IsDigit c = (0x30 ≤ c) × (c ≤ 0x39)

all_digits-All : (s : Str) → all_digits s ≡ true → All IsDigit s
unfolding all_digits is_digit
all_digits-All [] h = tt
all_digits-All (c ∷ s) h = ((ground arith, ground arith), all_digits-All s (ground arith))

trim_start-IsDigit : (s : Str) → All IsDigit s → trim_start s ≡ s
unfolding trim_start is_whitespace
trim_start-IsDigit [] all = refl
trim_start-IsDigit (c ∷ s) ((low, high), all) = ground arith

reverse-IsDigit : (s : Str) → All IsDigit s → All IsDigit (reverse s)
reverse-IsDigit [] all = tt
reverse-IsDigit (c ∷ s) (d, all) =
    rw (reverse-cons c s) (All-append IsDigit (reverse s) (c ∷ []) (reverse-IsDigit s all) (d, tt))

trim-IsDigit : (s : Str) → All IsDigit s → trim s ≡ s
unfolding trim
trim-IsDigit s all =
    rw (trim_start-IsDigit s all, trim_start-IsDigit (reverse s) (reverse-IsDigit s all))
      (reverse-reverse s)

parse_u64-IsNumber : (s : Str) → IsNumber s → parse_u64 s ≡ some (value 0 s)
unfolding parse_u64 parse_part all_digits is_digit
parse_u64-IsNumber [] (ne, digits, fits) = absurd (ne refl)
parse_u64-IsNumber (c ∷ s) (ne, digits, fits) = ground arith

-- The text before the first `/`.
split_once-slash :
    (a b : Str)
    → All (λ (c : ℕ). c ≢ 0x2f) a
    → split_once (0x2f ∷ []) (a ++ (0x2f ∷ b)) ≡ some (a, b)
unfolding split_once strip_prefix
split_once-slash [] b all = refl
split_once-slash (c ∷ a) b (ne, all) = ground (arith, split_once-slash a b all)

before_dash-append : (a e : Str) → All (λ (c : ℕ). c ≢ 0x2d) a → before_dash (a ++ (0x2d ∷ e)) ≡ a
unfolding before_dash
before_dash-append [] e all = refl
before_dash-append (c ∷ a) e (ne, all) = ground (arith, before_dash-append a e all)

abbrev pub IsSeparator : ℕ → Type 0
IsSeparator c = (c ≡ 0x3d) ⊎ (c ≡ 0x20)

trim_separator-append :
    (seps a : Str) → All IsSeparator seps → trim_separator (seps ++ a) ≡ trim_separator a
unfolding trim_separator
trim_separator-append [] a all = refl
trim_separator-append (c ∷ seps) a (sep, all) = ground (arith, trim_separator-append seps a all)

trim_separator-number : (a b : Str) → IsNumber a → trim_separator (a ++ b) ≡ a ++ b
unfolding trim_separator all_digits is_digit
trim_separator-number [] b (ne, digits, fits) = absurd (ne refl)
trim_separator-number (c ∷ a) b (ne, digits, fits) = ground arith

All-weaken : {P Q : ℕ → Type 0} (s : Str) → ((c : ℕ) → P c → Q c) → All P s → All Q s
All-weaken [] f all = tt
All-weaken (c ∷ s) f (p, all) = (f c p, All-weaken s f all)

-- The header `bytes {start}-{end}/{total}`.
abbrev pub range_header : Str → Str → Str → Str → Str
range_header seps start end total =
    bytes_unit ++ (seps ++ (start ++ (0x2d ∷ (end ++ (0x2f ∷ total)))))

abbrev pub with_range : Str → Headers
with_range raw = record { content_length = none; content_range = some raw }

-- `split_once("bytes")` takes the unit off.
split_once-bytes_unit : (s : Str) → split_once bytes_unit (bytes_unit ++ s) ≡ some ([], s)
unfolding split_once strip_prefix
split_once-bytes_unit s = refl

-- The start and the total of a header are read as the numbers they spell, whatever its end is, with
-- any run of `=` and spaces behind the unit, where both numbers are digits and fit in 64 bits.
pub content_range-range_header :
    (seps start end total : Str)
    → All IsSeparator seps
    → IsNumber start
    → All (λ (c : ℕ). c ≢ 0x2f) end
    → IsNumber total
    → content_range (with_range (range_header seps start end total))
      ≡ some (value 0 start, value 0 total)
unfolding content_range range_text range_numbers
content_range-range_header seps start end total separate s no_slash t =
    let digits = all_digits-All start s.1 in
    let rest : Str = 0x2d ∷ (end ++ (0x2f ∷ total)) in
    let front : trim_separator (seps ++ (start ++ rest))
        ≡ (start ++ (0x2d ∷ end)) ++ (0x2f ∷ total) =
      trim_separator-append seps (start ++ rest) separate
      ∙ trim_separator-number start rest s
      ∙ sym (append_assoc start (0x2d ∷ end) (0x2f ∷ total)) in
    let unslashed : All (λ (c : ℕ). c ≢ 0x2f) (start ++ (0x2d ∷ end)) =
      All-append (λ (c : ℕ). c ≢ 0x2f) start (0x2d ∷ end)
        (All-weaken {P = IsDigit} start (λ (c : ℕ) (d : IsDigit c). ground arith) digits)
        (ground arith, no_slash) in
    let undashed : All (λ (c : ℕ). c ≢ 0x2d) start =
      All-weaken {P = IsDigit} start (λ (c : ℕ) (d : IsDigit c). ground arith) digits in
    rw
      (
        split_once-bytes_unit (seps ++ (start ++ rest)),
        range_text,
        front,
        split_once-slash (start ++ (0x2d ∷ end)) total unslashed,
        range_numbers,
        before_dash-append start end undashed,
        trim-IsDigit start digits,
        parse_u64-IsNumber start s,
        trim-IsDigit total (all_digits-All total t.1),
        parse_u64-IsNumber total t,
      )
      refl
