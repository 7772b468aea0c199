-- ===== src/Base/Text.antt =====
-- Rust's `str`: the list of its scalar values, with the byte offsets of their UTF-8 form.
-- A slice `&s[a..b]` panics unless `a ≤ b ≤ s.len()` and both are char boundaries.
pub mod Distinct
pub mod Spans
use Prim.Native.Nat.{ℕ, ◌+◌, ◌-◌, ◌<◌, ◌/◌, ◌%◌}
use Prim.Native.Char.{code}
use Prim.Native.String.{String}
use mathlib.Core.Path.{◌≡◌, refl}
use mathlib.Core.Logic.{inl, inr}
use mathlib.Core.Bool.{Bool, true, false, ◌&&◌, ◌||◌}
use mathlib.Core.Option.{Option, none, some}
use mathlib.Core.List.{List, [], ◌∷◌, ◌++◌, map, append-nil, append_assoc}
use native.Mathlib.Omega.{arith}
use lens_lm.Base.Tests.{ltb, leb, ◌==◌, if◌then◌else◌, Option-cases}

abbrev pub Str : Type 0
Str = List ℕ

-- The scalar values of a literal.
abbrev pub codes : String → Str
codes String.[] = []
codes (String.◌∷◌ c s) = code c ∷ codes s

-- `char::len_utf8`.
unfoldable pub len_utf8 : ℕ → ℕ
len_utf8 c = if ltb c 0x80 then 1 else if ltb c 0x800 then 2 else if ltb c 0x10000 then 3 else 4

pub len_utf8_pos : (c : ℕ) → 0 < len_utf8 c
unfolding len_utf8
len_utf8_pos c = ground arith

-- `str::len`, in bytes.
unfoldable pub byte_len : Str → ℕ
byte_len [] = 0
byte_len (c ∷ s) = len_utf8 c + byte_len s

pub byte_len-append : (s t : Str) → byte_len (s ++ t) ≡ byte_len s + byte_len t
unfolding byte_len
byte_len-append [] t = omega arith
byte_len-append (c ∷ s) t = omega (arith, byte_len-append s t)

-- `char::is_whitespace`: the Unicode property White_Space.
unfoldable pub is_whitespace : ℕ → Bool
is_whitespace c =
    (leb 0x9 c && leb c 0xd)
    || c == 0x20
    || c == 0x85
    || c == 0xa0
    || c == 0x1680
    || (leb 0x2000 c && leb c 0x200a)
    || c == 0x2028
    || c == 0x2029
    || c == 0x202f
    || c == 0x205f
    || c == 0x3000

-- The text before and from byte `n`, if `n` is a char boundary in reach.
unfoldable pub split_at : Str → ℕ → Option (Str × Str)
split_at [] n = if n == 0 then some ([], []) else none
split_at (c ∷ s) n =
    if n == 0
    then some ([], c ∷ s)
    else if ltb n (len_utf8 c)
    then none
    else elim (split_at s (n - len_utf8 c)) [ none ↦ none | some (a, b) ↦ some (c ∷ a, b) ]

-- A split is at its offset, and its halves are the text.
pub split_at_sound :
    (s : Str) (n : ℕ) (a b : Str) → split_at s n ≡ some (a, b) → (a ++ b ≡ s) × (byte_len a ≡ n)
unfolding split_at byte_len
split_at_sound [] n a b h = ground arith
split_at_sound (c ∷ s) n a b h = elim (Option-cases (split_at s (n - len_utf8 c))) [
  | inl e ↦ ground (arith, len_utf8_pos c)
  | inr ((a', b'), e) ↦ ground (arith, len_utf8_pos c, split_at_sound s (n - len_utf8 c) a' b' e)
]

-- The end of a prefix is a char boundary.
pub split_at-append : (a b : Str) → split_at (a ++ b) (byte_len a) ≡ some (a, b)
unfolding split_at byte_len
split_at-append [] [] = refl
split_at-append [] (c ∷ b) = refl
split_at-append (c ∷ a) b =
    let e : len_utf8 c + byte_len a - len_utf8 c ≡ byte_len a = omega arith in
    ground (arith, len_utf8_pos c, e, split_at-append a b)

-- `&s[i..j]`; `none` is a panic.
unfoldable pub slice : Str → ℕ → ℕ → Option Str
slice s i j = if ltb j i then none else elim (split_at s i) [
  | none ↦ none
  | some (_, rest) ↦ elim (split_at rest (j - i)) [ none ↦ none | some (t, _) ↦ some t ]
]

pub slice-append :
    (p t q : Str) → slice (p ++ (t ++ q)) (byte_len p) (byte_len p + byte_len t) ≡ some t
unfolding slice
slice-append p t q =
    let e : byte_len p + byte_len t - byte_len p ≡ byte_len t = omega arith in
    ground (arith, e, split_at-append p (t ++ q), split_at-append t q)

-- A slice is a part of the text, at its offsets.
pub slice_parts :
    (s : Str) (i j : ℕ) (t : Str)
    → slice s i j ≡ some t
    → (p : Str) × (q : Str) × (p ++ (t ++ q) ≡ s) × (byte_len p ≡ i) × (i + byte_len t ≡ j)
unfolding slice
slice_parts s i j t h = elim (Option-cases (split_at s i)) [
  | inl e ↦ absurd (ground arith)
  | inr ((p, r), e) ↦ elim (Option-cases (split_at r (j - i))) [
    | inl e' ↦ absurd (ground arith)
    | inr ((t', q), e') ↦
        let (joined, at) = split_at_sound s i p r e in
        let (joined', at') = split_at_sound r (j - i) t' q e' in
        (p, q, ground arith, at, ground arith)
  ]
]

-- The UTF-8 bytes of a text.
utf8_char : ℕ → List ℕ
utf8_char c =
    if ltb c 0x80
    then c ∷ []
    else if ltb c 0x800
    then (0xc0 + c / 64) ∷ (0x80 + c % 64) ∷ []
    else if ltb c 0x10000
    then (0xe0 + c / 4096) ∷ (0x80 + c / 64 % 64) ∷ (0x80 + c % 64) ∷ []
    else (0xf0 + c / 262144) ∷ (0x80 + c / 4096 % 64) ∷ (0x80 + c / 64 % 64) ∷ (0x80 + c % 64) ∷ []

unfoldable pub utf8 : Str → List ℕ
unfolding utf8_char
utf8 [] = []
utf8 (c ∷ s) = utf8_char c ++ utf8 s

-- Equality of texts.
unfoldable pub str_eq : Str → Str → Bool
str_eq [] [] = true
str_eq [] (d ∷ t) = false
str_eq (c ∷ s) [] = false
str_eq (c ∷ s) (d ∷ t) = c == d && str_eq s t

pub str_eq_sound : (s t : Str) → str_eq s t ≡ true → s ≡ t
unfolding str_eq
str_eq_sound [] [] h = refl
str_eq_sound [] (d ∷ t) h = cc
str_eq_sound (c ∷ s) [] h = cc
str_eq_sound (c ∷ s) (d ∷ t) h = ground (arith, str_eq_sound s t)

pub str_eq_refl : (s : Str) → str_eq s s ≡ true
unfolding str_eq
str_eq_refl [] = refl
str_eq_refl (c ∷ s) = ground (arith, str_eq_refl s)

-- `join` of a slice of texts.
unfoldable pub join : Str → List Str → Str
join separator [] = []
join separator (t ∷ []) = t
join separator (t ∷ u ∷ r) = t ++ separator ++ join separator (u ∷ r)
