-- ===== src/Enrichment/Coref/Offsets.antt =====
-- A range of characters as bytes, and the replacement of a part of a text.
use lens_lm.Base.{
  ℕ, zero, suc, ◌+◌, ◌-◌, ◌≤◌, ◌<◌, ◌≡◌, refl, sym, ◌∙◌, ap, inl, inr, true, false, Bool-cases,
  Option, none, some, Option-cases, [], ◌∷◌, ◌++◌, take, drop, length, ltb, ◌==◌, arith,
}
use lens_lm.Base.Text.{Str, len_utf8, byte_len, split_at-append}
use lens_lm.Enrichment.Coref.{
  offset_loop, codepoint_to_byte, codepoint_range_to_bytes, replace_range,
}

-- The loop past the target, on it, and before it.
offset_loop-past :
    (s : Str) (target i b : ℕ) (found : Option ℕ)
    → target < i
    → offset_loop s target i b found ≡ found
unfolding offset_loop
offset_loop-past [] target i b found h = refl
offset_loop-past (c ∷ s) target i b found h =
    let ne : (i == target) ≡ false = ground arith in
    rw (ne, offset_loop) (offset_loop-past s target (i + 1) (b + len_utf8 c) found (omega arith))

offset_loop-take :
    (s : Str) (k i b : ℕ)
    → k < length s
    → offset_loop s (i + k) i b none ≡ some (b + byte_len (take k s))
unfolding offset_loop byte_len
offset_loop-take [] k i b h = absurd (omega arith)
offset_loop-take (c ∷ s) zero i b h =
    let same : (i == i + 0) ≡ true = ground arith in
    rw (same, offset_loop)
      (offset_loop-past s (i + 0) (i + 1) (b + len_utf8 c) (some b) (omega arith)
        ∙ ap some (omega arith))
offset_loop-take (c ∷ s) (suc k) i b h =
    let ne : (i == i + suc k) ≡ false = ground arith in
    let e : i + suc k ≡ i + 1 + k = omega arith in
    rw (ne, offset_loop, e)
      (offset_loop-take s k (i + 1) (b + len_utf8 c) (omega arith) ∙ ap some (omega arith))

offset_loop-out :
    (s : Str) (target i b : ℕ) → i + length s ≤ target → offset_loop s target i b none ≡ none
unfolding offset_loop
offset_loop-out [] target i b h = refl
offset_loop-out (c ∷ s) target i b h =
    let ne : (i == target) ≡ false = ground arith in
    rw (ne, offset_loop) (offset_loop-out s target (i + 1) (b + len_utf8 c) (omega arith))

take-length : (s : Str) → take (length s) s ≡ s
take-length [] = refl
take-length (c ∷ s) = ap (λ (t : Str). c ∷ t) (take-length s)

-- The byte of a character in reach, or of the end.
pub codepoint_to_byte-take :
    (s : Str) (k : ℕ) → k ≤ length s → codepoint_to_byte s k ≡ some (byte_len (take k s))
unfolding codepoint_to_byte
codepoint_to_byte-take s k h = elim (Bool-cases (k == length s)) [
  | inl e ↦
      let same : k ≡ length s = ground arith in
      rw (e, codepoint_to_byte, same) (ap (λ (t : Str). some (byte_len t)) (sym (take-length s)))
  | inr e ↦
      let z : 0 + k ≡ k = omega arith in
      let z' : 0 + byte_len (take k s) ≡ byte_len (take k s) = omega arith in
      rw (e, codepoint_to_byte) (rw (z, z') at (offset_loop-take s k 0 0 (ground arith)))
]

pub codepoint_to_byte-out : (s : Str) (k : ℕ) → length s < k → codepoint_to_byte s k ≡ none
unfolding codepoint_to_byte
codepoint_to_byte-out s k h =
    let ne : (k == length s) ≡ false = ground arith in
    rw (ne, codepoint_to_byte) (offset_loop-out s k 0 0 (omega arith))

abbrev pub InRange : Str → ℕ → ℕ → Type 0
InRange text i j = (i ≤ j) × (j ≤ length text)

pub codepoint_range_to_bytes-take :
    (text : Str) (i j : ℕ)
    → InRange text i j
    → codepoint_range_to_bytes text i j ≡ some (byte_len (take i text), byte_len (take j text))
unfolding codepoint_range_to_bytes
codepoint_range_to_bytes-take text i j (le, fits) =
    let below : ltb j i ≡ false = ground arith in
    rw
      (
        below,
        codepoint_range_to_bytes,
        codepoint_to_byte-take text i (omega arith),
        codepoint_to_byte-take text j fits,
      )
      refl

-- A range that is read is in range.
pub codepoint_range_to_bytes-InRange :
    (text : Str) (i j : ℕ) (r : ℕ × ℕ)
    → codepoint_range_to_bytes text i j ≡ some r
    → InRange text i j
unfolding codepoint_range_to_bytes
codepoint_range_to_bytes-InRange text i j r h = elim (Bool-cases (ltb j i)) [
  | inl e ↦ absurd (ground (arith, e, h))
  | inr e ↦ elim (Bool-cases (ltb (length text) j)) [
    | inr f ↦ (ground (arith, e), ground (arith, f))
    | inl f ↦
        let out = codepoint_to_byte-out text j (ground (arith, f)) in
        elim (Option-cases (codepoint_to_byte text i)) [
          | inl g ↦ absurd (ground (arith, e, g, h))
          | inr (s, g) ↦ absurd (ground (arith, e, g, out, h))
        ]
  ]
]

take-none : (n : ℕ) → take {A = ℕ} n [] ≡ []
take-none zero = refl
take-none (suc n) = refl

-- A longer prefix, by a shorter one.
pub take-split : (i j : ℕ) (s : Str) → i ≤ j → take j s ≡ take i s ++ take (j - i) (drop i s)
take-split zero j s h = let e : j - 0 ≡ j = omega arith in rw e refl
take-split (suc i) zero s h = absurd (omega arith)
take-split (suc i) (suc j) [] h =
    let e : suc j - suc i ≡ j - i = omega arith in rw e (sym (take-none (j - i)))
take-split (suc i) (suc j) (c ∷ s) h =
    let e : suc j - suc i ≡ j - i = omega arith in
    rw e (ap (λ (t : Str). c ∷ t) (take-split i j s (omega arith)))

pub replace_range-append :
    (p m q t : Str)
    → replace_range (p ++ (m ++ q)) (byte_len p) (byte_len p + byte_len m) t ≡ some (p ++ (t ++ q))
unfolding replace_range
replace_range-append p m q t =
    let e : byte_len p + byte_len m - byte_len p ≡ byte_len m = omega arith in
    ground (arith, e, split_at-append p (m ++ q), split_at-append m q)
