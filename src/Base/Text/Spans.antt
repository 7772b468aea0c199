-- ===== src/Base/Text/Spans.antt =====
-- Char boundaries of a text, and the slices between them.
use lens_lm.Base.{
  ℕ, ◌+◌, ◌≤◌, ◌<◌, ◌≡◌, ◌∙◌, refl, sym, ap, some, [], ◌∷◌, ◌++◌, append_assoc, append-nil, arith,
}
use lens_lm.Base.Text.{
  Str, len_utf8_pos, byte_len, byte_len-append, slice, slice-append, slice_parts,
}

-- Byte `i` starts a character of the text, or is its end.
abbrev pub Boundary : Str → ℕ → Type 0
Boundary s i = (p : Str) × (q : Str) × (p ++ q ≡ s) × (byte_len p ≡ i)

pub Boundary-zero : (s : Str) → Boundary s 0
unfolding byte_len
Boundary-zero s = ([], s, refl, refl)

pub Boundary-byte_len : (s : Str) → Boundary s (byte_len s)
Boundary-byte_len s = (s, [], append-nil s, refl)

pub Boundary-le : (s : Str) (i : ℕ) → Boundary s i → i ≤ byte_len s
Boundary-le s i (p, q, e, at) = omega (arith, byte_len-append p q, ap byte_len e)

pub byte_len_pos : (c : ℕ) (s : Str) → 0 < byte_len (c ∷ s)
unfolding byte_len
byte_len_pos c s = omega (arith, len_utf8_pos c)

-- Of two splits of a text the shorter prefix begins the longer one.
pub prefix_le :
    (p q p' q' : Str)
    → p ++ q ≡ p' ++ q'
    → byte_len p ≤ byte_len p'
    → (t : Str) × (p' ≡ p ++ t) × (q ≡ t ++ q')
prefix_le [] q p' q' e h = (p', refl, e)
prefix_le (c ∷ p) q [] q' e h = absurd (unfold byte_len in omega (arith, len_utf8_pos c, h))
prefix_le (c ∷ p) q (d ∷ p') q' e h =
    let c_eq : c ≡ d = cc in
    let e' : p ++ q ≡ p' ++ q' = cc in
    let (t, f, g) = prefix_le p q p' q' e' (unfold byte_len in ground arith) in (t, cc, g)

pub prefix_eq :
    (p q p' q' : Str) → p ++ q ≡ p' ++ q' → byte_len p ≡ byte_len p' → (p ≡ p') × (q ≡ q')
prefix_eq [] q [] q' e h = (refl, e)
prefix_eq [] q (d ∷ p') q' e h = absurd (unfold byte_len in omega (arith, len_utf8_pos d, h))
prefix_eq (c ∷ p) q [] q' e h = absurd (unfold byte_len in omega (arith, len_utf8_pos c, h))
prefix_eq (c ∷ p) q (d ∷ p') q' e h =
    let c_eq : c ≡ d = cc in
    let e' : p ++ q ≡ p' ++ q' = cc in
    let (f, g) = prefix_eq p q p' q' e' (unfold byte_len in ground arith) in (cc, g)

-- A slice at given parts of the text.
pub slice_at :
    (s p t q : Str) (i j : ℕ)
    → p ++ (t ++ q) ≡ s
    → byte_len p ≡ i
    → i + byte_len t ≡ j
    → slice s i j ≡ some t
slice_at s p t q i j e at_i at_j =
    let h : byte_len p + byte_len t ≡ j = omega arith in rw (← e, ← at_i, ← h) (slice-append p t q)

-- A slice between two boundaries does not panic.
pub slice_total :
    (s : Str) (i j : ℕ) → Boundary s i → Boundary s j → i ≤ j → (t : Str) × (slice s i j ≡ some t)
slice_total s i j (p, q, e, at_i) (p', q', e', at_j) h =
    let (t, f, g) = prefix_le p q p' q' (e ∙ sym e') (omega arith) in
    let len : byte_len p + byte_len t ≡ j = cc (byte_len-append p t, ap byte_len f, at_j) in
    (t, slice_at s p t q' i j (cc (e, g)) at_i (omega arith))

pub slice-Boundary :
    (s : Str) (i j : ℕ) (t : Str)
    → slice s i j ≡ some t
    → Boundary s i × Boundary s j × (i + byte_len t ≡ j)
slice-Boundary s i j t h =
    let (p, q, e, at_i, len) = slice_parts s i j t h in
    (
      (p, t ++ q, e, at_i),
      (p ++ t, q, append_assoc p t q ∙ e, omega (arith, byte_len-append p t)),
      len,
    )

-- Any part of a slice is a slice.
pub slice-within :
    (s : Str) (i j : ℕ) (a t b : Str)
    → slice s i j ≡ some (a ++ (t ++ b))
    → slice s (i + byte_len a) (i + byte_len a + byte_len t) ≡ some t
slice-within s i j a t b h =
    let (p, q, e, at_i, len) = slice_parts s i j (a ++ (t ++ b)) h in
    slice_at s (p ++ a) t (b ++ q) (i + byte_len a) (i + byte_len a + byte_len t)
      (simp append_assoc (rw (append_assoc a (t ++ b) q, append_assoc t b q) at e))
      (omega (arith, byte_len-append p a)) refl

pub slice-Boundary-within :
    (s : Str) (i j k : ℕ) (t : Str) → slice s i j ≡ some t → Boundary t k → Boundary s (i + k)
slice-Boundary-within s i j k t h (a, b, e, at_k) =
    let (p, q, f, at_i, len) = slice_parts s i j t h in
    (
      p ++ a,
      b ++ q,
      simp append_assoc (cc (append_assoc a b q)),
      omega (arith, byte_len-append p a),
    )

-- Adjacent slices join.
pub slice-join :
    (s : Str) (i j k : ℕ) (a b : Str)
    → slice s i j ≡ some a
    → slice s j k ≡ some b
    → slice s i k ≡ some (a ++ b)
slice-join s i j k a b h h' =
    let (p, q, e, at_i, len) = slice_parts s i j a h in
    let (p', q', e', at_j, len') = slice_parts s j k b h' in
    let (f, g) =
      prefix_eq (p ++ a) q p' (b ++ q') (append_assoc p a q ∙ e ∙ sym e')
        (omega (arith, byte_len-append p a)) in
    slice_at s p (a ++ b) q' i k (simp append_assoc (cc (g, e))) at_i
      (omega (arith, byte_len-append a b))

pub slice_empty : (s : Str) (i : ℕ) → Boundary s i → slice s i i ≡ some []
slice_empty s i (p, q, e, at) = slice_at s p [] q i i e at (unfold byte_len in omega arith)
