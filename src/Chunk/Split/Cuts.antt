-- ===== src/Chunk/Split/Cuts.antt =====
-- The candidate cuts of find_split are char boundaries behind the first byte.
use lens_lm.Base.{
  ℕ, zero, suc, ◌+◌, ◌<◌, ◌≡◌, ◌∙◌, refl, List, [], ◌∷◌, ◌++◌, append_assoc, arith, All, length,
  get_elem?, some, inl, inr, Bool-cases, ◌&&◌, ltb,
}
use lens_lm.Base.Text.{Str, len_utf8, len_utf8_pos, byte_len, byte_len-append, is_whitespace}
use lens_lm.Base.Text.Spans.{Boundary}
use lens_lm.Chunk.Split.{char_indices, ws_boundaries, offsets, char_boundaries}

-- A split of a nonempty front off the text.
abbrev pub Cut : Str → ℕ → Type 0
Cut text n = (0 < n) × Boundary text n

-- An entry of `char_indices` stands at a boundary.
abbrev pub AtBoundary : Str → ℕ × ℕ → Type 0
AtBoundary text (i, c) = Boundary text i

pub char_indices-Boundary :
    (text p s : Str) (i : ℕ)
    → p ++ s ≡ text
    → byte_len p ≡ i
    → All (AtBoundary text) (char_indices i s)
unfolding char_indices
char_indices-Boundary text p [] i e at = tt
char_indices-Boundary text p (c ∷ s) i e at = (
  (p, c ∷ s, e, at),
  char_indices-Boundary text (p ++ c ∷ []) s (i + len_utf8 c) (append_assoc p (c ∷ []) s ∙ e)
      (unfold byte_len in omega (arith, byte_len-append p (c ∷ []))),
)

pub ws_boundaries-Cut :
    (text : Str) (l : List (ℕ × ℕ)) → All (AtBoundary text) l → All (Cut text) (ws_boundaries l)
unfolding ws_boundaries
ws_boundaries-Cut text [] h = tt
ws_boundaries-Cut text ((i, c) ∷ l) h = elim (Bool-cases (ltb 0 i && is_whitespace c)) [
  | inl e ↦ rw e ((ground arith, h.0), ws_boundaries-Cut text l h.1)
  | inr e ↦ rw e (ws_boundaries-Cut text l h.1)
]

offsets-Cut :
    (text p s : Str) (i : ℕ)
    → p ++ s ≡ text
    → byte_len p ≡ i
    → 0 < i
    → All (Cut text) (offsets (char_indices i s))
unfolding char_indices offsets
offsets-Cut text p [] i e at h = tt
offsets-Cut text p (c ∷ s) i e at h = (
  (h, (p, c ∷ s, e, at)),
  offsets-Cut text (p ++ c ∷ []) s (i + len_utf8 c) (append_assoc p (c ∷ []) s ∙ e)
      (unfold byte_len in omega (arith, byte_len-append p (c ∷ []))) (omega arith),
)

pub char_boundaries-Cut : (text : Str) → All (Cut text) (char_boundaries text)
unfolding char_boundaries char_indices offsets
char_boundaries-Cut [] = tt
char_boundaries-Cut (c ∷ s) =
    offsets-Cut (c ∷ s) (c ∷ []) s (0 + len_utf8 c) refl (unfold byte_len in omega arith)
      (omega (arith, len_utf8_pos c))

-- An index in range finds an entry, which has the property of all.
pub All-get_elem? {ℓ κ} :
    {A : Type ℓ} (P : A → Type κ) (l : List A) (i : ℕ)
    → All P l
    → i < length l
    → (a : A) × (get_elem? l i ≡ some a) × P a
All-get_elem? P [] i h lt = absurd (omega arith)
All-get_elem? P (x ∷ l) zero h lt = (x, refl, h.0)
All-get_elem? P (x ∷ l) (suc i) h lt = All-get_elem? P l i h.1 (omega arith)
