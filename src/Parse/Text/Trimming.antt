-- ===== src/Parse/Text/Trimming.antt =====
-- What `trim` takes off is whitespace.
use mathlib.Core.List.{reverse, reverse-cons, reverse-append, reverse-reverse}
use lens_lm.Base.{
  ◌≡◌, ◌∙◌, sym, ap, refl, Bool-cases, true, inl, inr, [], ◌∷◌, ◌++◌, append-nil, if◌then◌else◌,
  arith,
}
use lens_lm.Base.Text.{Str, is_whitespace}
use lens_lm.Chunk.Pipeline.{is_blank}
use lens_lm.Citation.Markers.{trim, trim_start}

-- The characters that are not whitespace.
unfoldable pub solid : Str → Str
solid [] = []
solid (c ∷ s) = if is_whitespace c then solid s else c ∷ solid s

pub solid-append : (s t : Str) → solid (s ++ t) ≡ solid s ++ solid t
unfolding solid
solid-append [] t = refl
solid-append (c ∷ s) t = ground (arith, solid-append s t)

pub is_blank-solid : (s : Str) → is_blank s ≡ true → solid s ≡ []
unfolding solid is_blank
is_blank-solid [] h = refl
is_blank-solid (c ∷ s) h = ground (arith, is_blank-solid s)

pub trim_start-parts : (s : Str) → (lead : Str) × (lead ++ trim_start s ≡ s) × (solid lead ≡ [])
unfolding trim_start solid
trim_start-parts [] = ([], refl, refl)
trim_start-parts (c ∷ s) = elim (Bool-cases (is_whitespace c)) [
  | inl e ↦
      let (lead, joined, none) = trim_start-parts s in
      (c ∷ lead, rw e (ap (λ t. c ∷ t) joined), rw e none)
  | inr e ↦ ([], rw e refl, refl)
]

solid-reverse_none : (s : Str) → solid s ≡ [] → solid (reverse s) ≡ []
unfolding solid
solid-reverse_none [] h = refl
solid-reverse_none (c ∷ s) h = elim (Bool-cases (is_whitespace c)) [
  | inl e ↦
      ap solid (reverse-cons c s)
      ∙ solid-append (reverse s) (c ∷ [])
      ∙ rw e (append-nil _ ∙ solid-reverse_none s (ground (arith, e, h)))
  | inr e ↦ absurd (ground (arith, e, h))
]

-- A text is whitespace, its trim behind the start, and whitespace.
pub trim-parts :
    (s : Str)
    → (lead : Str) × (trail : Str) × (lead ++ trim_start s ≡ s)
      × (lead ++ (trim s ++ trail) ≡ s)
      × (solid lead ≡ [])
      × (solid trail ≡ [])
unfolding trim
trim-parts s =
    let (lead, joined, none) = trim_start-parts s in
    let (last, joined', none') = trim_start-parts (reverse (trim_start s)) in
    let turned : reverse (trim_start (reverse (trim_start s))) ++ reverse last ≡ trim_start s =
      sym (reverse-append last (trim_start (reverse (trim_start s))))
      ∙ ap reverse joined'
      ∙ reverse-reverse (trim_start s) in
    (
      lead,
      reverse last,
      joined,
      ap (λ t. lead ++ t) turned ∙ joined,
      none,
      solid-reverse_none last none',
    )
