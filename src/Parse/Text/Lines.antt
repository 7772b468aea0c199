-- ===== src/Parse/Text/Lines.antt =====
-- The lines that are skipped are blank, and a paragraph has at least one line.
use lens_lm.Base.{
  ℕ, zero, suc, ◌≤◌, ◌≡◌, ◌∙◌, ap, refl, Bool-cases, false, inl, inr, [], ◌∷◌, ◌++◌, append_assoc,
  length, length-append, ◌==◌, arith,
}
use lens_lm.Base.Text.{Str}
use lens_lm.Chunk.Pipeline.{is_blank}
use lens_lm.Parse.Text.{next_line, skip_blank_lines, find_paragraph_end}
use lens_lm.Parse.Text.Trimming.{solid, solid-append, is_blank-solid}

next_line-join : (s : Str) → (next_line s).0 ++ (next_line s).1 ≡ s
unfolding next_line
next_line-join [] = refl
next_line-join (c ∷ s) = elim (Bool-cases (c == 10)) [
  | inl e ↦ rw e refl
  | inr e ↦ rw e (ap (λ t. c ∷ t) (next_line-join s))
]

next_line-shorter : (c : ℕ) (s : Str) → length (next_line (c ∷ s)).1 ≤ length s
unfolding next_line
next_line-shorter c [] = ground arith
next_line-shorter c (d ∷ s) = elim (Bool-cases (c == 10)) [
  | inl e ↦ rw e (omega arith)
  | inr e ↦ rw e (omega (arith, next_line-shorter d s))
]

next_line-nonempty : (c : ℕ) (s : Str) → 1 ≤ length (next_line (c ∷ s)).0
unfolding next_line
next_line-nonempty c s = elim (Bool-cases (c == 10)) [
  | inl e ↦ rw e (omega arith)
  | inr e ↦ rw e (omega arith)
]

-- Nothing is left, or a line that is not blank.
abbrev pub StartsSolid : Str → Type 0
StartsSolid [] = Unit
StartsSolid (c ∷ s) = is_blank (next_line (c ∷ s)).0 ≡ false

abbrev pub Skipped : Str → Str × Str → Type 0
Skipped text (skipped, behind) =
    (skipped ++ behind ≡ text) × (solid skipped ≡ []) × StartsSolid behind

pub skip_blank_lines-Skipped :
    (fuel : ℕ) (text : Str) → length text ≤ fuel → Skipped text (skip_blank_lines fuel text)
unfolding skip_blank_lines solid
skip_blank_lines-Skipped zero [] h = (refl, refl, tt)
skip_blank_lines-Skipped zero (c ∷ s) h = absurd (omega arith)
skip_blank_lines-Skipped (suc fuel) [] h = (refl, refl, tt)
skip_blank_lines-Skipped (suc fuel) (c ∷ s) h =
    let (line, rest) = next_line (c ∷ s) in
    elim (Bool-cases (is_blank line)) [
      | inl e ↦
          let short = next_line-shorter c s in
          let (joined, none, starts) = skip_blank_lines-Skipped fuel rest (omega (arith, short)) in
          rw (e, skip_blank_lines)
            (
              append_assoc line _ _ ∙ ap (λ t. line ++ t) joined ∙ next_line-join (c ∷ s),
              solid-append line _ ∙ rw (is_blank-solid line e) none,
              starts,
            )
      | inr e ↦ rw (e, skip_blank_lines) (refl, refl, e)
    ]

pub find_paragraph_end-join :
    (fuel : ℕ) (text : Str)
    → (find_paragraph_end fuel text).0 ++ (find_paragraph_end fuel text).1 ≡ text
unfolding find_paragraph_end
find_paragraph_end-join zero text = refl
find_paragraph_end-join (suc fuel) [] = refl
find_paragraph_end-join (suc fuel) (c ∷ s) =
    let (line, rest) = next_line (c ∷ s) in
    elim (Bool-cases (is_blank line)) [
      | inl e ↦ rw (e, find_paragraph_end) refl
      | inr e ↦
          rw (e, find_paragraph_end)
            (append_assoc line _ _
              ∙ ap (λ t. line ++ t) (find_paragraph_end-join fuel rest)
              ∙ next_line-join (c ∷ s))
    ]

pub find_paragraph_end-nonempty :
    (fuel c : ℕ) (s : Str)
    → StartsSolid (c ∷ s)
    → 1 ≤ length (find_paragraph_end (suc fuel) (c ∷ s)).0
unfolding find_paragraph_end
find_paragraph_end-nonempty fuel c s h =
    let line = (next_line (c ∷ s)).0 in
    let one = next_line-nonempty c s in
    rw (h, find_paragraph_end) (omega (arith, one, length-append line _))
