-- ===== src/Enrichment/Coref/Applied/Loop.antt =====
-- The loop from the last substitution to the first.
use lens_lm.Base.{
  ℕ, ◌≤◌, ◌<◌, ◌≡◌, refl, ◌⊎◌, inl, inr, Bool-cases, Option, none, some, List, [], ◌∷◌, length, All,
  ltb, arith,
}
use lens_lm.Base.Text.{Str}
use lens_lm.Enrichment.Coref.{CorefSub, usize_max, apply_loop}
use lens_lm.Enrichment.Coref.Offsets.{InRange, codepoint_range_to_bytes-take}
use lens_lm.Enrichment.Coref.Applied.{splice, IsOrdered, replace_range-splice}

abbrev pub AnyOf : (CorefSub → Type 0) → List CorefSub → Type 0
AnyOf P [] = ⊥
AnyOf P (c ∷ cs) = P c ⊎ AnyOf P cs

-- A substitution is one of those made, or its range holds the start of one of them.
abbrev pub Covered : List CorefSub → CorefSub → Type 0
Covered cs s =
    AnyOf
      (λ (c : CorefSub). (c ≡ s) ⊎ ((s.char_start ≤ c.char_start) × (c.char_start < s.char_end))) cs

-- Each start is at most the one before it, and the first one at most `b`.
abbrev pub IsBelow : ℕ → List CorefSub → Type 0
IsBelow b [] = Unit
IsBelow b (s ∷ r) = (s.char_start ≤ b) × IsBelow s.char_start r

-- `last_applied_start` behind the substitutions made.
abbrev pub last_of : List CorefSub → ℕ
last_of [] = usize_max
last_of (c ∷ cs) = c.char_start

weaken : (a b : ℕ) (l : List CorefSub) → a ≤ b → IsBelow a l → IsBelow b l
weaken a b [] h below = tt
weaken a b (s ∷ r) h (le, below) = (omega arith, below)

module _ (text : Str) (Q : CorefSub → Type 0)
    (in_range : (c : CorefSub) → Q c → InRange text c.char_start c.char_end)
    (fits : length text ≤ usize_max) where
  abbrev pub Ends : List CorefSub → List CorefSub → Option Str → Type 0
  Ends l cs none = ⊥
  Ends l cs (some out) =
      (made : List CorefSub) × (out ≡ splice text 0 made)
      × IsOrdered text 0 made
      × All Q made
      × All (Covered made) l
      × ((s : CorefSub) → Covered cs s → Covered made s)

  IsOrdered-last_of :
      (e : ℕ) (cs : List CorefSub) → IsOrdered text 0 cs → e ≤ last_of cs → IsOrdered text e cs
  IsOrdered-last_of e [] h le = tt
  IsOrdered-last_of e (c ∷ cs) (z, range, h) le = (le, range, h)

  skipped :
      (s : CorefSub) (r cs : List CorefSub) (o : Option Str)
      → Covered cs s
      → Ends r cs o
      → Ends (s ∷ r) cs o
  skipped s r cs none h e = e
  skipped s r cs (some out) h (made, same, order, all, covered, keeps) =
      (made, same, order, all, (keeps s h, covered), keeps)

  replaced :
      (s : CorefSub) (r cs : List CorefSub) (o : Option Str) → Ends r (s ∷ cs) o → Ends (s ∷ r) cs o
  replaced s r cs none e = e
  replaced s r cs (some out) (made, same, order, all, covered, keeps) = (
    made,
    same,
    order,
    all,
    (keeps s (inl (inl refl)), covered),
    λ (x : CorefSub) (h : Covered cs x). keeps x (inr h),
  )

  -- What is skipped holds the start of the substitution made last.
  over_last :
      (s : CorefSub) (cs : List CorefSub)
      → s.char_end ≤ usize_max
      → s.char_start ≤ last_of cs
      → last_of cs < s.char_end
      → Covered cs s
  over_last s [] small le h = absurd (omega arith)
  over_last s (c ∷ cs) small le h = inl (inr (le, h))

  pub apply_loop-Ends :
      (l cs : List CorefSub)
      → IsOrdered text 0 cs
      → All Q cs
      → All Q l
      → IsBelow (last_of cs) l
      → Ends l cs (apply_loop text (splice text 0 cs) (last_of cs) l)
  unfolding apply_loop
  apply_loop-Ends [] cs order all valid below =
      (cs, refl, order, all, tt, λ (s : CorefSub) (h : Covered cs s). h)
  apply_loop-Ends (s ∷ r) cs order all (q, valid) (le, below) =
      let range = in_range s q in
      elim (Bool-cases (ltb (last_of cs) s.char_end)) [
        | inl e ↦
            let rest =
              apply_loop-Ends r cs order all valid (weaken s.char_start (last_of cs) r le below) in
            let over : last_of cs < s.char_end = ground (arith, e) in
            rw (e, apply_loop)
              (skipped s r cs _ (over_last s cs (omega (arith, range.1, fits)) le over) rest)
        | inr e ↦
            let order' = IsOrdered-last_of s.char_end cs order (ground (arith, e)) in
            rw
              (
                e,
                apply_loop,
                codepoint_range_to_bytes-take text s.char_start s.char_end range,
                replace_range-splice text s cs range order',
              )
              (replaced s r cs _
                (apply_loop-Ends r (s ∷ cs) (omega arith, range, order') (q, all) valid below))
      ]
