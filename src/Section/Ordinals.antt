-- ===== src/Section/Ordinals.antt =====
-- The ordinal of a section counts its siblings before it.
use lens_lm.Base.{
  ℕ, zero, suc, ◌<◌, ◌≡◌, refl, Bool-cases, inl, inr, not, ◌||◌, List, [], ◌∷◌, All, get_or, ltb,
  ◌==◌, if◌then◌else◌, arith, length,
}
use lens_lm.Section.{
  Section, Heading, zeros, bump, outline, counters_init, headings, heading_type, level_of, doc_end,
  build_sections,
}
use lens_lm.Base.Text.{str_eq}
use lens_lm.Chunk.Types.{Block}
use lens_lm.Chunk.Parent.{is_empty}

-- Of the levels before a heading, the latest first: those of its siblings, which are as deep as
-- the heading with nothing shallower in between.
pub siblings : ℕ → List ℕ → ℕ
siblings level [] = 0
siblings level (x ∷ r) =
    if ltb x level then 0 else if x == level then suc (siblings level r) else siblings level r

-- Each ordinal is one more than the number of siblings before.
abbrev pub Numbered : List ℕ → List Section → Type 0
Numbered before [] = Unit
Numbered before (s ∷ r) =
    (s.ordinal ≡ suc (siblings s.level before)) × Numbered (s.level ∷ before) r

zeros_lem : (cs : List ℕ) (i : ℕ) → get_or (zeros cs) i 0 ≡ 0
unfolding zeros
zeros_lem [] i = refl
zeros_lem (c ∷ r) zero = refl
zeros_lem (c ∷ r) (suc i) = zeros_lem r i

bump_lem :
    (cs : List ℕ) (lvl i : ℕ)
    → lvl < length cs
    → get_or (bump cs lvl) i 0
      ≡ (if ltb lvl i then 0 else if lvl == i then suc (get_or cs i 0) else get_or cs i 0)
unfolding bump
bump_lem [] lvl i h = absurd (omega arith)
bump_lem (c ∷ r) zero zero h = refl
bump_lem (c ∷ r) zero (suc i) h = ground (arith, zeros_lem r i)
bump_lem (c ∷ r) (suc lvl) zero h = ground arith
bump_lem (c ∷ r) (suc lvl) (suc i) h = ground (arith, bump_lem r lvl i)

length-bump : (cs : List ℕ) (lvl : ℕ) → length (bump cs lvl) ≡ length cs
unfolding bump
length-bump [] lvl = refl
length-bump (c ∷ r) zero = omega (arith, length-zeros r)
  where
    length-zeros : (cs : List ℕ) → length (zeros cs) ≡ length cs
    length-zeros [] = refl
    length-zeros (x ∷ xs) = omega (arith, length-zeros xs)
length-bump (c ∷ r) (suc lvl) = omega (arith, length-bump r lvl)

init_zero : (i : ℕ) → get_or counters_init i 0 ≡ siblings i []
unfolding siblings
init_zero zero = refl
init_zero (suc zero) = refl
init_zero (suc (suc zero)) = refl
init_zero (suc (suc (suc zero))) = refl
init_zero (suc (suc (suc (suc zero)))) = refl
init_zero (suc (suc (suc (suc (suc zero))))) = refl
init_zero (suc (suc (suc (suc (suc (suc zero)))))) = refl
init_zero (suc (suc (suc (suc (suc (suc (suc i))))))) = refl

IsShallow : Heading → Type 0
IsShallow h = h.level < 7

outline-Numbered :
    (end : ℕ) (cs before : List ℕ) (hs : List Heading)
    → length cs ≡ 7
    → ((i : ℕ) → get_or cs i 0 ≡ siblings i before)
    → All IsShallow hs
    → Numbered before (outline end cs hs)
unfolding outline siblings IsShallow
outline-Numbered end cs before [] len agree shallow = tt
outline-Numbered end cs before (h ∷ r) len agree shallow = (
  ground (arith, bump_lem cs h.level h.level, agree h.level),
  outline-Numbered end (bump cs h.level) (h.level ∷ before) r
      (omega (arith, length-bump cs h.level)) (λ i. ground (arith, bump_lem cs h.level i, agree i))
      shallow.1,
)

headings-IsShallow : (bs : List Block) → All IsShallow (headings bs)
unfolding headings IsShallow level_of
headings-IsShallow [] = tt
headings-IsShallow (b ∷ r) =
    let rest = headings-IsShallow r in
    elim (Bool-cases (not (str_eq b.block_type heading_type) || is_empty b.section_path)) [
      | inl skip ↦ rw skip rest
      | inr keep ↦ rw keep (omega arith, rest)
    ]

-- Each section's ordinal is one more than the number of its siblings before it: the sections of
-- its level since the last shallower one.
pub build_sections-Numbered : (bs : List Block) → Numbered [] (build_sections bs)
unfolding build_sections siblings
build_sections-Numbered bs =
    outline-Numbered (doc_end bs) counters_init [] (headings bs) refl init_zero
      (headings-IsShallow bs)
