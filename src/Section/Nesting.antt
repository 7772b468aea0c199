-- ===== src/Section/Nesting.antt =====
-- The sections of an outline are nested: no two overlap in part.
use lens_lm.Base.{
  ℕ, ◌<◌, ◌≤◌, ◌≡◌, refl, ◌⊎◌, inl, inr, Bool-cases, List, [], ◌∷◌, All, leb, arith, ◌||◌, not,
}
use lens_lm.Base.Text.{Str, str_eq}
use lens_lm.Chunk.Types.{Block}
use lens_lm.Chunk.Parent.{is_empty}
use lens_lm.Section.{
  Section, Heading, heading_type, headings, doc_end, section_end, outline, level_of, counters_init,
  build_sections,
}

-- `t` stands behind byte `stop`, or ends there at the latest and is deeper.
abbrev pub NestedAt : ℕ → ℕ → Section → Type 0
NestedAt level stop t = (stop ≤ t.char_start) ⊎ ((t.char_end ≤ stop) × (level < t.level))

abbrev pub NestedIn : Section → Section → Type 0
NestedIn s = NestedAt s.level s.char_end

abbrev pub IsNested : List Section → Type 0
IsNested [] = Unit
IsNested (s ∷ r) =
    (s.char_start ≤ s.char_end) × (1 ≤ s.level) × (s.level ≤ 6) × All (NestedIn s) r × IsNested r

-- The blocks begin in order, none before `lo`, and end in order too.
abbrev pub InOrder : ℕ → List Block → Type 0
InOrder lo [] = Unit
InOrder lo (b ∷ r) = (lo ≤ b.char_start) × (b.char_start ≤ b.char_end) × InOrder b.char_start r

module _ (end : ℕ) where
  abbrev Rising : ℕ → List Heading → Type 0
  Rising lo [] = lo ≤ end
  Rising lo (h ∷ r) = (lo ≤ h.char_start) × (1 ≤ h.level) × (h.level ≤ 6) × Rising h.char_start r

  Rising-le : (lo : ℕ) (hs : List Heading) → Rising lo hs → lo ≤ end
  Rising-le lo [] h = h
  Rising-le lo (x ∷ r) h = omega (arith, Rising-le x.char_start r h.3)

  section_end_bounds :
      (lo level : ℕ) (hs : List Heading)
      → Rising lo hs
      → (lo ≤ section_end end level hs) × (section_end end level hs ≤ end)
  unfolding section_end
  section_end_bounds lo level [] h = omega arith
  section_end_bounds lo level (x ∷ r) h =
      ground (arith, section_end_bounds x.char_start level r h.3, Rising-le x.char_start r h.3)

  -- A deeper section ends no later.
  section_end_mono :
      (lo a b : ℕ) (hs : List Heading)
      → Rising lo hs
      → a < b
      → section_end end b hs ≤ section_end end a hs
  unfolding section_end
  section_end_mono lo a b [] h lt = omega arith
  section_end_mono lo a b (x ∷ r) h lt =
      ground
        (arith, section_end_mono x.char_start a b r h.3 lt, section_end_bounds x.char_start a r h.3)

  outline-NestedAt :
      (lo level stop : ℕ) (counters : List ℕ) (hs : List Heading)
      → Rising lo hs
      → (stop ≤ lo) ⊎ (stop ≡ section_end end level hs)
      → All (NestedAt level stop) (outline end counters hs)
  unfolding outline section_end
  outline-NestedAt lo level stop counters [] h e = tt
  outline-NestedAt lo level stop counters (x ∷ r) h (inl e) =
      (inl (omega arith), outline-NestedAt x.char_start level stop _ r h.3 (inl (omega arith)))
  outline-NestedAt lo level stop counters (x ∷ r) h (inr e) =
      elim (Bool-cases (leb x.level level)) [
        | inl q ↦ (
          inl (ground arith),
          outline-NestedAt x.char_start level stop _ r h.3 (inl (ground arith)),
        )
        | inr q ↦ (
          inr (ground (arith, section_end_mono x.char_start level x.level r h.3), ground arith),
          outline-NestedAt x.char_start level stop _ r h.3 (inr (ground arith)),
        )
      ]

  outline-IsNested :
      (lo : ℕ) (counters : List ℕ) (hs : List Heading)
      → Rising lo hs
      → IsNested (outline end counters hs)
  unfolding outline
  outline-IsNested lo counters [] h = tt
  outline-IsNested lo counters (x ∷ r) h = (
    (section_end_bounds x.char_start x.level r h.3).0,
    h.1,
    h.2,
    outline-NestedAt x.char_start x.level _ _ r h.3 (inr refl),
    outline-IsNested x.char_start _ r h.3,
  )

  Rising-weaken : (lo lo' : ℕ) (hs : List Heading) → lo ≤ lo' → Rising lo' hs → Rising lo hs
  Rising-weaken lo lo' [] le h = omega arith
  Rising-weaken lo lo' (x ∷ r) le h = (omega arith, h.1, h.2, h.3)

  level_of_bounds : (p : Str) → (1 ≤ level_of p) × (level_of p ≤ 6)
  unfolding level_of
  level_of_bounds p = omega arith

  headings-Rising :
      (lo : ℕ) (bs : List Block)
      → InOrder lo bs
      → lo ≤ end
      → doc_end bs ≤ end
      → Rising lo (headings bs)
  unfolding headings doc_end
  headings-Rising lo [] h le e = le
  headings-Rising lo (b ∷ r) h le e =
      let rest = headings-Rising b.char_start r h.2 (omega arith) (omega arith) in
      elim (Bool-cases (not (str_eq b.block_type heading_type) || is_empty b.section_path)) [
        | inl skip ↦ rw skip (Rising-weaken lo b.char_start (headings r) h.0 rest)
        | inr keep ↦
            let (low, high) = level_of_bounds b.section_path in rw keep (h.0, low, high, rest)
      ]

-- Let the blocks begin in order. Then each section of build_sections has a level of 1 to 6 and
-- does not end before it starts, and of two sections the later one starts where the earlier one
-- has ended, or it ends inside it and is deeper.
pub build_sections-IsNested : (bs : List Block) → InOrder 0 bs → IsNested (build_sections bs)
unfolding build_sections
build_sections-IsNested bs h =
    outline-IsNested (doc_end bs) 0 counters_init (headings bs)
      (headings-Rising (doc_end bs) 0 bs h (omega arith) (omega arith))
