-- ===== src/Citation/Hydrate.antt =====
-- hydrate_locators fills the rows in, and nothing else.
use lens_lm.Base.{
  ℕ, ◌≡◌, refl, inl, inr, Option, Option-cases, none, some, List, [], ◌∷◌, map, arith, All,
}
use lens_lm.Base.Text.{Str}
use lens_lm.Citation.Extract.{
  Locator, Citation, ChunkLocatorRow, hydrate_locator, hydrate_each, hydrate_locators,
}

-- What hydration may not change.
abbrev pub locator_key : Locator → Str × Option Str
locator_key l = (l.chunk_id, l.anchor)

abbrev pub keys : Citation → Str × ℕ × List ℕ × List (Str × Option Str)
keys c = (c.source_id, c.ordinal, c.markers, map locator_key c.locators)

-- The locator's fields are the row's.
abbrev pub HoldsRow : Option ChunkLocatorRow → Locator → Type 0
HoldsRow none l = Unit
HoldsRow (some row) l =
    (l.section_path ≡ some row.section_path)
    × (l.page ≡ row.page)
    × (l.char_start ≡ row.char_start)
    × (l.char_end ≡ row.char_end)

module _ (rows : Str → Option ChunkLocatorRow) where
  hydrate_locator_twice :
      (l : Locator) → hydrate_locator rows (hydrate_locator rows l) ≡ hydrate_locator rows l
  unfolding hydrate_locator
  hydrate_locator_twice l = elim (Option-cases (rows l.chunk_id)) [
    | inl e ↦ ground arith
    | inr (row, e) ↦ ground arith
  ]

  hydrate_each_twice :
      (ls : List Locator) → hydrate_each rows (hydrate_each rows ls) ≡ hydrate_each rows ls
  unfolding hydrate_each
  hydrate_each_twice [] = refl
  hydrate_each_twice (l ∷ r) = ground (arith, hydrate_locator_twice l, hydrate_each_twice r)

  hydrate_locators_twice :
      (cs : List Citation)
      → hydrate_locators rows (hydrate_locators rows cs) ≡ hydrate_locators rows cs
  unfolding hydrate_locators
  hydrate_locators_twice [] = refl
  hydrate_locators_twice (c ∷ r) =
      ground (arith, hydrate_each_twice c.locators, hydrate_locators_twice r)

  hydrate_locator_keys :
      (l : Locator)
      → ((hydrate_locator rows l).chunk_id ≡ l.chunk_id)
        × ((hydrate_locator rows l).anchor ≡ l.anchor)
  unfolding hydrate_locator
  hydrate_locator_keys l = ground arith

  hydrate_each_keys :
      (ls : List Locator) → map locator_key (hydrate_each rows ls) ≡ map locator_key ls
  unfolding hydrate_each
  hydrate_each_keys [] = refl
  hydrate_each_keys (l ∷ r) = ground (arith, hydrate_locator_keys l, hydrate_each_keys r)

  hydrate_locators-keys : (cs : List Citation) → map keys (hydrate_locators rows cs) ≡ map keys cs
  unfolding hydrate_locators
  hydrate_locators-keys [] = refl
  hydrate_locators-keys (c ∷ r) =
      ground (arith, hydrate_each_keys c.locators, hydrate_locators-keys r)

  -- The locator holds the row of its chunk, if there is one.
  abbrev pub IsHydrated : Locator → Type 0
  IsHydrated l = HoldsRow (rows l.chunk_id) l

  hydrate_locator-IsHydrated : (l : Locator) → IsHydrated (hydrate_locator rows l)
  unfolding hydrate_locator
  hydrate_locator-IsHydrated l = elim (Option-cases (rows l.chunk_id)) [
    | inl e ↦ rw (e, hydrate_locator, e) tt
    | inr (row, e) ↦ rw (e, hydrate_locator, e) (refl, refl, refl, refl)
  ]

  hydrate_each-IsHydrated : (ls : List Locator) → All IsHydrated (hydrate_each rows ls)
  unfolding hydrate_each
  hydrate_each-IsHydrated [] = tt
  hydrate_each-IsHydrated (l ∷ r) = (hydrate_locator-IsHydrated l, hydrate_each-IsHydrated r)

  hydrate_locators-IsHydrated :
      (cs : List Citation) → All (λ c. All IsHydrated c.locators) (hydrate_locators rows cs)
  unfolding hydrate_locators
  hydrate_locators-IsHydrated [] = tt
  hydrate_locators-IsHydrated (c ∷ r) =
      (hydrate_each-IsHydrated c.locators, hydrate_locators-IsHydrated r)

  -- After hydrate_locators each locator whose chunk has a row holds that row's section, page and
  -- offsets; sources, ordinals, markers, chunk ids and anchors stay; and a second call changes
  -- nothing.
  pub hydrate_locators_lem :
      (cs : List Citation)
      → All (λ c. All IsHydrated c.locators) (hydrate_locators rows cs)
        × (map keys (hydrate_locators rows cs) ≡ map keys cs)
        × (hydrate_locators rows (hydrate_locators rows cs) ≡ hydrate_locators rows cs)
  hydrate_locators_lem cs =
      (hydrate_locators-IsHydrated cs, hydrate_locators-keys cs, hydrate_locators_twice cs)
