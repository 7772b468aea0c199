-- ===== src/Citation/Grouping.antt =====
-- The citations of an answer: one for each cited source, with exactly the markers that cite it.
use lens_lm.Base.{
  ℕ, ◌+◌, ◌-◌, ◌≡◌, ◌∙◌, ◌%◌, refl, inl, inr, Bool, true, false, Bool-cases, Option-cases, none,
  some, List, [], ◌∷◌, ◌++◌, any, ◌==◌, length, get_elem?, arith, ◌||◌, ◌&&◌,
}
use mathlib.Core.Path.{subst}
use lens_lm.Base.Text.{Str, str_eq, str_eq_sound}
use lens_lm.Citation.Markers.{parse_markers}
use lens_lm.Citation.Extract.{
  ContextUnit, Citation, Group, u32_mod, in_range, add_marker, add_unit, add_cited, group_markers,
  sort_unstable, insert_sorted, number_groups, extract_citations,
}

abbrev pub has_marker : ℕ → List ℕ → Bool
has_marker m ms = any (λ k. k == m) ms

-- The groups cite `sid` by `m`.
unfoldable pub cites : Str → ℕ → List Group → Bool
cites sid m [] = false
cites sid m (g ∷ r) = (str_eq g.source_id sid && has_marker m g.markers) || cites sid m r

any-append :
    {A : Type 0} (p : A → Bool) (xs ys : List A) → any p (xs ++ ys) ≡ (any p xs || any p ys)
any-append p [] ys = refl
any-append p (x ∷ xs) ys = ground (arith, any-append p xs ys)

has_marker-add :
    (k m : ℕ) (ms : List ℕ) → has_marker k (add_marker m ms) ≡ (has_marker k ms || m == k)
unfolding add_marker
has_marker-add k m ms = elim (Bool-cases (has_marker m ms)) [
  | inl old ↦ elim (Bool-cases (m == k)) [
    | inl same ↦
        let e : m ≡ k = ground arith in
        let old' : has_marker k ms ≡ true = subst (λ j. has_marker j ms ≡ true) e old in
        ground arith
    | inr other ↦ ground arith
  ]
  | inr new ↦ ground (arith, any-append (λ j. j == k) ms (m ∷ []))
]

-- After a unit joins, its source is cited by its marker, and nothing else changes.
cites-add_unit :
    (unit : ContextUnit) (m : ℕ) (sid : Str) (k : ℕ) (gs : List Group)
    → cites sid k (add_unit unit m gs) ≡ (cites sid k gs || (str_eq unit.source_id sid && m == k))
unfolding cites add_unit
cites-add_unit unit m sid k [] = ground arith
cites-add_unit unit m sid k (g ∷ r) = elim (Bool-cases (str_eq g.source_id unit.source_id)) [
  | inl same ↦
      let e : g.source_id ≡ unit.source_id = str_eq_sound _ _ same in
      ground (arith, has_marker-add k m g.markers)
  | inr other ↦ ground (arith, cites-add_unit unit m sid k r)
]

-- The number `n` is that of a unit of the source, and is `m` as a u32.
abbrev pub points_to : List ContextUnit → Str → ℕ → ℕ → Bool
points_to units sid m n = in_range n (length units) && (elim (get_elem? units (n - 1)) [
  | none ↦ false
  | some unit ↦ str_eq unit.source_id sid && n % u32_mod == m
])

-- Some marker of the answer points to the source by `m`.
pub resolves : List ContextUnit → Str → ℕ → List (ℕ × ℕ) → Bool
resolves units sid m [] = false
resolves units sid m ((pos, n) ∷ r) = points_to units sid m n || resolves units sid m r

cites-add_cited :
    (units : List ContextUnit) (n : ℕ) (sid : Str) (k : ℕ) (gs : List Group)
    → cites sid k (add_cited units n gs) ≡ (cites sid k gs || points_to units sid k n)
unfolding add_cited
cites-add_cited units n sid k gs = elim (Option-cases (get_elem? units (n - 1))) [
  | inl e ↦ ground arith
  | inr (unit, e) ↦ ground (arith, cites-add_unit unit (n % u32_mod) sid k gs)
]

cites-group_markers :
    (units : List ContextUnit) (sid : Str) (k : ℕ) (ms : List (ℕ × ℕ)) (gs : List Group)
    → cites sid k (group_markers units ms gs) ≡ (cites sid k gs || resolves units sid k ms)
unfolding group_markers resolves
cites-group_markers units sid k [] gs = ground arith
cites-group_markers units sid k ((pos, n) ∷ r) gs = ground (
  arith,
  cites-add_cited units n sid k gs,
  cites-group_markers units sid k r (add_cited units n gs),
)

has_marker-insert :
    (k m : ℕ) (ms : List ℕ) → has_marker k (insert_sorted m ms) ≡ (m == k || has_marker k ms)
unfolding insert_sorted
has_marker-insert k m [] = refl
has_marker-insert k m (x ∷ r) = ground (arith, has_marker-insert k m r)

has_marker-sort : (k : ℕ) (ms : List ℕ) → has_marker k (sort_unstable ms) ≡ has_marker k ms
unfolding sort_unstable
has_marker-sort k [] = refl
has_marker-sort k (m ∷ r) =
    ground (arith, has_marker-insert k m (sort_unstable r), has_marker-sort k r)

-- The citations list the source with the marker.
pub cited : Str → ℕ → List Citation → Bool
cited sid m [] = false
cited sid m (c ∷ r) = (str_eq c.source_id sid && has_marker m c.markers) || cited sid m r

cited-number_groups :
    (sid : Str) (m idx : ℕ) (gs : List Group) → cited sid m (number_groups idx gs) ≡ cites sid m gs
unfolding cited number_groups cites
cited-number_groups sid m idx [] = refl
cited-number_groups sid m idx (g ∷ r) =
    ground (arith, has_marker-sort m g.markers, cited-number_groups sid m (idx + 1) r)

-- A source is cited with the marker `m` exactly when some marker of the answer, in range, is `m`
-- and the unit at that place is of the source: no citation is made up and none is lost.
pub cited-extract_citations :
    (answer : Str) (units : List ContextUnit) (sid : Str) (m : ℕ)
    → cited sid m (extract_citations answer units) ≡ resolves units sid m (parse_markers answer)
unfolding extract_citations cites
cited-extract_citations answer units sid m =
    cited-number_groups sid m 0 (group_markers units (parse_markers answer) [])
    ∙ cites-group_markers units sid m (parse_markers answer) []
