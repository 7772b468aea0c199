-- ===== src/Citation/Order.antt =====
-- Citations stand in the order of first appearance, number their sources, and hold no doubles.
use lens_lm.Base.{
  ℕ, ◌+◌, ◌-◌, ◌≡◌, ◌∙◌, ◌%◌, refl, ap, inl, inr, Bool-cases, Option-cases, none, some, List, [],
  ◌∷◌, ◌++◌, any, length, get_elem?, arith, if◌then◌else◌, map,
}
use lens_lm.Base.Text.{Str, str_eq}
use lens_lm.Citation.Markers.{parse_markers}
use lens_lm.Citation.Extract.{
  ContextUnit, Citation, Group, u32_mod, in_range, add_unit, add_cited, group_markers,
  number_groups, extract_citations,
}

-- The sources that the markers in range point to, in the order of the answer.
pub cited_sources : List ContextUnit → List (ℕ × ℕ) → List Str
cited_sources units [] = []
cited_sources units ((pos, n) ∷ r) =
    if in_range n (length units)
    then elim (get_elem? units (n - 1)) [
      | none ↦ cited_sources units r
      | some unit ↦ unit.source_id ∷ cited_sources units r
    ]
    else cited_sources units r

unfoldable pub add_new : Str → List Str → List Str
add_new x seen = if any (λ y. str_eq y x) seen then seen else seen ++ x ∷ []

-- The first occurrence of each entry, behind those of `seen`.
unfoldable pub first_seen : List Str → List Str → List Str
first_seen seen [] = seen
first_seen seen (x ∷ r) = first_seen (add_new x seen) r

abbrev group_ids : List Group → List Str
group_ids = map (λ g. g.source_id)

ids-add_unit :
    (unit : ContextUnit) (m : ℕ) (gs : List Group)
    → group_ids (add_unit unit m gs) ≡ add_new unit.source_id (group_ids gs)
unfolding add_unit add_new
ids-add_unit unit m [] = refl
ids-add_unit unit m (g ∷ r) = ground (arith, ids-add_unit unit m r)

ids-group_markers :
    (units : List ContextUnit) (ms : List (ℕ × ℕ)) (gs : List Group)
    → group_ids (group_markers units ms gs) ≡ first_seen (group_ids gs) (cited_sources units ms)
unfolding group_markers cited_sources first_seen add_cited
ids-group_markers units [] gs = refl
ids-group_markers units ((pos, n) ∷ r) gs = elim (Bool-cases (in_range n (length units))) [
  | inr out ↦ rw out (ids-group_markers units r gs)
  | inl ok ↦ elim (Option-cases (get_elem? units (n - 1))) [
    | inl e ↦ ground (arith, ids-group_markers units r gs)
    | inr (unit, e) ↦ ground (
      arith,
      ids-add_unit unit (n % u32_mod) gs,
      ids-group_markers units r (add_unit unit (n % u32_mod) gs),
    )
  ]
]

ids-number_groups :
    (idx : ℕ) (gs : List Group) → map (λ c. c.source_id) (number_groups idx gs) ≡ group_ids gs
unfolding number_groups
ids-number_groups idx [] = refl
ids-number_groups idx (g ∷ r) = ap (λ l. g.source_id ∷ l) (ids-number_groups (idx + 1) r)

-- Ordinals count from `k` on, as u32.
abbrev pub Counts : ℕ → List Citation → Type 0
Counts k [] = Unit
Counts k (c ∷ r) = (c.ordinal ≡ k % u32_mod) × Counts (k + 1) r

Counts-number_groups : (idx : ℕ) (gs : List Group) → Counts (idx + 1) (number_groups idx gs)
unfolding number_groups
Counts-number_groups idx [] = tt
Counts-number_groups idx (g ∷ r) = (refl, Counts-number_groups (idx + 1) r)

-- The citations' sources are the cited sources at their first appearance in the answer, and the
-- ordinals count them from 1 on (as u32).
pub extract_citations-order :
    (answer : Str) (units : List ContextUnit)
    → (map (λ c. c.source_id) (extract_citations answer units)
        ≡ first_seen [] (cited_sources units (parse_markers answer)))
      × Counts 1 (extract_citations answer units)
unfolding extract_citations
extract_citations-order answer units =
    let gs = group_markers units (parse_markers answer) [] in
    (
      ids-number_groups 0 gs ∙ ids-group_markers units (parse_markers answer) [],
      Counts-number_groups 0 gs,
    )
