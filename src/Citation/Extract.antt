-- ===== src/Citation/Extract.antt =====
-- lens-core/src/citation.rs: extract_citations and hydrate_locators; ContextUnit is that of
-- lens-core/src/retrieval/router.rs without its provenance.
use lens_lm.Base.{
  ℕ, ◌+◌, ◌-◌, ◌^◌, ◌%◌, Bool, ◌&&◌, Option, none, some, List, [], ◌∷◌, ◌++◌, any, leb, ◌==◌,
  if◌then◌else◌, length, get_elem?,
}
use lens_lm.Base.Text.{Str, str_eq}
use lens_lm.Citation.Markers.{parse_markers}

pub record ContextUnit : Type 0 where
  pub text : Str
  pub source_id : Str
  pub chunk_id : Str
  pub parent_id : Option Str
  pub locator : Option Str
  pub order_index : ℕ

pub record Locator : Type 0 where
  pub chunk_id : Str
  pub anchor : Option Str
  pub section_path : Option Str
  pub page : Option ℕ
  pub char_start : Option ℕ
  pub char_end : Option ℕ

pub record Citation : Type 0 where
  pub source_id : Str
  pub ordinal : ℕ
  pub markers : List ℕ
  pub locators : List Locator

pub record ChunkLocatorRow : Type 0 where
  pub section_path : Str
  pub page : Option ℕ
  pub char_start : Option ℕ
  pub char_end : Option ℕ

-- An entry of `groups`: (source_id, locators, markers).
pub record Group : Type 0 where
  pub source_id : Str
  pub locators : List Locator
  pub markers : List ℕ

abbrev pub u32_mod : ℕ
u32_mod = 2 ^ 32

abbrev pub in_range : ℕ → ℕ → Bool
in_range n len = leb 1 n && leb n len

unfoldable pub locator_of : ContextUnit → Locator
locator_of unit = record {
  chunk_id = unit.chunk_id;
  anchor = unit.locator;
  section_path = none;
  page = none;
  char_start = none;
  char_end = none;
}

unfoldable pub add_locator : Locator → List Locator → List Locator
add_locator l locators =
    if any (λ k. str_eq k.chunk_id l.chunk_id) locators then locators else locators ++ l ∷ []

unfoldable pub add_marker : ℕ → List ℕ → List ℕ
add_marker m markers = if any (λ k. k == m) markers then markers else markers ++ m ∷ []

-- The first group of the source takes the unit; without one a new group is pushed.
unfoldable pub add_unit : ContextUnit → ℕ → List Group → List Group
unfolding add_locator add_marker locator_of
add_unit unit marker [] =
    record { source_id = unit.source_id; locators = locator_of unit ∷ []; markers = marker ∷ [] }
    ∷ []
add_unit unit marker (g ∷ r) =
    let rest = add_unit unit marker r in
    if str_eq g.source_id unit.source_id
    then record g {
      locators = add_locator (locator_of unit) g.locators;
      markers = add_marker marker g.markers;
    }
      ∷ r
    else g ∷ rest

-- One marker: out of range it is dropped, else `units[n - 1]` joins its group.
unfoldable pub add_cited : List ContextUnit → ℕ → List Group → List Group
add_cited units n groups =
    if in_range n (length units)
    then elim (get_elem? units (n - 1)) [
      | none ↦ groups
      | some unit ↦ add_unit unit (n % u32_mod) groups
    ]
    else groups

unfoldable pub group_markers : List ContextUnit → List (ℕ × ℕ) → List Group → List Group
unfolding add_cited
group_markers units [] groups = groups
group_markers units ((pos, n) ∷ r) groups = group_markers units r (add_cited units n groups)

-- `sort_unstable` on numbers.
unfoldable pub insert_sorted : ℕ → List ℕ → List ℕ
insert_sorted m [] = m ∷ []
insert_sorted m (x ∷ r) = let rest = insert_sorted m r in if leb m x then m ∷ x ∷ r else x ∷ rest

unfoldable pub sort_unstable : List ℕ → List ℕ
unfolding insert_sorted
sort_unstable [] = []
sort_unstable (m ∷ r) = insert_sorted m (sort_unstable r)

-- Citations are numbered from `idx + 1` on.
unfoldable pub number_groups : ℕ → List Group → List Citation
unfolding sort_unstable
number_groups idx [] = []
number_groups idx (g ∷ r) =
    record {
      source_id = g.source_id;
      ordinal = (idx + 1) % u32_mod;
      markers = sort_unstable g.markers;
      locators = g.locators;
    }
    ∷ number_groups (idx + 1) r

unfoldable pub extract_citations : Str → List ContextUnit → List Citation
unfolding group_markers number_groups
extract_citations answer units = number_groups 0 (group_markers units (parse_markers answer) [])

module _ (rows : Str → Option ChunkLocatorRow) where
  unfoldable pub hydrate_locator : Locator → Locator
  hydrate_locator l = elim (rows l.chunk_id) [
    | none ↦ l
    | some row ↦ record l {
      section_path = some row.section_path;
      page = row.page;
      char_start = row.char_start;
      char_end = row.char_end;
    }
  ]

  unfoldable pub hydrate_each : List Locator → List Locator
  hydrate_each [] = []
  hydrate_each (l ∷ r) = hydrate_locator l ∷ hydrate_each r

  -- `rows` is the map from chunk ids to rows.
  unfoldable pub hydrate_locators : List Citation → List Citation
  unfolding hydrate_each hydrate_locator
  hydrate_locators [] = []
  hydrate_locators (c ∷ r) = record c { locators = hydrate_each c.locators } ∷ hydrate_locators r
