-- ===== src/Citation/Tidy.antt =====
-- No doubles: distinct sources, strictly ascending markers, distinct chunks in the locators.
use lens_lm.Base.{
  ℕ, ◌+◌, ◌-◌, ◌<◌, ◌≡◌, ◌∙◌, ◌%◌, refl, inl, inr, Bool, false, Bool-cases, Option-cases, List, [],
  ◌∷◌, ◌++◌, All, any, leb, ◌==◌, length, get_elem?, arith, ◌||◌, map,
}
use lens_lm.Base.Text.{Str, str_eq}
use lens_lm.Citation.Markers.{parse_markers}
use lens_lm.Citation.Extract.{
  ContextUnit, Locator, Citation, Group, u32_mod, in_range, add_locator, add_marker, locator_of,
  add_unit, add_cited, group_markers, sort_unstable, insert_sorted, number_groups,
  extract_citations,
}
use lens_lm.Citation.Order.{add_new, first_seen, extract_citations-order}

-- Each number is below all that follow.
abbrev pub Ascending : List ℕ → Type 0
Ascending [] = Unit
Ascending (m ∷ r) = All (λ k. m < k) r × Ascending r

module _ {A : Type 0} (eq : A → A → Bool) (eq_sym : (a b : A) → eq a b ≡ eq b a) where
  abbrev pub Distinct : List A → Type 0
  Distinct [] = Unit
  Distinct (x ∷ r) = (any (λ y. eq y x) r ≡ false) × Distinct r

  any_push :
      (x l : A) (r : List A) → any (λ y. eq y x) (r ++ l ∷ []) ≡ (any (λ y. eq y x) r || eq l x)
  any_push x l [] = ground arith
  any_push x l (y ∷ r) = ground (arith, any_push x l r)

  pub Distinct-push :
      (l : A) (r : List A) → any (λ k. eq k l) r ≡ false → Distinct r → Distinct (r ++ l ∷ [])
  Distinct-push l [] h d = (refl, tt)
  Distinct-push l (x ∷ r) h d =
      (ground (arith, any_push x l r, eq_sym l x), Distinct-push l r (ground arith) d.1)

pub str_eq_sym : (a b : Str) → str_eq a b ≡ str_eq b a
unfolding str_eq
str_eq_sym [] [] = refl
str_eq_sym [] (d ∷ t) = refl
str_eq_sym (c ∷ s) [] = refl
str_eq_sym (c ∷ s) (d ∷ t) = ground (arith, str_eq_sym s t)

pub nat_eq_sym : (a b : ℕ) → (a == b) ≡ (b == a)
nat_eq_sym a b = ground arith

abbrev pub nat_eq : ℕ → ℕ → Bool
nat_eq a b = a == b

abbrev pub same_chunk : Locator → Locator → Bool
same_chunk a b = str_eq a.chunk_id b.chunk_id

abbrev IsTidy : Group → Type 0
IsTidy g =
    Distinct nat_eq nat_eq_sym g.markers
    × Distinct same_chunk (λ a b. str_eq_sym a.chunk_id b.chunk_id) g.locators

add_marker-Distinct :
    (m : ℕ) (ms : List ℕ)
    → Distinct nat_eq nat_eq_sym ms
    → Distinct nat_eq nat_eq_sym (add_marker m ms)
unfolding add_marker
add_marker-Distinct m ms d = elim (Bool-cases (any (λ k. k == m) ms)) [
  | inl old ↦ rw old d
  | inr new ↦ rw new (Distinct-push nat_eq nat_eq_sym m ms new d)
]

abbrev pub DistinctChunks : List Locator → Type 0
DistinctChunks = Distinct same_chunk (λ a b. str_eq_sym a.chunk_id b.chunk_id)

add_locator-Distinct :
    (l : Locator) (ls : List Locator) → DistinctChunks ls → DistinctChunks (add_locator l ls)
unfolding add_locator
add_locator-Distinct l ls d = elim (Bool-cases (any (λ k. str_eq k.chunk_id l.chunk_id) ls)) [
  | inl old ↦ rw old d
  | inr new ↦ rw new (Distinct-push same_chunk (λ a b. str_eq_sym a.chunk_id b.chunk_id) l ls new d)
]

add_unit-IsTidy :
    (unit : ContextUnit) (m : ℕ) (gs : List Group) → All IsTidy gs → All IsTidy (add_unit unit m gs)
unfolding add_unit
add_unit-IsTidy unit m [] h = (((refl, tt), (refl, tt)), tt)
add_unit-IsTidy unit m (g ∷ r) h = elim (Bool-cases (str_eq g.source_id unit.source_id)) [
  | inl same ↦ rw same (
    (
      add_marker-Distinct m g.markers h.0.0,
      add_locator-Distinct (locator_of unit) g.locators h.0.1,
    ),
    h.1,
  )
  | inr other ↦ rw other (h.0, add_unit-IsTidy unit m r h.1)
]

group_markers-IsTidy :
    (units : List ContextUnit) (ms : List (ℕ × ℕ)) (gs : List Group)
    → All IsTidy gs
    → All IsTidy (group_markers units ms gs)
unfolding group_markers add_cited
group_markers-IsTidy units [] gs h = h
group_markers-IsTidy units ((pos, n) ∷ r) gs h = elim (Bool-cases (in_range n (length units))) [
  | inr out ↦ rw out (group_markers-IsTidy units r gs h)
  | inl within ↦ elim (Option-cases (get_elem? units (n - 1))) [
    | inl e ↦ rw (within, e) (group_markers-IsTidy units r gs h)
    | inr (unit, e) ↦
        rw (within, e) (group_markers-IsTidy units r _ (add_unit-IsTidy unit (n % u32_mod) gs h))
  ]
]

insert_sorted-above :
    (b m : ℕ) (l : List ℕ) → b < m → All (λ k. b < k) l → All (λ k. b < k) (insert_sorted m l)
unfolding insert_sorted
insert_sorted-above b m [] lt h = (lt, tt)
insert_sorted-above b m (x ∷ r) lt h = elim (Bool-cases (leb m x)) [
  | inl e ↦ rw e (lt, h)
  | inr e ↦ rw e (h.0, insert_sorted-above b m r lt h.1)
]

All-above : (a b : ℕ) (l : List ℕ) → a < b → All (λ k. b < k) l → All (λ k. a < k) l
All-above a b [] lt h = tt
All-above a b (x ∷ r) lt h = (omega arith, All-above a b r lt h.1)

insert_sorted-Ascending :
    (m : ℕ) (l : List ℕ) → any (λ k. k == m) l ≡ false → Ascending l → Ascending (insert_sorted m l)
unfolding insert_sorted
insert_sorted-Ascending m [] new h = (tt, tt)
insert_sorted-Ascending m (x ∷ r) new h = elim (Bool-cases (leb m x)) [
  | inl e ↦ let lt : m < x = ground arith in rw e ((lt, All-above m x r lt h.0), h)
  | inr e ↦
      rw e (
        insert_sorted-above x m r (ground arith) h.0,
        insert_sorted-Ascending m r (ground arith) h.1,
      )
]

any-insert :
    (k m : ℕ) (ms : List ℕ)
    → any (λ j. j == k) (insert_sorted m ms) ≡ (m == k || any (λ j. j == k) ms)
unfolding insert_sorted
any-insert k m [] = refl
any-insert k m (x ∷ r) = ground (arith, any-insert k m r)

any-sort : (k : ℕ) (ms : List ℕ) → any (λ j. j == k) (sort_unstable ms) ≡ any (λ j. j == k) ms
unfolding sort_unstable
any-sort k [] = refl
any-sort k (m ∷ r) = ground (arith, any-insert k m (sort_unstable r), any-sort k r)

sort_unstable-Ascending :
    (ms : List ℕ) → Distinct nat_eq nat_eq_sym ms → Ascending (sort_unstable ms)
unfolding sort_unstable
sort_unstable-Ascending [] d = tt
sort_unstable-Ascending (m ∷ r) d =
    insert_sorted-Ascending m (sort_unstable r) (any-sort m r ∙ d.0) (sort_unstable-Ascending r d.1)

abbrev pub IsTidyCitation : Citation → Type 0
IsTidyCitation c = Ascending c.markers × DistinctChunks c.locators

number_groups-IsTidy :
    (idx : ℕ) (gs : List Group) → All IsTidy gs → All IsTidyCitation (number_groups idx gs)
unfolding number_groups
number_groups-IsTidy idx [] h = tt
number_groups-IsTidy idx (g ∷ r) h =
    ((sort_unstable-Ascending g.markers h.0.0, h.0.1), number_groups-IsTidy (idx + 1) r h.1)

first_seen-Distinct :
    (seen l : List Str)
    → Distinct str_eq str_eq_sym seen
    → Distinct str_eq str_eq_sym (first_seen seen l)
unfolding first_seen add_new
first_seen-Distinct seen [] d = d
first_seen-Distinct seen (x ∷ r) d = elim (Bool-cases (any (λ y. str_eq y x) seen)) [
  | inl old ↦ rw old (first_seen-Distinct seen r d)
  | inr new ↦ rw new (first_seen-Distinct _ r (Distinct-push str_eq str_eq_sym x seen new d))
]

-- No two citations have the same source; the markers of each citation ascend strictly, and no two
-- of its locators have the same chunk.
pub extract_citations-tidy :
    (answer : Str) (units : List ContextUnit)
    → Distinct str_eq str_eq_sym (map (λ c. c.source_id) (extract_citations answer units))
      × All IsTidyCitation (extract_citations answer units)
extract_citations-tidy answer units = (
  rw (extract_citations-order answer units).0 (first_seen-Distinct [] _ tt),
  unfold extract_citations in
      number_groups-IsTidy 0 (group_markers units (parse_markers answer) [])
        (group_markers-IsTidy units (parse_markers answer) [] tt),
)
