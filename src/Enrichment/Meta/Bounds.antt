-- ===== src/Enrichment/Meta/Bounds.antt =====
-- A structural map that was parsed keeps the size bounds, and one that kept them is not changed.
use lens_lm.Base.{
  ℕ, zero, suc, ◌≤◌, ◌≡◌, refl, ap, Option, none, some, List, [], ◌∷◌, map, length, All, arith,
}
use lens_lm.Base.Outcome.{Outcome, ok, err, panic, parse}
use lens_lm.Base.Text.{Str}
use lens_lm.Enrichment.Json.{extract_json_object}
use lens_lm.Enrichment.Json.Parts.{Extracted, extract_json_object-Extracted}
use lens_lm.Enrichment.Meta.{
  Definition, StructuralMap, truncate, truncate_chars, bound_definition, bound_field, bound_sizes,
  bound_parsed, unwrap_or, parse_strict,
}

abbrev pub IsBoundedDefinition : Definition → Type 0
IsBoundedDefinition d = (length d.term ≤ 1000) × (length d.definition ≤ 1000)

abbrev pub IsBounded : StructuralMap → Type 0
IsBounded m =
    (length m.entities ≤ 200)
    × (length m.definitions ≤ 200)
    × (length m.dates ≤ 200)
    × All (λ s. length s ≤ 1000) m.entities
    × All IsBoundedDefinition m.definitions
    × All (λ s. length s ≤ 1000) m.dates
    × (length m.summary ≤ 4000)

length-truncate : {A : Type 0} (xs : List A) (n : ℕ) → length (truncate xs n) ≤ n
unfolding truncate
length-truncate [] n = omega arith
length-truncate (x ∷ xs) zero = omega arith
length-truncate (x ∷ xs) (suc n) = omega (arith, length-truncate xs n)

length-map : {A B : Type 0} (f : A → B) (xs : List A) → length (map f xs) ≡ length xs
length-map f [] = refl
length-map f (x ∷ xs) = ap suc (length-map f xs)

All-map :
    {A B : Type 0} (P : B → Type 0) (f : A → B) (xs : List A)
    → ((x : A) → P (f x))
    → All P (map f xs)
All-map P f [] h = tt
All-map P f (x ∷ xs) h = (h x, All-map P f xs h)

bound_sizes-IsBounded : (m : StructuralMap) → IsBounded (bound_sizes m)
unfolding bound_sizes bound_definition bound_field truncate_chars
bound_sizes-IsBounded m = (
  omega (arith, length-map bound_field (truncate m.entities 200), length-truncate m.entities 200),
  omega (
    arith,
    length-map bound_definition (truncate m.definitions 200),
    length-truncate m.definitions 200,
  ),
  omega (arith, length-map bound_field (truncate m.dates 200), length-truncate m.dates 200),
  All-map _ bound_field (truncate m.entities 200) (λ s. length-truncate s 1000),
  All-map _ bound_definition (truncate m.definitions 200)
      (λ d. (length-truncate d.term 1000, length-truncate d.definition 1000)),
  All-map _ bound_field (truncate m.dates 200) (λ s. length-truncate s 1000),
  length-truncate m.summary 4000,
)

truncate-short : {A : Type 0} (xs : List A) (n : ℕ) → length xs ≤ n → truncate xs n ≡ xs
unfolding truncate
truncate-short [] n h = refl
truncate-short (x ∷ xs) zero h = absurd (omega arith)
truncate-short (x ∷ xs) (suc n) h = ap (λ t. x ∷ t) (truncate-short xs n (omega arith))

map-All_same :
    {A : Type 0} (P : A → Type 0) (f : A → A) (xs : List A)
    → ((x : A) → P x → f x ≡ x)
    → All P xs
    → map f xs ≡ xs
map-All_same P f [] same h = refl
map-All_same P f (x ∷ xs) same (h, t) = cc (same x h, map-All_same P f xs same t)

bound_definition_same : (d : Definition) → IsBoundedDefinition d → bound_definition d ≡ d
unfolding bound_definition truncate_chars
bound_definition_same d (t, e) =
    cc (truncate-short d.term 1000 t, truncate-short d.definition 1000 e)

bound_sizes_same : (m : StructuralMap) → IsBounded m → bound_sizes m ≡ m
unfolding bound_sizes bound_field truncate_chars
bound_sizes_same m (e, d, a, all_e, all_d, all_a, s) =
    let texts : (xs : List Str)
        → length xs ≤ 200
        → All (λ t. length t ≤ 1000) xs
        → map bound_field (truncate xs 200) ≡ xs =
      λ xs short all.
        rw (truncate-short xs 200 short)
          (map-All_same (λ t. length t ≤ 1000) bound_field xs (λ t. truncate-short t 1000) all) in
    let entities = texts m.entities e all_e in
    let dates = texts m.dates a all_a in
    let definitions : map bound_definition (truncate m.definitions 200) ≡ m.definitions =
      rw (truncate-short m.definitions 200 d) (
        map-All_same IsBoundedDefinition bound_definition m.definitions bound_definition_same
          all_d) in
    cc (entities, dates, definitions, truncate-short m.summary 4000 s)

-- `o` is what serde made of the text.
abbrev pub Parsed : Option StructuralMap → Outcome StructuralMap → Type 0
Parsed none (ok m) = ⊥
Parsed (some raw) (ok m) = IsBounded m × (IsBounded raw → m ≡ raw)
Parsed o (err e) = (e ≡ parse) × (o ≡ none)
Parsed o panic = ⊥

bound_parsed-Parsed : (o : Option StructuralMap) → Parsed o (bound_parsed o)
unfolding bound_parsed
bound_parsed-Parsed none = (refl, refl)
bound_parsed-Parsed (some m) = (bound_sizes-IsBounded m, bound_sizes_same m)

-- The text that serde reads.
abbrev pub json_of : Str → Outcome (Option Str) → Str
json_of body (ok json) = unwrap_or json body
json_of body (err e) = body
json_of body panic = body

-- The object in a reply, or the reply where it has none, is parsed: parse_strict fails, with a parse
-- error, exactly where serde does, and does not panic. Else the map keeps all size bounds, and it is
-- serde's map where that keeps them.
pub parse_strict-Parsed :
    (from_str : Str → Option StructuralMap) (body : Str)
    → Parsed (from_str (json_of body (extract_json_object body))) (parse_strict from_str body)
unfolding parse_strict
parse_strict-Parsed from_str body =
    by_extracted from_str body (extract_json_object body) (extract_json_object-Extracted body)
  where
    by_extracted :
        (from_str : Str → Option StructuralMap) (body : Str) (o : Outcome (Option Str))
        → Extracted body o
        → Parsed (from_str (json_of body o)) (elim o [
          | ok json ↦ bound_parsed (from_str (unwrap_or json body))
          | err e ↦ err e
          | panic ↦ panic
        ])
    by_extracted from_str body (ok json) h = bound_parsed-Parsed (from_str (unwrap_or json body))
    by_extracted from_str body (err e) h = absurd h
    by_extracted from_str body panic h = absurd h
