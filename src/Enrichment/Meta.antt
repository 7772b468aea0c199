-- ===== src/Enrichment/Meta.antt =====
-- lens-core/src/enrichment/meta.rs: StructuralMap. `from_str` is serde_json's, as a parameter.
pub mod Bounds
use lens_lm.Base.{ℕ, zero, suc, Option, none, some, List, [], ◌∷◌, map}
use lens_lm.Base.Outcome.{Outcome, ok, err, panic, parse}
use lens_lm.Base.Text.{Str}
use lens_lm.Enrichment.Json.{extract_json_object}

pub record Definition : Type 0 where
  term : Str
  definition : Str

pub record StructuralMap : Type 0 where
  pub entities : List Str
  pub definitions : List Definition
  pub dates : List Str
  pub summary : Str

abbrev pub structural_map_max_entities : ℕ
structural_map_max_entities = 200

abbrev pub structural_map_max_definitions : ℕ
structural_map_max_definitions = 200

abbrev pub structural_map_max_dates : ℕ
structural_map_max_dates = 200

abbrev pub structural_map_max_summary_chars : ℕ
structural_map_max_summary_chars = 4000

abbrev pub structural_map_max_field_chars : ℕ
structural_map_max_field_chars = 1000

-- Vec::truncate. On a text it is truncate_chars, which cuts before the character of that number.
unfoldable pub truncate : {A : Type 0} → List A → ℕ → List A
truncate [] n = []
truncate (x ∷ xs) zero = []
truncate (x ∷ xs) (suc n) = x ∷ truncate xs n

unfoldable pub truncate_chars : Str → ℕ → Str
unfolding truncate
truncate_chars s max_chars = truncate s max_chars

unfoldable pub bound_definition : Definition → Definition
unfolding truncate_chars
bound_definition d = record {
  term = truncate_chars d.term structural_map_max_field_chars;
  definition = truncate_chars d.definition structural_map_max_field_chars;
}

unfoldable pub bound_field : Str → Str
unfolding truncate_chars
bound_field s = truncate_chars s structural_map_max_field_chars

unfoldable pub bound_sizes : StructuralMap → StructuralMap
unfolding truncate truncate_chars bound_definition bound_field
bound_sizes m = record {
  entities = map bound_field (truncate m.entities structural_map_max_entities);
  definitions = map bound_definition (truncate m.definitions structural_map_max_definitions);
  dates = map bound_field (truncate m.dates structural_map_max_dates);
  summary = truncate_chars m.summary structural_map_max_summary_chars;
}

unfoldable pub unwrap_or : Option Str → Str → Str
unwrap_or none body = body
unwrap_or (some json) body = json

-- serde's result, checked.
unfoldable pub bound_parsed : Option StructuralMap → Outcome StructuralMap
unfolding bound_sizes
bound_parsed none = err parse
bound_parsed (some m) = ok (bound_sizes m)

unfoldable pub parse_strict : (Str → Option StructuralMap) → Str → Outcome StructuralMap
unfolding extract_json_object unwrap_or bound_parsed
parse_strict from_str body = elim (extract_json_object body) [
  | ok json ↦ bound_parsed (from_str (unwrap_or json body))
  | err e ↦ err e
  | panic ↦ panic
]
