-- ===== src/Examples/Answers.antt =====
-- Runs of the citations.
use lens_lm.Base.{◌≡◌, Option, none, some, List, [], ◌∷◌, map, All}
use lens_lm.Base.Text.{Str, codes, str_eq}
use lens_lm.Citation.Markers.{parse_markers}
use lens_lm.Citation.Extract.{ContextUnit, ChunkLocatorRow, extract_citations}
use lens_lm.Citation.Grouping.{cited, resolves, cited-extract_citations}
use lens_lm.Citation.Order.{cited_sources, first_seen, Counts, extract_citations-order}
use lens_lm.Citation.Tidy.{Distinct, str_eq_sym, IsTidyCitation, extract_citations-tidy}

unit_of : Str → Str → ContextUnit
unit_of source chunk = record {
  text = [];
  source_id = source;
  chunk_id = chunk;
  parent_id = none;
  locator = none;
  order_index = 0;
}

abbrev answer : Str
answer = codes "one [2] two [1,2] three [9]"

abbrev units : List ContextUnit
units = unit_of (codes "s") (codes "c1") ∷ unit_of (codes "t") (codes "c2") ∷ []

cited-extract_citations_example :
    cited (codes "t") 2 (extract_citations answer units)
    ≡ resolves units (codes "t") 2 (parse_markers answer)
cited-extract_citations_example = cited-extract_citations answer units (codes "t") 2

extract_citations-order_example :
    (map (λ c. c.source_id) (extract_citations answer units)
      ≡ first_seen [] (cited_sources units (parse_markers answer)))
    × Counts 1 (extract_citations answer units)
extract_citations-order_example = extract_citations-order answer units

extract_citations-tidy_example :
    Distinct str_eq str_eq_sym (map (λ c. c.source_id) (extract_citations answer units))
    × All IsTidyCitation (extract_citations answer units)
extract_citations-tidy_example = extract_citations-tidy answer units

abbrev row_of : Str → Option ChunkLocatorRow
row_of id =
    some
      (record { section_path = codes "A"; page = some 3; char_start = some 0; char_end = some 9 })
