-- ===== src/Examples/Assembled.antt =====
-- Runs of the fusion of ranked lists, of the trim of candidates and of the check of a script.
use lens_lm.Base.{ℕ, ◌+◌, ◌-◌, refl, arith, ◌≡◌, Option, none, some, List, [], ◌∷◌}
use lens_lm.Base.Text.{Str, codes, str_eq}
use lens_lm.Dialogue.Script.{Turn, validate_script}
use lens_lm.Dialogue.Script.Judged.{Judged, validate_script-Judged}
use lens_lm.Citation.Markers.{is_digit}
use lens_lm.Retrieval.Structural.{
  chapter, ordinal, structural_noun, detect_tokens, parse_cardinal, cardinal_of, take_digits,
  word_cardinal, position, roman_cardinal, roman_sums, roman_value, all_roman, next_value,
}
use lens_lm.Retrieval.Structural.Roman.{roman, detect_tokens-roman}
use lens_lm.Retrieval.Fusion.{Acc, rrf_merge3}
use lens_lm.Retrieval.Fusion.Hits.{FusedTo, rrf_merge3-IsFused}
use lens_lm.Retrieval.Trim.{Comparison, cmp, Candidate, trim_and_order}
use lens_lm.Retrieval.Trim.Budget.{TrimmedTo, trim_and_order-Trimmed}
use lens_lm.Retrieval.Trim.Sorting.{reverse}
use lens_lm.Tts.Orpheus.{Speaker, host, guest}

abbrev said : Speaker → List Str → Turn
said s ids = record { speaker = s; text = codes "Hm."; emotion = none; source_ids = ids }

abbrev script : List Turn
script = said host [] ∷ said host (codes "a" ∷ []) ∷ said guest (codes "b" ∷ []) ∷ said host [] ∷ []

validate_script-Judged_example :
    Judged script (str_eq (codes "a")) 3 (validate_script script (str_eq (codes "a")) 3)
validate_script-Judged_example = validate_script-Judged script (str_eq (codes "a")) 3

-- Scores are numbers, and there is no provenance.
abbrev found : Str → ℕ → ℕ → Candidate ℕ Unit
found t score start = record {
  chunk_id = t;
  source_id = codes "s";
  parent_id = none;
  text = t;
  locator = none;
  provenance = tt;
  score = score;
  level = 1;
  token_start = start;
}

abbrev candidates : List (Candidate ℕ Unit)
candidates =
    found (codes "eight ch") 5 90
    ∷ found (codes "a text of some length") 9 40
    ∷ found (codes "four") 7 20
    ∷ []

abbrev by_number : ℕ → ℕ → Option Comparison
by_number a b = some (cmp a b)

abbrev first_rank : Str → Option ℕ
first_rank s = some 0

-- Scores are numbers, and a place counts 1000 less its number.
by_number_dual : (a b : ℕ) → by_number b a ≡ reverse (by_number a b)
unfolding cmp
by_number_dual a b = ground arith

trim_and_order-Trimmed_example :
    TrimmedTo by_number first_rank candidates 6 (trim_and_order by_number first_rank candidates 6)
trim_and_order-Trimmed_example =
    trim_and_order-Trimmed by_number first_rank candidates 6 by_number_dual

abbrev same_order : List (Acc ℕ) → List (Acc ℕ)
same_order acc = acc

abbrev ids : List Str
ids = codes "x" ∷ codes "y" ∷ []

rrf_merge3-IsFused_example :
    FusedTo 0
      (λ m n. m + n)
      (λ n. 1000 - n)
      by_number
      ids
      (codes "y" ∷ [])
      (codes "z" ∷ [])
      60
      2
      (rrf_merge3 0
        (λ m n. m + n)
        (λ n. 1000 - n)
        by_number
        same_order
        ids
        (codes "y" ∷ [])
        (codes "z" ∷ [])
        60
        2)
rrf_merge3-IsFused_example =
    rrf_merge3-IsFused 0 (λ m n. m + n) (λ n. 1000 - n) by_number same_order ids (codes "y" ∷ [])
      (codes "z" ∷ []) 60 2 by_number_dual (λ acc f. refl)

query_nouns :
    (structural_noun (codes "explain") ≡ none) × (structural_noun (codes "chapter") ≡ some chapter)
unfolding structural_noun str_eq
query_nouns = (refl, refl)

detect_tokens-roman_example :
    detect_tokens (codes "explain" ∷ codes "chapter" ∷ roman 14 ∷ codes "briefly" ∷ [])
    ≡ some (ordinal chapter 14)
detect_tokens-roman_example =
    detect_tokens-roman (codes "explain" ∷ []) (codes "briefly" ∷ []) (codes "chapter") chapter 14
      (query_nouns.0, tt) query_nouns.1 (omega arith) (omega arith)

-- Two words that are no numerals.
parse_cardinal-words :
    (parse_cardinal (codes "did") ≡ some 999) × (parse_cardinal (codes "mix") ≡ some 1009)
unfolding parse_cardinal cardinal_of take_digits is_digit word_cardinal position str_eq
    roman_cardinal roman_sums roman_value all_roman next_value
parse_cardinal-words = (refl, refl)
