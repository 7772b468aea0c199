-- ===== src/Examples/Enriched.antt =====
-- Runs of the enrichment: the JSON of a reply, the calls of a run and the budget.
use lens_lm.Base.{
  ℕ, ◌+◌, ◌≡◌, ◌≢◌, ap, ◌==◌, if◌then◌else◌, All, inl, inr, Option, none, some, [], ◌∷◌, ◌++◌,
  arith,
}
use lens_lm.Base.Outcome.{ok}
use lens_lm.Base.Text.{Str, codes}
use lens_lm.Enrichment.Coref.{CorefSub, apply_substitutions}
use lens_lm.Enrichment.Coref.Applied.Whole.{IsApplied, apply_substitutions-IsApplied}
use lens_lm.Enrichment.Budget.{with_caps, session_new, budget_new}
use lens_lm.Enrichment.Budget.Caps.{Within}
use lens_lm.Enrichment.Json.{extract_json_object}
use lens_lm.Enrichment.Json.Objects.{
  Inner, done, other, string, object, raw, escape, IsInner, object_text,
  extract_json_object-object_text,
}
use lens_lm.Enrichment.Map.{LlmRequest, Reply, run_llm_with_retries}
use lens_lm.Enrichment.Map.Build.{build_structural_map}
use lens_lm.Enrichment.Map.Calls.{Retried, run_llm_with_retries-Retried}
use lens_lm.Enrichment.Map.Spending.{IsFrugal, metered, Spent, build_structural_map-Spent}
use lens_lm.Enrichment.Meta.{StructuralMap, parse_strict}
use lens_lm.Enrichment.Meta.Bounds.{Parsed, json_of, parse_strict-Parsed}

-- {"}\"":{}}
abbrev nested : Inner
nested = string (raw 125 ∷ escape 34 ∷ []) (other 58 (object done done))

nested-IsInner : IsInner nested
nested-IsInner = ground arith

no_brace : All (λ c. c ≢ 0x7b) (codes "Sure: ")
no_brace = ground arith

extract_json_object-object_text_example :
    extract_json_object (codes "Sure: " ++ object_text nested (codes " }{"))
    ≡ ok (some (object_text nested []))
extract_json_object-object_text_example =
    extract_json_object-object_text nested (codes "Sure: ") (codes " }{") nested-IsInner no_brace

abbrev fenced : Str
fenced = codes "```{\"a\": {}}``` {"

abbrev empty_map : StructuralMap
empty_map = record { entities = []; definitions = []; dates = []; summary = codes "short" }

-- Reads the object `{}` only.
abbrev serde : Str → Option StructuralMap
serde [] = none
serde (c ∷ []) = none
serde (c ∷ d ∷ []) = some empty_map
serde (c ∷ d ∷ e ∷ s) = none

parse_strict-Parsed_example :
    Parsed
      (serde (json_of (codes "a {} b") (extract_json_object (codes "a {} b"))))
      (parse_strict serde (codes "a {} b"))
parse_strict-Parsed_example = parse_strict-Parsed serde (codes "a {} b")

-- A provider that counts its calls, and replies well from the second on.
abbrev replies : ℕ → LlmRequest → Reply × ℕ
replies calls r = (inr (if calls == 0 then codes "no" else codes "{}", 900), calls + 1)

abbrev tokens_of : Reply → ℕ
tokens_of (inl e) = 0
tokens_of (inr (text, used)) = used

replies-IsFrugal : IsFrugal replies 900
replies-IsFrugal s s' r text used e =
    let u : 900 ≡ used = ap (λ m. tokens_of m.0) e in omega (arith, u)

run_llm_with_retries-Retried_example :
    Retried replies
      (codes "system")
      (codes "text")
      1024
      (parse_strict serde)
      3
      0
      []
      (budget_new session_new, 0)
      (run_llm_with_retries replies
        (codes "system")
        (codes "text")
        1024
        (parse_strict serde)
        (budget_new session_new, 0))
run_llm_with_retries-Retried_example =
    run_llm_with_retries-Retried replies (codes "system") (codes "text") 1024 (parse_strict serde)
      (budget_new session_new, 0)

fresh-Within : Within 900 (budget_new session_new)
unfolding budget_new session_new with_caps
fresh-Within = (omega arith, omega arith, omega arith, omega arith, omega arith, omega arith)

build_structural_map-Spent_example :
    Spent replies 900
      (budget_new session_new)
      (build_structural_map
        (metered replies)
        serde
        (codes "nonce")
        (λ ts. [])
        (λ n. [])
        (codes "one" ∷ codes "two" ∷ [])
        (budget_new session_new, (0, (0, 0)))).1
build_structural_map-Spent_example =
    build_structural_map-Spent replies 900 serde (codes "nonce") (λ ts. []) (λ n. [])
      (codes "one" ∷ codes "two" ∷ []) (budget_new session_new) 0 replies-IsFrugal fresh-Within

-- A pronoun is replaced; a mention that is not in the text at its range is dropped.
abbrev pronoun : CorefSub
pronoun = record { mention = codes "it"; char_start = 0; char_end = 2; antecedent = codes "Acme" }

abbrev misplaced : CorefSub
misplaced = record {
  mention = codes "they";
  char_start = 1;
  char_end = 4;
  antecedent = codes "Acme";
}

apply_substitutions-IsApplied_example :
    IsApplied
      (λ s. s)
      (codes "it works")
      (codes "Acme" ∷ [])
      (misplaced ∷ pronoun ∷ [])
      (apply_substitutions
        (λ s. s)
        (codes "it works")
        (codes "Acme" ∷ [])
        (misplaced ∷ pronoun ∷ []))
apply_substitutions-IsApplied_example =
    apply_substitutions-IsApplied (λ s. s) (codes "it works") (codes "Acme" ∷ [])
      (misplaced ∷ pronoun ∷ []) (omega arith)
