-- ===== src/Enrichment/Map.antt =====
-- lens-core/src/enrichment/map.rs: run_llm_with_retries. The provider is a parameter with a state of its own: a call gives an error or a reply and the
-- tokens it used.
pub mod Build
pub mod Calls
pub mod Spending
use lens_lm.Base.{
  ℕ, zero, suc, ◌+◌, ◌⊎◌, inl, inr, Bool, true, false, not, Option, none, some, List, [], ◌∷◌, ◌++◌,
  map, any, ◌==◌, if◌then◌else◌,
}
use lens_lm.Base.Outcome.{Outcome, ok, err, panic, LensError}
use lens_lm.Base.Text.{Str, codes, byte_len, str_eq}
use lens_lm.Enrichment.Budget.{Budget, fits, exceeded, check_before_dispatch, record_call}
use lens_lm.Enrichment.Meta.{StructuralMap, Definition, parse_strict}

abbrev pub enrichment_max_retries : ℕ
enrichment_max_retries = 2

abbrev pub enrichment_map_max_tokens : ℕ
enrichment_map_max_tokens = 1024

-- Without the fields that are the same for every caller and do not matter here: temperature 0.0, no
-- reasoning effort, no messages.
pub record LlmRequest : Type 0 where
  system : Option Str
  prompt : Str
  max_tokens : ℕ
  json : Bool
  thinking : Bool

-- What a job ends in: a value, a MapError, or a panic.
pub data MapError : Type 0 where
  budget_exceeded : MapError
  llm : LensError → MapError

pub data Mapped (A : Type 0) : Type 0 where
  mapped : A → Mapped A
  map_err : MapError → Mapped A
  crashed : Mapped A

pub data MapOutcome : Type 0 where
  map_ok : StructuralMap → MapOutcome
  fallback : MapOutcome

-- A job reads and changes the budget and the provider's state.
abbrev pub Job : Type 0 → Type 0 → Type 0
Job S A = Budget × S → Mapped A × (Budget × S)

abbrev pub pure : {S A : Type 0} → A → Job S A
pure a state = (mapped a, state)

abbrev pub continue :
    {S A B : Type 0} → (A → Job S B) → Mapped A × (Budget × S) → Mapped B × (Budget × S)
continue f (mapped a, state) = f a state
continue f (map_err e, state) = (map_err e, state)
continue f (crashed, state) = (crashed, state)

infixl 5 ◌>>=◌
abbrev pub ◌>>=◌ : {S A B : Type 0} → Job S A → (A → Job S B) → Job S B
(job >>= f) state = continue f (job state)

unfoldable pub attempt_prompt : ℕ → Str → Str → Str
attempt_prompt zero user_prompt last_body = user_prompt
attempt_prompt (suc n) user_prompt last_body =
    user_prompt
    ++ codes "\n\nYour previous reply was not valid JSON for the required schema:\n"
    ++ last_body
    ++ codes "\n\nReply again with ONLY the JSON object."

-- The ways out of an attempt; `again` is the later attempts.
unfoldable pub after_parse : {S T : Type 0} → Outcome T → Job S (Option T) → Job S (Option T)
after_parse (ok value) again state = (mapped (some value), state)
after_parse (err e) again state = again state
after_parse panic again state = (crashed, state)

-- What a provider answers.
abbrev pub Reply : Type 0
Reply = LensError ⊎ (Str × ℕ)

unfoldable pub after_reply :
    {S T : Type 0}
    → (Str → Outcome T)
    → (Str → Job S (Option T))
    → Budget
    → Reply × S
    → Mapped (Option T) × (Budget × S)
unfolding after_parse
after_reply parse again budget (inl e, s) = (map_err (llm e), (budget, s))
after_reply parse again budget (inr (text, tokens_used), s) =
    after_parse (parse text) (again text) (record_call budget tokens_used, s)

module _ {S : Type 0} (generate : S → LlmRequest → Reply × S) where
  module _ {T : Type 0} (system_prompt user_prompt : Str) (max_tokens : ℕ)
      (parse : Str → Outcome T) where
    abbrev pub request : ℕ → Str → LlmRequest
    request attempt last_body = record {
      system = some system_prompt;
      prompt = attempt_prompt attempt user_prompt last_body;
      max_tokens = max_tokens;
      json = true;
      thinking = false;
    }

    -- The attempts from `attempt` on, of which `left` are allowed.
    unfoldable pub attempt_loop : ℕ → ℕ → Str → Job S (Option T)
    unfolding check_before_dispatch after_reply attempt_prompt
    attempt_loop zero attempt last_body state = (mapped none, state)
    attempt_loop (suc left) attempt last_body (budget, s) =
        elim (check_before_dispatch budget max_tokens) [
          | exceeded ↦ (map_err budget_exceeded, (budget, s))
          | fits ↦
              after_reply parse (attempt_loop left (attempt + 1)) budget
                (generate s (request attempt last_body))
        ]

    unfoldable pub run_llm_with_retries : Job S (Option T)
    unfolding attempt_loop
    run_llm_with_retries = attempt_loop (enrichment_max_retries + 1) 0 []
