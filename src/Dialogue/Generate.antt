-- ===== src/Dialogue/Generate.antt =====
-- lens-core/src/dialogue.rs: generate_dialogue, with base_request, build_repair_request and
-- exhausted_failure. The embedder, the search, the titles and the replies of the language model are
-- answers; the first prompt's text, the display of a number and what a text parses to (parse_dialogue
-- of Dialogue/Salvage) are parameters.
pub mod Repaired
pub mod Told
use lens_lm.Base.{
  ℕ, zero, suc, ◌+◌, ◌-◌, Bool, true, false, Option, none, some, List, [], ◌∷◌, ◌++◌, length,
  if◌then◌else◌,
}
use lens_lm.Base.Outcome.{Outcome, ok, err, panic, LensError, cancelled}
use lens_lm.Base.Text.{Str, codes}
use lens_lm.Dialogue.Script.{
  Turn, LengthPreset, Length, preset, effective_min_turns, Verdict, valid, script_too_short,
  both_speakers_required, run_exceeded, unknown_source, validate_script,
}

pub data DialoguePhase : Type 0 where
  retrieving generating validating : DialoguePhase

-- `LlmRequest`; the fields left out are the same in each request of this module.
pub record DialogueRequest : Type 0 where
  pub system : Str
  pub prompt : Str
  pub max_tokens : ℕ

unfoldable pub base_request : Str → Str → LengthPreset → DialogueRequest
base_request system prompt p = record {
  system = system;
  prompt = prompt;
  max_tokens = p.max_tokens;
}

-- What a reply fails by: it is no script, or a rule of validate_script is broken.
pub data Failure : Type 0 where
  unparsed : Failure
  invalid : Verdict → Failure

pub data Checked : Type 0 where
  accepted : List Turn → Checked
  rejected : Failure → Checked

-- The message of a validation error.
unfoldable pub rule_message : Verdict → Str
rule_message valid = []
rule_message script_too_short = codes "dialogue script too short"
rule_message both_speakers_required = codes "dialogue requires both speakers"
rule_message run_exceeded = codes "speaker exceeded 2 consecutive turns"
rule_message unknown_source = codes "turn cites an unknown source"

turn_schema_hint : Str
turn_schema_hint =
    codes
      "{\"speaker\": \"host\"|\"guest\", \"text\": string, \"emotion\": string (optional), \"source_ids\": [string]}"

repair_reason : Failure → Str → Str
unfolding rule_message
repair_reason unparsed floor =
    codes
      "your previous output could not be parsed as JSON (parse error: no JSON array or object found in model output)"
repair_reason (invalid v) floor =
    codes "your previous output was valid JSON but failed a content rule: "
    ++ (rule_message v
        ++ (codes ". Remember: at least "
            ++ (floor
                ++ codes
                    " turns, both a host and a guest must speak, no speaker may take more than two turns in a row, and every source_id must be one copied exactly from a numbered source unit (or the array left empty)")))

-- `display` writes a number.
unfoldable pub build_repair_request : (ℕ → Str) → Str → Failure → LengthPreset → ℕ → DialogueRequest
unfolding base_request repair_reason turn_schema_hint
build_repair_request display prior failure p min_turns =
    base_request
      (codes "You are repairing a malformed dialogue-script response. "
        ++ (repair_reason failure (display min_turns)
            ++ (codes ". Here is your previous output:\n\n"
                ++ (prior
                    ++ (codes
                          "\n\nReturn ONLY a corrected JSON object of the form {\"turns\": [ ... ]} — no prose, no markdown fences — where each element of the turns array is "
                        ++ (turn_schema_hint
                            ++ (codes ". The script must contain at least "
                                ++ (display min_turns ++ codes " turns."))))))))
      (codes "Return the corrected JSON object with a \"turns\" array now.") p

-- `exhausted_failure`: of a script that is too short the message is another one.
pub data Terminal : Type 0 where
  too_short_actionable : Terminal
  as_it_is : Failure → Terminal

unfoldable pub exhausted_failure : Failure → Terminal
exhausted_failure unparsed = as_it_is unparsed
exhausted_failure (invalid valid) = as_it_is (invalid valid)
exhausted_failure (invalid script_too_short) = too_short_actionable
exhausted_failure (invalid both_speakers_required) = as_it_is (invalid both_speakers_required)
exhausted_failure (invalid run_exceeded) = as_it_is (invalid run_exceeded)
exhausted_failure (invalid unknown_source) = as_it_is (invalid unknown_source)

-- What a call of the model comes to, raced against the cancellation.
pub data ModelReply : Type 0 where
  cancelled_call : ModelReply
  failed_call : LensError → ModelReply
  replied : Str → ModelReply

pub data Generated : Type 0 where
  generated : List Turn → Generated
  stopped : LensError → Generated
  no_sources : Generated
  exhausted : Terminal → Generated
  crashed : Generated

-- What was emitted and asked for on the way; the newest stands first.
pub record Trace : Type 0 where
  pub phases : List DialoguePhase
  pub asked : List DialogueRequest

unfoldable pub on_phase : DialoguePhase → Trace → Trace
on_phase p t = record t { phases = p ∷ t.phases }

unfoldable pub ask : DialogueRequest → Trace → Trace
ask r t = record t { asked = r ∷ t.asked }

abbrev pub max_repairs : ℕ
max_repairs = 2

unfoldable pub check_rules : (Str → Bool) → ℕ → List Turn → Checked
check_rules selected min_turns turns = elim (validate_script turns selected min_turns) [
  | valid ↦ accepted turns
  | broken ↦ rejected (invalid broken)
]

-- `parse_and_validate`; none is a panic. A text that does not parse has one error only.
unfoldable pub parse_and_validate :
    (Str → Outcome (List Turn)) → (Str → Bool) → ℕ → Str → Option Checked
unfolding check_rules
parse_and_validate parse selected min_turns text = elim (parse text) [
  | ok turns ↦ some (check_rules selected min_turns turns)
  | err e ↦ some (rejected unparsed)
  | panic ↦ none
]

module _ (check : Str → Option Checked) (repair : Str → Failure → DialogueRequest)
    (replies : ℕ → ModelReply) where
  -- The loop behind a reply with the text `prior`, the `n`-th of the call, `left` repairs being left.
  unfoldable pub repair_loop : ℕ → ℕ → Str → Option Checked → Trace → Generated × Trace
  unfolding exhausted_failure ask
  repair_loop left n prior none t = (crashed, t)
  repair_loop left n prior (some (accepted script)) t = (generated script, t)
  repair_loop zero n prior (some (rejected f)) t = (exhausted (exhausted_failure f), t)
  repair_loop (suc left) n prior (some (rejected f)) t = elim (replies (n + 1)) [
    | cancelled_call ↦ (stopped cancelled, ask (repair prior f) t)
    | failed_call e ↦ (stopped e, ask (repair prior f) t)
    | replied text ↦ repair_loop left (n + 1) text (check text) (ask (repair prior f) t)
  ]

  -- `on_phase(Validating)` where the script is valid.
  unfoldable pub validated : Generated × Trace → Generated × Trace
  unfolding on_phase
  validated (generated script, t) = (generated script, on_phase validating t)
  validated (stopped e, t) = (stopped e, t)
  validated (no_sources, t) = (no_sources, t)
  validated (exhausted e, t) = (exhausted e, t)
  validated (crashed, t) = (crashed, t)

  unfoldable pub generate_and_repair : DialogueRequest → Trace → Generated × Trace
  unfolding repair_loop validated on_phase ask
  generate_and_repair first t = elim (replies 0) [
    | cancelled_call ↦ (stopped cancelled, ask first (on_phase generating t))
    | failed_call e ↦ (stopped e, ask first (on_phase generating t))
    | replied text ↦
        validated (repair_loop max_repairs 0 text (check text) (ask first (on_phase generating t)))
  ]

-- What the services answer before the model is asked.
pub record Services (Vector Units Titles : Type 0) : Type 0 where
  pub cancelled_before : Bool
  pub embedded : Outcome Vector
  pub cancelled_embedded : Bool
  pub search : Vector → Outcome (List Units)
  pub titles : List Units → Outcome Titles
  pub cancelled_titled : Bool

unfoldable pub stop_on :
    {A : Type 0} → Outcome A → Trace → (A → Generated × Trace) → Generated × Trace
stop_on (ok a) t next = next a
stop_on (err e) t next = (stopped e, t)
stop_on panic t next = (crashed, t)

unfoldable pub unless_cancelled : Bool → Trace → Generated × Trace → Generated × Trace
unless_cancelled is_cancelled t next = if is_cancelled then (stopped cancelled, t) else next

-- Behind the search.
unfoldable pub with_sources :
    {Vector Units Titles : Type 0}
    → Services Vector Units Titles
    → Trace
    → (List Units → Titles → Generated × Trace)
    → List Units
    → Generated × Trace
unfolding stop_on unless_cancelled
with_sources services t next [] = (no_sources, t)
with_sources services t next (u ∷ us) =
    stop_on (services.titles (u ∷ us)) t
      (λ titles. unless_cancelled services.cancelled_titled t (next (u ∷ us) titles))

unfoldable pub run_dialogue :
    {Vector Units Titles : Type 0}
    → Services Vector Units Titles
    → (List Units → Titles → DialogueRequest)
    → (Str → Option Checked)
    → (Str → Failure → DialogueRequest)
    → (ℕ → ModelReply)
    → Generated × Trace
unfolding stop_on unless_cancelled with_sources generate_and_repair
run_dialogue services first check repair replies =
    let t : Trace = record { phases = retrieving ∷ []; asked = [] } in
    unless_cancelled services.cancelled_before t (
      stop_on services.embedded t (λ v. unless_cancelled services.cancelled_embedded t (
        stop_on (services.search v) t (
          with_sources services t
            (λ units titles. generate_and_repair check repair replies (first units titles) t)))))

-- `prompt` is build_dialogue_prompt, `parse` is parse_dialogue.
unfoldable pub generate_dialogue :
    {Vector Units Titles : Type 0}
    → Services Vector Units Titles
    → (List Units → Titles → Str × Str)
    → (ℕ → Str)
    → (Str → Outcome (List Turn))
    → (Str → Bool)
    → LengthPreset
    → Bool
    → (ℕ → ModelReply)
    → Generated × Trace
generate_dialogue services prompt display parse selected p is_local replies =
    let min_turns = effective_min_turns p is_local in
    run_dialogue services
      (λ units titles. base_request (prompt units titles).0 (prompt units titles).1 p)
      (parse_and_validate parse selected min_turns)
      (λ prior failure. build_repair_request display prior failure p min_turns) replies
