-- ===== src/Dialogue/Script.antt =====
-- lens-core/src/dialogue.rs: Turn, DialogueScript, the length presets and validate_script. A hash set
-- is its `contains`, and a failure is named for its message.
pub mod Judged
use lens_lm.Base.{
  ℕ, ◌+◌, ◌/◌, max, Bool, true, false, ◌&&◌, ◌||◌, not, Option, none, some, List, [], ◌∷◌, any,
  length, ltb, if◌then◌else◌,
}
use lens_lm.Base.Text.{Str}
use lens_lm.Tts.Orpheus.{Speaker, host, guest}

pub data Emotion : Type 0 where
  neutral laugh sigh excited thoughtful curious serious : Emotion

pub record Turn : Type 0 where
  pub speaker : Speaker
  pub text : Str
  pub emotion : Option Emotion
  pub source_ids : List Str

pub data Length : Type 0 where
  short medium long : Length

pub record LengthPreset : Type 0 where
  pub target_turns : ℕ
  pub min_turns : ℕ
  pub max_tokens : ℕ

unfoldable pub preset : Length → LengthPreset
preset short = record { target_turns = 12; min_turns = 8; max_tokens = 3072 }
preset medium = record { target_turns = 25; min_turns = 16; max_tokens = 6144 }
preset long = record { target_turns = 45; min_turns = 30; max_tokens = 8192 }

unfoldable pub effective_min_turns : LengthPreset → Bool → ℕ
effective_min_turns p is_local = if is_local then max (p.target_turns / 3) 6 else p.min_turns

abbrev pub same_speaker : Speaker → Speaker → Bool
same_speaker host host = true
same_speaker host guest = false
same_speaker guest host = false
same_speaker guest guest = true

unfoldable pub speaks : Speaker → Turn → Bool
speaks s t = same_speaker t.speaker s

unfoldable pub is_prev : Option Speaker → Speaker → Bool
is_prev none s = false
is_prev (some p) s = same_speaker p s

-- The loop over the turns: no run is longer than two.
unfoldable pub runs_loop : List Turn → ℕ → Option Speaker → Bool
unfolding is_prev
runs_loop [] run prev = true
runs_loop (t ∷ r) run prev =
    let run' = if is_prev prev t.speaker then run + 1 else 1 in
    let rest = runs_loop r run' (some t.speaker) in if ltb 2 run' then false else rest

unfoldable pub all_selected : (Str → Bool) → List Str → Bool
all_selected selected [] = true
all_selected selected (id ∷ r) = selected id && all_selected selected r

unfoldable pub sources_loop : (Str → Bool) → List Turn → Bool
unfolding all_selected
sources_loop selected [] = true
sources_loop selected (t ∷ r) = all_selected selected t.source_ids && sources_loop selected r

-- Ok, or the message of the validation error.
pub data Verdict : Type 0 where
  valid script_too_short both_speakers_required run_exceeded unknown_source : Verdict

unfoldable pub validate_script : List Turn → (Str → Bool) → ℕ → Verdict
unfolding runs_loop sources_loop speaks
validate_script turns selected_live_ids min_turns =
    if ltb (length turns) min_turns
    then script_too_short
    else if not (any (speaks host) turns) || not (any (speaks guest) turns)
    then both_speakers_required
    else if not (runs_loop turns 0 none)
    then run_exceeded
    else if not (sources_loop selected_live_ids turns)
    then unknown_source
    else valid
