-- ===== src/Tts/Orpheus.antt =====
-- lens-core/src/tts/orpheus.rs: run_token_loop, generate_with_retry and the choice of a voice. The
-- model's sampler is a parameter, as are the cancel token at each poll and the f64 test of
-- early_eos_decision.
pub mod Tokens
pub mod Retries
use lens_lm.Base.{
  ℕ, zero, suc, ◌+◌, ◌*◌, ◌%◌, max, Bool, true, false, ◌&&◌, Option, none, some, List, [], ◌∷◌,
  ◌++◌, length, ltb, ◌==◌, if◌then◌else◌,
}
use lens_lm.Base.Outcome.{Outcome, ok, err, panic, cancelled, tts, ◌>>=◌}
use lens_lm.Base.Text.{Str, codes, str_eq, is_whitespace}
use lens_lm.Chunk.Parent.{is_empty}

pub data TokenStep : Type 0 where
  audio : ℕ → TokenStep
  stop : TokenStep

-- The body's end: what `next` gave is taken, and `rest` is the later rounds.
unfoldable pub take_step : TokenStep → Outcome (List ℕ) → Outcome (List ℕ)
take_step stop rest = ok []
take_step (audio id) rest = do ids ← rest; ok (id ∷ ids)

module _ (next : ℕ → Outcome TokenStep) (poll_interval : ℕ) (is_cancelled : ℕ → Bool) where
  -- The rounds from `produced` on, of which `left` are allowed; `% 0` is a panic.
  unfoldable pub token_loop : ℕ → ℕ → Outcome (List ℕ)
  unfolding take_step
  token_loop zero produced = ok []
  token_loop (suc left) produced = elim (poll_interval == 0) [
    | true ↦ panic
    | false ↦ elim (produced % poll_interval == 0 && is_cancelled produced) [
      | true ↦ err cancelled
      | false ↦ do step ← next produced; take_step step (token_loop left (produced + 1))
    ]
  ]

  unfoldable pub run_token_loop : ℕ → Outcome (List ℕ)
  unfolding token_loop
  run_token_loop max_new = token_loop max_new 0

abbrev pub base_seed : ℕ
base_seed = 1234

unfoldable pub longer : List ℕ → List ℕ → List ℕ
longer best ids = if ltb (length best) (length ids) then ids else best

-- `max_retries` is a small constant, so that the seed stays in u32. `too_early produced floor` is
-- early_eos_decision being Retry.
module _ (too_early : ℕ → ℕ → Bool) (floor : ℕ) (is_cancelled : ℕ → Bool)
    (run_once : ℕ → Outcome (List ℕ)) where
  unfoldable pub retry_loop : ℕ → ℕ → List ℕ → Outcome (List ℕ)
  unfolding longer
  retry_loop zero attempt best = ok best
  retry_loop (suc left) attempt best = elim (is_cancelled attempt) [
    | true ↦ err cancelled
    | false ↦ do
      ids ← run_once (base_seed + attempt)
      elim (too_early (length (longer best ids)) floor) [
        | false ↦ ok (longer best ids)
        | true ↦ retry_loop left (attempt + 1) (longer best ids)
      ]
  ]

  unfoldable pub generate_with_retry : ℕ → Outcome (List ℕ)
  unfolding retry_loop
  generate_with_retry max_retries = retry_loop (suc max_retries) 0 []

abbrev pub tokens_per_word_est : ℕ
tokens_per_word_est = 30

-- `split_whitespace().count()`: `inside` says that the last character is of a word.
unfoldable pub word_count : Str → Bool → ℕ
word_count [] inside = 0
word_count (c ∷ s) inside =
    (if is_whitespace c then 0 else if inside then 0 else 1)
    + word_count s (if is_whitespace c then false else true)

unfoldable pub expected_token_floor : Str → ℕ
unfolding word_count
expected_token_floor text = max (word_count text false) 1 * tokens_per_word_est

-- lens-core/src/dialogue.rs, and VoiceRef of lens-core/src/config.rs.
pub data Speaker : Type 0 where
  host guest : Speaker

pub data VoiceRef : Type 0 where
  named : Str → VoiceRef
  reference : Str → Str → VoiceRef

abbrev pub orpheus_voices : List Str
orpheus_voices =
    codes "tara"
    ∷ codes "leah"
    ∷ codes "jess"
    ∷ codes "leo"
    ∷ codes "dan"
    ∷ codes "mia"
    ∷ codes "zac"
    ∷ codes "zoe"
    ∷ []

unfoldable pub find_voice : List Str → Str → Option Str
find_voice [] name = none
find_voice (v ∷ r) name = if str_eq v name then some v else find_voice r name

unfoldable pub orpheus_voice : Str → Option Str
unfolding find_voice
orpheus_voice name = find_voice orpheus_voices name

unfoldable pub default_voice : Speaker → Str
default_voice host = codes "tara"
default_voice guest = codes "leo"

unfoldable pub voice_id : VoiceRef → Speaker → Outcome Str
unfolding orpheus_voice default_voice is_empty
voice_id (reference clip transcript) speaker = err tts
voice_id (named name) speaker =
    if is_empty name
    then ok (default_voice speaker)
    else elim (orpheus_voice name) [ none ↦ err tts | some v ↦ ok v ]
