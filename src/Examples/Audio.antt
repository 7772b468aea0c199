-- ===== src/Examples/Audio.antt =====
-- Runs of the codes and of the token generation of the voice model, and of what is sent to a cloud
-- transcription.
use lens_lm.Base.{
  ℕ, ◌+◌, ◌%◌, ◌≡◌, inl, inr, Bool, false, List, [], ◌∷◌, ltb, ◌==◌, if◌then◌else◌, arith,
}
use lens_lm.Asr.Wav.{pcm_to_wav}
use lens_lm.Asr.Wav.Samples.{Written, pcm_to_wav-Written}
use lens_lm.Asr.Windows.{deepgram, split_if_needed}
use lens_lm.Asr.Windows.Tiling.{Windowed, split_if_needed-Windowed}
use lens_lm.Base.Outcome.{Outcome, ok}
use lens_lm.Tts.Orpheus.{TokenStep, audio, stop, run_token_loop, generate_with_retry}
use lens_lm.Tts.Orpheus.Retries.{Chosen, generate_with_retry-Chosen}
use lens_lm.Tts.Orpheus.Tokens.{Ran, run_token_loop-Ran}
use lens_lm.Tts.Snac.{extract_codes}
use lens_lm.Tts.Snac.Codes.{Token, p0, marker, code, raw_ids, codes_of, extract_codes-raw_ids}

abbrev stream : List Token
stream = marker 128000 ∷ code 7 ∷ code 4095 ∷ marker 132362 ∷ marker 156938 ∷ code 1 ∷ []

extract_codes-raw_ids_example : extract_codes (raw_ids p0 stream) ≡ codes_of stream
extract_codes-raw_ids_example = extract_codes-raw_ids stream (
  inl (omega arith),
  (
    omega arith,
    omega arith,
    (
      omega arith,
      omega arith,
      (inl (omega arith), (inr (omega arith), (omega arith, omega arith, tt))),
    ),
  ),
)

abbrev seven : List Token
seven = code 1 ∷ code 2 ∷ code 3 ∷ code 4 ∷ code 5 ∷ code 6 ∷ code 7 ∷ []

-- Three ids and a stop.
abbrev sampler : ℕ → Outcome TokenStep
sampler n = if ltb n 3 then ok (audio (40 + n)) else ok stop

abbrev runs_on : ℕ → Bool
runs_on n = false

run_token_loop-Ran_example : Ran sampler 2 runs_on 9 0 (run_token_loop sampler 2 runs_on 9)
run_token_loop-Ran_example = run_token_loop-Ran sampler 2 runs_on 9

-- The first seed stops early.
abbrev attempts : ℕ → Outcome (List ℕ)
attempts seed = if seed == 1234 then ok (5 ∷ []) else ok (5 ∷ 6 ∷ 7 ∷ [])

generate_with_retry-Chosen_example :
    Chosen ltb 3 runs_on attempts 2 0 [] (generate_with_retry ltb 3 runs_on attempts 1)
generate_with_retry-Chosen_example = generate_with_retry-Chosen ltb 3 runs_on attempts 1

abbrev to_word : ℕ → ℕ
to_word n = n % 65536

pcm_to_wav-Written_example :
    Written to_word
      (λ s. omega arith)
      (1 ∷ 70000 ∷ [])
      16000
      (pcm_to_wav to_word (1 ∷ 70000 ∷ []) 16000)
pcm_to_wav-Written_example =
    pcm_to_wav-Written to_word (λ s. omega arith) (1 ∷ 70000 ∷ []) 16000 (omega arith)

-- Samples are numbers, of which the least is nearest to zero.
split_if_needed-Windowed_example :
    Windowed
      (λ n. n)
      ltb
      99
      0
      (λ a b. a)
      deepgram
      0
      (4 ∷ 0 ∷ 5 ∷ [])
      (split_if_needed (λ n. n) ltb 99 0 (λ a b. a) (4 ∷ 0 ∷ 5 ∷ []) deepgram 0)
split_if_needed-Windowed_example =
    split_if_needed-Windowed (λ n. n) ltb 99 0 (λ a b. a) deepgram 0 (4 ∷ 0 ∷ 5 ∷ []) (omega arith)
