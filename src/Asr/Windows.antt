-- ===== src/Asr/Windows.antt =====
-- lens-core/src/asr/cloud/chunk.rs: split_if_needed. Parameters are f32: its absolute value, its
-- order, infinity, zero, and the quotient of two numbers. Numbers are unbounded where the code has
-- usize.
pub mod Crossing
pub mod Tiling
use lens_lm.Base.{
  ℕ, zero, suc, ◌+◌, ◌-◌, ◌*◌, ◌/◌, min, max, Bool, true, false, ◌&&◌, ◌||◌, List, [], ◌∷◌, length,
  take, drop, ltb, leb, if◌then◌else◌,
}
use lens_lm.Base.Outcome.{Outcome, ok, panic, ◌>>=◌}
use lens_lm.Chunk.Parent.{is_empty}
use lens_lm.Asr.Wav.{wav_header_bytes}

-- CloudAsrProvider of lens-core/src/config.rs.
pub data CloudAsrProvider : Type 0 where
  openai_compatible deepgram : CloudAsrProvider

unfoldable pub max_payload_bytes : CloudAsrProvider → ℕ
max_payload_bytes openai_compatible = 25 * 1024 * 1024
max_payload_bytes deepgram = 2 * 1024 * 1024 * 1024

abbrev pub deepgram_max_chunk_seconds : ℕ
deepgram_max_chunk_seconds = 480

-- The budget, and the samples that it holds.
unfoldable pub payload_budget : CloudAsrProvider → ℕ
unfolding max_payload_bytes
payload_budget provider = max_payload_bytes provider - (wav_header_bytes + 4096)

unfoldable pub max_samples_per_chunk : CloudAsrProvider → ℕ → ℕ
unfolding payload_budget
max_samples_per_chunk openai_compatible sample_rate = payload_budget openai_compatible / 2
max_samples_per_chunk deepgram sample_rate =
    min (payload_budget deepgram / 4) (deepgram_max_chunk_seconds * sample_rate)

pub record PcmChunk (F : Type 0) : Type 0 where
  pub samples : List F
  pub start_second : F

module _ {F : Type 0} (abs : F → F) (lt : F → F → Bool) (infinity : F) where
  -- The loop over `enumerate().take(hi + 1).skip(lo)`, from index `i` on.
  unfoldable pub crossing_loop : ℕ → ℕ → List F → ℕ → ℕ → F → ℕ
  crossing_loop lo hi [] i best best_abs = best
  crossing_loop lo hi (v ∷ r) i best best_abs =
      let closer = lt (abs v) best_abs in
      let skipped = crossing_loop lo hi r (i + 1) best best_abs in
      let taken =
        crossing_loop lo hi r (i + 1) (if closer then i else best)
          (if closer then abs v else best_abs) in
      if ltb hi i then best else if ltb i lo then skipped else taken

  unfoldable pub nearest_zero_crossing : List F → ℕ → ℕ → ℕ
  unfolding crossing_loop
  nearest_zero_crossing pcm ideal radius =
      let lo = ideal - radius in
      let hi = min (ideal + radius) (length pcm - 1) in
      let best = crossing_loop lo hi pcm 0 (min ideal (length pcm - 1)) infinity in
      max best (max lo 1)

  module _ (zero_f : F) (quotient : ℕ → ℕ → F) where
    unfoldable pub window_end : List F → ℕ → ℕ → ℕ → ℕ
    unfolding nearest_zero_crossing
    window_end pcm max_samples radius start =
        let ideal_end = min (start + max_samples) (length pcm) in
        if leb (length pcm) ideal_end
        then length pcm
        else max (nearest_zero_crossing pcm ideal_end radius) (start + 1)

    -- `&pcm[start..end]`.
    unfoldable pub slice_samples : List F → ℕ → ℕ → Outcome (List F)
    slice_samples pcm start end =
        if leb start end && leb end (length pcm)
        then ok (take (end - start) (drop start pcm))
        else panic

    -- The loop from `start` on; a round takes a sample at least, so that their number is enough fuel.
    unfoldable pub split_loop : List F → ℕ → ℕ → ℕ → ℕ → ℕ → Outcome (List (PcmChunk F))
    unfolding window_end slice_samples
    split_loop pcm max_samples radius sample_rate zero start = ok []
    split_loop pcm max_samples radius sample_rate (suc fuel) start =
        let end = window_end pcm max_samples radius start in
        elim (ltb start (length pcm)) [
          | false ↦ ok []
          | true ↦ do
            samples ← slice_samples pcm start end
            rest ← split_loop pcm max_samples radius sample_rate fuel end
            ok ((record { samples = samples; start_second = quotient start sample_rate }) ∷ rest)
        ]

    unfoldable pub split_if_needed : List F → CloudAsrProvider → ℕ → Outcome (List (PcmChunk F))
    unfolding max_samples_per_chunk split_loop is_empty
    split_if_needed pcm provider sample_rate =
        let max_samples = max_samples_per_chunk provider sample_rate in
        let radius = max (sample_rate / 100) 1 in
        if is_empty pcm || leb (length pcm) max_samples
        then ok ((record { samples = pcm; start_second = zero_f }) ∷ [])
        else split_loop pcm max_samples radius sample_rate (length pcm) 0
