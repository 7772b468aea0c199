-- ===== src/Asr/Wav.antt =====
-- lens-core/src/asr/cloud/wav.rs: pcm_to_wav. `to_i16` is f32_sample_to_i16, as the 16 bits of its
-- result; bytes are numbers, and the products and sums of u32 are written out.
pub mod Samples
use lens_lm.Base.{ℕ, ◌+◌, ◌*◌, ◌/◌, ◌%◌, ◌^◌, min, List, [], ◌∷◌, ◌++◌, length, ltb, if◌then◌else◌}
use lens_lm.Base.Outcome.{Outcome, ok, err, validation}
use lens_lm.Base.Text.{codes}

abbrev pub wav_header_bytes : ℕ
wav_header_bytes = 44

abbrev pub bits_per_sample : ℕ
bits_per_sample = 16

abbrev pub num_channels : ℕ
num_channels = 1

abbrev pub pcm_format : ℕ
pcm_format = 1

abbrev u32_max : ℕ
u32_max = 4294967295

-- `to_le_bytes`.
unfoldable pub u16_le : ℕ → List ℕ
u16_le n = (n % 256) ∷ (n / 256 % 256) ∷ []

unfoldable pub u32_le : ℕ → List ℕ
u32_le n = (n % 256) ∷ (n / 256 % 256) ∷ (n / 65536 % 256) ∷ (n / 16777216 % 256) ∷ []

unfoldable pub wav_header : ℕ → ℕ → List ℕ
unfolding u16_le u32_le
wav_header sample_rate data_len =
    let bytes_per_sample = bits_per_sample / 8 in
    let byte_rate = (sample_rate * num_channels * bytes_per_sample) % 2 ^ 32 in
    let block_align = num_channels * (bits_per_sample / 8) in
    let riff_size = min (36 + data_len) u32_max in
    codes "RIFF"
    ++ u32_le riff_size
    ++ codes "WAVE"
    ++ codes "fmt "
    ++ u32_le 16
    ++ u16_le pcm_format
    ++ u16_le num_channels
    ++ u32_le sample_rate
    ++ u32_le byte_rate
    ++ u16_le block_align
    ++ u16_le bits_per_sample
    ++ codes "data"
    ++ u32_le data_len

module _ {F : Type 0} (to_i16 : F → ℕ) where
  unfoldable pub sample_bytes : List F → List ℕ
  unfolding u16_le
  sample_bytes [] = []
  sample_bytes (s ∷ r) = u16_le (to_i16 s) ++ sample_bytes r

  unfoldable pub pcm_to_wav : List F → ℕ → Outcome (List ℕ)
  unfolding wav_header sample_bytes
  pcm_to_wav pcm sample_rate =
      let data_len = length pcm * (bits_per_sample / 8) in
      if ltb u32_max data_len
      then err validation
      else ok (wav_header sample_rate data_len ++ sample_bytes pcm)
