-- ===== src/Asr/Wav/Samples.antt =====
-- A WAV is read back as its samples.
use lens_lm.Base.{
  ℕ, ◌+◌, ◌*◌, ◌/◌, ◌%◌, ◌^◌, ◌≤◌, ◌<◌, ◌≡◌, ◌∙◌, ap, refl, Bool-cases, Bool, inl, inr, min, Option,
  none, some, List, [], ◌∷◌, ◌++◌, map, length, ltb, ◌==◌, ◌&&◌, if◌then◌else◌, arith,
}
use lens_lm.Base.Outcome.{Outcome, ok, err, panic, validation}
use lens_lm.Base.Text.{codes, Str, str_eq}
use lens_lm.Asr.Wav.{u16_le, u32_le, wav_header, sample_bytes, pcm_to_wav}

-- A reader of 16-bit mono WAV data: the sample rate and the samples.
abbrev pub word : ℕ → ℕ → ℕ
word a b = a + 256 * b

abbrev pub long : ℕ → ℕ → ℕ → ℕ → ℕ
long a b c d = a + 256 * b + 65536 * c + 16777216 * d

abbrev pub read_words : List ℕ → List ℕ
read_words (a ∷ b ∷ r) = word a b ∷ read_words r
read_words r = []

u16_le_word : (n : ℕ) → n < 2 ^ 16 → word (n % 256) (n / 256 % 256) ≡ n
u16_le_word n h = omega arith

u32_le_long :
    (n : ℕ) → n < 2 ^ 32 → long (n % 256) (n / 256 % 256) (n / 65536 % 256) (n / 16777216 % 256) ≡ n
u32_le_long n h = omega arith

-- The header's fields, each in its place, must agree with each other and with the bytes behind.
abbrev pub is_header : Str → ℕ → Str → Str → ℕ → ℕ → ℕ → ℕ → ℕ → ℕ → ℕ → Str → ℕ → ℕ → Bool
is_header riff size wave fmt fmt_size format channels rate byte_rate align bits body len behind =
    str_eq riff (codes "RIFF")
    && str_eq wave (codes "WAVE")
    && str_eq fmt (codes "fmt ")
    && str_eq body (codes "data")
    && fmt_size == 16
    && format == 1
    && channels == 1
    && byte_rate == 2 * rate
    && align == 2
    && bits == 16
    && len == behind
    && size == min (36 + len) 4294967295

abbrev pub read_wav : List ℕ → Option (ℕ × List ℕ)
read_wav
      (r0 ∷ r1 ∷ r2 ∷ r3 ∷ s0 ∷ s1 ∷ s2 ∷ s3 ∷ w0 ∷ w1 ∷ w2 ∷ w3 ∷ f0 ∷ f1 ∷ f2 ∷ f3 ∷ z0 ∷ z1 ∷ z2
        ∷ z3 ∷ p0 ∷ p1 ∷ c0 ∷ c1 ∷ q0 ∷ q1 ∷ q2 ∷ q3 ∷ b0 ∷ b1 ∷ b2 ∷ b3 ∷ a0 ∷ a1 ∷ n0 ∷ n1 ∷ d0
        ∷ d1 ∷ d2 ∷ d3 ∷ l0 ∷ l1 ∷ l2 ∷ l3 ∷ rest) =
    if is_header (r0 ∷ r1 ∷ r2 ∷ r3 ∷ []) (long s0 s1 s2 s3) (w0 ∷ w1 ∷ w2 ∷ w3 ∷ [])
      (f0 ∷ f1 ∷ f2 ∷ f3 ∷ []) (long z0 z1 z2 z3) (word p0 p1) (word c0 c1) (long q0 q1 q2 q3)
      (long b0 b1 b2 b3) (word a0 a1) (word n0 n1) (d0 ∷ d1 ∷ d2 ∷ d3 ∷ []) (long l0 l1 l2 l3)
      (length rest)
    then some (long q0 q1 q2 q3, read_words rest)
    else none
read_wav bytes = none

-- The fields that are not constant, once they are read.
header_agrees :
    (rate data_len size' rate' byte_rate' data_len' : ℕ) (rest : List ℕ)
    → length rest ≡ data_len
    → size' ≡ min (36 + data_len) 4294967295
    → rate' ≡ rate
    → byte_rate' ≡ 2 * rate
    → data_len' ≡ data_len
    → (if◌then◌else◌ {A = Option (ℕ × List ℕ)}
        (is_header
          (codes "RIFF")
          size'
          (codes "WAVE")
          (codes "fmt ")
          16
          1
          1
          rate'
          byte_rate'
          2
          16
          (codes "data")
          data_len'
          (length rest))
        (some (rate', read_words rest))
        none)
      ≡ some (rate, read_words rest)
unfolding str_eq
header_agrees rate data_len size' rate' byte_rate' data_len' rest len s r b d = ground arith

header-read :
    (rate data_len : ℕ) (rest : List ℕ)
    → rate < 2 ^ 31
    → data_len < 2 ^ 32
    → length rest ≡ data_len
    → read_wav (wav_header rate data_len ++ rest) ≡ some (rate, read_words rest)
unfolding wav_header u32_le u16_le
header-read rate data_len rest r d len =
    header_agrees rate data_len _ _ _ _ rest len
      (u32_le_long (min (36 + data_len) 4294967295) (omega arith)) (u32_le_long rate (omega arith))
      (u32_le_long ((rate * 1 * 2) % 2 ^ 32) (omega arith) ∙ omega arith) (u32_le_long data_len d)

module _ {F : Type 0} (to_i16 : F → ℕ) (small : (s : F) → to_i16 s < 2 ^ 16) where
  read_words-sample_bytes : (pcm : List F) → read_words (sample_bytes to_i16 pcm) ≡ map to_i16 pcm
  unfolding sample_bytes u16_le
  read_words-sample_bytes [] = refl
  read_words-sample_bytes (s ∷ r) = cc (u16_le_word (to_i16 s) (small s), read_words-sample_bytes r)

  length-sample_bytes : (pcm : List F) → length (sample_bytes to_i16 pcm) ≡ length pcm * 2
  unfolding sample_bytes u16_le
  length-sample_bytes [] = refl
  length-sample_bytes (s ∷ r) = omega (arith, length-sample_bytes r)

  -- What pcm_to_wav makes of samples.
  abbrev pub Written : List F → ℕ → Outcome (List ℕ) → Type 0
  Written pcm rate (ok bytes) =
      (length bytes ≡ 44 + 2 * length pcm) × (read_wav bytes ≡ some (rate, map to_i16 pcm))
  Written pcm rate (err e) = (e ≡ validation) × (2 ^ 32 ≤ 2 * length pcm)
  Written pcm rate panic = ⊥

  -- For a rate below 2^31: pcm_to_wav fails, as invalid, exactly where the data have more than 2^32 - 1
  -- bytes. Else it makes 44 bytes of header and two bytes to the sample, and a reader that checks
  -- every field of the header gets back the rate and the 16-bit samples.
  pub pcm_to_wav-Written :
      (pcm : List F) (rate : ℕ) → rate < 2 ^ 31 → Written pcm rate (pcm_to_wav to_i16 pcm rate)
  unfolding pcm_to_wav
  pcm_to_wav-Written pcm rate r = elim (Bool-cases (ltb 4294967295 (length pcm * 2))) [
    | inl e ↦ rw e (refl, ground (arith, e))
    | inr e ↦
        let len = length-sample_bytes pcm in
        rw e (
          omega (arith, len),
          (header-read rate (length pcm * 2) (sample_bytes to_i16 pcm) r (ground (arith, e)) len
              ∙ ap (λ w. some (rate, w)) (read_words-sample_bytes pcm)),
        )
  ]
