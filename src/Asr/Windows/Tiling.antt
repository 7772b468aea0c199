-- ===== src/Asr/Windows/Tiling.antt =====
-- The windows tile the recording, and each fits in a request.
use lens_lm.Base.{
  ℕ, zero, suc, ◌+◌, ◌-◌, ◌*◌, ◌/◌, max, ◌≤◌, ◌<◌, ◌≡◌, ◌∙◌, sym, ap, ◌⊎◌, refl, Bool, Bool-cases,
  true, ◌&&◌, inl, inr, List, [], ◌∷◌, ◌++◌, length, take, drop, take-append-drop, length-take,
  length-drop, ltb, leb, arith,
}
use lens_lm.Base.Outcome.{Outcome, ok, ◌>>=◌}
use lens_lm.Chunk.Parent.{is_empty}
use lens_lm.Asr.Windows.{
  CloudAsrProvider, openai_compatible, deepgram, max_payload_bytes, max_samples_per_chunk,
  payload_budget, PcmChunk, window_end, slice_samples, split_loop, split_if_needed,
}
use lens_lm.Asr.Windows.Crossing.{window_end-within}

drop_nil : {A : Type 0} (n : ℕ) → drop {A = A} n [] ≡ []
drop_nil zero = refl
drop_nil (suc n) = refl

drop-drop : {A : Type 0} (m n : ℕ) (xs : List A) → drop n (drop m xs) ≡ drop (m + n) xs
drop-drop zero n xs = ap (λ k. drop k xs) (omega arith)
drop-drop (suc m) n [] = drop_nil n ∙ sym (drop_nil (suc m + n))
drop-drop (suc m) n (x ∷ xs) =
    let e : suc (m + n) ≡ suc m + n = omega arith in drop-drop m n xs ∙ ap (λ k. drop k (x ∷ xs)) e

drop_all : {A : Type 0} (n : ℕ) (xs : List A) → length xs ≤ n → drop n xs ≡ []
drop_all zero [] h = refl
drop_all (suc n) [] h = refl
drop_all zero (x ∷ xs) h = absurd (omega arith)
drop_all (suc n) (x ∷ xs) h = drop_all n xs (omega arith)

-- The bytes of a request: a WAV, or the samples as f32.
abbrev pub payload_bytes : CloudAsrProvider → ℕ → ℕ
payload_bytes openai_compatible n = 44 + 2 * n
payload_bytes deepgram n = 4 * n

abbrev pub FitsRequest : CloudAsrProvider → ℕ → Type 0
FitsRequest provider n = payload_bytes provider n ≤ max_payload_bytes provider

max_samples-FitsRequest :
    (provider : CloudAsrProvider) (rate n : ℕ)
    → rate ≤ 100000
    → n ≤ max_samples_per_chunk provider rate + max (rate / 100) 1
    → FitsRequest provider n
unfolding max_samples_per_chunk payload_budget max_payload_bytes
max_samples-FitsRequest openai_compatible rate n r h = omega arith
max_samples-FitsRequest deepgram rate n r h = omega arith

module _ {F : Type 0} (abs : F → F) (lt : F → F → Bool) (infinity zero_f : F) (quotient : ℕ → ℕ → F)
    (provider : CloudAsrProvider) (rate : ℕ) where
  -- The chunks, from the sample `start` on, are `rest` cut in pieces: none is empty, each fits in a
  -- request, and its time is that of its first sample.
  abbrev pub IsTiling : ℕ → List (PcmChunk F) → List F → Type 0
  IsTiling start [] rest = rest ≡ []
  IsTiling start (c ∷ cs) rest =
      (1 ≤ length c.samples)
      × FitsRequest provider (length c.samples)
      × (c.start_second ≡ quotient start rate)
      × ((tail : List F) × (rest ≡ c.samples ++ tail) × IsTiling (start + length c.samples) cs tail)

  module _ (pcm : List F) (small : rate ≤ 100000) where
    abbrev max_samples : ℕ
    max_samples = max_samples_per_chunk provider rate

    abbrev radius : ℕ
    radius = max (rate / 100) 1

    -- A loop that ends, and what it gives.
    abbrev Tiles : ℕ → List F → Outcome (List (PcmChunk F)) → Type 0
    Tiles start rest o = (chunks : List (PcmChunk F)) × (o ≡ ok chunks) × IsTiling start chunks rest

    first-Tiles :
        (start end : ℕ) (o : Outcome (List (PcmChunk F)))
        → start < end
        → end ≤ length pcm
        → end ≤ start + max_samples + radius
        → Tiles end (drop end pcm) o
        → Tiles start (drop start pcm) (
            slice_samples abs lt infinity zero_f quotient pcm start end >>= λ samples. o >>= λ rest.
            ok ((record { samples = samples; start_second = quotient start rate }) ∷ rest))
    unfolding slice_samples
    first-Tiles start end o after within short (chunks, e, tiling) =
        let rest = drop start pcm in
        let size : length (take (end - start) rest) ≡ end - start =
          omega (arith, length-take (end - start) rest, length-drop start pcm) in
        let next : start + length (take (end - start) rest) ≡ end = omega (arith, size) in
        let tail : drop (end - start) rest ≡ drop end pcm =
          drop-drop start (end - start) pcm ∙ ap (λ k. drop k pcm) (omega arith) in
        let inside : (leb start end && leb end (length pcm)) ≡ true =
          ground (arith, after, within) in
        rw (inside, e)
          (
            _,
            refl,
            (
              omega (arith, size),
              max_samples-FitsRequest provider rate _ small (omega (arith, size)),
              refl,
              (
                drop end pcm,
                sym (take-append-drop (end - start) rest)
                    ∙ ap (λ t. take (end - start) rest ++ t) tail,
                rw next tiling,
              ),
            ),
          )

    split_loop-Tiles :
        (fuel start : ℕ)
        → start ≤ length pcm
        → length pcm ≤ start + fuel
        → Tiles start
            (drop start pcm)
            (split_loop abs lt infinity zero_f quotient pcm max_samples radius rate fuel start)
    unfolding split_loop
    split_loop-Tiles zero start h enough = ([], refl, drop_all start pcm (omega arith))
    split_loop-Tiles (suc fuel) start h enough = elim (Bool-cases (ltb start (length pcm))) [
      | inl e ↦
          let end = window_end abs lt infinity zero_f quotient pcm max_samples radius start in
          let (after, within, short) =
            window_end-within abs lt infinity zero_f quotient pcm max_samples radius start
              (ground (arith, e)) (omega arith) in
          rw (e, split_loop)
            (first-Tiles start end _ (omega arith) within (omega arith)
              (split_loop-Tiles fuel end within (omega arith)))
      | inr e ↦ rw (e, split_loop) ([], refl, drop_all start pcm (ground (arith, e)))
    ]

  -- What split_if_needed makes of a recording: the recording, if it fits, or windows that tile it.
  abbrev pub Windowed : List F → Outcome (List (PcmChunk F)) → Type 0
  Windowed pcm o =
      ((o ≡ ok ((record { samples = pcm; start_second = zero_f }) ∷ []))
        × FitsRequest provider (length pcm))
      ⊎ ((chunks : List (PcmChunk F)) × (max_samples_per_chunk provider rate < length pcm)
          × (o ≡ ok chunks)
          × IsTiling 0 chunks pcm)

  -- At a sample rate up to 100000, split_if_needed does not panic. It either passes the recording on, which then fits in
  -- a request, or cuts it: the windows are the recording cut in pieces, none empty, each with the time
  -- of its first sample, and each fits in a request although its end moved to a zero crossing.
  pub split_if_needed-Windowed :
      (pcm : List F)
      → rate ≤ 100000
      → Windowed pcm (split_if_needed abs lt infinity zero_f quotient pcm provider rate)
  unfolding split_if_needed is_empty
  split_if_needed-Windowed [] small =
      inl (refl, max_samples-FitsRequest provider rate 0 small (omega arith))
  split_if_needed-Windowed (x ∷ r) small =
      elim (Bool-cases (leb (length (x ∷ r)) (max_samples_per_chunk provider rate))) [
        | inl e ↦
            rw e (inl (refl, max_samples-FitsRequest provider rate _ small (ground (arith, e))))
        | inr e ↦
            let (chunks, done, tiling) =
              split_loop-Tiles (x ∷ r) small (length (x ∷ r)) 0 (omega arith) (omega arith) in
            rw e (inr (chunks, ground (arith, e), done, tiling))
      ]
