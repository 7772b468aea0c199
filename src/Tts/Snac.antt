-- ===== src/Tts/Snac.antt =====
-- lens-core/src/tts/snac.rs: extract_codes and regroup_frames, which SnacDecoder::decode_inner runs
-- before the network.
pub mod Codes
use lens_lm.Base.{
  ℕ, zero, suc, ◌+◌, ◌-◌, ◌*◌, ◌/◌, ◌%◌, ◌&&◌, Option, none, some, List, [], ◌∷◌, length, ltb, ◌==◌,
  if◌then◌else◌,
}

abbrev pub custom_token_base : ℕ
custom_token_base = 128266

abbrev pub codebook_span : ℕ
codebook_span = 4096

abbrev pub tokens_per_frame : ℕ
tokens_per_frame = 7

-- What a token of position `pos` has besides its code.
abbrev pub token_offset : ℕ → ℕ
token_offset pos = custom_token_base + (pos % tokens_per_frame) * codebook_span

-- `code > 0 && code < CODEBOOK_SPAN`, where `code` is `raw` less the offset, as i64.
unfoldable pub extract_loop : ℕ → List ℕ → List ℕ
extract_loop pos [] = []
extract_loop pos (raw ∷ r) =
    let offset = token_offset pos in
    let kept = (raw - offset) ∷ extract_loop (pos + 1) r in
    let dropped = extract_loop pos r in
    if ltb offset raw && ltb raw (offset + codebook_span) then kept else dropped

unfoldable pub extract_codes : List ℕ → List ℕ
unfolding extract_loop
extract_codes raw_ids = extract_loop 0 raw_ids

-- The loop over the full frames: (c0, c1, c2).
unfoldable pub regroup_loop : List ℕ → List ℕ × List ℕ × List ℕ
regroup_loop (a ∷ b ∷ c ∷ d ∷ e ∷ f ∷ g ∷ r) =
    let rest = regroup_loop r in (a ∷ rest.0, b ∷ e ∷ rest.1, c ∷ d ∷ f ∷ g ∷ rest.2)
regroup_loop codes = ([], [], [])

unfoldable pub regroup_frames : List ℕ → Option (List ℕ × List ℕ × List ℕ)
unfolding regroup_loop
regroup_frames codes =
    if length codes / tokens_per_frame == 0 then none else some (regroup_loop codes)

-- The codes that decode_inner hands to the quantizers.
unfoldable pub decode_frames : List ℕ → Option (List ℕ × List ℕ × List ℕ)
unfolding extract_codes regroup_frames
decode_frames tokens = regroup_frames (extract_codes tokens)
