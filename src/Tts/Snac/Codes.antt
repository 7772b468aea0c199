-- ===== src/Tts/Snac/Codes.antt =====
-- Codes at the ids of their places survive the token stream, and the frames hold each code of a full frame once.
use lens_lm.Base.{
  ℕ, ◌+◌, ◌%◌, ◌*◌, ◌/◌, ◌<◌, ◌≤◌, ◌≡◌, refl, ap, ◌⊎◌, ◌&&◌, Bool-cases, inl, inr, Option, none,
  some, List, [], ◌∷◌, ◌++◌, length, All, ltb, ◌==◌, arith,
}
use lens_lm.Tts.Snac.{
  codebook_span, token_offset, extract_loop, extract_codes, regroup_loop, regroup_frames,
  decode_frames,
}

-- What a model may emit: a marker, or the token of a code.
pub data Token : Type 0 where
  marker : ℕ → Token
  code : ℕ → Token

-- The seven places of a frame, and the id before the first of each.
pub data Place : Type 0 where
  p0 p1 p2 p3 p4 p5 p6 : Place

abbrev pub floor_of : Place → ℕ
floor_of p0 = 128266
floor_of p1 = 132362
floor_of p2 = 136458
floor_of p3 = 140554
floor_of p4 = 144650
floor_of p5 = 148746
floor_of p6 = 152842

abbrev pub next_place : Place → Place
next_place p0 = p1
next_place p1 = p2
next_place p2 = p3
next_place p3 = p4
next_place p4 = p5
next_place p5 = p6
next_place p6 = p0

abbrev index_of : Place → ℕ
index_of p0 = 0
index_of p1 = 1
index_of p2 = 2
index_of p3 = 3
index_of p4 = 4
index_of p5 = 5
index_of p6 = 6

-- The ids of a stream from a place on: only codes take a place.
abbrev pub raw_ids : Place → List Token → List ℕ
raw_ids place [] = []
raw_ids place (marker m ∷ r) = m ∷ raw_ids place r
raw_ids place (code c ∷ r) = (floor_of place + c) ∷ raw_ids (next_place place) r

abbrev pub codes_of : List Token → List ℕ
codes_of [] = []
codes_of (marker m ∷ r) = codes_of r
codes_of (code c ∷ r) = c ∷ codes_of r

-- A code is 1 to 4095, and a marker any id that is none of such a code at its place.
abbrev pub IsStream : Place → List Token → Type 0
IsStream place [] = Unit
IsStream place (marker m ∷ r) =
    ((m ≤ floor_of place) ⊎ (floor_of place + 4096 ≤ m)) × IsStream place r
IsStream place (code c ∷ r) = (0 < c) × (c < 4096) × IsStream (next_place place) r

place_lem :
    (pos : ℕ) (place : Place)
    → pos % 7 ≡ index_of place
    → (token_offset pos ≡ floor_of place) × ((pos + 1) % 7 ≡ index_of (next_place place))
place_lem pos p0 h = (omega arith, omega arith)
place_lem pos p1 h = (omega arith, omega arith)
place_lem pos p2 h = (omega arith, omega arith)
place_lem pos p3 h = (omega arith, omega arith)
place_lem pos p4 h = (omega arith, omega arith)
place_lem pos p5 h = (omega arith, omega arith)
place_lem pos p6 h = (omega arith, omega arith)

extract_loop-raw_ids :
    (pos : ℕ) (place : Place) (ts : List Token)
    → pos % 7 ≡ index_of place
    → IsStream place ts
    → extract_loop pos (raw_ids place ts) ≡ codes_of ts
unfolding extract_loop
extract_loop-raw_ids pos place [] at all = refl
extract_loop-raw_ids pos place (marker m ∷ r) at (inl low, all) =
    let (floor, next) = place_lem pos place at in
    ground (arith, floor, extract_loop-raw_ids pos place r at all)
extract_loop-raw_ids pos place (marker m ∷ r) at (inr high, all) =
    let (floor, next) = place_lem pos place at in
    ground (arith, floor, extract_loop-raw_ids pos place r at all)
extract_loop-raw_ids pos place (code c ∷ r) at (positive, small, all) =
    let (floor, next) = place_lem pos place at in
    ground (arith, floor, extract_loop-raw_ids (pos + 1) (next_place place) r next all)

-- A stream of codes 1 to 4095, each with the floor of its place among the seven of a frame, is read
-- back as these codes. Between them any other ids may stand, also those of another place: they are
-- left out, and take no place.
pub extract_codes-raw_ids :
    (ts : List Token) → IsStream p0 ts → extract_codes (raw_ids p0 ts) ≡ codes_of ts
unfolding extract_codes
extract_codes-raw_ids ts all = extract_loop-raw_ids 0 p0 ts refl all

-- The frames' codes in the order of the stream.
abbrev pub ungroup : List ℕ → List ℕ → List ℕ → List ℕ
ungroup (a ∷ r0) (b ∷ e ∷ r1) (c ∷ d ∷ f ∷ g ∷ r2) = a ∷ b ∷ c ∷ d ∷ e ∷ f ∷ g ∷ ungroup r0 r1 r2
ungroup c0 c1 c2 = []

abbrev InCodebook : ℕ → Type 0
InCodebook c = (0 < c) × (c < codebook_span)

extract_loop-InCodebook : (pos : ℕ) (raw : List ℕ) → All InCodebook (extract_loop pos raw)
unfolding extract_loop
extract_loop-InCodebook pos [] = tt
extract_loop-InCodebook pos (x ∷ r) =
    elim (Bool-cases (ltb (token_offset pos) x && ltb x (token_offset pos + codebook_span))) [
      | inl e ↦ rw e ((ground arith, ground arith), extract_loop-InCodebook (pos + 1) r)
      | inr e ↦ rw e (extract_loop-InCodebook pos r)
    ]

-- What the loop keeps of the codes.
abbrev pub Regrouped : List ℕ → List ℕ × List ℕ × List ℕ → Type 0
Regrouped codes (c0, c1, c2) =
    (length c1 ≡ 2 * length c0)
    × (length c2 ≡ 4 * length c0)
    × All InCodebook c0
    × All InCodebook c1
    × All InCodebook c2
    × ((rest : List ℕ) × (length rest < 7) × (ungroup c0 c1 c2 ++ rest ≡ codes))

regroup_loop-Regrouped :
    (codes : List ℕ) → All InCodebook codes → Regrouped codes (regroup_loop codes)
unfolding regroup_loop
regroup_loop-Regrouped (a ∷ b ∷ c ∷ d ∷ e ∷ f ∷ g ∷ r)
      (ha, (hb, (hc, (hd, (he, (hf, (hg, all))))))) =
    let (two, four, all0, all1, all2, (rest, short, joined)) = regroup_loop-Regrouped r all in
    (
      omega arith,
      omega arith,
      (ha, all0),
      (hb, (he, all1)),
      (hc, (hd, (hf, (hg, all2)))),
      (rest, short, ap (λ t. a ∷ b ∷ c ∷ d ∷ e ∷ f ∷ g ∷ t) joined),
    )
regroup_loop-Regrouped codes all = (refl, refl, tt, tt, tt, (codes, omega arith, refl))

-- What decode_frames promises of the codes that it reads.
abbrev pub Decoded : List ℕ → Option (List ℕ × List ℕ × List ℕ) → Type 0
Decoded codes none = length codes < 7
Decoded codes (some frames) = (7 ≤ length codes) × Regrouped codes frames

-- On any token stream decode_frames fails exactly below seven codes. Else the three codebooks have
-- one, two and four codes to the frame, all of them 1 to 4095, and in the stream's order they are
-- the codes read, but for less than a frame at the end.
pub decode_frames-Decoded :
    (tokens : List ℕ) → Decoded (extract_codes tokens) (decode_frames tokens)
unfolding decode_frames regroup_frames extract_codes
decode_frames-Decoded tokens =
    let codes = extract_loop 0 tokens in
    elim (Bool-cases (length codes / 7 == 0)) [
      | inl e ↦ rw e (ground arith)
      | inr e ↦ rw e (ground arith, regroup_loop-Regrouped codes (extract_loop-InCodebook 0 tokens))
    ]
