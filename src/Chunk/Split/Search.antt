-- ===== src/Chunk/Split/Search.antt =====
-- find_split: the split it returns, and that it returns.
use mathlib.Core.Option.{get_or}
use lens_lm.Base.{
  ℕ, zero, suc, ◌+◌, ◌-◌, ◌/◌, ◌<◌, ◌≤◌, max, ◌≡◌, ◌⊎◌, inl, inr, refl, Bool-cases, Option, none,
  some, List, [], ◌∷◌, ◌++◌, append-nil, leb, leb→le, ltb, ltb→lt, length, All, arith,
}
use lens_lm.Base.Text.{Str, byte_len, slice, slice_parts}
use lens_lm.Base.Text.Spans.{Boundary-zero, byte_len_pos}
use lens_lm.Chunk.Types.{Tokenizer, token_count, index}
use lens_lm.Chunk.Ends.{Ends, Ends-bind, Ends-token_count, Ends-index}
use lens_lm.Chunk.Split.{
  char_indices, offsets, char_boundaries, search_cut, search, first_or, hard_split, after_ws,
  find_split,
}
use lens_lm.Chunk.Split.Cuts.{
  Cut, char_indices-Boundary, ws_boundaries-Cut, char_boundaries-Cut, All-get_elem?,
}

p_nil : (p : Str) → byte_len p ≡ 0 → p ≡ []
p_nil [] h = refl
p_nil (c ∷ p) h = absurd (omega (arith, byte_len_pos c p))

mid_lt : (lo hi : ℕ) → lo < hi → lo + (hi - lo) / 2 < hi
mid_lt lo hi h = omega arith

module _ (tokenizer : Tokenizer) (text : Str) (limit : ℕ) where
  -- The first `n` bytes of the text are a front of at most `limit` tokens.
  abbrev pub Fitting : ℕ → Type 0
  Fitting n =
      (front : Str) × (rest : Str) × (k : ℕ) × (front ++ rest ≡ text)
      × (byte_len front ≡ n)
      × (0 < n)
      × (tokenizer.encode front ≡ some k)
      × (k ≤ limit)

  abbrev pub FittingOrNone : Option ℕ → Type 0
  FittingOrNone none = Unit
  FittingOrNone (some n) = Fitting n

  Cut-Fitting :
      (cut k : ℕ) (front : Str)
      → Cut text cut
      → slice text 0 cut ≡ some front
      → tokenizer.encode front ≡ some k
      → k ≤ limit
      → Fitting cut
  Cut-Fitting cut k front c s e h =
      let (p, q, joined, at, len) = slice_parts text 0 cut front s in
      (front, q, k, cc (joined, p_nil p at), omega (arith, len), c.0, e, h)

  module _ (cuts : List ℕ) (all : All (Cut text) cuts) where
    pub search_cut-Fitting :
        (fuel lo hi : ℕ) (best : Option ℕ)
        → hi ≤ length cuts
        → hi - lo < fuel
        → FittingOrNone best
        → Ends tokenizer FittingOrNone (search_cut tokenizer text limit cuts fuel lo hi best)
    unfolding search_cut
    search_cut-Fitting zero lo hi best in_range enough found = absurd (omega arith)
    search_cut-Fitting (suc fuel) lo hi best in_range enough found = elim (Bool-cases (ltb lo hi)) [
      | inl e ↦
          let lt = mid_lt lo hi (ltb→lt lo hi e) in
          let (cut, at, is_cut) =
            All-get_elem? (Cut text) cuts (lo + (hi - lo) / 2) all (omega arith) in
          rw (e, search_cut, at, search_cut)
            (Ends-bind tokenizer (λ t. slice text 0 cut ≡ some t) FittingOrNone (index text 0 cut) _
              (Ends-index tokenizer text 0 cut (Boundary-zero text) is_cut.1 (omega arith))
              λ front _ s.
                Ends-bind tokenizer (λ k. tokenizer.encode front ≡ some k) FittingOrNone
                  (token_count tokenizer front) _ (Ends-token_count tokenizer front)
                  λ k _ counted. elim (Bool-cases (leb k limit)) [
                    | inl small ↦ rw small (
                        search_cut-Fitting fuel (lo + (hi - lo) / 2 + 1) hi (some cut) in_range
                          (omega arith)
                          (Cut-Fitting cut k front is_cut s counted (leb→le k limit small)))
                    | inr large ↦ rw large (
                        search_cut-Fitting fuel lo (lo + (hi - lo) / 2) best (omega arith)
                          (omega arith) found)
                  ])
      | inr e ↦ rw (e, search_cut) found
    ]

  pub search-Fitting :
      (cuts : List ℕ)
      → All (Cut text) cuts
      → Ends tokenizer FittingOrNone (search tokenizer text limit cuts)
  unfolding search
  search-Fitting cuts all =
      search_cut-Fitting cuts all (suc (length cuts)) 0 (length cuts) none (omega arith)
        (omega arith) tt

  -- A front of the text that is not empty, within the limit or of one character.
  abbrev pub IsSplit : ℕ → Type 0
  IsSplit n =
      (front : Str) × (rest : Str) × (front ++ rest ≡ text)
      × (byte_len front ≡ n)
      × (0 < n)
      × (((k : ℕ) × (tokenizer.encode front ≡ some k) × (k ≤ limit)) ⊎ ((c : ℕ) × (front ≡ c ∷ [])))

  Fitting-IsSplit : (n : ℕ) → Fitting n → IsSplit n
  Fitting-IsSplit n (front, rest, k, joined, at, positive, counted, small) =
      (front, rest, joined, at, positive, inl (k, counted, small))

byte_len_nil : byte_len [] ≡ 0
unfolding byte_len
byte_len_nil = refl

first_boundary :
    (c : ℕ) (s : Str) → first_or (char_boundaries (c ∷ s)) (byte_len (c ∷ s)) ≡ byte_len (c ∷ [])
unfolding first_or char_boundaries char_indices offsets byte_len
first_boundary c [] = refl
first_boundary c (d ∷ s) = omega arith

module _ (tokenizer : Tokenizer) (limit c : ℕ) (s : Str) where
  hard_split-IsSplit :
      Ends tokenizer (IsSplit tokenizer (c ∷ s) limit) (hard_split tokenizer (c ∷ s) limit)
  unfolding hard_split
  hard_split-IsSplit =
      Ends-bind tokenizer (FittingOrNone tokenizer (c ∷ s) limit) (IsSplit tokenizer (c ∷ s) limit)
        (search tokenizer (c ∷ s) limit (char_boundaries (c ∷ s))) _
        (search-Fitting tokenizer (c ∷ s) limit _ (char_boundaries-Cut (c ∷ s)))
        λ found _ fits. settle found fits
    where
      settle :
          (found : Option ℕ)
          → FittingOrNone tokenizer (c ∷ s) limit found
          → IsSplit tokenizer
              (c ∷ s)
              limit
              (max (get_or found (first_or (char_boundaries (c ∷ s)) (byte_len (c ∷ s)))) 1)
      settle none fits = (
        c ∷ [],
        s,
        refl,
        omega (arith, first_boundary c s, byte_len_pos c []),
        omega arith,
        inr (c, refl),
      )
      settle (some n) (front, rest, k, joined, at, positive, counted, small) =
          (front, rest, joined, omega arith, omega arith, inl (k, counted, small))

  -- On a text that is not empty, find_split does not panic, whatever the tokenizer counts. An `ok`
  -- splits the text at a char boundary behind its first byte, and the front has at most `limit`
  -- tokens or is one character. An error is the tokenizer's.
  pub find_split-IsSplit :
      Ends tokenizer (IsSplit tokenizer (c ∷ s) limit) (find_split (c ∷ s) tokenizer limit)
  unfolding find_split
  find_split-IsSplit =
      Ends-bind tokenizer (λ k. tokenizer.encode (c ∷ s) ≡ some k) (IsSplit tokenizer (c ∷ s) limit)
        (token_count tokenizer (c ∷ s)) _ (Ends-token_count tokenizer (c ∷ s))
        λ k _ counted. elim (Bool-cases (leb k limit)) [
          | inl small ↦ rw small (
            c ∷ s,
            [],
            append-nil (c ∷ s),
            refl,
            byte_len_pos c s,
            inl (k, counted, leb→le k limit small),
          )
          | inr large ↦ rw large (
              Ends-bind tokenizer (FittingOrNone tokenizer (c ∷ s) limit)
                (IsSplit tokenizer (c ∷ s) limit) (search tokenizer (c ∷ s) limit _) _
                (search-Fitting tokenizer (c ∷ s) limit _ (
                  ws_boundaries-Cut (c ∷ s) _
                    (char_indices-Boundary (c ∷ s) [] (c ∷ s) 0 refl byte_len_nil)))
                λ found _ fits. settle found fits)
        ]
    where
      settle :
          (found : Option ℕ)
          → FittingOrNone tokenizer (c ∷ s) limit found
          → Ends tokenizer
              (IsSplit tokenizer (c ∷ s) limit)
              (after_ws (c ∷ s) tokenizer limit found)
      settle none fits = hard_split-IsSplit
      settle (some n) fits = Fitting-IsSplit tokenizer (c ∷ s) limit n fits
