-- ===== src/Retrieval/Structural/Roman.antt =====
-- Roman numerals below 4000 are read as their number, and "chapter iv" as a chapter.
use lens_lm.Base.{
  ℕ, zero, suc, ◌+◌, ◌-◌, ◌*◌, ◌/◌, ◌%◌, ◌^◌, ◌<◌, ◌≡◌, refl, ap, inl, inr, Bool, true, Bool-cases,
  ◌&&◌, Option, none, some, List, [], ◌∷◌, ◌++◌, append-nil, not, All, get_or, ltb, arith,
}
use lens_lm.Base.Text.{Str, codes, str_eq, str_eq_sound}
use lens_lm.Citation.Markers.{is_digit}
use lens_lm.Retrieval.Structural.{
  StructuralKind, StructuralTarget, ordinal, structural_noun, words, ordinals, position,
  word_cardinal, roman_value, all_roman, next_value, roman_sums, roman_cardinal, take_digits,
  cardinal_of, parse_cardinal, optional_cardinal, first_token, ordinal_loop, detect_tokens,
}

-- A decimal digit by the letters for one, five and ten of its place.
abbrev pub roman_digit : ℕ → ℕ → ℕ → ℕ → Str
roman_digit i v x d =
    get_or
      ([]
        ∷ (i ∷ [])
        ∷ (i ∷ i ∷ [])
        ∷ (i ∷ i ∷ i ∷ [])
        ∷ (i ∷ v ∷ [])
        ∷ (v ∷ [])
        ∷ (v ∷ i ∷ [])
        ∷ (v ∷ i ∷ i ∷ [])
        ∷ (v ∷ i ∷ i ∷ i ∷ [])
        ∷ (i ∷ x ∷ [])
        ∷ [])
      d []

abbrev pub roman : ℕ → Str
roman n =
    get_or ([] ∷ codes "m" ∷ codes "mm" ∷ codes "mmm" ∷ []) (n / 1000) []
    ++ (roman_digit b'c' b'd' b'm' (n / 100 % 10)
        ++ (roman_digit b'x' b'l' b'c' (n / 10 % 10) ++ roman_digit b'i' b'v' b'x' (n % 10)))

digit_cases :
    (P : ℕ → Type 0)
    → P 0
    → P 1
    → P 2
    → P 3
    → P 4
    → P 5
    → P 6
    → P 7
    → P 8
    → P 9
    → (d : ℕ) → d < 10
    → P d
digit_cases P a b c d e f g h i j zero lt = a
digit_cases P a b c d e f g h i j (suc zero) lt = b
digit_cases P a b c d e f g h i j (suc (suc zero)) lt = c
digit_cases P a b c d e f g h i j (suc (suc (suc zero))) lt = d
digit_cases P a b c d e f g h i j (suc (suc (suc (suc zero)))) lt = e
digit_cases P a b c d e f g h i j (suc (suc (suc (suc (suc zero))))) lt = f
digit_cases P a b c d e f g h i j (suc (suc (suc (suc (suc (suc zero)))))) lt = g
digit_cases P a b c d e f g h i j (suc (suc (suc (suc (suc (suc (suc zero))))))) lt = h
digit_cases P a b c d e f g h i j (suc (suc (suc (suc (suc (suc (suc (suc zero)))))))) lt = i
digit_cases P a b c d e f g h i j (suc (suc (suc (suc (suc (suc (suc (suc (suc zero))))))))) lt = j
digit_cases P a b c d e f g h i j (suc (suc (suc (suc (suc (suc (suc (suc (suc (suc n)))))))))) lt =
    absurd (omega arith)

-- What a numeral adds up to, is made of, and begins with.
abbrev Reads : Str → ℕ → ℕ → Type 0
Reads s n bound =
    (all_roman s ≡ true) × (next_value s < bound) × ((roman_sums s).0 ≡ (roman_sums s).1 + n)

-- One place before the numeral of the lower places.
Steps : ℕ → ℕ → ℕ → ℕ → ℕ → Type 0
Steps i v x one d =
    (s : Str) (n : ℕ) → Reads s n one → Reads (roman_digit i v x d ++ s) (d * one + n) (one * 10)

steps :
    (i v x one : ℕ)
    → roman_value i ≡ one
    → roman_value v ≡ 5 * one
    → roman_value x ≡ 10 * one
    → 0 < one
    → (d : ℕ) → d < 10
    → Steps i v x one d
unfolding Steps all_roman next_value roman_sums
steps i v x one ei ev ex pos =
    digit_cases (Steps i v x one)
      (λ (s : Str) (n : ℕ) (h : Reads s n one). (h.0, omega (arith, h), omega (arith, h)))
      (λ (s : Str) (n : ℕ) (h : Reads s n one). (ground arith, ground arith, ground arith))
      (λ (s : Str) (n : ℕ) (h : Reads s n one). (ground arith, ground arith, ground arith))
      (λ (s : Str) (n : ℕ) (h : Reads s n one). (ground arith, ground arith, ground arith))
      (λ (s : Str) (n : ℕ) (h : Reads s n one). (ground arith, ground arith, ground arith))
      (λ (s : Str) (n : ℕ) (h : Reads s n one). (ground arith, ground arith, ground arith))
      (λ (s : Str) (n : ℕ) (h : Reads s n one). (ground arith, ground arith, ground arith))
      (λ (s : Str) (n : ℕ) (h : Reads s n one). (ground arith, ground arith, ground arith))
      (λ (s : Str) (n : ℕ) (h : Reads s n one). (ground arith, ground arith, ground arith))
      (λ (s : Str) (n : ℕ) (h : Reads s n one). (ground arith, ground arith, ground arith))

thousands :
    (k : ℕ) (s : Str) (n : ℕ)
    → k < 4
    → Reads s n 1000
    → Reads (get_or ([] ∷ codes "m" ∷ codes "mm" ∷ codes "mmm" ∷ []) k [] ++ s) (k * 1000 + n) 1001
unfolding all_roman next_value roman_sums roman_value
thousands zero s n lt h = (h.0, omega (arith, h), omega (arith, h))
thousands (suc zero) s n lt h = (ground arith, ground arith, ground arith)
thousands (suc (suc zero)) s n lt h = (ground arith, ground arith, ground arith)
thousands (suc (suc (suc zero))) s n lt h = (ground arith, ground arith, ground arith)
thousands (suc (suc (suc (suc k)))) s n lt h = absurd (omega arith)

roman-Reads : (n : ℕ) → n < 4000 → Reads (roman n) n 1001
unfolding Steps
roman-Reads n lt =
    let nothing : Reads [] 0 1 =
      unfold all_roman next_value roman_sums in (refl, omega arith, omega arith) in
    let us =
      steps b'i' b'v' b'x' 1 (unfold roman_value in refl) (unfold roman_value in refl)
        (unfold roman_value in refl) (omega arith) (n % 10) (omega arith) [] 0 nothing in
    let ts =
      steps b'x' b'l' b'c' 10 (unfold roman_value in refl) (unfold roman_value in refl)
        (unfold roman_value in refl) (omega arith) (n / 10 % 10) (omega arith) _ _ us in
    let hs =
      steps b'c' b'd' b'm' 100 (unfold roman_value in refl) (unfold roman_value in refl)
        (unfold roman_value in refl) (omega arith) (n / 100 % 10) (omega arith) _ _ ts in
    let ms = thousands (n / 1000) _ _ (omega arith) hs in
    let total : n / 1000 * 1000 + (n / 100 % 10 * 100 + (n / 10 % 10 * 10 + (n % 10 * 1 + 0))) ≡ n =
      omega arith in
    rw (append-nil (roman_digit b'i' b'v' b'x' (n % 10)), total) at ms

-- A numeral that reads as a number is read as it.
Reads-roman_cardinal :
    (s : Str) (n bound : ℕ) → Reads s n bound → 0 < n → n < 4000 → roman_cardinal s ≡ some n
unfolding roman_cardinal
Reads-roman_cardinal [] n bound (all, next, sums) pos lt = absurd (unfold roman_sums in omega arith)
Reads-roman_cardinal (c ∷ s) n bound (all, next, sums) pos lt =
    let less : ltb (roman_sums (c ∷ s)).1 (roman_sums (c ∷ s)).0 ≡ true = ground (arith, sums) in
    let e : ((roman_sums (c ∷ s)).0 - (roman_sums (c ∷ s)).1) % 2 ^ 32 ≡ n = omega (arith, sums) in
    rw (all, less, roman_cardinal, e) refl

-- A numeral has no digits in front, and is no word.
take_digits-all_roman : (s : Str) → all_roman s ≡ true → take_digits s ≡ ([], s)
unfolding take_digits all_roman roman_value is_digit
take_digits-all_roman [] h = refl
take_digits-all_roman (c ∷ s) h = ground arith

abbrev none_roman : List Str → Bool
none_roman [] = true
none_roman (w ∷ ws) = not (all_roman w) && none_roman ws

position-all_roman :
    (ws : List Str) (tok : Str) (i : ℕ)
    → none_roman ws ≡ true
    → all_roman tok ≡ true
    → position ws tok i ≡ none
unfolding position
position-all_roman [] tok i h all = refl
position-all_roman (w ∷ ws) tok i h all = elim (Bool-cases (str_eq w tok)) [
  | inl e ↦
      let same : w ≡ tok = str_eq_sound w tok e in
      absurd (ground (arith, h, all, same, ap all_roman same))
  | inr e ↦ rw (e, position) (position-all_roman ws tok (i + 1) (ground (arith, h)) all)
]

word_cardinal-all_roman : (tok : Str) → all_roman tok ≡ true → word_cardinal tok ≡ none
unfolding word_cardinal
word_cardinal-all_roman tok all =
    rw
      (
        position-all_roman words tok 0 (unfold all_roman roman_value in refl) all,
        word_cardinal,
        position-all_roman ordinals tok 0 (unfold all_roman roman_value in refl) all,
      )
      refl

parse_cardinal-roman : (n : ℕ) → 0 < n → n < 4000 → parse_cardinal (roman n) ≡ some n
unfolding parse_cardinal cardinal_of
parse_cardinal-roman n pos lt =
    let reads = roman-Reads n lt in
    rw
      (
        take_digits-all_roman (roman n) reads.0,
        word_cardinal-all_roman (roman n) reads.0,
        cardinal_of,
      )
      (Reads-roman_cardinal (roman n) n 1001 reads pos lt)

-- A loop passes the tokens that are no nouns.
ordinal_loop-append :
    (pre : List Str) (prev : Option Str) (toks : List Str) (target : StructuralTarget)
    → All (λ (t : Str). structural_noun t ≡ none) pre
    → ((p : Option Str) → ordinal_loop p toks ≡ some target)
    → ordinal_loop prev (pre ++ toks) ≡ some target
unfolding ordinal_loop
ordinal_loop-append [] prev toks target all h = h prev
ordinal_loop-append (t ∷ pre) prev toks target (plain, all) h =
    rw (plain, ordinal_loop) (ordinal_loop-append pre (some t) toks target all h)

-- The first noun of a query, with the roman numeral of a number from 1 to 3999 behind it, is taken for
-- that number, whatever stands before the noun and behind the numeral.
pub detect_tokens-roman :
    (pre post : List Str) (noun : Str) (kind : StructuralKind) (n : ℕ)
    → All (λ (t : Str). structural_noun t ≡ none) pre
    → structural_noun noun ≡ some kind
    → 0 < n
    → n < 4000
    → detect_tokens (pre ++ (noun ∷ roman n ∷ post)) ≡ some (ordinal kind n)
unfolding detect_tokens
detect_tokens-roman pre post noun kind n all is_noun pos lt =
    let at_noun : (p : Option Str)
        → ordinal_loop p (noun ∷ roman n ∷ post) ≡ some (ordinal kind n) =
      λ (p : Option Str).
        unfold ordinal_loop first_token optional_cardinal in
        (rw (is_noun, ordinal_loop, parse_cardinal-roman n pos lt) refl) in
    rw
      (
        ordinal_loop-append pre none (noun ∷ roman n ∷ post) (ordinal kind n) all at_noun,
        detect_tokens,
      )
      refl
