-- ===== src/Chunk/Retile/Chained.antt =====
-- The children's token ranges tile the parent's, and nothing else of a child changes.
use lens_lm.Base.{
  ℕ, ◌+◌, ◌≤◌, ◌≡◌, refl, ap, min, max, Bool-cases, inl, inr, some, List, [], ◌∷◌, map, leb, arith,
}
use lens_lm.Base.Outcome.{ok}
use lens_lm.Base.Text.{Str, byte_len, slice}
use lens_lm.Base.Text.Spans.{Boundary, Boundary-le}
use lens_lm.Chunk.Types.{Tokenizer, Chunk, token_count, index}
use lens_lm.Chunk.Ends.{Ends, Ends-bind, Ends-map, Ends-index, Ends-token_count}
use lens_lm.Chunk.Parent.{ParentWindow}
use lens_lm.Chunk.Retile.{prefix_tokens, retile_from, retile_child_token_offsets}

-- Each token range begins where the one before it ends: the first at `a`, and the last ends at `b`.
abbrev pub Chained : ℕ → ℕ → List Chunk → Type 0
Chained a b [] = a ≡ b
Chained a b (c ∷ r) = (c.token_start ≡ a) × Chained c.token_end b r

-- The children end at char boundaries of the source, in order and not before `lo`.
abbrev pub Rising : Str → ℕ → List Chunk → Type 0
Rising src lo [] = Unit
Rising src lo (c ∷ r) = (lo ≤ c.char_end) × Boundary src c.char_end × Rising src c.char_end r

-- A child without its token range.
abbrev pub untiled : Chunk → Chunk
untiled c = record c { token_start = 0; token_end = 0 }

module _ (src : Str) (tokenizer : Tokenizer) (start : ℕ) (at_start : Boundary src start) where
  prefix_tokens-Ends :
      (b : ℕ)
      → Boundary src b
      → Ends tokenizer (λ _. Unit {0}) (prefix_tokens src start tokenizer b)
  unfolding prefix_tokens
  prefix_tokens-Ends b at_b =
      let clip : min b (byte_len src) ≡ b = omega (arith, Boundary-le src b at_b) in
      rw clip (elim (Bool-cases (leb b start)) [
        | inl e ↦ rw e tt
        | inr e ↦ rw e (
            Ends-bind tokenizer (λ t. slice src start b ≡ some t) (λ _. Unit {0})
              (index src start b) _ (Ends-index tokenizer src start b at_start at_b (ground arith))
              λ t _ _.
                Ends-map tokenizer _ (λ _. Unit {0}) (token_count tokenizer t)
                  (Ends-token_count tokenizer t) λ _ _ _. tt)
      ])

  prefix_tokens_start : prefix_tokens src start tokenizer start ≡ ok 0
  unfolding prefix_tokens
  prefix_tokens_start = ground (arith, Boundary-le src start at_start)

  module _ (from to : ℕ) where
    abbrev IsRetiled : ℕ → List Chunk → List Chunk → Type 0
    IsRetiled a cs out = Chained (from + a) to out × (map untiled out ≡ map untiled cs)

    retile_from-IsRetiled :
        (lo a : ℕ) (c : Chunk) (rest : List Chunk)
        → prefix_tokens src start tokenizer lo ≡ ok a
        → Rising src lo (c ∷ rest)
        → Ends tokenizer
            (IsRetiled a (c ∷ rest))
            (retile_from src start tokenizer from to lo c rest)
    unfolding retile_from
    retile_from-IsRetiled lo a c [] e rising = rw e ((refl, refl), refl)
    retile_from-IsRetiled lo a c (d ∷ rest) e (le, at_c, rising) =
        let clip : min c.char_end (byte_len src) ≡ c.char_end =
          omega (arith, Boundary-le src c.char_end at_c) in
        let on : max c.char_end lo ≡ c.char_end = omega arith in
        rw (e, clip, on)
          (Ends-bind tokenizer (λ _. Unit {0}) (IsRetiled a (c ∷ d ∷ rest))
            (prefix_tokens src start tokenizer c.char_end) _ (prefix_tokens-Ends c.char_end at_c)
            λ b at_b _.
              Ends-bind tokenizer (IsRetiled b (d ∷ rest)) (IsRetiled a (c ∷ d ∷ rest))
                (retile_from src start tokenizer from to c.char_end d rest) _
                (retile_from-IsRetiled c.char_end b d rest at_b rising)
                λ out _ (chained, kept). ((refl, chained), ap (λ r. untiled c ∷ r) kept))

-- Let the children end at char boundaries in order, from the window's start on. Then the retiling
-- does not panic, and an error is the tokenizer's. The token ranges of an `ok` tile the parent's:
-- the first starts where it starts, each other where the one before it ends, and the last ends
-- where it ends. All else of the children stays.
pub retile_child_token_offsets-Chained :
    (src : Str) (win : ParentWindow) (tokenizer : Tokenizer) (from to : ℕ) (c : Chunk)
    (rest : List Chunk)
    → Boundary src win.char_start
    → Rising src win.char_start (c ∷ rest)
    → Ends tokenizer
        (λ out. Chained from to out × (map untiled out ≡ map untiled (c ∷ rest)))
        (retile_child_token_offsets src win tokenizer from to (c ∷ rest))
unfolding retile_child_token_offsets
retile_child_token_offsets-Chained src win tokenizer from to c rest at_start rising =
    let none_yet : from + 0 ≡ from = omega arith in
    Ends-map tokenizer (IsRetiled src tokenizer win.char_start at_start from to 0 (c ∷ rest)) _ _
      (retile_from-IsRetiled src tokenizer win.char_start at_start from to win.char_start 0 c rest
        (prefix_tokens_start src tokenizer win.char_start at_start) rising)
      λ out _ (chained, kept). (rw (← none_yet) chained, kept)
