-- ===== src/Dialogue/Salvage/Commas.antt =====
-- The trailing commas of objects and arrays are taken off, and nothing else.
use lens_lm.Base.{
  ℕ, ◌≡◌, ◌≢◌, refl, sym, ◌∙◌, ap, inl, inr, true, false, Bool-cases, Option, none, some, List, [],
  ◌∷◌, ◌++◌, All, arith,
}
use lens_lm.Base.Text.{Str}
use lens_lm.Enrichment.Json.Objects.{Piece, raw, escape, IsPiece, pieces_text}
use lens_lm.Dialogue.Salvage.{
  Place, outside, in_string, next_place, is_ascii_whitespace, closes_next, is_outside, is_trailing,
  needs_clean, clean_loop, preclean,
}

-- What stands between brackets or braces, as far as these, strings and commas go. An object or an
-- array has a trailing comma, with whitespace behind it, or none.
pub data Inner : Type 0 where
  done : Inner
  other : ℕ → Inner → Inner
  comma : Inner → Inner
  string : List Piece → Inner → Inner
  object : Inner → Option Str → Inner → Inner
  list : Inner → Option Str → Inner → Inner

-- The text before a text `k`, as it is given and as it should be.
abbrev pub trail_text : Option Str → Str → Str
trail_text none k = k
trail_text (some spaces) k = 0x2c ∷ (spaces ++ k)

abbrev pub trail_clean : Option Str → Str → Str
trail_clean none k = k
trail_clean (some spaces) k = spaces ++ k

abbrev pub sloppy_text : Inner → Str → Str
sloppy_text done k = k
sloppy_text (other c r) k = c ∷ sloppy_text r k
sloppy_text (comma r) k = 0x2c ∷ sloppy_text r k
sloppy_text (string t r) k = 0x22 ∷ pieces_text t (0x22 ∷ sloppy_text r k)
sloppy_text (object i e r) k = 0x7b ∷ sloppy_text i (trail_text e (0x7d ∷ sloppy_text r k))
sloppy_text (list i e r) k = 0x5b ∷ sloppy_text i (trail_text e (0x5d ∷ sloppy_text r k))

abbrev pub clean_text : Inner → Str → Str
clean_text done k = k
clean_text (other c r) k = c ∷ clean_text r k
clean_text (comma r) k = 0x2c ∷ clean_text r k
clean_text (string t r) k = 0x22 ∷ pieces_text t (0x22 ∷ clean_text r k)
clean_text (object i e r) k = 0x7b ∷ clean_text i (trail_clean e (0x7d ∷ clean_text r k))
clean_text (list i e r) k = 0x5b ∷ clean_text i (trail_clean e (0x5d ∷ clean_text r k))

abbrev pub IsPlain : ℕ → Type 0
IsPlain c = (c ≢ 0x22) × (c ≢ 0x2c) × (c ≢ 0x7b) × (c ≢ 0x7d) × (c ≢ 0x5b) × (c ≢ 0x5d)

abbrev pub IsSpaces : Option Str → Type 0
IsSpaces none = Unit
IsSpaces (some s) = All (λ (c : ℕ). is_ascii_whitespace c ≡ true) s

-- Something but whitespace stands here.
abbrev pub Significant : Inner → Type 0
Significant done = ⊥
Significant (other c r) = elim (is_ascii_whitespace c) [ true ↦ Significant r | false ↦ Unit {0} ]
Significant (comma r) = Unit
Significant (string t r) = Unit
Significant (object i e r) = Unit
Significant (list i e r) = Unit

abbrev pub IsInner : Inner → Type 0
IsInner done = Unit
IsInner (other c r) = IsPlain c × IsInner r
IsInner (comma r) = Significant r × IsInner r
IsInner (string t r) = All IsPiece t × IsInner r
IsInner (object i e r) = IsInner i × (IsSpaces e × IsInner r)
IsInner (list i e r) = IsInner i × (IsSpaces e × IsInner r)

Significant-closes_next :
    (r : Inner) (k : Str) → IsInner r → Significant r → closes_next (sloppy_text r k) ≡ false
unfolding closes_next is_ascii_whitespace
Significant-closes_next done k inner h = absurd h
Significant-closes_next (other c r) k ((a, b, d, e, f, g), inner) h =
    elim (Bool-cases (is_ascii_whitespace c)) [
      | inl w ↦
          let h' : Significant r = rw (w, Significant) at h in
          rw (w, closes_next) (Significant-closes_next r k inner h')
      | inr w ↦ rw (w, closes_next) (ground (arith, e, g))
    ]
Significant-closes_next (comma r) k inner h = refl
Significant-closes_next (string t r) k inner h = refl
Significant-closes_next (object i e r) k inner h = refl
Significant-closes_next (list i e r) k inner h = refl

clean_loop-pieces_text :
    (t : List Piece) (k : Str)
    → All IsPiece t
    → clean_loop in_string (pieces_text t k) ≡ pieces_text t (clean_loop in_string k)
unfolding clean_loop next_place is_trailing is_outside
clean_loop-pieces_text [] k all = refl
clean_loop-pieces_text (raw c ∷ t) k ((a, b), all) = ground (arith, clean_loop-pieces_text t k all)
clean_loop-pieces_text (escape c ∷ t) k (_, all) =
    ap (λ (x : Str). 0x5c ∷ c ∷ x) (clean_loop-pieces_text t k all)

-- Whitespace before a bracket that closes.
closes_next-spaces :
    (s k : Str)
    → All (λ (c : ℕ). is_ascii_whitespace c ≡ true) s
    → closes_next k ≡ true
    → closes_next (s ++ k) ≡ true
unfolding closes_next
closes_next-spaces [] k all h = h
closes_next-spaces (c ∷ s) k (w, all) h = rw (w, closes_next) (closes_next-spaces s k all h)

clean_loop-spaces :
    (s k : Str)
    → All (λ (c : ℕ). is_ascii_whitespace c ≡ true) s
    → clean_loop outside (s ++ k) ≡ s ++ clean_loop outside k
unfolding clean_loop is_trailing is_outside next_place is_ascii_whitespace
clean_loop-spaces [] k all = refl
clean_loop-spaces (c ∷ s) k (w, all) = ground (arith, clean_loop-spaces s k all)

pub clean_loop-trail_text :
    (e : Option Str) (k : Str)
    → IsSpaces e
    → closes_next k ≡ true
    → clean_loop outside (trail_text e k) ≡ trail_clean e (clean_loop outside k)
unfolding clean_loop is_trailing is_outside next_place
clean_loop-trail_text none k spaces h = refl
clean_loop-trail_text (some s) k spaces h =
    rw (closes_next-spaces s k spaces h, clean_loop) (clean_loop-spaces s k spaces)

closes_next-brace : (k : Str) → closes_next (0x7d ∷ k) ≡ true
unfolding closes_next is_ascii_whitespace
closes_next-brace k = refl

pub closes_next-bracket : (k : Str) → closes_next (0x5d ∷ k) ≡ true
unfolding closes_next is_ascii_whitespace
closes_next-bracket k = refl

pub clean_loop-sloppy_text :
    (i : Inner) (k : Str)
    → IsInner i
    → clean_loop outside (sloppy_text i k) ≡ clean_text i (clean_loop outside k)
unfolding clean_loop next_place is_trailing is_outside
clean_loop-sloppy_text done k inner = refl
clean_loop-sloppy_text (other c r) k ((a, b, d, e, f, g), inner) =
    ground (arith, clean_loop-sloppy_text r k inner)
clean_loop-sloppy_text (comma r) k (significant, inner) =
    rw (Significant-closes_next r k inner significant, clean_loop)
      (ap (λ (x : Str). 0x2c ∷ x) (clean_loop-sloppy_text r k inner))
clean_loop-sloppy_text (string t r) k (pieces, inner) =
    rw (clean_loop-pieces_text t (0x22 ∷ sloppy_text r k) pieces)
      (ap (λ (x : Str). 0x22 ∷ pieces_text t (0x22 ∷ x)) (clean_loop-sloppy_text r k inner))
clean_loop-sloppy_text (object i e r) k (inner, (spaces, later)) =
    ap (λ (x : Str). 0x7b ∷ x)
      (clean_loop-sloppy_text i _ inner
        ∙ ap (clean_text i) (
            clean_loop-trail_text e _ spaces (closes_next-brace _)
            ∙ ap (λ (x : Str). trail_clean e (0x7d ∷ x)) (clean_loop-sloppy_text r k later)))
clean_loop-sloppy_text (list i e r) k (inner, (spaces, later)) =
    ap (λ (x : Str). 0x5b ∷ x)
      (clean_loop-sloppy_text i _ inner
        ∙ ap (clean_text i) (
            clean_loop-trail_text e _ spaces (closes_next-bracket _)
            ∙ ap (λ (x : Str). trail_clean e (0x5d ∷ x)) (clean_loop-sloppy_text r k later)))

-- The first pass only saves the second one.
keeps : (p : Place) (s : Str) → needs_clean p s ≡ false → clean_loop p s ≡ s
unfolding needs_clean clean_loop
keeps p [] h = refl
keeps p (c ∷ s) h =
    let here : is_trailing p c s ≡ false = ground arith in
    rw (here, clean_loop) (ap (λ (x : Str). c ∷ x) (keeps (next_place p c) s (ground arith)))

pub preclean-clean_loop : (text : Str) → preclean text ≡ clean_loop outside text
unfolding preclean
preclean-clean_loop text = elim (Bool-cases (needs_clean outside text)) [
  | inl e ↦ rw (e, preclean) refl
  | inr e ↦ rw (e, preclean) (sym (keeps outside text e))
]

-- Prose before an array: no quotes and no brackets or braces that close.
abbrev pub IsPreamble : Str → Type 0
IsPreamble p = All (λ (c : ℕ). (c ≢ 0x22) × (c ≢ 0x5b) × (c ≢ 0x5d) × (c ≢ 0x7d)) p

closes_next-preamble : (p k : Str) → IsPreamble p → closes_next (p ++ (0x5b ∷ k)) ≡ false
unfolding closes_next is_ascii_whitespace
closes_next-preamble [] k all = refl
closes_next-preamble (c ∷ p) k ((a, b, d, e), all) = ground (arith, closes_next-preamble p k all)

pub clean_loop-preamble :
    (p k : Str)
    → IsPreamble p
    → clean_loop outside (p ++ (0x5b ∷ k)) ≡ p ++ clean_loop outside (0x5b ∷ k)
unfolding clean_loop is_trailing is_outside next_place
clean_loop-preamble [] k all = refl
clean_loop-preamble (c ∷ p) k ((a, b, d, e), all) =
    ground (arith, clean_loop-preamble p k all, closes_next-preamble p k all)
