-- ===== src/Dialogue/Salvage/Arrays.antt =====
-- An array of turns is found in prose, and read without its trailing commas.
use lens_lm.Base.{
  ℕ, suc, ◌≡◌, refl, ◌∙◌, ap, true, Option, none, some, List, [], ◌∷◌, ◌++◌, All, arith,
}
use lens_lm.Base.Outcome.{ok}
use lens_lm.Base.Text.{Str}
use lens_lm.Enrichment.Json.Objects.{Piece, raw, escape, IsPiece, pieces_text}
use lens_lm.Dialogue.Script.{Turn}
use lens_lm.Dialogue.Salvage.{
  outside, in_string, next_place, is_ascii_whitespace, clean_loop, preclean, Walk, walk_outside,
  walk_char, with_first, walk_loop, extract_json_array, Value, read_array, parse_dialogue,
  is_trailing, is_outside,
}
use lens_lm.Dialogue.Salvage.Commas.{
  Inner, done, other, comma, string, object, list, trail_text, trail_clean, sloppy_text, clean_text,
  IsSpaces, IsInner, clean_loop-sloppy_text, clean_loop-trail_text, closes_next-bracket,
  preclean-clean_loop, IsPreamble, clean_loop-preamble,
}

-- The walk outside and inside a string.
abbrev walking : ℕ → ℕ → Walk
walking b d = record { brackets = b; braces = d; place = outside }

abbrev quoting : ℕ → ℕ → Walk
quoting b d = record { brackets = b; braces = d; place = in_string }

walk_loop-pieces_text :
    (t : List Piece) (b d : ℕ) (k j : Str)
    → All IsPiece t
    → walk_loop (quoting b d) k ≡ some j
    → walk_loop (quoting b d) (pieces_text t k) ≡ some (pieces_text t j)
unfolding walk_loop walk_char next_place with_first
walk_loop-pieces_text [] b d k j all h = h
walk_loop-pieces_text (raw c ∷ t) b d k j ((x, y), all) h =
    ground (arith, walk_loop-pieces_text t b d k j all h)
walk_loop-pieces_text (escape c ∷ t) b d k j (_, all) h =
    rw (walk_loop-pieces_text t b d k j all h) refl

walk_loop-spaces :
    (s : Str) (b d : ℕ) (k j : Str)
    → All (λ (c : ℕ). is_ascii_whitespace c ≡ true) s
    → walk_loop (walking b d) k ≡ some j
    → walk_loop (walking b d) (s ++ k) ≡ some (s ++ j)
unfolding walk_loop walk_char walk_outside with_first is_ascii_whitespace
walk_loop-spaces [] b d k j all h = h
walk_loop-spaces (c ∷ s) b d k j (w, all) h = ground (arith, walk_loop-spaces s b d k j all h)

walk_loop-trail :
    (e : Option Str) (b d : ℕ) (k j : Str)
    → IsSpaces e
    → walk_loop (walking b d) k ≡ some j
    → walk_loop (walking b d) (trail_clean e k) ≡ some (trail_clean e j)
walk_loop-trail none b d k j spaces h = h
walk_loop-trail (some s) b d k j spaces h = walk_loop-spaces s b d k j spaces h

walk_loop-clean_text :
    (i : Inner) (b d : ℕ) (k j : Str)
    → IsInner i
    → walk_loop (walking (suc b) d) k ≡ some j
    → walk_loop (walking (suc b) d) (clean_text i k) ≡ some (clean_text i j)
unfolding walk_loop walk_char walk_outside next_place with_first
walk_loop-clean_text done b d k j inner h = h
walk_loop-clean_text (other c r) b d k j ((x, y, z, u, v, w), inner) h =
    ground (arith, walk_loop-clean_text r b d k j inner h)
walk_loop-clean_text (comma r) b d k j (s, inner) h =
    rw (walk_loop-clean_text r b d k j inner h) refl
walk_loop-clean_text (string t r) b d k j (pieces, inner) h =
    let closed : walk_loop (quoting (suc b) d) (0x22 ∷ clean_text r k)
        ≡ some (0x22 ∷ clean_text r j) =
      rw (walk_loop-clean_text r b d k j inner h) refl in
    rw (walk_loop-pieces_text t (suc b) d _ _ pieces closed) refl
walk_loop-clean_text (object i e r) b d k j (inner, (spaces, later)) h =
    let closed : walk_loop (walking (suc b) (suc d)) (0x7d ∷ clean_text r k)
        ≡ some (0x7d ∷ clean_text r j) =
      ground (arith, walk_loop-clean_text r b d k j later h) in
    rw
      (walk_loop-clean_text i b (suc d) _ _ inner
        (walk_loop-trail e (suc b) (suc d) _ _ spaces closed))
      refl
walk_loop-clean_text (list i e r) b d k j (inner, (spaces, later)) h =
    let closed : walk_loop (walking (suc (suc b)) d) (0x5d ∷ clean_text r k)
        ≡ some (0x5d ∷ clean_text r j) =
      ground (arith, walk_loop-clean_text r b d k j later h) in
    rw
      (walk_loop-clean_text i (suc b) d _ _ inner
        (walk_loop-trail e (suc (suc b)) d _ _ spaces closed))
      refl

-- An array with a text behind it, as it is given and as it should be.
abbrev pub sloppy_array : Inner → Option Str → Str → Str
sloppy_array i e k = 0x5b ∷ sloppy_text i (trail_text e (0x5d ∷ k))

abbrev pub clean_array : Inner → Option Str → Str → Str
clean_array i e k = 0x5b ∷ clean_text i (trail_clean e (0x5d ∷ k))

clean_loop-sloppy_array :
    (i : Inner) (e : Option Str) (k : Str)
    → IsInner i
    → IsSpaces e
    → clean_loop outside (sloppy_array i e k) ≡ clean_array i e (clean_loop outside k)
unfolding clean_loop is_trailing is_outside next_place
clean_loop-sloppy_array i e k inner spaces =
    ap (λ (x : Str). 0x5b ∷ x)
      (clean_loop-sloppy_text i _ inner
        ∙ ap (clean_text i) (clean_loop-trail_text e _ spaces (closes_next-bracket k)))

extract_json_array-clean_array :
    (p : Str) (i : Inner) (e : Option Str) (k : Str)
    → IsPreamble p
    → IsInner i
    → IsSpaces e
    → extract_json_array (p ++ clean_array i e k) ≡ some (clean_array i e [])
unfolding extract_json_array walk_loop walk_char walk_outside with_first
extract_json_array-clean_array [] i e k all inner spaces =
    rw
      (walk_loop-clean_text i 0 0 _ _ inner
        (walk_loop-trail e 1 0 (0x5d ∷ k) (0x5d ∷ []) spaces refl))
      refl
extract_json_array-clean_array (c ∷ p) i e k ((x, y, z, w), all) inner spaces =
    ground (arith, extract_json_array-clean_array p i e k all inner spaces)

module _ (read_turns read_script : Str → Option (List Turn)) (read_value : Str → Option Value) where
  -- An array, whose objects and arrays may have trailing commas, and which has one itself or none,
  -- is found behind prose with no quotes and no brackets or braces but `{`, and before any text. What
  -- is returned is what serde reads of the array without those commas; its strings are untouched.
  pub parse_dialogue-sloppy_array :
      (p q : Str) (i : Inner) (e : Option Str) (turns : List Turn)
      → IsPreamble p
      → IsInner i
      → IsSpaces e
      → read_turns (clean_array i e []) ≡ some turns
      → parse_dialogue read_turns read_script read_value (p ++ sloppy_array i e q) ≡ ok turns
  unfolding parse_dialogue read_array
  parse_dialogue-sloppy_array p q i e turns all inner spaces h =
      let cleaned : preclean (p ++ sloppy_array i e q)
          ≡ p ++ clean_array i e (clean_loop outside q) =
        preclean-clean_loop _
        ∙ clean_loop-preamble p _ all
        ∙ ap (λ (x : Str). p ++ x) (clean_loop-sloppy_array i e q inner spaces) in
      let found : extract_json_array (preclean (p ++ sloppy_array i e q))
          ≡ some (clean_array i e []) =
        ap extract_json_array cleaned
        ∙ extract_json_array-clean_array p i e (clean_loop outside q) all inner spaces in
      rw (found, parse_dialogue, h) refl
