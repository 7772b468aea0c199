-- ===== src/Enrichment/Json/Objects.antt =====
-- An object is found whole, whatever stands around it and in its strings.
use lens_lm.Base.{ℕ, suc, ◌≡◌, ◌≢◌, refl, true, false, some, List, [], ◌∷◌, ◌++◌, All, arith}
use lens_lm.Base.Outcome.{ok}
use lens_lm.Base.Text.{Str}
use lens_lm.Enrichment.Json.{Scan, close_brace, scan_char, keep, scan_loop, extract_json_object}

-- A string's characters.
pub data Piece : Type 0 where
  raw : ℕ → Piece
  escape : ℕ → Piece

-- What stands between an object's braces, as far as braces and strings go.
pub data Inner : Type 0 where
  done : Inner
  other : ℕ → Inner → Inner
  string : List Piece → Inner → Inner
  object : Inner → Inner → Inner

abbrev pub IsPiece : Piece → Type 0
IsPiece (raw c) = (c ≢ 0x22) × (c ≢ 0x5c)
IsPiece (escape c) = Unit

abbrev pub IsInner : Inner → Type 0
IsInner done = Unit
IsInner (other c r) = (c ≢ 0x22) × (c ≢ 0x7b) × (c ≢ 0x7d) × IsInner r
IsInner (string t r) = All IsPiece t × IsInner r
IsInner (object i r) = IsInner i × IsInner r

-- The text, before a text `k`.
abbrev pub pieces_text : List Piece → Str → Str
pieces_text [] k = k
pieces_text (raw c ∷ t) k = c ∷ pieces_text t k
pieces_text (escape c ∷ t) k = 0x5c ∷ c ∷ pieces_text t k

abbrev pub inner_text : Inner → Str → Str
inner_text done k = k
inner_text (other c r) k = c ∷ inner_text r k
inner_text (string t r) k = 0x22 ∷ pieces_text t (0x22 ∷ inner_text r k)
inner_text (object i r) k = 0x7b ∷ inner_text i (0x7d ∷ inner_text r k)

abbrev pub object_text : Inner → Str → Str
object_text i k = 0x7b ∷ inner_text i (0x7d ∷ k)

-- The loop's state outside and inside a string.
abbrev outside : ℕ → Scan
outside d = record { depth = d; in_str = false; escaped = false }

abbrev inside : ℕ → Scan
inside d = record { depth = d; in_str = true; escaped = false }

scan_loop-pieces_text :
    (t : List Piece) (d : ℕ) (k j : Str)
    → All IsPiece t
    → scan_loop (inside d) k ≡ ok (some j)
    → scan_loop (inside d) (pieces_text t k) ≡ ok (some (pieces_text t j))
unfolding scan_loop scan_char keep
scan_loop-pieces_text [] d k j all h = h
scan_loop-pieces_text (raw c ∷ t) d k j ((a, b), all) h =
    ground (arith, scan_loop-pieces_text t d k j all h)
scan_loop-pieces_text (escape c ∷ t) d k j (_, all) h =
    rw (scan_loop-pieces_text t d k j all h) refl

scan_loop-inner_text :
    (i : Inner) (d : ℕ) (k j : Str)
    → IsInner i
    → scan_loop (outside (suc d)) k ≡ ok (some j)
    → scan_loop (outside (suc d)) (inner_text i k) ≡ ok (some (inner_text i j))
unfolding scan_loop scan_char close_brace keep
scan_loop-inner_text done d k j all h = h
scan_loop-inner_text (other c r) d k j (a, b, e, all) h =
    ground (arith, scan_loop-inner_text r d k j all h)
scan_loop-inner_text (string t r) d k j (pieces, all) h =
    let closed_string : scan_loop (inside (suc d)) (0x22 ∷ inner_text r k)
        ≡ ok (some (0x22 ∷ inner_text r j)) =
      rw (scan_loop-inner_text r d k j all h) refl in
    rw (scan_loop-pieces_text t (suc d) _ _ pieces closed_string) refl
scan_loop-inner_text (object i r) d k j (inner, all) h =
    let after : scan_loop (outside (suc (suc d))) (0x7d ∷ inner_text r k)
        ≡ ok (some (0x7d ∷ inner_text r j)) =
      ground (arith, scan_loop-inner_text r d k j all h) in
    rw (scan_loop-inner_text i (suc d) _ _ inner after) refl

-- Behind any text without an opening brace and before any text at all, extract_json_object finds an
-- object whole: braces in its strings, escaped quotes and objects inside it do not end it.
pub extract_json_object-object_text :
    (i : Inner) (before behind : Str)
    → IsInner i
    → All (λ c. c ≢ 0x7b) before
    → extract_json_object (before ++ object_text i behind) ≡ ok (some (object_text i []))
unfolding extract_json_object scan_loop scan_char close_brace keep
extract_json_object-object_text i [] behind inner none_open =
    rw (scan_loop-inner_text i 0 (0x7d ∷ behind) (0x7d ∷ []) inner refl) refl
extract_json_object-object_text i (c ∷ before) behind inner (other_char, none_open) =
    ground (arith, extract_json_object-object_text i before behind inner none_open)
