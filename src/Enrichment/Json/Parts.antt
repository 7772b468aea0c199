-- ===== src/Enrichment/Json/Parts.antt =====
-- extract_json_object does not panic, and what it gives is a part of the text.
use mathlib.Core.Path.{subst}
use lens_lm.Base.{
  ℕ, zero, suc, ◌<◌, ◌≡◌, ◌≢◌, refl, ap, Bool-cases, inl, inr, true, false, Option, none, some, [],
  ◌∷◌, ◌++◌, All, ◌==◌, arith,
}
use lens_lm.Base.Outcome.{Outcome, ok, err, panic, ◌>>=◌}
use lens_lm.Base.Text.{Str}
use lens_lm.Enrichment.Json.{
  Scan, Scanned, open_at, closed, underflow, close_brace, scan_char, keep, scan_loop,
  extract_json_object,
}

-- A brace is open, or the character has closed the last one.
abbrev Opened : ℕ → Scanned → Type 0
Opened c (open_at s) = 0 < s.depth
Opened c closed = c ≡ 0x7d
Opened c underflow = ⊥

close_brace-Opened : (s : Scan) (d : ℕ) → 0 < d → Opened 0x7d (close_brace s d)
unfolding close_brace
close_brace-Opened s zero h = absurd (omega arith)
close_brace-Opened s (suc d) h = elim (Bool-cases (d == 0)) [
  | inl e ↦ rw e refl
  | inr e ↦ rw e (ground arith)
]

in_string-Opened : (s : Scan) (c : ℕ) → 0 < s.depth → s.in_str ≡ true → Opened c (scan_char s c)
unfolding scan_char
in_string-Opened s c h i = elim (Bool-cases s.escaped) [
  | inl e ↦ rw (i, e) h
  | inr e ↦ elim (Bool-cases (c == 0x5c)) [
    | inl e' ↦ rw (i, e, e') h
    | inr e' ↦ elim (Bool-cases (c == 0x22)) [
      | inl e'' ↦ rw (i, e, e', e'') h
      | inr e'' ↦ rw (i, e, e', e'') h
    ]
  ]
]

outside-Opened : (s : Scan) (c : ℕ) → 0 < s.depth → s.in_str ≡ false → Opened c (scan_char s c)
unfolding scan_char
outside-Opened s c h out = elim (Bool-cases (c == 0x22)) [
  | inl e ↦ rw (out, e) h
  | inr e ↦ elim (Bool-cases (c == 0x7b)) [
    | inl e' ↦ rw (out, e, e') (omega arith)
    | inr e' ↦ elim (Bool-cases (c == 0x7d)) [
      | inl e'' ↦
          let is_brace : c ≡ 0x7d = ground (arith, e'') in
          rw (out, e, e', e'')
            (rw is_brace (close_brace-Opened (record s { in_str = false }) s.depth h))
      | inr e'' ↦ rw (out, e, e', e'') h
    ]
  ]
]

scan_char-Opened : (s : Scan) (c : ℕ) → 0 < s.depth → Opened c (scan_char s c)
scan_char-Opened s c h = elim (Bool-cases s.in_str) [
  | inl i ↦ in_string-Opened s c h i
  | inr out ↦ outside-Opened s c h out
]

-- The text up to a closing brace.
abbrev Kept : Str → Outcome (Option Str) → Type 0
Kept text (ok none) = Unit
Kept text (ok (some j)) =
    (inner : Str) × (behind : Str) × (j ≡ inner ++ 0x7d ∷ []) × (text ≡ inner ++ 0x7d ∷ behind)
Kept text (err e) = ⊥
Kept text panic = ⊥

keep-Kept :
    (c : ℕ) (r : Str) (o : Outcome (Option Str))
    → Kept r o
    → Kept (c ∷ r) (o >>= λ t. ok (keep c t))
unfolding keep
keep-Kept c r (ok none) h = tt
keep-Kept c r (ok (some j)) (inner, behind, e, e') =
    (c ∷ inner, behind, ap (λ t. c ∷ t) e, ap (λ t. c ∷ t) e')
keep-Kept c r (err e) h = h
keep-Kept c r panic h = h

-- By the outcome of the body; `rest` is the later rounds.
step-Kept :
    (c : ℕ) (r : Str) (m : Scanned)
    → Opened c m
    → ((s : Scan) → 0 < s.depth → Kept r (scan_loop s r))
    → Kept (c ∷ r) (elim m [
      | open_at s' ↦ (scan_loop s' r) >>= λ t. ok (keep c t)
      | closed ↦ ok (some (c ∷ []))
      | underflow ↦ panic
    ])
step-Kept c r (open_at s) h rest = keep-Kept c r (scan_loop s r) (rest s h)
step-Kept c r closed h rest = ([], r, ap (λ x. x ∷ []) h, ap (λ x. x ∷ r) h)
step-Kept c r underflow h rest = h

scan_loop-Kept : (s : Scan) (text : Str) → 0 < s.depth → Kept text (scan_loop s text)
unfolding scan_loop
scan_loop-Kept s [] h = tt
scan_loop-Kept s (c ∷ r) h =
    step-Kept c r (scan_char s c) (scan_char-Opened s c h) (λ s' h'. scan_loop-Kept s' r h')

-- What is extracted.
abbrev pub Extracted : Str → Outcome (Option Str) → Type 0
Extracted text (ok none) = Unit
Extracted text (ok (some j)) =
    (before : Str) × (inner : Str) × (behind : Str) × All (λ c. c ≢ 0x7b) before
    × (j ≡ 0x7b ∷ inner ++ 0x7d ∷ [])
    × (text ≡ before ++ 0x7b ∷ inner ++ 0x7d ∷ behind)
Extracted text (err e) = ⊥
Extracted text panic = ⊥

first_brace-Kept :
    (r : Str) (o : Outcome (Option Str))
    → Kept r o
    → Extracted (0x7b ∷ r) (o >>= λ t. ok (keep 0x7b t))
unfolding keep
first_brace-Kept r (ok none) h = tt
first_brace-Kept r (ok (some j)) (inner, behind, e, e') =
    ([], inner, behind, tt, ap (λ t. 0x7b ∷ t) e, ap (λ t. 0x7b ∷ t) e')
first_brace-Kept r (err e) h = h
first_brace-Kept r panic h = h

skip-Extracted :
    (c : ℕ) (r : Str) (o : Outcome (Option Str)) → c ≢ 0x7b → Extracted r o → Extracted (c ∷ r) o
skip-Extracted c r (ok none) n h = tt
skip-Extracted c r (ok (some j)) n (before, inner, behind, all, e, e') =
    (c ∷ before, inner, behind, (n, all), e, ap (λ t. c ∷ t) e')
skip-Extracted c r (err e) n h = h
skip-Extracted c r panic n h = h

abbrev new_scan : Scan
new_scan = record { depth = 0; in_str = false; escaped = false }

-- On any text extract_json_object does not panic: its depth never falls below zero. What it finds
-- is a part of the text, from its first opening brace to a closing one.
pub extract_json_object-Extracted : (text : Str) → Extracted text (extract_json_object text)
unfolding extract_json_object scan_loop scan_char
extract_json_object-Extracted [] = tt
extract_json_object-Extracted (c ∷ r) = elim (Bool-cases (c == 0x7b)) [
  | inl e ↦
      let is_brace : 0x7b ≡ c = ground (arith, e) in
      rw (e, extract_json_object)
        (subst (λ x. Extracted (x ∷ r) (scan_loop new_scan (x ∷ r))) is_brace
          (first_brace-Kept r _ (scan_loop-Kept (record new_scan { depth = 1 }) r (omega arith))))
  | inr e ↦
      rw (e, extract_json_object)
        (skip-Extracted c r _ (ground (arith, e)) (extract_json_object-Extracted r))
]
