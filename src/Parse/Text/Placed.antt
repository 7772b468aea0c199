-- ===== src/Parse/Text/Placed.antt =====
-- The blocks of a plain text are slices of it, and between them stands whitespace only.
use mathlib.Core.Path.{subst}
use lens_lm.Base.{
  ℕ, zero, suc, ◌+◌, ◌-◌, ◌≤◌, ◌≡◌, ◌∙◌, sym, ap, refl, Bool-cases, true, inl, inr, some, List, [],
  ◌∷◌, ◌++◌, append_assoc, append-nil, length, length-append, arith,
}
use lens_lm.Base.Text.{Str, byte_len, byte_len-append, slice, slice-append}
use lens_lm.Chunk.Parent.{is_empty}
use lens_lm.Chunk.Parent.Placed.{PlacedTo, content}
use lens_lm.Chunk.Types.{Block}
use lens_lm.Citation.Markers.{trim, trim_start}
use lens_lm.Parse.Text.{
  find_paragraph_end, paragraph_block, push_paragraph, after_paragraph, after_skip, parse_loop,
  parse_text,
}
use lens_lm.Parse.Text.Lines.{
  Skipped, skip_blank_lines-Skipped, find_paragraph_end-join, find_paragraph_end-nonempty,
}
use lens_lm.Parse.Text.Trimming.{solid, solid-append, trim-parts}

PlacedTo-from :
    (src : Str) (lo mid hi : ℕ) (blocks : List Block)
    → lo ≤ mid
    → PlacedTo src mid blocks hi
    → PlacedTo src lo blocks hi
PlacedTo-from src lo mid hi [] h placed = omega arith
PlacedTo-from src lo mid hi (b ∷ r) h (after, part, rest) = (omega arith, part, rest)

solid_nil : solid [] ≡ []
unfolding solid
solid_nil = refl

is_empty_nil : (s : Str) → is_empty s ≡ true → s ≡ []
unfolding is_empty
is_empty_nil [] h = refl
is_empty_nil (c ∷ s) h = cc

-- The blocks stand behind `lo`, and hold the text but for whitespace.
abbrev Covers : Str → ℕ → List Block → Str → Type 0
Covers src lo blocks text =
    PlacedTo src lo blocks (byte_len src) × (solid (content blocks) ≡ solid text)

solid-trim : (raw : Str) → solid raw ≡ solid (trim raw)
unfolding solid
solid-trim raw =
    let (lead, trail, start, parts, lead_none, trail_none) = trim-parts raw in
    ap solid (sym parts)
    ∙ solid-append lead (trim raw ++ trail)
    ∙ rw lead_none (solid-append (trim raw) trail)
    ∙ ap (λ t. solid (trim raw) ++ t) trail_none
    ∙ append-nil (solid (trim raw))

-- The trimmed text stands at its offset, within the paragraph.
trim-placed :
    (src before raw behind : Str)
    → before ++ (raw ++ behind) ≡ src
    → let at = byte_len before + (byte_len raw - byte_len (trim_start raw)) in
      (slice src at (at + byte_len (trim raw)) ≡ some (trim raw))
      × (at + byte_len (trim raw) ≤ byte_len before + byte_len raw)
trim-placed src before raw behind joined =
    let (lead, trail, start, parts, lead_none, trail_none) = trim-parts raw in
    let lead_at : byte_len before + (byte_len raw - byte_len (trim_start raw))
        ≡ byte_len (before ++ lead) =
      omega (
        arith,
        byte_len-append before lead,
        byte_len-append lead (trim_start raw),
        ap byte_len start,
      ) in
    let whole : (before ++ lead) ++ (trim raw ++ (trail ++ behind)) ≡ src =
      append_assoc before lead _
      ∙ ap (λ t. before ++ t)
          (ap (λ t. lead ++ t) (sym (append_assoc (trim raw) trail behind))
            ∙ sym (append_assoc lead (trim raw ++ trail) behind)
            ∙ ap (λ t. t ++ behind) parts)
      ∙ joined in
    (
      rw (lead_at, sym whole) (slice-append (before ++ lead) (trim raw) (trail ++ behind)),
      omega (
        arith,
        lead_at,
        byte_len-append before lead,
        byte_len-append lead (trim raw ++ trail),
        byte_len-append (trim raw) trail,
        ap byte_len parts,
      ),
    )

push_paragraph-Covers :
    (src before raw behind : Str) (rest : List Block) (lo : ℕ)
    → before ++ (raw ++ behind) ≡ src
    → lo ≤ byte_len before
    → Covers src (byte_len before + byte_len raw) rest behind
    → Covers src lo (push_paragraph (byte_len before) raw rest) (raw ++ behind)
unfolding push_paragraph paragraph_block
push_paragraph-Covers src before raw behind rest lo joined h (placed, held) =
    let same : solid (trim raw) ++ solid (content rest) ≡ solid (raw ++ behind) =
      rw held (sym (solid-append raw behind ∙ ap (λ t. t ++ solid behind) (solid-trim raw))) in
    elim (Bool-cases (is_empty (trim raw))) [
      | inl e ↦
          let gone : solid (trim raw) ≡ [] = ap solid (is_empty_nil (trim raw) e) ∙ solid_nil in
          rw e (
            PlacedTo-from src lo _ _ rest (omega arith) placed,
            ap (λ t. t ++ solid (content rest)) (sym gone) ∙ same,
          )
      | inr e ↦
          let (part, within) = trim-placed src before raw behind joined in
          rw e (
            (omega arith, part, PlacedTo-from src _ _ _ rest within placed),
            solid-append (trim raw) (content rest) ∙ same,
          )
    ]

-- The later rounds do well on texts of at most `n` characters.
abbrev Continues : Str → ℕ → (ℕ → Str → List Block) → Type 0
Continues src n again =
    (before text : Str)
    → before ++ text ≡ src
    → length text ≤ n
    → Covers src (byte_len before) (again (byte_len before) text) text

after_paragraph-Covers :
    (src before : Str) (n lo : ℕ) (m : Str × Str) (again : ℕ → Str → List Block)
    → before ++ (m.0 ++ m.1) ≡ src
    → lo ≤ byte_len before
    → length m.1 ≤ n
    → Continues src n again
    → Covers src lo (after_paragraph again (byte_len before) m) (m.0 ++ m.1)
unfolding after_paragraph
after_paragraph-Covers src before n lo (raw, behind) again joined low short h =
    let joined' = append_assoc before raw behind ∙ joined in
    push_paragraph-Covers src before raw behind _ lo joined low (
      subst (λ k. Covers src k (again k behind) behind) (byte_len-append before raw)
        (h (before ++ raw) behind joined' short))

after_skip-Covers :
    (src before text : Str) (n : ℕ) (m : Str × Str) (again : ℕ → Str → List Block)
    → before ++ text ≡ src
    → Skipped text m
    → length text ≤ suc n
    → Continues src n again
    → Covers src (byte_len before) (after_skip again (byte_len before) m) text
unfolding after_skip
after_skip-Covers src before text n (skipped, []) again joined (parts, none, starts) short h = (
  omega (arith, byte_len-append before text, ap byte_len joined),
  solid_nil ∙ sym (ap solid (sym parts ∙ append-nil skipped) ∙ none),
)
after_skip-Covers src before text n (skipped, c ∷ s) again joined (parts, none, starts) short h =
    let joined' : (before ++ skipped) ++ (c ∷ s) ≡ src =
      append_assoc before skipped (c ∷ s) ∙ ap (λ t. before ++ t) parts ∙ joined in
    let paragraph = find_paragraph_end (length (c ∷ s)) (c ∷ s) in
    let found = find_paragraph_end-join (length (c ∷ s)) (c ∷ s) in
    let one = find_paragraph_end-nonempty (length s) c s starts in
    let lens = length-append paragraph.0 paragraph.1 in
    let lens' = length-append skipped (c ∷ s) in
    let covers : Covers src (byte_len before)
        (after_paragraph again (byte_len before + byte_len skipped) paragraph)
        (paragraph.0 ++ paragraph.1) =
      subst
        (λ k.
          Covers src (byte_len before) (after_paragraph again k paragraph)
            (paragraph.0 ++ paragraph.1))
        (byte_len-append before skipped)
        (after_paragraph-Covers src (before ++ skipped) n (byte_len before) paragraph again
          (ap (λ t. (before ++ skipped) ++ t) found ∙ joined')
          (omega (arith, byte_len-append before skipped))
          (omega (arith, one, lens, lens', ap length found, ap length parts, short)) h) in
    let all : solid (c ∷ s) ≡ solid text =
      ap (λ t. t ++ solid (c ∷ s)) (sym none)
      ∙ sym (solid-append skipped (c ∷ s))
      ∙ ap solid parts in
    (covers.0, covers.1 ∙ ap solid found ∙ all)

parse_loop-Covers : (src : Str) (fuel : ℕ) → Continues src fuel (parse_loop fuel)
unfolding parse_loop
parse_loop-Covers src zero before [] joined h =
    (omega (arith, byte_len-append before [], ap byte_len joined), refl)
parse_loop-Covers src zero before (c ∷ s) joined h = absurd (omega arith)
parse_loop-Covers src (suc fuel) before [] joined h =
    (omega (arith, byte_len-append before [], ap byte_len joined), refl)
parse_loop-Covers src (suc fuel) before (c ∷ s) joined h =
    after_skip-Covers src before (c ∷ s) fuel _ (parse_loop fuel) joined
      (skip_blank_lines-Skipped (length (c ∷ s)) (c ∷ s) (omega arith)) h
      (parse_loop-Covers src fuel)

-- The blocks of parse_text are slices of the source, in its order and apart, each where its offsets
-- say, and together they hold every character of the source that is not whitespace.
pub parse_text-PlacedTo :
    (src : Str)
    → PlacedTo src 0 (parse_text src) (byte_len src)
      × (solid (content (parse_text src)) ≡ solid src)
unfolding parse_text byte_len
parse_text-PlacedTo src = parse_loop-Covers src (length src) [] src refl (omega arith)
