-- ===== src/Citation/Diagnosis.antt =====
-- lens-core/src/citation.rs: citation_diag, has_paren_number, and what the counts say.
use lens_lm.Base.{
  min, ◌+◌, ◌%◌, ℕ, zero, suc, ◌-◌, ◌≤◌, ◌≡◌, refl, inl, inr, Bool, true, false, ◌&&◌, ◌||◌,
  Bool-cases, some, List, [], ◌∷◌, length, get_elem?, ◌==◌, if◌then◌else◌, arith, leb,
}
use lens_lm.Base.Text.{Str}
use lens_lm.Citation.Markers.{parse_markers, is_digit}
use lens_lm.Citation.Extract.{
  u32_mod, ContextUnit, Group, in_range, add_unit, add_cited, group_markers, number_groups,
  extract_citations,
}

pub record CitationDiag : Type 0 where
  pub answer_len : ℕ
  pub open_brackets : ℕ
  pub raw_markers : ℕ
  pub in_range_markers : ℕ
  pub fullwidth_bracket : Bool
  pub footnote_marker : Bool
  pub paren_number : Bool

unfoldable pub count_in_range : ℕ → List (ℕ × ℕ) → ℕ
count_in_range len [] = 0
count_in_range len ((pos, n) ∷ r) = (if in_range n len then 1 else 0) + count_in_range len r

-- `answer.matches(c).count()`
unfoldable pub count_char : ℕ → Str → ℕ
count_char c [] = 0
count_char c (d ∷ s) = (if d == c then 1 else 0) + count_char c s

-- Digits, then `)`.
unfoldable pub closes_number : Str → Bool
closes_number [] = false
closes_number (c ∷ s) = if is_digit c then closes_number s else c == b')'

unfoldable pub starts_digit : Str → Bool
starts_digit [] = false
starts_digit (c ∷ s) = is_digit c

unfoldable pub has_paren_number : Str → Bool
unfolding closes_number starts_digit
has_paren_number [] = false
has_paren_number (c ∷ s) = (c == b'(' && (starts_digit s && closes_number s)) || has_paren_number s

unfoldable pub starts_with_char : ℕ → Str → Bool
starts_with_char c [] = false
starts_with_char c (d ∷ s) = d == c

-- `answer.contains("[^")`
unfoldable pub has_footnote : Str → Bool
unfolding starts_with_char
has_footnote [] = false
has_footnote (c ∷ s) = (c == b'[' && starts_with_char b'^' s) || has_footnote s

unfoldable pub citation_diag : Str → ℕ → CitationDiag
unfolding count_in_range count_char has_footnote has_paren_number
citation_diag answer units_len = record {
  answer_len = length answer;
  open_brackets = count_char b'[' answer;
  raw_markers = length (parse_markers answer);
  in_range_markers = count_in_range units_len (parse_markers answer);
  fullwidth_bracket = leb 1 (count_char 0x3010 answer);
  footnote_marker = has_footnote answer;
  paren_number = has_paren_number answer;
}

get_elem?-some :
    {A : Type 0} (l : List A) (n : ℕ)
    → in_range n (length l) ≡ true
    → (a : A) × (get_elem? l (n - 1) ≡ some a)
get_elem?-some l n h = at_index l (n - 1) (ground arith)
  where
    at_index :
        {A : Type 0} (xs : List A) (i : ℕ) → suc i ≤ length xs → (a : A) × (get_elem? xs i ≡ some a)
    at_index [] i h = absurd (omega arith)
    at_index (x ∷ xs) zero h = (x, refl)
    at_index (x ∷ xs) (suc i) h = at_index xs i (omega arith)

length-add_unit :
    (unit : ContextUnit) (m : ℕ) (gs : List Group)
    → (1 ≤ length (add_unit unit m gs))
      × (length gs ≤ length (add_unit unit m gs))
      × (length (add_unit unit m gs) ≤ length gs + 1)
unfolding add_unit
length-add_unit unit m [] = omega arith
length-add_unit unit m (g ∷ r) = ground (arith, length-add_unit unit m r)

length-add_cited :
    (units : List ContextUnit) (n : ℕ) (gs : List Group)
    → let c : ℕ = (if in_range n (length units) then 1 else 0) in
      (c ≤ length (add_cited units n gs))
      × (length gs ≤ length (add_cited units n gs))
      × (length (add_cited units n gs) ≤ length gs + c)
unfolding add_cited
length-add_cited units n gs = elim (Bool-cases (in_range n (length units))) [
  | inr out ↦ ground arith
  | inl within ↦
      let (unit, e) = get_elem?-some units n within in
      ground (arith, length-add_unit unit (n % u32_mod) gs)
]

-- Groups are as many as markers in range at most, and there is one if there is one such marker.
length-group_markers :
    (units : List ContextUnit) (ms : List (ℕ × ℕ)) (gs : List Group)
    → let c : ℕ = count_in_range (length units) ms in
      (length gs ≤ length (group_markers units ms gs))
      × (length (group_markers units ms gs) ≤ length gs + c)
      × (1 ≤ c → 1 ≤ length (group_markers units ms gs))
unfolding group_markers count_in_range
length-group_markers units [] gs = (omega arith, omega arith, λ h. absurd (omega arith))
length-group_markers units ((pos, n) ∷ r) gs =
    let (more, bound, found) = length-group_markers units r (add_cited units n gs) in
    let (one, grows, by) = length-add_cited units n gs in
    (omega arith, omega arith, λ h. ground (arith, found, one, more))

length-number_groups : (idx : ℕ) (gs : List Group) → length (number_groups idx gs) ≡ length gs
unfolding number_groups
length-number_groups idx [] = refl
length-number_groups idx (g ∷ r) = omega (arith, length-number_groups (idx + 1) r)

count-le-length : (len : ℕ) (ms : List (ℕ × ℕ)) → count_in_range len ms ≤ length ms
unfolding count_in_range
count-le-length len [] = omega arith
count-le-length len ((pos, n) ∷ r) = ground (arith, count-le-length len r)

-- The diagnosis agrees with the extraction: there are no more citations than markers in range, and
-- no more of these than markers; and with a marker in range there is a citation.
pub citation_diag-extract_citations :
    (answer : Str) (units : List ContextUnit)
    → let d : CitationDiag = citation_diag answer (length units) in
      (length (extract_citations answer units) ≤ d.in_range_markers)
      × (d.in_range_markers ≤ d.raw_markers)
      × (min 1 d.in_range_markers ≤ length (extract_citations answer units))
unfolding citation_diag extract_citations
citation_diag-extract_citations answer units =
    let ms = parse_markers answer in
    let (more, bound, found) = length-group_markers units ms [] in
    let same = length-number_groups 0 (group_markers units ms []) in
    (
      omega arith,
      count-le-length (length units) ms,
      elim (Bool-cases (leb 1 (count_in_range (length units) ms))) [
        | inl e ↦ ground (arith, found, same)
        | inr e ↦ ground (arith)
      ],
    )
