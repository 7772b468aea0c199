-- ===== src/Enrichment/Coref/Applied/Whole.antt =====
-- All substitutions of a text.
use lens_lm.Base.{
  ℕ, ◌≤◌, ◌≡◌, refl, inl, inr, Bool, true, false, Bool-cases, Option, none, some, List, [], ◌∷◌,
  length, All, arith,
}
use lens_lm.Base.Text.{Str}
use lens_lm.Retrieval.Trim.{sort_insert, sort_by}
use lens_lm.Retrieval.Trim.Sorting.{IsSorted, sort_by-IsSorted}
use lens_lm.Enrichment.Coref.{
  CorefSub, usize_max, starts_before, filter_valid, apply_loop, apply_substitutions,
}
use lens_lm.Enrichment.Coref.Offsets.{InRange}
use lens_lm.Enrichment.Coref.Applied.{
  splice, IsOrdered, Genuine, Genuine-is_valid_sub, is_valid_sub-Genuine,
}
use lens_lm.Enrichment.Coref.Applied.Loop.{AnyOf, Covered, IsBelow, Ends, apply_loop-Ends}

-- A property of all elements, before and behind a sort.
module _ (P : CorefSub → Type 0) (gt : CorefSub → CorefSub → Bool) where
  All-sort_insert : (x : CorefSub) (l : List CorefSub) → P x → All P l → All P (sort_insert gt x l)
  unfolding sort_insert
  All-sort_insert x [] p all = (p, tt)
  All-sort_insert x (y ∷ l) p (q, all) = elim (Bool-cases (gt x y)) [
    | inl e ↦ rw e (q, All-sort_insert x l p all)
    | inr e ↦ rw e (p, (q, all))
  ]

  All-sort_by : (l : List CorefSub) → All P l → All P (sort_by gt l)
  unfolding sort_by
  All-sort_by [] all = tt
  All-sort_by (x ∷ l) (p, all) = All-sort_insert x (sort_by gt l) p (All-sort_by l all)

  sort_insert-All : (x : CorefSub) (l : List CorefSub) → All P (sort_insert gt x l) → P x × All P l
  unfolding sort_insert
  sort_insert-All x [] h = (h.0, tt)
  sort_insert-All x (y ∷ l) h = elim (Bool-cases (gt x y)) [
    | inl e ↦
        let h' : P y × All P (sort_insert gt x l) = rw (e, sort_insert) at h in
        let (p, all) = sort_insert-All x l h'.1 in (p, (h'.0, all))
    | inr e ↦ let h' : P x × (P y × All P l) = rw (e, sort_insert) at h in h'
  ]

  sort_by-All : (l : List CorefSub) → All P (sort_by gt l) → All P l
  unfolding sort_by
  sort_by-All [] h = tt
  sort_by-All (x ∷ l) h =
      let (p, all) = sort_insert-All x (sort_by gt l) h in (p, sort_by-All l all)

asym : (x y : CorefSub) → starts_before x y ≡ true → starts_before y x ≡ false
unfolding starts_before
asym x y h = ground arith

abbrev FirstBelow : ℕ → List CorefSub → Type 0
FirstBelow b [] = Unit
FirstBelow b (s ∷ r) = s.char_start ≤ b

IsSorted-IsBelow :
    (b : ℕ) (l : List CorefSub) → FirstBelow b l → IsSorted starts_before l → IsBelow b l
unfolding starts_before
IsSorted-IsBelow b [] h sorted = tt
IsSorted-IsBelow b (s ∷ []) h sorted = (h, tt)
IsSorted-IsBelow b (s ∷ t ∷ r) h (st, sorted) =
    (h, IsSorted-IsBelow s.char_start (t ∷ r) (ground (arith, st)) sorted)

module _ (lowercase : Str → Str) (text : Str) (allowed : List Str) where
  -- A genuine substitution that is one of those given.
  abbrev pub IsGiven : List CorefSub → CorefSub → Type 0
  IsGiven subs s = Genuine lowercase text allowed s × AnyOf (λ (c : CorefSub). c ≡ s) subs

  IsGiven-cons :
      (x : CorefSub) (subs l : List CorefSub) → All (IsGiven subs) l → All (IsGiven (x ∷ subs)) l
  IsGiven-cons x subs [] all = tt
  IsGiven-cons x subs (s ∷ l) ((g, among), all) = ((g, inr among), IsGiven-cons x subs l all)

  -- The substitutions that pass are the genuine ones, and no test panics.
  filter_valid-Genuine :
      (subs : List CorefSub)
      → (valid : List CorefSub) × (filter_valid lowercase text allowed subs ≡ some valid)
        × All (IsGiven subs) valid
        × ((made : List CorefSub)
            → All (Covered made) valid
            → All (λ (s : CorefSub). Genuine lowercase text allowed s → Covered made s) subs)
  unfolding filter_valid
  filter_valid-Genuine [] = ([], refl, tt, λ (made : List CorefSub) (h : Unit {0}). tt)
  filter_valid-Genuine (s ∷ r) =
      let (valid, e, all, cover) = filter_valid-Genuine r in
      elim (is_valid_sub-Genuine lowercase text allowed s) [
        | inl f ↦ (
          valid,
          rw (f, filter_valid, e) refl,
          IsGiven-cons s r valid all,
          λ (made : List CorefSub) (h : All (Covered made) valid). (
            λ (g : Genuine lowercase text allowed s).
                absurd (cc (f, Genuine-is_valid_sub lowercase text allowed s g)),
            cover made h,
          ),
        )
        | inr (t, g) ↦ (
          s ∷ valid,
          rw (t, filter_valid, e) refl,
          ((g, inl refl), IsGiven-cons s r valid all),
          λ (made : List CorefSub) (h : Covered made s × All (Covered made) valid).
              ((λ (g' : Genuine lowercase text allowed s). h.0), cover made h.1),
        )
      ]

  -- What apply_substitutions gives of the text.
  abbrev pub IsApplied : List CorefSub → Option Str → Type 0
  IsApplied subs none = ⊥
  IsApplied subs (some out) =
      (made : List CorefSub) × (out ≡ splice text 0 made)
      × IsOrdered text 0 made
      × All (IsGiven subs) made
      × All (λ (s : CorefSub). Genuine lowercase text allowed s → Covered made s) subs

  Ends-IsApplied :
      (subs valid l : List CorefSub) (o : Option Str)
      → (in_range : (c : CorefSub) → IsGiven subs c → InRange text c.char_start c.char_end)
      → (fits : length text ≤ usize_max)
      → ((made : List CorefSub)
          → All (Covered made) valid
          → All (λ (s : CorefSub). Genuine lowercase text allowed s → Covered made s) subs)
      → ((made : List CorefSub) → All (Covered made) l → All (Covered made) valid)
      → Ends text (IsGiven subs) in_range fits l [] o
      → IsApplied subs o
  Ends-IsApplied subs valid l none in_range fits cover sorted h = h
  Ends-IsApplied subs valid l (some out) in_range fits cover sorted
        (made, same, order, all, covered, keeps) =
      (made, same, order, all, cover made (sorted made covered))

  first_below :
      (subs l : List CorefSub)
      → length text ≤ usize_max
      → All (IsGiven subs) l
      → FirstBelow usize_max l
  first_below subs [] fits all = tt
  first_below subs (s ∷ l) fits ((((le, reach), same, allows, blank), among), all) = omega arith

  -- No call panics, on any offsets. What is returned is the text with some ranges replaced by their
  -- antecedents, in order and without overlap, each of a substitution given whose mention stands in
  -- the text at its range and whose antecedent is allowed and no whitespace; and each such
  -- substitution that is not made has the start of one that is made in its range. The text has less
  -- than 2^64 characters.
  pub apply_substitutions-IsApplied :
      (subs : List CorefSub)
      → length text ≤ usize_max
      → IsApplied subs (apply_substitutions lowercase text allowed subs)
  unfolding apply_substitutions
  apply_substitutions-IsApplied subs fits =
      let (valid, e, all, cover) = filter_valid-Genuine subs in
      rw (e, apply_substitutions) (chosen valid all cover)
    where
      chosen :
          (valid : List CorefSub)
          → All (IsGiven subs) valid
          → ((made : List CorefSub)
              → All (Covered made) valid
              → All (λ (s : CorefSub). Genuine lowercase text allowed s → Covered made s) subs)
          → IsApplied subs (elim valid [
            | [] ↦ some text
            | sub ∷ r ↦ apply_loop text text usize_max (sort_by starts_before (sub ∷ r))
          ])
      chosen [] all cover = ([], refl, tt, tt, cover [] tt)
      chosen (s ∷ r) all cover =
          let l = sort_by starts_before (s ∷ r) in
          let good = All-sort_by (IsGiven subs) starts_before (s ∷ r) all in
          let in_range = λ (c : CorefSub) (h : IsGiven subs c). h.0.0 in
          Ends-IsApplied subs (s ∷ r) l _ in_range fits cover
            (λ (made : List CorefSub). sort_by-All (Covered made) starts_before (s ∷ r))
            (apply_loop-Ends text (IsGiven subs) in_range fits l [] tt tt good (
              IsSorted-IsBelow usize_max l (first_below subs l fits good)
                (sort_by-IsSorted starts_before asym (s ∷ r))))
