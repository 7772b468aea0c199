-- ===== src/Base/Text/Distinct.antt =====
-- Texts in a list, and a list's texts once each.
use lens_lm.Base.{
  ◌≡◌, ◌∙◌, ap, Bool, Bool-cases, true, false, ◌||◌, inl, inr, List, [], ◌∷◌, ◌++◌, if◌then◌else◌,
  arith,
}
use lens_lm.Base.Text.{Str, str_eq, str_eq_sound}

-- The id is in the list.
abbrev pub is_in : Str → List Str → Bool
is_in id [] = false
is_in id (x ∷ r) = str_eq x id || is_in id r

-- The texts that are not among `seen`, each at its first place.
abbrev pub distinct : List Str → List Str → List Str
distinct seen [] = []
distinct seen (x ∷ r) = let rest = distinct (x ∷ seen) r in if is_in x seen then rest else x ∷ rest

pub is_in-snoc :
    (k : Str) (xs : List Str) (x : Str) → is_in k (xs ++ x ∷ []) ≡ (is_in k xs || str_eq x k)
is_in-snoc k [] x = ground arith
is_in-snoc k (y ∷ xs) x = ground (arith, is_in-snoc k xs x)

distinct-snoc_seen :
    (seen xs : List Str) (x : Str)
    → distinct seen (xs ++ x ∷ [])
      ≡ distinct seen xs ++ (if is_in x xs || is_in x seen then [] else x ∷ [])
distinct-snoc_seen seen [] x = ground arith
distinct-snoc_seen seen (y ∷ xs) x =
    let swap : (is_in x xs || (str_eq y x || is_in x seen))
        ≡ (str_eq y x || is_in x xs || is_in x seen) =
      ground arith in
    let later =
      distinct-snoc_seen (y ∷ seen) xs x
      ∙ ap (λ b. distinct (y ∷ seen) xs ++ (if b then [] else x ∷ [])) swap in
    elim (Bool-cases (is_in y seen)) [ inl e ↦ rw e later | inr e ↦ rw e (ap (λ t. y ∷ t) later) ]

-- One more text at the end.
pub distinct-snoc :
    (xs : List Str) (x : Str)
    → distinct [] (xs ++ x ∷ []) ≡ distinct [] xs ++ (if is_in x xs then [] else x ∷ [])
distinct-snoc xs x =
    let same : (is_in x xs || false) ≡ is_in x xs = ground arith in
    distinct-snoc_seen [] xs x ∙ ap (λ b. distinct [] xs ++ (if b then [] else x ∷ [])) same

pub is_in-same : (x k : Str) (xs : List Str) → str_eq x k ≡ true → is_in x xs ≡ is_in k xs
is_in-same x k xs e = ap (λ t. is_in t xs) (str_eq_sound x k e)
