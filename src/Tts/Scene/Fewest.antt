-- ===== src/Tts/Scene/Fewest.antt =====
-- No split into contiguous groups within the limit has fewer groups than the greedy one.
use lens_lm.Base.{
  ℕ, suc, ◌+◌, ◌≤◌, ◌≡◌, List, [], ◌∷◌, ◌++◌, length, sum, All, ltb, if◌then◌else◌, arith,
}
use mathlib.Core.Path.{subst}

module _ (limit : ℕ) where
  -- How many groups the greedy split opens behind one that holds `acc`.
  unfoldable pub opened : ℕ → List ℕ → ℕ
  opened acc [] = 0
  opened acc (x ∷ r) = if ltb limit (acc + x) then suc (opened x r) else opened (acc + x) r

  -- A fuller open group costs more, and one group more at most.
  opened_mono :
      (a b : ℕ) (l : List ℕ) → a ≤ b → (opened a l ≤ opened b l) × (opened b l ≤ suc (opened a l))
  unfolding opened
  opened_mono a b [] h = omega arith
  opened_mono a b (x ∷ r) h =
      ground
        (arith, opened_mono (a + x) (b + x) r, opened_mono x (a + x) r, opened_mono x (b + x) r)

  abbrev pub concat : List (List ℕ) → List ℕ
  concat [] = []
  concat (g ∷ gs) = g ++ concat gs

  abbrev pub Fits : List ℕ → Type 0
  Fits g = sum g ≤ limit

  pub opened-le :
      (acc : ℕ) (g : List ℕ) (rest : List (List ℕ))
      → acc + sum g ≤ limit
      → All Fits rest
      → opened acc (g ++ concat rest) ≤ length rest
  unfolding opened
  opened-le acc [] [] h all = omega arith
  opened-le acc [] (g ∷ rest) h all =
      omega (arith, opened_mono 0 acc (g ++ concat rest), opened-le 0 g rest (omega arith) all.1)
  opened-le acc (x ∷ g) rest h all = ground (arith, opened-le (acc + x) g rest)

  pub opened_first :
      (x : ℕ) (l : List ℕ) (g : List ℕ) (rest : List (List ℕ))
      → x ≤ limit
      → concat (g ∷ rest) ≡ x ∷ l
      → All Fits (g ∷ rest)
      → opened (0 + x) l ≤ length rest
  unfolding opened
  opened_first x l g rest small e fits =
      let zero_plus : 0 + x ≡ x = omega arith in
      let h : opened 0 (x ∷ l) ≤ length rest =
        subst (λ l'. opened 0 l' ≤ length rest) e (opened-le 0 g rest (omega arith) fits.1) in
      ground arith
