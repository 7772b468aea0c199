-- ===== src/Tts/Scene/Partition.antt =====
-- The chunks are contiguous ranges within the limit, as few as can be.
use lens_lm.Base.{
  ℕ, suc, ◌+◌, ◌≤◌, ◌<◌, ◌≡◌, refl, ap, true, Bool-cases, inl, inr, List, [], ◌∷◌, ◌++◌,
  append_assoc, map, length, sum, sum-append, length-append, All, any, ltb, arith,
}
use lens_lm.Base.Outcome.{ok, err, validation}
use lens_lm.Tts.Scene.{scene_loop, scene_chunks}
use lens_lm.Tts.Scene.Fewest.{opened, opened_first, concat, Fits}

-- The ranges cut the lengths that stand from `start` on into contiguous groups that are not empty
-- and have at most `limit` in sum.
abbrev pub Partition : ℕ → ℕ → List ℕ → List (ℕ × ℕ) → Type 0
Partition limit start lens [] = lens ≡ []
Partition limit start lens ((a, b) ∷ r) =
    (group : List ℕ) × (rest : List ℕ) × (a ≡ start)
    × (a < b)
    × (a + length group ≡ b)
    × (group ++ rest ≡ lens)
    × (sum group ≤ limit)
    × Partition limit b rest r

module _ {T : Type 0} (limit : ℕ) (sized_len : T → ℕ) where
  abbrev pub WithinLimit : T → Type 0
  WithinLimit t = sized_len t ≤ limit

  scene_loop-Partition :
      (turns : List T) (i start acc : ℕ) (chunks : List (ℕ × ℕ)) (group : List ℕ)
      → start < i
      → start + length group ≡ i
      → sum group ≡ acc
      → acc ≤ limit
      → All WithinLimit turns
      → (rs : List (ℕ × ℕ)) × (scene_loop limit sized_len turns i start acc chunks
          ≡ ok (chunks ++ rs))
        × Partition limit start (group ++ map sized_len turns) rs
        × (length rs ≡ suc (opened limit acc (map sized_len turns)))
  unfolding scene_loop opened
  scene_loop-Partition [] i start acc chunks group lt len total small all = (
    (start, i) ∷ [],
    ground arith,
    (group, [], refl, lt, len, refl, omega arith, refl),
    omega arith,
  )
  scene_loop-Partition (t ∷ r) i start acc chunks group lt len total small all =
      elim (Bool-cases (ltb limit (acc + sized_len t))) [
        | inl full ↦
            let (rs, run, part, count) =
              scene_loop-Partition r (i + 1) i (0 + sized_len t) (chunks ++ (start, i) ∷ [])
                (sized_len t ∷ []) (omega arith) (omega arith) (omega arith) (omega arith) all.1 in
            (
              (start, i) ∷ rs,
              ground (arith, run, append_assoc chunks ((start, i) ∷ []) rs),
              (group, sized_len t ∷ map sized_len r, refl, lt, len, refl, omega arith, part),
              ground (arith, count),
            )
        | inr room ↦
            let (rs, run, part, count) =
              scene_loop-Partition r (i + 1) start (acc + sized_len t) chunks
                (group ++ sized_len t ∷ []) (omega arith)
                (omega (arith, length-append group (sized_len t ∷ [])))
                (omega (arith, sum-append group (sized_len t ∷ []))) (ground arith) all.1 in
            (rs, ground (arith, run), rw append_assoc at part, ground (arith, count))
      ]

  -- If every turn is within the limit, scene_chunks returns ranges that cut the script into
  -- contiguous chunks of whole turns, none empty and none over the limit.
  pub scene_chunks-Partition :
      (turns : List T)
      → All WithinLimit turns
      → (rs : List (ℕ × ℕ)) × (scene_chunks turns limit sized_len ≡ ok rs)
        × Partition limit 0 (map sized_len turns) rs
  unfolding scene_chunks scene_loop
  scene_chunks-Partition [] all = ([], refl, refl)
  scene_chunks-Partition (t ∷ r) all =
      let (rs, run, part, count) =
        scene_loop-Partition r 1 0 (0 + sized_len t) [] (sized_len t ∷ []) (omega arith)
          (omega arith) (omega arith) (omega arith) all.1 in
      (rs, ground (arith, run), part)

  -- If every turn is within the limit, no cut of the turns' lengths into contiguous groups within
  -- the limit has fewer groups than scene_chunks has chunks.
  pub scene_chunks-fewest :
      (turns : List T) (rs : List (ℕ × ℕ)) (groups : List (List ℕ))
      → All WithinLimit turns
      → scene_chunks turns limit sized_len ≡ ok rs
      → concat limit groups ≡ map sized_len turns
      → All (Fits limit) groups
      → length rs ≤ length groups
  unfolding scene_chunks scene_loop
  scene_chunks-fewest [] rs groups all run e fits = ground arith
  scene_chunks-fewest (t ∷ r) rs [] all run e fits = cc
  scene_chunks-fewest (t ∷ r) rs (g ∷ groups) all run e fits =
      let (rs', run', part, count) =
        scene_loop-Partition r 1 0 (0 + sized_len t) [] (sized_len t ∷ []) (omega arith)
          (omega arith) (omega arith) (omega arith) all.1 in
      let same : rs ≡ rs' = ground (arith, run') in
      let few = opened_first limit (sized_len t) (map sized_len r) g groups all.0 e fits in
      omega (arith, ap length same)

  scene_loop-err :
      (turns : List T) (i start acc : ℕ) (chunks : List (ℕ × ℕ))
      → any (λ t. ltb limit (sized_len t)) turns ≡ true
      → scene_loop limit sized_len turns i start acc chunks ≡ err validation
  unfolding scene_loop
  scene_loop-err [] i start acc chunks over = cc
  scene_loop-err (t ∷ r) i start acc chunks over = elim (Bool-cases (ltb limit (sized_len t))) [
    | inl e ↦ rw e
    | inr e ↦ rw e (scene_loop-err r _ _ _ _ (ground arith))
  ]

  -- If some turn is over the limit, scene_chunks is a validation error.
  pub scene_chunks-err :
      (turns : List T)
      → any (λ t. ltb limit (sized_len t)) turns ≡ true
      → scene_chunks turns limit sized_len ≡ err validation
  unfolding scene_chunks
  scene_chunks-err turns over = scene_loop-err turns 0 0 0 [] over
