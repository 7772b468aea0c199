-- ===== src/Asr/Windows/Crossing.antt =====
-- Where a window may end.
use lens_lm.Base.{
  ℕ, ◌+◌, ◌-◌, min, ◌≤◌, ◌<◌, Bool, Bool-cases, inl, inr, List, [], ◌∷◌, length, ltb, leb,
  if◌then◌else◌, arith,
}
use lens_lm.Asr.Windows.{crossing_loop, nearest_zero_crossing, window_end}

module _ {F : Type 0} (abs : F → F) (lt : F → F → Bool) (infinity : F) where
  -- The loop gives the best index so far, or one that it looks at.
  crossing_loop-within :
      (lo hi : ℕ) (vs : List F) (i best : ℕ) (best_abs : F)
      → best ≤ hi
      → crossing_loop abs lt infinity lo hi vs i best best_abs ≤ hi
  unfolding crossing_loop
  crossing_loop-within lo hi [] i best best_abs h = h
  crossing_loop-within lo hi (v ∷ r) i best best_abs h = elim (Bool-cases (ltb hi i)) [
    | inl e ↦ rw e h
    | inr e ↦
        let next : ℕ = if lt (abs v) best_abs then i else best in
        let below : next ≤ hi = ground (arith, e, h) in
        elim (Bool-cases (ltb i lo)) [
          | inl e' ↦ rw (e, e') (crossing_loop-within lo hi r (i + 1) best best_abs h)
          | inr e' ↦ rw (e, e') (crossing_loop-within lo hi r (i + 1) next _ below)
        ]
  ]

  nearest_zero_crossing-within :
      (pcm : List F) (ideal radius : ℕ)
      → ideal < length pcm
      → 1 ≤ radius
      → let cut = nearest_zero_crossing abs lt infinity pcm ideal radius in
        (1 ≤ cut) × (ideal - radius ≤ cut) × (cut ≤ length pcm) × (cut ≤ ideal + radius)
  unfolding nearest_zero_crossing
  nearest_zero_crossing-within pcm ideal radius h r =
      let hi = min (ideal + radius) (length pcm - 1) in
      let within : crossing_loop abs lt infinity (ideal - radius) hi pcm 0
            (min ideal (length pcm - 1)) infinity
          ≤ hi =
        crossing_loop-within (ideal - radius) hi pcm 0 (min ideal (length pcm - 1)) infinity
          (omega arith) in
      (omega (arith, within), omega (arith, within), omega (arith, within), omega (arith, within))

  pub window_end-within :
      (zero_f : F) (quotient : ℕ → ℕ → F) (pcm : List F) (max_samples radius start : ℕ)
      → start < length pcm
      → 1 ≤ radius
      → let end = window_end abs lt infinity zero_f quotient pcm max_samples radius start in
        (start < end) × (end ≤ length pcm) × (end ≤ start + max_samples + radius)
  unfolding window_end
  window_end-within zero_f quotient pcm max_samples radius start h r =
      elim (Bool-cases (leb (length pcm) (min (start + max_samples) (length pcm)))) [
        | inl e ↦ rw e (h, omega arith, ground (arith, e))
        | inr e ↦
            let ideal = min (start + max_samples) (length pcm) in
            let (one, low, all, high) =
              nearest_zero_crossing-within pcm ideal radius (ground (arith, e)) r in
            rw e (omega arith, omega (arith, all), omega (arith, high))
      ]
