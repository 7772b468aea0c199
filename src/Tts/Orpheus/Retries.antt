-- ===== src/Tts/Orpheus/Retries.antt =====
-- generate_with_retry runs as many attempts as are too early, and returns the first longest generation.
use lens_lm.Base.{
  ℕ, zero, suc, ◌+◌, ◌<◌, ◌≤◌, ◌≡◌, refl, ap, ◌⊎◌, inl, inr, Bool, true, false, Bool-cases, max,
  List, [], ◌∷◌, ◌++◌, length, All, ltb, arith,
}
use lens_lm.Base.Outcome.{Outcome, ok, err, panic, cancelled, ◌>>=◌}
use lens_lm.Tts.Orpheus.{base_seed, longer, retry_loop, generate_with_retry}

-- No list is longer, and those before it are shorter.
abbrev pub IsFirstLongest : List (List ℕ) → List ℕ → Type 0
IsFirstLongest all out =
    (before : List (List ℕ)) × (after : List (List ℕ)) × (all ≡ before ++ out ∷ after)
    × All (λ g. length g < length out) before
    × All (λ g. length g ≤ length out) after

-- The first two lists may be reduced to the longer one.
second-IsFirstLongest :
    (best ids : List ℕ) (r : List (List ℕ)) (out : List ℕ)
    → length best < length ids
    → IsFirstLongest (ids ∷ r) out
    → IsFirstLongest (best ∷ ids ∷ r) out
second-IsFirstLongest best ids r out h ([], after, e, below, above) =
    let same : ids ≡ out = cc e in
    (best ∷ [], after, ap (λ t. best ∷ t) e, (omega (arith, ap length same), tt), above)
second-IsFirstLongest best ids r out h (x ∷ before, after, e, (low, below), above) =
    let same : ids ≡ x = cc e in
    (
      best ∷ x ∷ before,
      after,
      ap (λ t. best ∷ t) e,
      (omega (arith, ap length same), (low, below)),
      above,
    )

first-IsFirstLongest :
    (best ids : List ℕ) (r : List (List ℕ)) (out : List ℕ)
    → length ids ≤ length best
    → IsFirstLongest (best ∷ r) out
    → IsFirstLongest (best ∷ ids ∷ r) out
first-IsFirstLongest best ids r out h ([], after, e, below, above) =
    let same : best ≡ out = cc e in
    let tail : r ≡ after = cc e in
    ([], ids ∷ after, cc (same, tail), tt, (omega (arith, ap length same), above))
first-IsFirstLongest best ids r out h (x ∷ before, after, e, (low, below), above) =
    let same : best ≡ x = cc e in
    let tail : r ≡ before ++ out ∷ after = cc e in
    (x ∷ ids ∷ before, after, cc (same, tail), (low, (omega (arith, ap length same), below)), above)

longer-IsFirstLongest :
    (best ids : List ℕ) (r : List (List ℕ)) (out : List ℕ)
    → IsFirstLongest (longer best ids ∷ r) out
    → IsFirstLongest (best ∷ ids ∷ r) out
unfolding longer
longer-IsFirstLongest best ids r out = elim (Bool-cases (ltb (length best) (length ids))) [
  | inl e ↦ rw e (second-IsFirstLongest best ids r out (ground (arith, e)))
  | inr e ↦ rw e (first-IsFirstLongest best ids r out (ground (arith, e)))
]

length-longer : (best ids : List ℕ) → length (longer best ids) ≡ max (length best) (length ids)
unfolding longer
length-longer best ids = ground arith

module _ (too_early : ℕ → ℕ → Bool) (floor : ℕ) (is_cancelled : ℕ → Bool)
    (run_once : ℕ → Outcome (List ℕ)) where
  -- Attempt `i` was not cancelled, and what it gave.
  abbrev pub Gave : ℕ → Outcome (List ℕ) → Type 0
  Gave i m = (is_cancelled i ≡ false) × (run_once (base_seed + i) ≡ m)

  -- The attempts from `i` on gave these generations, and at each of them the greatest length so far,
  -- where it was `most` before, was too early.
  abbrev pub Rejected : ℕ → ℕ → List (List ℕ) → Type 0
  Rejected i most [] = Unit
  Rejected i most (ids ∷ r) =
      Gave i (ok ids)
      × (too_early (max most (length ids)) floor ≡ true)
      × Rejected (i + 1) (max most (length ids)) r

  -- How attempt `at`, behind the rejected ones, ends the loop.
  abbrev pub EndedAt : ℕ → List ℕ → List (List ℕ) → Outcome (List ℕ) → Type 0
  EndedAt at best gens (ok out) =
      (ids : List ℕ) × Gave at (ok ids)
      × (too_early (length out) floor ≡ false)
      × IsFirstLongest (best ∷ gens ++ ids ∷ []) out
  EndedAt at best gens (err e) = ((is_cancelled at ≡ true) × (e ≡ cancelled)) ⊎ Gave at (err e)
  EndedAt at best gens panic = Gave at panic

  -- The loop ends behind the last attempt, or at an earlier one.
  abbrev pub Ended : ℕ → ℕ → List ℕ → List (List ℕ) → Outcome (List ℕ) → Type 0
  Ended left i best gens o =
      ((out : List ℕ) × (length gens ≡ left) × (o ≡ ok out) × IsFirstLongest (best ∷ gens) out)
      ⊎ ((at : ℕ) × (length gens < left) × (at ≡ i + length gens) × EndedAt at best gens o)

  abbrev pub Chosen : ℕ → ℕ → List ℕ → Outcome (List ℕ) → Type 0
  Chosen left i best o =
      (gens : List (List ℕ)) × Rejected i (length best) gens × Ended left i best gens o

  EndedAt-cons :
      (at : ℕ) (best ids : List ℕ) (gens : List (List ℕ)) (o : Outcome (List ℕ))
      → EndedAt at (longer best ids) gens o
      → EndedAt at best (ids ∷ gens) o
  EndedAt-cons at best ids gens (ok out) (x, gave, accept, first) =
      (x, gave, accept, longer-IsFirstLongest best ids _ out first)
  EndedAt-cons at best ids gens (err e) h = h
  EndedAt-cons at best ids gens panic h = h

  Ended-cons :
      (left i : ℕ) (best ids : List ℕ) (gens : List (List ℕ)) (o : Outcome (List ℕ))
      → Ended left (i + 1) (longer best ids) gens o
      → Ended (suc left) i best (ids ∷ gens) o
  Ended-cons left i best ids gens o (inl (out, n, e, first)) =
      inl (out, omega arith, e, longer-IsFirstLongest best ids gens out first)
  Ended-cons left i best ids gens o (inr (at, n, e, ended)) =
      inr (at, omega arith, omega arith, EndedAt-cons at best ids gens o ended)

  later :
      (left i : ℕ) (best ids : List ℕ) (o : Outcome (List ℕ))
      → Gave i (ok ids)
      → too_early (length (longer best ids)) floor ≡ true
      → Chosen left (i + 1) (longer best ids) o
      → Chosen (suc left) i best o
  later left i best ids o gave early (gens, rejected, ended) =
      let same = length-longer best ids in
      (
        ids ∷ gens,
        (gave, rw (← same) early, rw (← same) rejected),
        Ended-cons left i best ids gens o ended,
      )

  -- One attempt that is run, with what holds of the later ones.
  attempt-Chosen :
      (left i : ℕ) (best : List ℕ) (m : Outcome (List ℕ))
      → Gave i m
      → ((b : List ℕ)
          → Chosen left (i + 1) b (retry_loop too_early floor is_cancelled run_once left (i + 1) b))
      → Chosen (suc left) i best (
          m >>= λ ids. elim (too_early (length (longer best ids)) floor) [
            | false ↦ ok (longer best ids)
            | true ↦ retry_loop too_early floor is_cancelled run_once left (i + 1) (longer best ids)
          ])
  attempt-Chosen left i best (err x) gave rest =
      ([], tt, inr (i, omega arith, omega arith, inr gave))
  attempt-Chosen left i best panic gave rest = ([], tt, inr (i, omega arith, omega arith, gave))
  attempt-Chosen left i best (ok ids) gave rest =
      elim (Bool-cases (too_early (length (longer best ids)) floor)) [
        | inl early ↦ rw early (later left i best ids _ gave early (rest (longer best ids)))
        | inr accept ↦ rw accept (
          [],
          tt,
          inr (
            i,
            omega arith,
            omega arith,
            (ids, gave, accept, longer-IsFirstLongest best ids [] _ ([], [], refl, tt, tt)),
          ),
        )
      ]

  retry_loop-Chosen :
      (left i : ℕ) (best : List ℕ)
      → Chosen left i best (retry_loop too_early floor is_cancelled run_once left i best)
  unfolding retry_loop
  retry_loop-Chosen zero i best = ([], tt, inl (best, refl, refl, ([], [], refl, tt, tt)))
  retry_loop-Chosen (suc left) i best = elim (Bool-cases (is_cancelled i)) [
    | inl e ↦ rw (e, retry_loop) ([], tt, inr (i, omega arith, omega arith, inl (e, refl)))
    | inr e ↦
        rw (e, retry_loop)
          (attempt-Chosen left i best (run_once (base_seed + i)) (e, refl)
            (retry_loop-Chosen left (i + 1)))
  ]

  -- generate_with_retry runs its attempts, of which there are `max_retries + 1` at most and whose
  -- seeds follow one another, as long as the greatest length so far is too early, and no further. It
  -- returns the first longest of all generations that were made, or nothing where all are empty. Else
  -- a cancellation was seen before an attempt, or an attempt failed or panicked, and all before it
  -- were too early.
  pub generate_with_retry-Chosen :
      (max_retries : ℕ)
      → Chosen
          (suc max_retries)
          0
          []
          (generate_with_retry too_early floor is_cancelled run_once max_retries)
  unfolding generate_with_retry
  generate_with_retry-Chosen max_retries = retry_loop-Chosen (suc max_retries) 0 []
