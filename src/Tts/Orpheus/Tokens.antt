-- ===== src/Tts/Orpheus/Tokens.antt =====
-- run_token_loop returns the audio tokens up to the first stop, or up to the limit.
use lens_lm.Base.{
  ℕ, zero, suc, ◌+◌, ◌%◌, ◌≤◌, ◌≡◌, refl, ◌⊎◌, inl, inr, Bool, true, ◌&&◌, Bool-cases, List, [],
  ◌∷◌, length, ◌==◌, arith,
}
use lens_lm.Base.Outcome.{Outcome, ok, err, panic, cancelled, LensError, ◌>>=◌}
use lens_lm.Tts.Orpheus.{TokenStep, audio, stop, take_step, token_loop, run_token_loop}

module _ (next : ℕ → Outcome TokenStep) (poll_interval : ℕ) (is_cancelled : ℕ → Bool) where
  -- The rounds from `i` on gave these tokens, and then a stop or none of `left` was left.
  abbrev pub Sampled : ℕ → ℕ → List ℕ → Type 0
  Sampled left i [] = (next i ≡ ok stop) ⊎ (left ≡ 0)
  Sampled zero i (id ∷ r) = ⊥
  Sampled (suc left) i (id ∷ r) = (next i ≡ ok (audio id)) × Sampled left (i + 1) r

  -- An error: a poll saw the cancellation, or a round failed.
  abbrev pub Failed : LensError → Type 0
  Failed e =
      ((e ≡ cancelled) × ((i : ℕ) × (i % poll_interval ≡ 0) × (is_cancelled i ≡ true)))
      ⊎ ((i : ℕ) × (next i ≡ err e))

  abbrev pub Ran : ℕ → ℕ → Outcome (List ℕ) → Type 0
  Ran left i (ok ids) = (length ids ≤ left) × Sampled left i ids
  Ran left i (err e) = Failed e
  Ran left i panic = (poll_interval ≡ 0) ⊎ ((k : ℕ) × (next k ≡ panic))

  take_step-Ran :
      (left i : ℕ) (step : Outcome TokenStep) (rest : Outcome (List ℕ))
      → next i ≡ step
      → Ran left (i + 1) rest
      → Ran (suc left) i (step >>= λ s. take_step s rest)
  unfolding take_step
  take_step-Ran left i (ok stop) rest e h = (omega arith, inl e)
  take_step-Ran left i (ok (audio id)) (ok ids) e (short, sampled) = (omega arith, (e, sampled))
  take_step-Ran left i (ok (audio id)) (err x) e h = h
  take_step-Ran left i (ok (audio id)) panic e h = h
  take_step-Ran left i (err x) rest e h = inr (i, e)
  take_step-Ran left i panic rest e h = inr (i, e)

  token_loop-Ran : (left i : ℕ) → Ran left i (token_loop next poll_interval is_cancelled left i)
  unfolding token_loop
  token_loop-Ran zero i = (omega arith, inr refl)
  token_loop-Ran (suc left) i = elim (Bool-cases (poll_interval == 0)) [
    | inl z ↦ rw (z, token_loop) (inl (ground (arith, z)))
    | inr z ↦ elim (Bool-cases (i % poll_interval == 0 && is_cancelled i)) [
      | inl e ↦ rw (z, e, token_loop) (inl (refl, (i, ground (arith, e), ground (arith, e))))
      | inr e ↦
          rw (z, e, token_loop)
            (take_step-Ran left i (next i) (token_loop next poll_interval is_cancelled left (i + 1))
              refl (token_loop-Ran left (i + 1)))
    ]
  ]

  -- run_token_loop returns at most `max_new` ids, which are the audio tokens of the rounds from the
  -- first on, and the next round is a stop unless there are `max_new` of them. An error is the
  -- cancellation, seen at a round that polls, or that of a round, and a panic is that of a round,
  -- or the division where `poll_interval` is 0.
  pub run_token_loop-Ran :
      (max_new : ℕ) → Ran max_new 0 (run_token_loop next poll_interval is_cancelled max_new)
  unfolding run_token_loop
  run_token_loop-Ran max_new = token_loop-Ran max_new 0
