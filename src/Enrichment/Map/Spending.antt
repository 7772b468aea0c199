-- ===== src/Enrichment/Map/Spending.antt =====
-- The calls that the structural map makes of the provider, counted, keep the caps of the budget.
use lens_lm.Base.{ℕ, zero, suc, ◌+◌, ◌≤◌, ◌≡◌, ◌⊎◌, refl, inl, inr, arith, Option, List, [], ◌∷◌}
use lens_lm.Base.Outcome.{Outcome, ok, err, panic}
use lens_lm.Base.Text.{Str}
use lens_lm.Chunk.Parent.{is_empty}
use lens_lm.Enrichment.Budget.{Budget, fits, check_before_dispatch}
use lens_lm.Enrichment.Budget.Caps.{
  Within, Recorded, record_call-Within, record_call-Recorded, check-room,
}
use lens_lm.Enrichment.Meta.{StructuralMap, parse_strict}
use lens_lm.Enrichment.Map.{
  LlmRequest, fallback, Reply, Job, Mapped, mapped, map_err, crashed, pure, continue, ◌>>=◌,
  after_parse, after_reply, attempt_loop, run_llm_with_retries, enrichment_map_max_tokens,
}
use lens_lm.Enrichment.Map.Calls.{check_cases}
use lens_lm.Enrichment.Map.Build.{
  map_one_batch, map_sections, reduce_partials, map_batches, build_structural_map, batch_parents,
  push_partial,
}

-- A provider's answer with the calls made so far and the tokens of their replies.
abbrev pub meter : {S : Type 0} → Reply × S → ℕ → ℕ → Reply × (S × (ℕ × ℕ))
meter (inl e, s) calls tokens = (inl e, (s, (suc calls, tokens)))
meter (inr (text, used), s) calls tokens = (inr (text, used), (s, (suc calls, tokens + used)))

-- The provider, which also counts its calls and their tokens.
abbrev pub metered :
    {S : Type 0} → (S → LlmRequest → Reply × S) → S × (ℕ × ℕ) → LlmRequest → Reply × (S × (ℕ × ℕ))
metered generate (s, (calls, tokens)) r = meter (generate s r) calls tokens

module _ {S : Type 0} (generate : S → LlmRequest → Reply × S) (slack : ℕ) where
  -- A reply uses at most `slack` tokens over what its request allows.
  abbrev pub IsFrugal : Type 0
  IsFrugal =
      (s s' : S) (r : LlmRequest) (text : Str) (used : ℕ)
      → generate s r ≡ (inr (text, used), s')
      → used ≤ r.max_tokens + slack

  -- The calls that the budget recorded are all that were made.
  abbrev Counted : Budget → Budget × (S × (ℕ × ℕ)) → Type 0
  Counted b0 (b, (s, (calls, tokens))) = Within slack b × Recorded b0 b calls tokens

  -- There was one more, which failed.
  abbrev Failed : Budget → Budget × (S × (ℕ × ℕ)) → Type 0
  Failed b0 (b, (s, (zero, tokens))) = ⊥
  Failed b0 (b, (s, (suc calls, tokens))) =
      Within slack b × Recorded b0 b calls tokens × (b.job_calls + 1 ≤ b.max_calls_per_job)

  abbrev Kept : {A : Type 0} → Budget → Mapped A × (Budget × (S × (ℕ × ℕ))) → Type 0
  Kept b0 (mapped a, state) = Counted b0 state
  Kept b0 (map_err e, state) = Counted b0 state ⊎ Failed b0 state
  Kept b0 (crashed, state) = Counted b0 state

  unfoldable Keeps : {A : Type 0} → Budget → Job (S × (ℕ × ℕ)) A → Type 0
  Keeps b0 job = (state : Budget × (S × (ℕ × ℕ))) → Counted b0 state → Kept b0 (job state)

  pure-Keeps : {A : Type 0} (b0 : Budget) (a : A) → Keeps b0 (pure a)
  unfolding Keeps
  pure-Keeps b0 a state h = h

  >>=-Keeps :
      {A B : Type 0} (b0 : Budget) (job : Job (S × (ℕ × ℕ)) A) (f : A → Job (S × (ℕ × ℕ)) B)
      → Keeps b0 job
      → ((a : A) → Keeps b0 (f a))
      → Keeps b0 (job >>= f)
  unfolding Keeps
  >>=-Keeps {A} b0 job f h k state w = continued (job state) (h state w)
    where
      continued : (m : Mapped A × (Budget × (S × (ℕ × ℕ)))) → Kept b0 m → Kept b0 (continue f m)
      continued (mapped a, state') w' = k a state' w'
      continued (map_err e, state') w' = w'
      continued (crashed, state') w' = w'

  module _ (frugal : IsFrugal) (b0 : Budget) where
    module _ {T : Type 0} (system user : Str) (max_tokens : ℕ) (parse : Str → Outcome T) where
      after_parse-Keeps :
          (o : Outcome T) (again : Job (S × (ℕ × ℕ)) (Option T))
          → Keeps b0 again
          → Keeps b0 (after_parse o again)
      unfolding after_parse Keeps
      after_parse-Keeps (ok v) again h state w = w
      after_parse-Keeps (err e) again h state w = h state w
      after_parse-Keeps panic again h state w = w

      after_reply-Keeps :
          (again : Str → Job (S × (ℕ × ℕ)) (Option T)) (b : Budget) (s : S) (calls tokens : ℕ)
          (r : LlmRequest) (m : Reply × S)
          → ((text : Str) → Keeps b0 (again text))
          → Counted b0 (b, (s, (calls, tokens)))
          → check_before_dispatch b r.max_tokens ≡ fits
          → generate s r ≡ m
          → Kept b0 (after_reply parse again b (meter m calls tokens))
      unfolding after_reply Keeps
      after_reply-Keeps again b s calls tokens r (inl e, s') h (w, rec) fit eq =
          inr (w, rec, check-room slack r.max_tokens b w fit)
      after_reply-Keeps again b s calls tokens r (inr (text, used), s') h (w, rec) fit eq =
          let few = frugal s s' r text used eq in
          after_parse-Keeps (parse text) (again text) (h text) _ (
            record_call-Within slack r.max_tokens used b w fit few,
            record_call-Recorded slack r.max_tokens used b0 b calls tokens w fit few rec,
          )

      attempt_loop-Keeps :
          (left attempt : ℕ) (last_body : Str)
          → Keeps b0
              (attempt_loop (metered generate) system user max_tokens parse left attempt last_body)
      unfolding attempt_loop Keeps
      attempt_loop-Keeps zero attempt last_body state w = w
      attempt_loop-Keeps (suc left) attempt last_body (b, (s, (calls, tokens))) w =
          elim (check_cases (check_before_dispatch b max_tokens)) [
            | inl e ↦ rw (e, attempt_loop) (inl w)
            | inr e ↦
                rw (e, attempt_loop)
                  (after_reply-Keeps _ b s calls tokens _ _ (attempt_loop-Keeps left (attempt + 1))
                    w e refl)
          ]

    module _ (from_str : Str → Option StructuralMap) (nonce : Str) (debug : List Str → Str)
        (display : ℕ → Str) where
      map_one_batch-Keeps :
          (p : Str) → Keeps b0 (map_one_batch (metered generate) from_str nonce debug display p)
      unfolding map_one_batch run_llm_with_retries
      map_one_batch-Keeps p =
          attempt_loop-Keeps _ p enrichment_map_max_tokens (parse_strict from_str) 3 0 []

      map_sections-Keeps :
          (batches : List Str) (partials : List StructuralMap)
          → Keeps b0 (map_sections (metered generate) from_str nonce debug display batches partials)
      unfolding map_sections
      map_sections-Keeps [] partials = pure-Keeps b0 partials
      map_sections-Keeps (batch ∷ r) partials =
          >>=-Keeps b0 _ _ (map_one_batch-Keeps _)
            (λ m. map_sections-Keeps r (push_partial m partials))

      reduce_partials-Keeps :
          (partials : List StructuralMap)
          → Keeps b0 (reduce_partials (metered generate) from_str nonce debug display partials)
      unfolding reduce_partials
      reduce_partials-Keeps [] = pure-Keeps b0 fallback
      reduce_partials-Keeps (p ∷ r) =
          >>=-Keeps b0 _ _ (map_one_batch-Keeps _) (λ m. pure-Keeps b0 _)

      map_batches-Keeps :
          (batches : List Str)
          → Keeps b0 (map_batches (metered generate) from_str nonce debug display batches)
      unfolding map_batches map_sections
      map_batches-Keeps (batch ∷ []) =
          >>=-Keeps b0 _ _ (map_one_batch-Keeps _) (λ m. pure-Keeps b0 _)
      map_batches-Keeps [] = reduce_partials-Keeps []
      map_batches-Keeps (x ∷ y ∷ r) =
          >>=-Keeps b0 _ _ (map_sections-Keeps (x ∷ y ∷ r) []) reduce_partials-Keeps

      map_parents-Keeps :
          (parent_texts : List Str)
          → Keeps b0
              (build_structural_map (metered generate) from_str nonce debug display parent_texts)
      unfolding build_structural_map is_empty
      map_parents-Keeps [] = pure-Keeps b0 fallback
      map_parents-Keeps (t ∷ r) = map_batches-Keeps (batch_parents (t ∷ r))

  -- What was spent: the calls made of the provider, failed ones too, and the tokens of its replies.
  abbrev pub Spent : Budget → Budget × (S × (ℕ × ℕ)) → Type 0
  Spent b (b', (s, (calls, tokens))) =
      (b.job_calls + calls ≤ b.max_calls_per_job)
      × (b.job_tokens + tokens ≤ b.max_tokens_per_job + slack)
      × (b.session.tokens + tokens ≤ b.session.max_tokens + slack)
      × (b'.job_tokens ≡ b.job_tokens + tokens)
      × (b'.session.tokens ≡ b.session.tokens + tokens)

  Kept-Spent :
      {A : Type 0} (b : Budget) (m : Mapped A × (Budget × (S × (ℕ × ℕ)))) → Kept b m → Spent b m.1
  Kept-Spent b (mapped a, (b', (s, (calls, tokens)))) h = grind (arith, h)
  Kept-Spent b (crashed, (b', (s, (calls, tokens)))) h = grind (arith, h)
  Kept-Spent b (map_err e, (b', (s, (calls, tokens)))) (inl h) = grind (arith, h)
  Kept-Spent b (map_err e, (b', (s, (zero, tokens)))) (inr h) = absurd h
  Kept-Spent b (map_err e, (b', (s, (suc calls, tokens)))) (inr h) = grind (arith, h)

-- From a budget within its caps, which with `slack` are u32 numbers, and however the provider
-- behaves, as long as no reply uses more than `slack` tokens over what its request allows:
-- build_structural_map never calls it more often than the calls that are left of the job's cap,
-- calls that fail among them, and the tokens of its replies never pass what is left of the caps of
-- the job and the session by more than `slack`. The budget has recorded just these tokens.
pub build_structural_map-Spent :
    {S : Type 0} (generate : S → LlmRequest → Reply × S) (slack : ℕ)
    (from_str : Str → Option StructuralMap) (nonce : Str) (debug : List Str → Str)
    (display : ℕ → Str) (parent_texts : List Str) (b : Budget) (s : S)
    → IsFrugal generate slack
    → Within slack b
    → Spent generate slack b
        (build_structural_map
          (metered generate)
          from_str
          nonce
          debug
          display
          parent_texts
          (b, (s, (0, 0)))).1
unfolding Keeps
build_structural_map-Spent generate slack from_str nonce debug display parent_texts b s frugal w =
    Kept-Spent generate slack b _ (
      map_parents-Keeps generate slack frugal b from_str nonce debug display parent_texts
        (b, (s, (0, 0))) (w, (refl, refl, refl, omega arith, omega arith, omega arith)))
