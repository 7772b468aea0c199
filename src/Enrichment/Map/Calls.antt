-- ===== src/Enrichment/Map/Calls.antt =====
-- The calls of one run: which replies it asked for, and how it ends.
use lens_lm.Base.{
  ℕ, zero, suc, ◌+◌, ◌≤◌, ◌<◌, ◌≡◌, refl, ◌⊎◌, inl, inr, Option, none, some, List, [], ◌∷◌, length,
  All, arith,
}
use lens_lm.Base.Outcome.{Outcome, ok, err, panic, LensError}
use lens_lm.Base.Text.{Str}
use lens_lm.Enrichment.Budget.{
  Budget, BudgetCheck, fits, exceeded, check_before_dispatch, record_call,
}
use lens_lm.Enrichment.Map.{
  LlmRequest, Reply, Job, Mapped, mapped, map_err, crashed, budget_exceeded, llm, after_parse,
  after_reply, request, attempt_loop, run_llm_with_retries,
}

pub check_cases : (c : BudgetCheck) → (c ≡ exceeded) ⊎ (c ≡ fits)
check_cases fits = inr refl
check_cases exceeded = inl refl

module _ {S : Type 0} (generate : S → LlmRequest → Reply × S) where
  module _ {T : Type 0} (system user : Str) (max_tokens : ℕ) (parse : Str → Outcome T) where
    -- These replies were asked for one after another, each within the budget and recorded, with the
    -- body of the reply before.
    abbrev pub Dispatched : List (Str × ℕ) → ℕ → Str → Budget × S → Budget × S → Type 0
    Dispatched [] attempt last_body state state' = state ≡ state'
    Dispatched ((text, used) ∷ r) attempt last_body (b, s) state' =
        (check_before_dispatch b max_tokens ≡ fits)
        × ((s' : S) × (generate s (request generate system user max_tokens parse attempt last_body)
              ≡ (inr (text, used), s'))
            × Dispatched r (attempt + 1) text (record_call b used, s') state')

    abbrev pub Malformed : Str × ℕ → Type 0
    Malformed (text, used) = (e : LensError) × (parse text ≡ err e)

    -- The last reply parses to `o`, and those before it are malformed.
    abbrev pub EndsAt : Outcome T → List (Str × ℕ) → Type 0
    EndsAt o [] = ⊥
    EndsAt o (reply ∷ []) = parse reply.0 ≡ o
    EndsAt o (reply ∷ next ∷ r) = Malformed reply × EndsAt o (next ∷ r)

    -- `state` is behind the replies, and `state'` at the end: a call that fails changes the provider.
    abbrev pub Ended : ℕ → List (Str × ℕ) → Mapped (Option T) → Budget × S → Budget × S → Type 0
    Ended left replies (mapped (some v)) state state' = EndsAt (ok v) replies × (state ≡ state')
    Ended left replies (mapped none) state state' =
        All Malformed replies × (length replies ≡ left) × (state ≡ state')
    Ended left replies (map_err budget_exceeded) (b, s) state' =
        All Malformed replies
        × (length replies < left)
        × (check_before_dispatch b max_tokens ≡ exceeded)
        × ((b, s) ≡ state')
    Ended left replies (map_err (llm e)) (b, s) (b', s') =
        All Malformed replies
        × (length replies < left)
        × (check_before_dispatch b max_tokens ≡ fits)
        × ((r : LlmRequest) × (r.max_tokens ≡ max_tokens) × (generate s r ≡ (inl e, s')))
        × (b ≡ b')
    Ended left replies crashed state state' = EndsAt panic replies × (state ≡ state')

    abbrev pub Retried : ℕ → ℕ → Str → Budget × S → Mapped (Option T) × (Budget × S) → Type 0
    Retried left attempt last_body state (o, state') =
        (replies : List (Str × ℕ)) × (behind : Budget × S) × (length replies ≤ left)
        × Dispatched replies attempt last_body state behind
        × Ended left replies o behind state'

    EndsAt-cons :
        (o : Outcome T) (reply : Str × ℕ) (r : List (Str × ℕ))
        → Malformed reply
        → EndsAt o r
        → EndsAt o (reply ∷ r)
    EndsAt-cons o reply [] bad h = absurd h
    EndsAt-cons o reply (x ∷ r) bad h = (bad, h)

    Ended-cons :
        (left : ℕ) (reply : Str × ℕ) (r : List (Str × ℕ)) (o : Mapped (Option T))
        (state state' : Budget × S)
        → Malformed reply
        → Ended left r o state state'
        → Ended (suc left) (reply ∷ r) o state state'
    Ended-cons left reply r (mapped (some v)) st st' bad (h, e) =
        (EndsAt-cons (ok v) reply r bad h, e)
    Ended-cons left reply r (mapped none) st st' bad (all, n, e) = ((bad, all), omega arith, e)
    Ended-cons left reply r (map_err budget_exceeded) (b, s) st' bad (all, n, c, e) =
        ((bad, all), omega arith, c, e)
    Ended-cons left reply r (map_err (llm x)) (b, s) (b', s') bad (all, n, c, g, e) =
        ((bad, all), omega arith, c, g, e)
    Ended-cons left reply r crashed st st' bad (h, e) = (EndsAt-cons panic reply r bad h, e)

    after_parse-Retried :
        (left attempt : ℕ) (last_body : Str) (b : Budget) (s s' : S) (text : Str) (used : ℕ)
        (o : Outcome T)
        → check_before_dispatch b max_tokens ≡ fits
        → generate s (request generate system user max_tokens parse attempt last_body)
          ≡ (inr (text, used), s')
        → parse text ≡ o
        → (again : Job S (Option T))
        → Retried left (attempt + 1) text (record_call b used, s') (again (record_call b used, s'))
        → Retried (suc left) attempt last_body (b, s) (after_parse o again (record_call b used, s'))
    unfolding after_parse
    after_parse-Retried left attempt last_body b s s' text used (ok v) c g p again h =
        ((text, used) ∷ [], _, omega arith, (c, (s', g, refl)), (p, refl))
    after_parse-Retried left attempt last_body b s s' text used (err e) c g p again
          (replies, behind, short, sent, ended) =
        (
          (text, used) ∷ replies,
          behind,
          omega arith,
          (c, (s', g, sent)),
          Ended-cons left (text, used) replies _ behind _ (e, p) ended,
        )
    after_parse-Retried left attempt last_body b s s' text used panic c g p again h =
        ((text, used) ∷ [], _, omega arith, (c, (s', g, refl)), (p, refl))

    after_reply-Retried :
        (left attempt : ℕ) (last_body : Str) (b : Budget) (s : S) (m : Reply × S)
        → check_before_dispatch b max_tokens ≡ fits
        → generate s (request generate system user max_tokens parse attempt last_body) ≡ m
        → (again : Str → Job S (Option T))
        → ((text : Str) (state : Budget × S)
            → Retried left (attempt + 1) text state (again text state))
        → Retried (suc left) attempt last_body (b, s) (after_reply parse again b m)
    unfolding after_reply
    after_reply-Retried left attempt last_body b s (inl e, s') c g again h =
        ([], (b, s), omega arith, refl, (tt, omega arith, c, (_, refl, g), refl))
    after_reply-Retried left attempt last_body b s (inr (text, used), s') c g again h =
        after_parse-Retried left attempt last_body b s s' text used (parse text) c g refl
          (again text) (h text (record_call b used, s'))

    attempt_loop-Retried :
        (left attempt : ℕ) (last_body : Str) (state : Budget × S)
        → Retried left attempt last_body state
            (attempt_loop generate system user max_tokens parse left attempt last_body state)
    unfolding attempt_loop
    attempt_loop-Retried zero attempt last_body state =
        ([], state, omega arith, refl, (tt, refl, refl))
    attempt_loop-Retried (suc left) attempt last_body (b, s) =
        elim (check_cases (check_before_dispatch b max_tokens)) [
          | inl e ↦ rw (e, attempt_loop) ([], (b, s), omega arith, refl, (tt, omega arith, e, refl))
          | inr e ↦
              rw (e, attempt_loop)
                (after_reply-Retried left attempt last_body b s _ e refl _
                  (attempt_loop-Retried left (attempt + 1)))
        ]

    -- run_llm_with_retries asks for at most three replies, each only where the budget allows it, and
    -- records all of them. A value is that of the last reply, and those before it were malformed; no
    -- value is three malformed replies. Else the last reply's parse panicked, the budget did not
    -- allow the next call, or that call failed.
    pub run_llm_with_retries-Retried :
        (state : Budget × S)
        → Retried 3 0 [] state (run_llm_with_retries generate system user max_tokens parse state)
    unfolding run_llm_with_retries
    run_llm_with_retries-Retried state = attempt_loop-Retried 3 0 [] state
