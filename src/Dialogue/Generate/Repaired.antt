-- ===== src/Dialogue/Generate/Repaired.antt =====
-- What the loop over the repairs ends in, and what it asks for.
use lens_lm.Base.{
  ℕ, zero, suc, ◌+◌, ◌≤◌, ◌≡◌, refl, sym, ap, ◌⊎◌, inl, inr, Option, none, some, List, [], ◌∷◌,
  arith,
}
use mathlib.Core.Path.{subst}
use lens_lm.Base.Outcome.{cancelled}
use lens_lm.Base.Text.{Str}
use lens_lm.Dialogue.Generate.{
  DialoguePhase, retrieving, generating, validating, DialogueRequest, Failure, Checked, accepted,
  rejected, exhausted_failure, ModelReply, cancelled_call, failed_call, replied, Generated,
  generated, stopped, no_sources, exhausted, crashed, Trace, on_phase, ask, max_repairs,
  repair_loop, validated, generate_and_repair,
}

abbrev pub at_generating : List DialoguePhase
at_generating = generating ∷ retrieving ∷ []

module _ (check : Str → Option Checked) (repair : Str → Failure → DialogueRequest)
    (replies : ℕ → ModelReply) (first : DialogueRequest) where
  -- The requests that were made, the newest first: each one behind the first quotes the reply before
  -- it, which was rejected, and why.
  abbrev pub IsAsked : ℕ → List DialogueRequest → Type 0
  IsAsked zero l = l ≡ first ∷ []
  IsAsked (suc k) l =
      (text : Str) × (f : Failure) × (l' : List DialogueRequest) × (replies k ≡ replied text)
      × (check text ≡ some (rejected f))
      × (l ≡ repair text f ∷ l')
      × IsAsked k l'

  -- The result is told by the reply `k`, and the requests up to it are made.
  abbrev pub Story : List DialoguePhase → Generated × Trace → Type 0
  Story at_end (generated s, t) =
      (k : ℕ) × (k ≤ 2)
      × (text : Str) × (replies k ≡ replied text)
      × (check text ≡ some (accepted s))
      × IsAsked k t.asked
      × (t.phases ≡ at_end)
  Story at_end (stopped e, t) =
      (k : ℕ) × (k ≤ 2)
      × (((replies k ≡ cancelled_call) × (e ≡ cancelled)) ⊎ (replies k ≡ failed_call e))
      × IsAsked k t.asked
      × (t.phases ≡ at_generating)
  Story at_end (no_sources, t) = ⊥
  Story at_end (exhausted e, t) =
      (text : Str) × (f : Failure) × (replies 2 ≡ replied text)
      × (check text ≡ some (rejected f))
      × (e ≡ exhausted_failure f)
      × IsAsked 2 t.asked
      × (t.phases ≡ at_generating)
  Story at_end (crashed, t) =
      (k : ℕ) × (k ≤ 2)
      × (text : Str) × (replies k ≡ replied text)
      × (check text ≡ none)
      × IsAsked k t.asked
      × (t.phases ≡ at_generating)

  -- A reply that is asked for, `next` being what follows its text.
  asked_again :
      (k : ℕ) (t : Trace) (next : Str → Generated × Trace) (m : ModelReply)
      → k ≤ 2
      → replies k ≡ m
      → IsAsked k t.asked
      → t.phases ≡ at_generating
      → ((text : Str) → replies k ≡ replied text → Story at_generating (next text))
      → Story at_generating (elim m [
        | cancelled_call ↦ (stopped cancelled, t)
        | failed_call e ↦ (stopped e, t)
        | replied text ↦ next text
      ])
  asked_again k t next cancelled_call le r asked at rest = (k, le, inl (r, refl), asked, at)
  asked_again k t next (failed_call e) le r asked at rest = (k, le, inr r, asked, at)
  asked_again k t next (replied text) le r asked at rest = rest text r

  repair_loop-Story :
      (left n : ℕ) (prior : Str) (c : Option Checked) (t : Trace)
      → n + left ≡ 2
      → replies n ≡ replied prior
      → check prior ≡ c
      → IsAsked n t.asked
      → t.phases ≡ at_generating
      → Story at_generating (repair_loop check repair replies left n prior c t)
  unfolding repair_loop ask
  repair_loop-Story left n prior none t two r e asked at = (n, omega arith, prior, r, e, asked, at)
  repair_loop-Story left n prior (some (accepted s)) t two r e asked at =
      (n, omega arith, prior, r, e, asked, at)
  repair_loop-Story zero n prior (some (rejected f)) t two r e asked at =
      let last : n ≡ 2 = omega arith in
      (prior, f, rw (← last) r, e, refl, subst (λ (k : ℕ). IsAsked k t.asked) last asked, at)
  repair_loop-Story (suc left) n prior (some (rejected f)) t two r e asked at =
      let later : n + 1 ≡ suc n = omega arith in
      let asked' : IsAsked (n + 1) (repair prior f ∷ t.asked) =
        subst (λ (k : ℕ). IsAsked k (repair prior f ∷ t.asked)) (sym later)
          (prior, f, t.asked, r, e, refl, asked) in
      asked_again (n + 1) (ask (repair prior f) t) _ (replies (n + 1)) (omega arith) refl asked' at
        (λ (text : Str) (e' : replies (n + 1) ≡ replied text).
          repair_loop-Story left (n + 1) text (check text) (ask (repair prior f) t) (omega arith) e'
            refl asked' at)

  validated-Story :
      (r : Generated × Trace)
      → Story at_generating r
      → Story (validating ∷ at_generating) (validated check repair replies r)
  unfolding validated on_phase
  validated-Story (generated s, t) (k, le, text, r, e, asked, at) =
      (k, le, text, r, e, asked, ap (λ (l : List DialoguePhase). validating ∷ l) at)
  validated-Story (stopped x, t) h = h
  validated-Story (no_sources, t) h = absurd h
  validated-Story (exhausted x, t) h = h
  validated-Story (crashed, t) h = h

  pub generate_and_repair-Story :
      (t : Trace)
      → t.asked ≡ []
      → t.phases ≡ retrieving ∷ []
      → Story (validating ∷ at_generating) (generate_and_repair check repair replies first t)
  unfolding generate_and_repair on_phase ask
  generate_and_repair-Story t asked at =
      let t' = ask first (on_phase generating t) in
      let asked' : first ∷ t.asked ≡ first ∷ [] =
        ap (λ (l : List DialogueRequest). first ∷ l) asked in
      let at' : generating ∷ t.phases ≡ at_generating =
        ap (λ (l : List DialoguePhase). generating ∷ l) at in
      asked_first (replies 0) refl t' asked' at'
    where
      asked_first :
          (m : ModelReply)
          → replies 0 ≡ m
          → (t' : Trace) → t'.asked ≡ first ∷ []
          → t'.phases ≡ at_generating
          → Story (validating ∷ at_generating) (elim m [
            | cancelled_call ↦ (stopped cancelled, t')
            | failed_call e ↦ (stopped e, t')
            | replied text ↦
                validated check repair replies
                  (repair_loop check repair replies max_repairs 0 text (check text) t')
          ])
      asked_first cancelled_call r t' asked' at' = (0, omega arith, inl (r, refl), asked', at')
      asked_first (failed_call e) r t' asked' at' = (0, omega arith, inr r, asked', at')
      asked_first (replied text) r t' asked' at' =
          validated-Story _
            (repair_loop-Story 2 0 text (check text) t' (omega arith) r refl asked' at')
