-- ===== src/Dialogue/Generate/Told.antt =====
-- What generate_dialogue ends in, and what it asks for, from the start.
use lens_lm.Base.{
  ℕ, ◌≡◌, refl, ap, ◌⊎◌, inl, inr, Bool, true, false, Option, none, some, List, [], ◌∷◌,
}
use mathlib.Core.Path.{subst}
use lens_lm.Base.Outcome.{Outcome, ok, err, panic, cancelled}
use lens_lm.Base.Text.{Str}
use lens_lm.Dialogue.Script.{
  Turn, LengthPreset, effective_min_turns, Verdict, valid, script_too_short, both_speakers_required,
  run_exceeded, unknown_source, validate_script,
}
use lens_lm.Dialogue.Generate.{
  retrieving, validating, DialogueRequest, base_request, Failure, unparsed, invalid, Checked,
  accepted, rejected, build_repair_request, ModelReply, Generated, generated, stopped, no_sources,
  exhausted, crashed, Trace, check_rules, parse_and_validate, generate_and_repair, Services,
  stop_on, unless_cancelled, with_sources, run_dialogue, generate_dialogue,
}
use lens_lm.Dialogue.Generate.Repaired.{at_generating, Story, generate_and_repair-Story}

module _ {Vector Units Titles : Type 0} (services : Services Vector Units Titles) where
  -- Why a call ends before the model is asked.
  abbrev pub Early : Generated → Type 0
  Early (generated s) = ⊥
  Early (exhausted e) = ⊥
  Early no_sources = (v : Vector) × (services.embedded ≡ ok v) × (services.search v ≡ ok [])
  Early (stopped e) =
      ((e ≡ cancelled)
        × ((services.cancelled_before ≡ true)
            ⊎ ((services.cancelled_embedded ≡ true) ⊎ (services.cancelled_titled ≡ true))))
      ⊎ ((services.embedded ≡ err e)
          ⊎ (((v : Vector) × (services.search v ≡ err e))
              ⊎ ((us : List Units) × (services.titles us ≡ err e))))
  Early crashed =
      (services.embedded ≡ panic)
      ⊎ (((v : Vector) × (services.search v ≡ panic))
          ⊎ ((us : List Units) × (services.titles us ≡ panic)))

  module _ (first : List Units → Titles → DialogueRequest) (check : Str → Option Checked)
      (repair : Str → Failure → DialogueRequest) (replies : ℕ → ModelReply) where
    abbrev pub Told : Generated × Trace → Type 0
    Told (g, t) =
        (Early g × (t.asked ≡ []) × (t.phases ≡ retrieving ∷ []))
        ⊎ ((us : List Units) × (titles : Titles) × Story check repair replies (first us titles)
              (validating ∷ at_generating) (g, t))

    abbrev begun : Trace
    begun = record { phases = retrieving ∷ []; asked = [] }

    cancellable :
        (b : Bool) (next : Generated × Trace)
        → (b ≡ true
            → (services.cancelled_before ≡ true)
              ⊎ ((services.cancelled_embedded ≡ true) ⊎ (services.cancelled_titled ≡ true)))
        → Told next
        → Told (unless_cancelled b begun next)
    unfolding unless_cancelled
    cancellable true next why h = inl (inl (refl, why refl), refl, refl)
    cancellable false next why h = h

    titled :
        (us : List Units) (o : Outcome Titles)
        → services.titles us ≡ o
        → Told (
            stop_on o begun (λ titles.
              unless_cancelled services.cancelled_titled begun
                (generate_and_repair check repair replies (first us titles) begun)))
    unfolding stop_on
    titled us (ok titles) e =
        cancellable services.cancelled_titled _
          (λ (c : services.cancelled_titled ≡ true). inr (inr c))
          (inr (
            us,
            titles,
            generate_and_repair-Story check repair replies (first us titles) begun refl refl,
          ))
    titled us (err x) e = inl (inr (inr (inr (us, e))), refl, refl)
    titled us panic e = inl (inr (inr (us, e)), refl, refl)

    searched :
        (v : Vector) (o : Outcome (List Units))
        → services.embedded ≡ ok v
        → services.search v ≡ o
        → Told (
            stop_on o begun (
              with_sources services begun
                (λ us titles. generate_and_repair check repair replies (first us titles) begun)))
    unfolding stop_on with_sources
    searched v (ok []) given e = inl ((v, given, e), refl, refl)
    searched v (ok (u ∷ us)) given e = titled (u ∷ us) (services.titles (u ∷ us)) refl
    searched v (err x) given e = inl (inr (inr (inl (v, e))), refl, refl)
    searched v panic given e = inl (inr (inl (v, e)), refl, refl)

    embedded :
        (o : Outcome Vector)
        → services.embedded ≡ o
        → Told (
            stop_on o begun (λ v. unless_cancelled services.cancelled_embedded begun (
              stop_on (services.search v) begun (
                with_sources services begun (λ us titles.
                  generate_and_repair check repair replies (first us titles) begun)))))
    unfolding stop_on
    embedded (ok v) e =
        cancellable services.cancelled_embedded _
          (λ (c : services.cancelled_embedded ≡ true). inr (inl c))
          (searched v (services.search v) e refl)
    embedded (err x) e = inl (inr (inl e), refl, refl)
    embedded panic e = inl (inl e, refl, refl)

    pub run_dialogue-Told : Told (run_dialogue services first check repair replies)
    unfolding run_dialogue
    run_dialogue-Told =
        cancellable services.cancelled_before _ inl (embedded services.embedded refl)

-- What is accepted keeps the rules.
judged :
    (turns s : List Turn) (v : Verdict)
    → ◌≡◌ {A = Checked}
        (elim v [ valid ↦ accepted turns | broken ↦ rejected (invalid broken) ])
        (accepted s)
    → (turns ≡ s) × (v ≡ valid)
judged turns s valid h = (cc, refl)
judged turns s script_too_short h = absurd (cc)
judged turns s both_speakers_required h = absurd (cc)
judged turns s run_exceeded h = absurd (cc)
judged turns s unknown_source h = absurd (cc)

accepted_lem :
    (selected : Str → Bool) (min_turns : ℕ) (o : Outcome (List Turn)) (s : List Turn)
    → ◌≡◌ {A = Option Checked}
        (elim o [
          | ok turns ↦ some (check_rules selected min_turns turns)
          | err e ↦ some (rejected unparsed)
          | panic ↦ none
        ])
        (some (accepted s))
    → (o ≡ ok s) × (validate_script s selected min_turns ≡ valid)
unfolding check_rules
accepted_lem selected min_turns (ok turns) s h =
    let (same, v) = judged turns s (validate_script turns selected min_turns) (cc) in
    (ap ok same, subst (λ (l : List Turn). validate_script l selected min_turns ≡ valid) same v)
accepted_lem selected min_turns (err x) s h = absurd (cc)
accepted_lem selected min_turns panic s h = absurd (cc)

module _ {Vector Units Titles : Type 0} (services : Services Vector Units Titles)
    (prompt : List Units → Titles → Str × Str) (display : ℕ → Str)
    (parse : Str → Outcome (List Turn)) (selected : Str → Bool) (p : LengthPreset) (is_local : Bool)
    (replies : ℕ → ModelReply) where
  -- A script is read from a reply and keeps all the rules.
  abbrev pub Sound : Generated × Trace → Type 0
  Sound (generated s, t) =
      ((text : Str) × (parse text ≡ ok s))
      × (validate_script s selected (effective_min_turns p is_local) ≡ valid)
  Sound (stopped e, t) = Unit
  Sound (no_sources, t) = Unit
  Sound (exhausted e, t) = Unit
  Sound (crashed, t) = Unit

  abbrev pub ToldBy : Generated × Trace → Type 0
  ToldBy r =
      Told services (λ units titles. base_request (prompt units titles).0 (prompt units titles).1 p)
        (parse_and_validate parse selected (effective_min_turns p is_local))
        (λ prior failure.
          build_repair_request display prior failure p (effective_min_turns p is_local))
        replies r

  Told-Sound : (r : Generated × Trace) → ToldBy r → Sound r
  unfolding parse_and_validate
  Told-Sound (generated s, t) (inl (h, e, f)) = absurd h
  Told-Sound (generated s, t) (inr (us, titles, (k, le, text, r, e, asked, at))) =
      let (read, v) = accepted_lem selected (effective_min_turns p is_local) (parse text) s e in
      ((text, read), v)
  Told-Sound (stopped e, t) h = tt
  Told-Sound (no_sources, t) h = tt
  Told-Sound (exhausted e, t) h = tt
  Told-Sound (crashed, t) h = tt

  -- A call ends before the model is asked, with the phase Retrieving alone, only for a service
  -- that fails, a cancellation, or no sources. Else one to three requests are made, the first with
  -- the prompt, and each later one with the text of the reply before it and why that was rejected: it
  -- ends at the first reply that is accepted, which is the script, fails or is cancelled, and with
  -- the failure of the third reply if that is rejected too. Only a script has the phase Validating,
  -- and it was read from a reply and keeps all the rules of validate_script.
  pub generate_dialogue-ToldBy :
      ToldBy (generate_dialogue services prompt display parse selected p is_local replies)
      × Sound (generate_dialogue services prompt display parse selected p is_local replies)
  unfolding generate_dialogue
  generate_dialogue-ToldBy =
      let told =
        run_dialogue-Told services
          (λ (units : List Units) (titles : Titles).
            base_request (prompt units titles).0 (prompt units titles).1 p)
          (parse_and_validate parse selected (effective_min_turns p is_local))
          (λ (prior : Str) (failure : Failure).
            build_repair_request display prior failure p (effective_min_turns p is_local))
          replies in
      (told, Told-Sound _ told)
