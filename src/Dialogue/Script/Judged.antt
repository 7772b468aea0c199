-- ===== src/Dialogue/Script/Judged.antt =====
-- validate_script accepts exactly the scripts that keep all four rules, and names the first one broken.
use lens_lm.Base.{
  ℕ, ◌≤◌, ◌<◌, ◌≡◌, ◌∙◌, sym, refl, inl, inr, Bool, Bool-cases, true, false, ◌&&◌, ◌||◌, not, none,
  some, List, [], ◌∷◌, any, All, length, ltb, if◌then◌else◌, arith,
}
use lens_lm.Base.Text.{Str}
use lens_lm.Dialogue.Script.{
  Turn, same_speaker, speaks, is_prev, runs_loop, all_selected, sources_loop, Verdict, valid,
  script_too_short, both_speakers_required, run_exceeded, unknown_source, validate_script,
}
use lens_lm.Tts.Orpheus.{Speaker, host, guest}

abbrev pub speakers : List Turn → List Speaker
speakers [] = []
speakers (t ∷ r) = t.speaker ∷ speakers r

-- No three turns in a row are of one speaker.
abbrev pub no_three : List Speaker → Bool
no_three (a ∷ b ∷ c ∷ r) = not (same_speaker a b && same_speaker b c) && no_three (b ∷ c ∷ r)
no_three r = true

no_three-change :
    (p q : Speaker) (r : List Speaker)
    → same_speaker p q ≡ false
    → no_three (p ∷ q ∷ r) ≡ no_three (q ∷ r)
no_three-change p q [] e = refl
no_three-change p q (c ∷ r) e = rw e refl

-- A turn of `q` behind one turn, and behind two, of `p`; `loop` is the later turns.
next_turn-no_three :
    (p q : Speaker) (loop : ℕ → Bool) (r : List Speaker)
    → loop 1 ≡ no_three (q ∷ r)
    → loop 2 ≡ no_three (q ∷ q ∷ r)
    → let run1 : ℕ = if same_speaker p q then 2 else 1 in
      let run2 : ℕ = if same_speaker p q then 3 else 1 in
      ((if ltb 2 run1 then false else loop run1) ≡ no_three (p ∷ q ∷ r))
      × ((if ltb 2 run2 then false else loop run2) ≡ no_three (p ∷ p ∷ q ∷ r))
next_turn-no_three host host loop r one two = (two, refl)
next_turn-no_three guest guest loop r one two = (two, refl)
next_turn-no_three host guest loop r one two =
    let change = no_three-change host guest r refl in (one ∙ sym change, one ∙ sym change)
next_turn-no_three guest host loop r one two =
    let change = no_three-change guest host r refl in (one ∙ sym change, one ∙ sym change)

-- The loop behind one turn, and behind two, of `p`.
runs_loop-no_three :
    (r : List Turn) (p : Speaker)
    → (runs_loop r 1 (some p) ≡ no_three (p ∷ speakers r))
      × (runs_loop r 2 (some p) ≡ no_three (p ∷ p ∷ speakers r))
unfolding runs_loop is_prev
runs_loop-no_three [] p = (refl, refl)
runs_loop-no_three (t ∷ r) p =
    let (one, two) = runs_loop-no_three r t.speaker in
    next_turn-no_three p t.speaker (λ run. runs_loop r run (some t.speaker)) (speakers r) one two

runs_loop_start : (turns : List Turn) → runs_loop turns 0 none ≡ no_three (speakers turns)
unfolding runs_loop is_prev
runs_loop_start [] = refl
runs_loop_start (t ∷ r) = (runs_loop-no_three r t.speaker).0

-- Every source of every turn is selected.
abbrev pub Cites : (Str → Bool) → List Turn → Type 0
Cites selected turns = All (λ t. All (λ id. selected id ≡ true) t.source_ids) turns

all_selected-All :
    (selected : Str → Bool) (ids : List Str)
    → all_selected selected ids ≡ true
    → All (λ id. selected id ≡ true) ids
unfolding all_selected
all_selected-All selected [] h = tt
all_selected-All selected (id ∷ r) h =
    (ground (arith, h), all_selected-All selected r (ground (arith, h)))

sources_loop-Cites :
    (selected : Str → Bool) (turns : List Turn)
    → sources_loop selected turns ≡ true
    → Cites selected turns
unfolding sources_loop
sources_loop-Cites selected [] h = tt
sources_loop-Cites selected (t ∷ r) h = (
  all_selected-All selected t.source_ids (ground (arith, h)),
  sources_loop-Cites selected r (ground (arith, h)),
)

All-all_selected :
    (selected : Str → Bool) (ids : List Str)
    → All (λ id. selected id ≡ true) ids
    → all_selected selected ids ≡ true
unfolding all_selected
All-all_selected selected [] h = refl
All-all_selected selected (id ∷ r) (e, h) = rw e (All-all_selected selected r h)

Cites-sources_loop :
    (selected : Str → Bool) (turns : List Turn)
    → Cites selected turns
    → sources_loop selected turns ≡ true
unfolding sources_loop
Cites-sources_loop selected [] h = refl
Cites-sources_loop selected (t ∷ r) (e, h) =
    rw (All-all_selected selected t.source_ids e) (Cites-sources_loop selected r h)

-- Both voices speak.
abbrev pub both_speak : List Turn → Bool
both_speak turns = any (speaks host) turns && any (speaks guest) turns

-- What the verdict says of the turns.
abbrev pub Judged : List Turn → (Str → Bool) → ℕ → Verdict → Type 0
Judged turns selected min_turns valid =
    (min_turns ≤ length turns)
    × (both_speak turns ≡ true)
    × (no_three (speakers turns) ≡ true)
    × Cites selected turns
Judged turns selected min_turns script_too_short = length turns < min_turns
Judged turns selected min_turns both_speakers_required =
    (min_turns ≤ length turns) × (both_speak turns ≡ false)
Judged turns selected min_turns run_exceeded =
    (min_turns ≤ length turns) × (both_speak turns ≡ true) × (no_three (speakers turns) ≡ false)
Judged turns selected min_turns unknown_source =
    (min_turns ≤ length turns)
    × (both_speak turns ≡ true)
    × (no_three (speakers turns) ≡ true)
    × (Cites selected turns → ⊥)

unselected :
    (selected : Str → Bool) (turns : List Turn)
    → sources_loop selected turns ≡ false
    → Cites selected turns
    → ⊥
unselected selected turns e h = cc (e, Cites-sources_loop selected turns h)

-- validate_script accepts exactly the scripts that have enough turns, in which both voices speak, no
-- three turns in a row are of one voice, and every cited source is selected. Otherwise it names the
-- first of these rules, in this order, that is broken.
pub validate_script-Judged :
    (turns : List Turn) (selected : Str → Bool) (min_turns : ℕ)
    → Judged turns selected min_turns (validate_script turns selected min_turns)
unfolding validate_script
validate_script-Judged turns selected min_turns =
    let runs = runs_loop_start turns in
    elim (Bool-cases (ltb (length turns) min_turns)) [
      | inl e ↦ rw e (ground (arith, e))
      | inr e ↦
          let enough : min_turns ≤ length turns = ground (arith, e) in
          elim (Bool-cases (not (any (speaks host) turns) || not (any (speaks guest) turns))) [
            | inl f ↦ rw (e, f) (enough, ground (arith, f))
            | inr f ↦
                let both : both_speak turns ≡ true = ground (arith, f) in
                elim (Bool-cases (runs_loop turns 0 none)) [
                  | inr g ↦ rw (e, f, g) (enough, both, sym runs ∙ g)
                  | inl g ↦ elim (Bool-cases (sources_loop selected turns)) [
                    | inl h ↦
                        rw (e, f, g, h)
                          (enough, both, sym runs ∙ g, sources_loop-Cites selected turns h)
                    | inr h ↦
                        rw (e, f, g, h) (enough, both, sym runs ∙ g, unselected selected turns h)
                  ]
                ]
          ]
    ]
