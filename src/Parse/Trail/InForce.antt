-- ===== src/Parse/Trail/InForce.antt =====
-- The trail is that of the headings in force.
use lens_lm.Base.{
  ℕ, zero, suc, ◌-◌, ◌≤◌, ◌<◌, ◌≡◌, ◌∙◌, sym, ap, refl, min, max, Bool-cases, inl, inr, none, some,
  List, [], ◌∷◌, ◌++◌, set, length-set, take, length, ltb, if◌then◌else◌, arith,
}
use lens_lm.Base.Text.{Str, codes, join}
use lens_lm.Parse.Trail.{Levels, stack_new, clear_from, slot_of, push_heading, filter_some, current}

-- The stack behind headings, the newest of which comes first.
abbrev pub stack_of : List (ℕ × Str) → Levels
stack_of [] = stack_new
stack_of ((level, text) ∷ older) = push_heading (stack_of older) level text

-- A level from 1 to 6.
abbrev pub clamp : ℕ → ℕ
clamp level = min (max level 1) 6

-- Reading back from the newest: a heading is in force if its level is less than `bound`, the level of
-- the last one that is.
abbrev pub in_force : ℕ → List (ℕ × Str) → List Str
in_force bound [] = []
in_force bound ((level, text) ∷ older) =
    if ltb (clamp level) bound
    then in_force (clamp level) older ++ text ∷ []
    else in_force bound older

abbrev pushed : ℕ → Str → Levels → Levels
pushed i text levels = clear_from (suc i) (set levels i (some text))

take-pushed :
    (k i : ℕ) (text : Str) (levels : Levels) → k ≤ i → take k (pushed i text levels) ≡ take k levels
unfolding clear_from
take-pushed zero i text levels h = refl
take-pushed (suc k) i text [] h = refl
take-pushed (suc k) zero text (x ∷ r) h = absurd (omega arith)
take-pushed (suc k) (suc i) text (x ∷ r) h = ap (λ t. x ∷ t) (take-pushed k i text r (omega arith))

cleared_none : (k : ℕ) (levels : Levels) → filter_some (take k (clear_from 0 levels)) ≡ []
unfolding clear_from filter_some
cleared_none zero levels = refl
cleared_none (suc k) [] = refl
cleared_none (suc k) (x ∷ r) = cleared_none k r

filter_some-pushed :
    (k i : ℕ) (text : Str) (levels : Levels)
    → i < k
    → i < length levels
    → filter_some (take k (pushed i text levels)) ≡ filter_some (take i levels) ++ text ∷ []
unfolding clear_from filter_some
filter_some-pushed zero i text levels h l = absurd (omega arith)
filter_some-pushed (suc k) i text [] h l = absurd (omega arith)
filter_some-pushed (suc k) zero text (x ∷ r) h l = ap (λ t. text ∷ t) (cleared_none k r)
filter_some-pushed (suc k) (suc i) text (none ∷ r) h l =
    filter_some-pushed k i text r (omega arith) (omega arith)
filter_some-pushed (suc k) (suc i) text (some t ∷ r) h l =
    ap (λ u. t ∷ u) (filter_some-pushed k i text r (omega arith) (omega arith))

length-clear_from : (n : ℕ) (levels : Levels) → length (clear_from n levels) ≡ length levels
unfolding clear_from
length-clear_from n [] = refl
length-clear_from zero (x ∷ r) = ap suc (length-clear_from zero r)
length-clear_from (suc n) (x ∷ r) = ap suc (length-clear_from n r)

length-stack_of : (hs : List (ℕ × Str)) → length (stack_of hs) ≡ 6
unfolding stack_new push_heading
length-stack_of [] = refl
length-stack_of ((level, text) ∷ older) =
    length-clear_from _ _ ∙ length-set (stack_of older) _ _ ∙ length-stack_of older

stack_of-in_force :
    (hs : List (ℕ × Str)) (k : ℕ) → filter_some (take k (stack_of hs)) ≡ in_force (suc k) hs
unfolding stack_new push_heading slot_of clear_from
stack_of-in_force [] k = cleared_none k stack_new
stack_of-in_force ((level, text) ∷ older) k =
    let slot : ℕ = clamp level - 1 in
    let size = length-stack_of older in
    elim (Bool-cases (ltb (clamp level) (suc k))) [
      | inl e ↦
          let next : suc slot ≡ clamp level = omega arith in
          rw e (
            filter_some-pushed k slot text (stack_of older) (ground (arith, e))
              (omega (arith, size))
            ∙ ap (λ t. t ++ text ∷ [])
                (stack_of-in_force older slot ∙ ap (λ b. in_force b older) next))
      | inr e ↦ rw e (
          ap filter_some (take-pushed k slot text (stack_of older) (ground (arith, e)))
          ∙ stack_of-in_force older k)
    ]

take_all : (levels : Levels) (n : ℕ) → length levels ≡ n → take n levels ≡ levels
take_all [] zero h = refl
take_all [] (suc n) h = refl
take_all (x ∷ r) zero h = absurd (omega arith)
take_all (x ∷ r) (suc n) h = ap (λ t. x ∷ t) (take_all r n (omega arith))

-- Behind any headings, `current` joins those in force, from the oldest on: read back from the newest,
-- a heading is in force if its level, clamped to 1 to 6, is less than that of the last one that is.
pub current-stack_of :
    (hs : List (ℕ × Str)) → current (stack_of hs) ≡ join (codes " > ") (in_force 7 hs)
unfolding current
current-stack_of hs =
    ap (λ t. join (codes " > ") (filter_some t))
      (sym (take_all (stack_of hs) 6 (length-stack_of hs)))
    ∙ ap (join (codes " > ")) (stack_of-in_force hs 6)
