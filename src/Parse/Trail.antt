-- ===== src/Parse/Trail.antt =====
-- lens-core/src/parse.rs: SectionPathStack, six slots for the headings in force.
pub mod InForce
use lens_lm.Base.{ℕ, zero, suc, ◌-◌, min, max, Option, none, some, List, [], ◌∷◌, set}
use lens_lm.Base.Text.{Str, codes, join}

abbrev pub Levels : Type 0
Levels = List (Option Str)

unfoldable pub stack_new : Levels
stack_new = none ∷ none ∷ none ∷ none ∷ none ∷ none ∷ []

-- `iter_mut().skip(n)`, each set to None.
unfoldable pub clear_from : ℕ → Levels → Levels
clear_from n [] = []
clear_from zero (x ∷ r) = none ∷ clear_from zero r
clear_from (suc n) (x ∷ r) = x ∷ clear_from n r

unfoldable pub slot_of : ℕ → ℕ
slot_of level = min (max level 1) 6 - 1

unfoldable pub push_heading : Levels → ℕ → Str → Levels
unfolding clear_from slot_of
push_heading levels level text =
    clear_from (suc (slot_of level)) (set levels (slot_of level) (some text))

unfoldable pub filter_some : Levels → List Str
filter_some [] = []
filter_some (none ∷ r) = filter_some r
filter_some (some t ∷ r) = t ∷ filter_some r

unfoldable pub current : Levels → Str
unfolding filter_some join
current levels = join (codes " > ") (filter_some levels)
