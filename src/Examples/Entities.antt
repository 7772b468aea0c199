-- ===== src/Examples/Entities.antt =====
-- Runs of entity resolution.
use lens_lm.Base.{
  ℕ, zero, suc, ◌≡◌, ◌↔◌, refl, inl, true, Option, none, some, List, [], ◌∷◌, length, arith,
}
use lens_lm.Base.Outcome.{Outcome, ok}
use lens_lm.Base.Text.{Str, codes, str_eq}
use lens_lm.Resolution.Tiers.{EntityNode, Scores, verdict, resolve_groups}
use lens_lm.Resolution.Veto.{kind_at, index_by_id-lt, IsVetoed, OneKind}
use lens_lm.Resolution.Merging.{Settles, IsOfKind, resolve_groups-IsVetoed}
use lens_lm.Base.{◌<◌, leb, ltb, ◌-◌, ◌∙◌, sym, inr, Bool-cases, if◌then◌else◌}
use lens_lm.Base.Text.{str_eq_sound}
use lens_lm.Resolution.UnionFind.{UnionFind, union}
use lens_lm.Resolution.UnionFind.Roots.{IsRanked, IsForest}
use lens_lm.Resolution.UnionFind.Classes.{SameClass, Joined}
use lens_lm.Resolution.UnionFind.Union.{union-Joined}

abbrev three : UnionFind ℕ
three = record { parent = 0 ∷ 1 ∷ 2 ∷ []; rank = 0 ∷ 0 ∷ 0 ∷ []; edges = [] }

three-IsForest : IsForest three
three-IsForest = (refl, at)
  where
    at : IsRanked (0 ∷ 1 ∷ 2 ∷ []) (0 ∷ 0 ∷ 0 ∷ [])
    at zero lt = (0, refl, omega arith, inl refl)
    at (suc zero) lt = (1, refl, omega arith, inl refl)
    at (suc (suc zero)) lt = (2, refl, omega arith, inl refl)
    at (suc (suc (suc i))) lt = absurd (omega (arith, lt))

union-Joined_example :
    (uf' : UnionFind ℕ) × (union three 0 1 7 ≡ some uf')
    × IsForest uf'
    × (length uf'.parent ≡ 3)
    × (SameClass uf' 0 1 ↔ Joined three 0 1 0 1)
union-Joined_example =
    union-Joined three three-IsForest 0 1 7 0 1 (omega arith) (omega arith) (omega arith)
      (omega arith)

abbrev percent : Scores
percent = record {
  Score = ℕ;
  one = 100;
  auto_merge = 90;
  keep_separate = 72;
  write_bar = 88;
  ge = λ a b. leb b a;
  lt = ltb;
  similarity = λ d. 100 - d;
}

abbrev person : Str
person = codes "person"

entity_of : Str → Str → EntityNode
entity_of id name = record { id = id; name = name; kind = person; definition = none }

abbrev people : List EntityNode
people = entity_of (codes "a") (codes "Ada L") ∷ entity_of (codes "b") (codes "Ada Lovelace") ∷ []

-- The store answers for a person with the second node, at distance 20.
abbrev near : ℕ → EntityNode → Option (Outcome (List (Str × ℕ)))
near i n = if str_eq n.kind person then some (ok ((codes "b", 20) ∷ [])) else none

all_people : (j : ℕ) → j < 2 → kind_at people j ≡ some person
unfolding entity_of
all_people zero lt = refl
all_people (suc zero) lt = refl
all_people (suc (suc j)) lt = absurd (omega (arith, lt))

near-IsOfKind : (i : ℕ) (n : EntityNode) → IsOfKind percent (λ s. s) people n.kind (near i n)
near-IsOfKind i n = elim (Bool-cases (str_eq n.kind person)) [
  | inl e ↦
      let same : n.kind ≡ person = str_eq_sound n.kind person e in
      rw (e, same)
        ((λ j at. all_people j (omega (arith, index_by_id-lt 0 people (codes "b") j at))), tt)
  | inr e ↦ rw e tt
]

-- The model answers that the nodes are one, with a confidence of 95.
resolve_groups-IsVetoed_example : Settles (IsVetoed people) (
    resolve_groups percent
      (λ s. s)
      people
      near
      (λ _ _. ok none)
      (λ _ _. verdict true 95)
      ((codes "a", codes "b") ∷ []))
resolve_groups-IsVetoed_example =
    resolve_groups-IsVetoed percent (λ s. s) people near (λ _ _. ok none) (λ _ _. verdict true 95)
      ((codes "a", codes "b") ∷ []) near-IsOfKind (λ _ _. tt) (one_kind, tt)
  where
    one_kind : OneKind percent (λ s. s) people (codes "a", codes "b")
    one_kind i j at_i at_j =
        all_people i (omega (arith, index_by_id-lt 0 people (codes "a") i at_i))
        ∙ sym (all_people j (omega (arith, index_by_id-lt 0 people (codes "b") j at_j)))
