-- ===== src/Resolution/Veto.antt =====
-- The tiers return, keep the forest, and join nodes of one kind only where their input does.
use lens_lm.Base.{
  ℕ, zero, suc, ◌+◌, ◌<◌, ◌≡◌, ◌∙◌, ◌&&◌, refl, sym, ap, inl, inr, Bool-cases, Option, Option-cases,
  none, some, List, [], ◌∷◌, length, get_elem?, All, arith,
}
use lens_lm.Base.Outcome.{ok}
use lens_lm.Base.Text.{Str, str_eq, str_eq_sound}
use lens_lm.Resolution.UnionFind.{UnionFind, count_from, rank_zero, new, union, find, find_loop}
use lens_lm.Resolution.UnionFind.Roots.{IsForest}
use lens_lm.Resolution.UnionFind.Classes.{SameClass}
use lens_lm.Resolution.UnionFind.Union.{union-IsUnion}
use lens_lm.Resolution.Tiers.{
  EntityNode, Scores, normalize_name, index_by_id, first_of_key, tier1_exact, tier1_coref,
  tier1_exact_and_coref,
}

-- The kind of node `i`, if there is one.
abbrev pub kind_at : List EntityNode → ℕ → Option Str
kind_at [] i = none
kind_at (n ∷ r) zero = some n.kind
kind_at (n ∷ r) (suc i) = kind_at r i

pub kind_at-lt :
    (nodes : List EntityNode) (i : ℕ) (k : Str) → kind_at nodes i ≡ some k → i < length nodes
kind_at-lt [] i k e = cc
kind_at-lt (n ∷ r) zero k e = omega arith
kind_at-lt (n ∷ r) (suc i) k e = omega (arith, kind_at-lt r i k e)

-- The ids' indices are in range.
pub index_by_id-lt :
    (i : ℕ) (nodes : List EntityNode) (id : Str) (j : ℕ)
    → index_by_id i nodes id ≡ some j
    → j < i + length nodes
unfolding index_by_id
index_by_id-lt i [] id j e = cc
index_by_id-lt i (n ∷ r) id j e = elim (Option-cases (index_by_id (i + 1) r id)) [
  | inl q ↦ ground (arith, e, q)
  | inr (k, q) ↦
      let same : k ≡ j = ground (arith, e, q) in
      omega (arith, index_by_id-lt (i + 1) r id k q, same)
]

length-count_from : (i n : ℕ) → length (count_from i n) ≡ n
unfolding count_from
length-count_from i zero = refl
length-count_from i (suc n) = ap suc (length-count_from (suc i) n)

length-rank_zero : (n : ℕ) → length (rank_zero n) ≡ n
unfolding rank_zero
length-rank_zero zero = refl
length-rank_zero (suc n) = ap suc (length-rank_zero n)

get_elem?-count_from : (i n k : ℕ) → k < n → get_elem? (count_from i n) k ≡ some (i + k)
unfolding count_from
get_elem?-count_from i zero k lt = absurd (omega (arith, lt))
get_elem?-count_from i (suc n) zero lt = ap some (omega arith)
get_elem?-count_from i (suc n) (suc k) lt =
    get_elem?-count_from (suc i) n k (omega arith) ∙ ap some (omega arith)

-- A node that is its own parent is found at once.
find-own :
    {C : Type 0} (uf : UnionFind C) (i : ℕ) → get_elem? uf.parent i ≡ some i → find uf i ≡ some i
unfolding find find_loop
find-own uf i at = ground (arith, at)

module _ {C : Type 0} (nodes : List EntityNode) where
  -- A forest over the nodes in which every class is of one kind.
  abbrev pub IsVetoed : UnionFind C → Type 0
  IsVetoed uf =
      IsForest uf
      × (length uf.parent ≡ length nodes)
      × ((i j : ℕ)
          → i < length nodes
          → j < length nodes
          → SameClass uf i j
          → kind_at nodes i ≡ kind_at nodes j)

  pub union-IsVetoed :
      (uf : UnionFind C) (a b : ℕ) (conf : C)
      → IsVetoed uf
      → a < length nodes
      → b < length nodes
      → kind_at nodes a ≡ kind_at nodes b
      → (uf' : UnionFind C) × (union uf a b conf ≡ some uf') × IsVetoed uf'
  union-IsVetoed uf a b conf (forest, len, veto) lt_a lt_b same =
      let (uf', run, (forest', len', joins)) =
        union-IsUnion uf forest a b conf (omega arith) (omega arith) in
      (
        uf',
        run,
        (
          forest',
          len' ∙ len,
          λ i j lt_i lt_j e. elim ((joins i j (omega arith) (omega arith)).0 e) [
            | inl was ↦ veto i j lt_i lt_j was
            | inr (inl (x, y)) ↦ veto i a lt_i lt_a x ∙ same ∙ sym (veto j b lt_j lt_b y)
            | inr (inr (x, y)) ↦ veto i b lt_i lt_b x ∙ sym same ∙ sym (veto j a lt_j lt_a y)
          ],
        ),
      )

new-IsVetoed : (C : Type 0) (nodes : List EntityNode) → IsVetoed nodes (new {C = C} (length nodes))
unfolding new
new-IsVetoed C nodes =
    let n = length nodes in
    (
      (
        omega (arith, length-count_from 0 n, length-rank_zero n),
        λ i lt. (
          i,
          get_elem?-count_from 0 n i (omega (arith, lt, length-count_from 0 n))
              ∙ ap some (omega arith),
          lt,
          inl refl,
        ),
      ),
      length-count_from 0 n,
      λ i j lt_i lt_j e.
          let at_i =
            find-own (new {C = C} n) i (get_elem?-count_from 0 n i lt_i ∙ ap some (omega arith)) in
          let at_j =
            find-own (new {C = C} n) j (get_elem?-count_from 0 n j lt_j ∙ ap some (omega arith)) in
          let same : i ≡ j = ground (arith, at_i, at_j, e) in ap (λ m. kind_at nodes m) same,
    )

module _ (sc : Scores) (to_lowercase : Str → Str) (nodes : List EntityNode) where
  -- An entry of `first_of_key` is a node of the entry's kind.
  abbrev IsSeen : Str × Str × ℕ → Type 0
  IsSeen (name, kind, i) = kind_at nodes i ≡ some kind

  first_of_key-kind :
      (seen : List (Str × Str × ℕ)) (name kind : Str) (i : ℕ)
      → All IsSeen seen
      → first_of_key sc to_lowercase nodes seen name kind ≡ some i
      → kind_at nodes i ≡ some kind
  unfolding first_of_key
  first_of_key-kind [] name kind i all e = cc
  first_of_key-kind ((m, k, j) ∷ r) name kind i (h, all) e =
      elim (Bool-cases (str_eq m name && str_eq k kind)) [
        | inl q ↦
            let same : k ≡ kind = ground (arith, q, str_eq_sound k kind) in
            let at : j ≡ i = ground (arith, q, e) in cc
        | inr q ↦ first_of_key-kind r name kind i all (ground (arith, q, e))
      ]

  tier1_exact-IsVetoed :
      (i : ℕ) (rest : List EntityNode) (seen : List (Str × Str × ℕ)) (uf : UnionFind sc.Score)
      → ((k : ℕ) → kind_at rest k ≡ kind_at nodes (i + k))
      → All IsSeen seen
      → IsVetoed nodes uf
      → (uf' : UnionFind sc.Score) × (tier1_exact sc to_lowercase nodes i rest seen uf ≡ ok uf')
        × IsVetoed nodes uf'
  unfolding tier1_exact
  tier1_exact-IsVetoed i [] seen uf at all veto = (uf, refl, veto)
  tier1_exact-IsVetoed i (n ∷ r) seen uf at all veto =
      let here : kind_at nodes i ≡ some n.kind =
        let z : i ≡ i + 0 = omega arith in ap (λ m. kind_at nodes m) z ∙ sym (at 0) in
      let later : (k : ℕ) → kind_at r k ≡ kind_at nodes (i + 1 + k) = λ k.
        let z : i + suc k ≡ i + 1 + k = omega arith in at (suc k) ∙ ap (λ m. kind_at nodes m) z in
      elim (Option-cases
        (first_of_key sc to_lowercase nodes seen (normalize_name to_lowercase n.name) n.kind)) [
          | inl e ↦ rw (e, tier1_exact) (tier1_exact-IsVetoed (i + 1) r _ uf later (here, all) veto)
          | inr (first, e) ↦
              let there = first_of_key-kind seen _ n.kind first all e in
              let (uf1, run, veto1) =
                union-IsVetoed nodes uf first i sc.one veto (kind_at-lt nodes first n.kind there)
                  (kind_at-lt nodes i n.kind here) (there ∙ sym here) in
              rw (e, tier1_exact, run) (tier1_exact-IsVetoed (i + 1) r seen uf1 later all veto1)
        ]

  -- If both ids are of nodes, they are of one kind.
  abbrev pub OneKind : Str × Str → Type 0
  OneKind (a, b) =
      (i j : ℕ)
      → index_by_id 0 nodes a ≡ some i
      → index_by_id 0 nodes b ≡ some j
      → kind_at nodes i ≡ kind_at nodes j

  tier1_coref-IsVetoed :
      (pairs : List (Str × Str)) (uf : UnionFind sc.Score)
      → All OneKind pairs
      → IsVetoed nodes uf
      → (uf' : UnionFind sc.Score) × (tier1_coref sc to_lowercase nodes pairs uf ≡ ok uf')
        × IsVetoed nodes uf'
  unfolding tier1_coref
  tier1_coref-IsVetoed [] uf all veto = (uf, refl, veto)
  tier1_coref-IsVetoed ((a, b) ∷ r) uf (kinds, all) veto =
      elim (Option-cases (index_by_id 0 nodes a)) [
        | inl e ↦ rw (e, tier1_coref) (tier1_coref-IsVetoed r uf all veto)
        | inr (i, e) ↦ elim (Option-cases (index_by_id 0 nodes b)) [
          | inl e' ↦ rw (e, tier1_coref, e') (tier1_coref-IsVetoed r uf all veto)
          | inr (j, e') ↦
              let (uf1, run, veto1) =
                union-IsVetoed nodes uf i j sc.one veto
                  (omega (arith, index_by_id-lt 0 nodes a i e))
                  (omega (arith, index_by_id-lt 0 nodes b j e')) (kinds i j e e') in
              rw (e, tier1_coref, e', run) (tier1_coref-IsVetoed r uf1 all veto1)
        ]
      ]

  -- Tier 1 on the new forest of the nodes returns, if each pair of coreference is of one kind: a
  -- ranked forest over the nodes, in which nodes of one class are of one kind.
  pub tier1_exact_and_coref-IsVetoed :
      (pairs : List (Str × Str))
      → All OneKind pairs
      → (uf' : UnionFind sc.Score) × (tier1_exact_and_coref sc to_lowercase nodes pairs
            (new (length nodes))
          ≡ ok uf')
        × IsVetoed nodes uf'
  unfolding tier1_exact_and_coref
  tier1_exact_and_coref-IsVetoed pairs all =
      let (uf1, run1, veto1) =
        tier1_exact-IsVetoed 0 nodes [] (new (length nodes))
          (λ k. let z : k ≡ 0 + k = omega arith in ap (λ m. kind_at nodes m) z) tt
          (new-IsVetoed sc.Score nodes) in
      let (uf2, run2, veto2) = tier1_coref-IsVetoed pairs uf1 all veto1 in
      (uf2, rw run1 run2, veto2)
