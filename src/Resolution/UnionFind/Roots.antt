-- ===== src/Resolution/UnionFind/Roots.antt =====
-- `find` follows the parents to the root: it returns, and the root is unique.
use lens_lm.Base.{
  ℕ, zero, suc, ◌+◌, ◌<◌, ◌≤◌, ◌≡◌, ◌≢◌, ◌⊎◌, inl, inr, refl, Bool-cases, some, List, [], ◌∷◌, ◌==◌,
  length, get_elem?, get_or, arith,
}
use mathlib.Core.Path.{subst}
use lens_lm.Resolution.UnionFind.{UnionFind, max_rank, find_loop, find}

-- `r` is the root that the parents lead to.
pub data Root (parent : List ℕ) (r : ℕ) : ℕ → Type 0 where
  stop : {i : ℕ} → get_elem? parent i ≡ some i → i ≡ r → Root parent r i
  step : {i p : ℕ} → get_elem? parent i ≡ some p → p ≢ i → Root parent r p → Root parent r i

-- Parents are in range, and of a higher rank unless the node is a root.
abbrev pub IsRanked : List ℕ → List ℕ → Type 0
IsRanked parent rank =
    (i : ℕ)
    → i < length parent
    → (p : ℕ) × (get_elem? parent i ≡ some p)
      × (p < length parent)
      × ((p ≡ i) ⊎ (get_or rank i 0 < get_or rank p 0))

abbrev pub IsForest : {C : Type 0} → UnionFind C → Type 0
IsForest uf = (length uf.rank ≡ length uf.parent) × IsRanked uf.parent uf.rank

le-max_rank : (rs : List ℕ) (i : ℕ) → get_or rs i 0 ≤ max_rank rs
unfolding max_rank
le-max_rank [] i = omega arith
le-max_rank (r ∷ rs) zero = omega arith
le-max_rank (r ∷ rs) (suc i) = omega (arith, le-max_rank rs i)

find_loop-Root :
    (parent rank : List ℕ) (fuel i : ℕ)
    → IsRanked parent rank
    → i < length parent
    → max_rank rank < get_or rank i 0 + fuel
    → (r : ℕ) × (find_loop fuel parent i ≡ some r) × Root parent r i × (r < length parent)
unfolding find_loop
find_loop-Root parent rank zero i ranked lt enough = absurd (omega (arith, le-max_rank rank i))
find_loop-Root parent rank (suc fuel) i ranked lt enough =
    let (p, at, lt', up) = ranked i lt in
    elim (Bool-cases (p == i)) [
      | inl e ↦
          let same : p ≡ i = ground arith in
          (i, rw (at, find_loop, e, find_loop), stop (rw same at at) refl, lt)
      | inr e ↦
          let (r, run, root, lt_r) = find_loop-Root parent rank fuel p ranked lt' (ground arith) in
          (r, rw (at, find_loop, e, find_loop) run, step at (ground arith) root, lt_r)
    ]

pub Root-unique : (parent : List ℕ) (r r' i : ℕ) → Root parent r i → Root parent r' i → r ≡ r'
Root-unique parent r r' i (stop at e) (stop at' e') = cc
Root-unique parent r r' i (stop at e) (step at' ne root) = absurd (ne (cc))
Root-unique parent r r' i (step at ne root) (stop at' e) = absurd (ne (cc))
Root-unique parent r r' i (step {p = p} at ne root) (step {p = q} at' ne' root') =
    let e : q ≡ p = cc in Root-unique parent r r' p root (subst (Root parent r') e root')

-- In a forest find returns the root, and it is in range.
pub find-Root :
    {C : Type 0} (uf : UnionFind C) (i : ℕ)
    → IsForest uf
    → i < length uf.parent
    → (r : ℕ) × (find uf i ≡ some r) × Root uf.parent r i × (r < length uf.parent)
unfolding find
find-Root uf i forest lt =
    find_loop-Root uf.parent uf.rank (suc (max_rank uf.rank)) i forest.1 lt (omega arith)
