-- ===== src/Resolution/UnionFind.antt =====
-- lens-core/src/resolution/mod.rs: UnionFind. Confidences are f64 there and any type here. An
-- index out of range panics, which is `none`, as is a search that runs out of fuel.
pub mod Roots
pub mod Classes
pub mod Union
use lens_lm.Base.{
  ℕ, zero, suc, ◌+◌, max, Bool, true, false, Option, none, some, List, [], ◌∷◌, ◌++◌, ltb, ◌==◌,
  if◌then◌else◌, length, get_elem?, get_or, set,
}

pub record UnionFind (C : Type 0) : Type 0 where
  pub parent : List ℕ
  pub rank : List ℕ
  pub edges : List (ℕ × ℕ × C)

unfoldable pub count_from : ℕ → ℕ → List ℕ
count_from i zero = []
count_from i (suc n) = i ∷ count_from (suc i) n

unfoldable pub rank_zero : ℕ → List ℕ
rank_zero zero = []
rank_zero (suc n) = 0 ∷ rank_zero n

unfoldable pub new : {C : Type 0} → ℕ → UnionFind C
unfolding count_from rank_zero
new n = record { parent = count_from 0 n; rank = rank_zero n; edges = [] }

unfoldable pub max_rank : List ℕ → ℕ
max_rank [] = 0
max_rank (r ∷ rs) = max r (max_rank rs)

unfoldable pub find_loop : ℕ → List ℕ → ℕ → Option ℕ
find_loop zero parent i = none
find_loop (suc fuel) parent i = elim (get_elem? parent i) [
  | none ↦ none
  | some p ↦ elim (p == i) [ true ↦ some i | false ↦ find_loop fuel parent p ]
]

-- Ranks rise along the parents, so that the greatest rank bounds the rounds.
unfoldable pub find : {C : Type 0} → UnionFind C → ℕ → Option ℕ
find uf i = find_loop (suc (max_rank uf.rank)) uf.parent i

-- The end of `union`: the roots `ra` and `rb` are different.
unfoldable pub link : {C : Type 0} → UnionFind C → ℕ → ℕ → C → ℕ → ℕ → UnionFind C
link uf a b conf ra rb =
    let edges : List (ℕ × ℕ × _) = uf.edges ++ (a, b, conf) ∷ [] in
    let rank_a = get_or uf.rank ra 0 in
    let rank_b = get_or uf.rank rb 0 in
    if ltb rank_a rank_b
    then record { parent = set uf.parent ra rb; rank = uf.rank; edges = edges }
    else if ltb rank_b rank_a
    then record { parent = set uf.parent rb ra; rank = uf.rank; edges = edges }
    else record { parent = set uf.parent rb ra; rank = set uf.rank ra (rank_a + 1); edges = edges }

unfoldable pub union : {C : Type 0} → UnionFind C → ℕ → ℕ → C → Option (UnionFind C)
unfolding link
union uf a b conf = elim (find uf a) [
  | none ↦ none
  | some ra ↦ elim (find uf b) [
    | none ↦ none
    | some rb ↦ if ra == rb then some uf else some (link uf a b conf ra rb)
  ]
]
