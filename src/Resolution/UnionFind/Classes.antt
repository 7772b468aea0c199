-- ===== src/Resolution/UnionFind/Classes.antt =====
-- `union` joins the classes of its two nodes and no others, and keeps the forest.
use lens_lm.Base.{
  ℕ, ◌<◌, ◌≤◌, ◌≡◌, ◌≢◌, ◌↔◌, ◌⊎◌, ◌∙◌, inl, inr, refl, sym, ap, Bool-cases, some, List, ◌==◌,
  if◌then◌else◌, length, get_elem?, get_or, set, length-set, get_elem?-set, arith,
}
use mathlib.Core.Path.{subst}
use lens_lm.Resolution.UnionFind.{UnionFind, find}
use lens_lm.Resolution.UnionFind.Roots.{
  Root, stop, step, Root-unique, IsRanked, IsForest, find-Root,
}

pub Root-is_Root : (parent : List ℕ) (r i : ℕ) → Root parent r i → get_elem? parent r ≡ some r
Root-is_Root parent r i (stop at e) = cc
Root-is_Root parent r i (step at ne root) = Root-is_Root parent r _ root

-- Hanging the root `x` under the root `y` moves the nodes of `x` to `y`.
module _ (parent : List ℕ) (x y : ℕ) (lt : x < length parent) (root_x : get_elem? parent x ≡ some x)
    (root_y : get_elem? parent y ≡ some y) (ne : x ≢ y) where
  moved : ℕ → ℕ
  moved r = if x == r then y else r

  Root-set : (r i : ℕ) → Root parent r i → Root (set parent x y) (moved r) i
  unfolding moved
  Root-set r i (stop at e) = elim (Bool-cases (x == r)) [
    | inl q ↦ rw q (
        step (ground (arith, get_elem?-set parent x i y lt)) (ground arith)
          (stop (ground (arith, get_elem?-set parent x y y lt)) refl))
    | inr q ↦ rw q (stop (ground (arith, get_elem?-set parent x i y lt)) e)
  ]
  Root-set r i (step {p = p} at other root) =
      step (ground (arith, get_elem?-set parent x i y lt)) other (Root-set r p root)

  module _ (rank rank' : List ℕ) (ranked : IsRanked parent rank) (lt_y : y < length parent)
      (grows : (i : ℕ) → get_or rank i 0 ≤ get_or rank' i 0)
      (keeps : (i : ℕ) → i ≢ y → get_or rank' i 0 ≡ get_or rank i 0)
      (up : get_or rank' x 0 < get_or rank' y 0) where
    rise :
        (i p : ℕ)
        → get_elem? parent i ≡ some p
        → (p ≡ i) ⊎ (get_or rank i 0 < get_or rank p 0)
        → (p ≡ i) ⊎ (get_or rank' i 0 < get_or rank' p 0)
    rise i p at (inl e) = inl e
    rise i p at (inr lt') = elim (Bool-cases (i == y)) [
      | inl e ↦
          let same : i ≡ y = ground arith in
          let at_y : get_elem? parent y ≡ some p =
            subst (λ j. get_elem? parent j ≡ some p) same at in
          inl (cc)
      | inr e ↦ inr (omega (arith, keeps i (ground arith), grows p))
    ]

    pub set-IsRanked : IsRanked (set parent x y) rank'
    set-IsRanked i lt_i =
        let (p, at, lt_p, rises) = ranked i (omega (arith, length-set parent x y)) in
        elim (Bool-cases (x == i)) [
          | inl e ↦ (
            y,
            ground (arith, get_elem?-set parent x i y lt),
            omega (arith, length-set parent x y),
            inr (ground arith),
          )
          | inr e ↦ (
            p,
            ground (arith, get_elem?-set parent x i y lt),
            omega (arith, length-set parent x y),
            rise i p at rises,
          )
        ]

-- The two nodes have one root.
abbrev pub SameClass : {C : Type 0} → UnionFind C → ℕ → ℕ → Type 0
SameClass uf i j = find uf i ≡ find uf j

-- Joined by the union of `a` and `b`.
abbrev pub Joined : {C : Type 0} → UnionFind C → ℕ → ℕ → ℕ → ℕ → Type 0
Joined uf a b i j =
    SameClass uf i j
    ⊎ ((SameClass uf i a × SameClass uf j b) ⊎ (SameClass uf i b × SameClass uf j a))

-- After `x` was hung under `y`, find gives the moved root.
module _ {C : Type 0} (uf uf' : UnionFind C) (x y : ℕ) (forest : IsForest uf)
    (forest' : IsForest uf') (hung : uf'.parent ≡ set uf.parent x y) (lt : x < length uf.parent)
    (root_x : get_elem? uf.parent x ≡ some x) (root_y : get_elem? uf.parent y ≡ some y)
    (ne : x ≢ y) where
  find-moved :
      (i r : ℕ)
      → i < length uf.parent
      → find uf i ≡ some r
      → find uf' i ≡ some (if x == r then y else r)
  unfolding moved
  find-moved i r lt_i e =
      let (r0, e0, root, _) = find-Root uf i forest lt_i in
      let same : r0 ≡ r = cc in
      let lt' : i < length uf'.parent = omega (arith, ap length hung, length-set uf.parent x y) in
      let (r1, e1, root1, _) = find-Root uf' i forest' lt' in
      let after =
        Root-set uf.parent x y lt root_x root_y ne r i
          (subst (λ k. Root uf.parent k i) same root) in
      let root2 = subst (λ l. Root l r1 i) hung root1 in
      rw e1 (ap some (Root-unique (set uf.parent x y) r1 (if x == r then y else r) i root2 after))

  module _ (a b : ℕ) (at_a : find uf a ≡ some x) (at_b : find uf b ≡ some y) where
    pub hung-Joined :
        (i j : ℕ)
        → i < length uf.parent
        → j < length uf.parent
        → SameClass uf' i j ↔ Joined uf a b i j
    hung-Joined i j lt_i lt_j =
        let (ri, ei, _, _) = find-Root uf i forest lt_i in
        let (rj, ej, _, _) = find-Root uf j forest lt_j in
        let mi = find-moved i ri lt_i ei in
        let mj = find-moved j rj lt_j ej in
        (
          λ same. forward ri rj ei ej (ground (arith, mi, mj, same)),
          λ joined. mi ∙ ap some (backward ri rj ei ej joined) ∙ sym mj,
        )
      where
        forward :
            (ri rj : ℕ)
            → find uf i ≡ some ri
            → find uf j ≡ some rj
            → (if x == ri then y else ri) ≡ (if x == rj then y else rj)
            → Joined uf a b i j
        forward ri rj ei ej e = elim (Bool-cases (x == ri)) [
          | inl p ↦ elim (Bool-cases (x == rj)) [
            | inl q ↦ inl (ground (arith, at_a, at_b))
            | inr q ↦ inr (inl (ground (arith, at_a), ground (arith, at_b)))
          ]
          | inr p ↦ elim (Bool-cases (x == rj)) [
            | inl q ↦ inr (inr (ground (arith, at_b), ground (arith, at_a)))
            | inr q ↦ inl (ground arith)
          ]
        ]

        backward :
            (ri rj : ℕ)
            → find uf i ≡ some ri
            → find uf j ≡ some rj
            → Joined uf a b i j
            → (if x == ri then y else ri) ≡ (if x == rj then y else rj)
        backward ri rj ei ej (inl e) = let s : ri ≡ rj = cc in rw s
        backward ri rj ei ej (inr (inl (e, f))) =
            let s : ri ≡ x = cc in let t : rj ≡ y = cc in ground arith
        backward ri rj ei ej (inr (inr (e, f))) =
            let s : ri ≡ y = cc in let t : rj ≡ x = cc in ground arith

pub Joined-swap :
    {C : Type 0} (uf : UnionFind C) (a b i j : ℕ) → Joined uf b a i j ↔ Joined uf a b i j
Joined-swap uf a b i j = (swap a b, swap b a)
  where
    swap : (a b : ℕ) → Joined uf b a i j → Joined uf a b i j
    swap a b (inl e) = inl e
    swap a b (inr (inl h)) = inr (inr h)
    swap a b (inr (inr h)) = inr (inl h)
