-- ===== src/Resolution/UnionFind/Union.antt =====
-- `union` returns, keeps the forest, and joins exactly two classes.
use lens_lm.Base.{
  ℕ, ◌+◌, ◌<◌, ◌≤◌, ◌≡◌, ◌≢◌, ◌↔◌, ◌∙◌, inl, inr, refl, sym, ap, Bool-cases, some, List, ltb, ◌==◌,
  length, get_elem?, get_or, set, length-set, get_or-set, arith,
}
use lens_lm.Resolution.UnionFind.{UnionFind, find, link, union}
use lens_lm.Resolution.UnionFind.Roots.{IsForest, find-Root}
use lens_lm.Resolution.UnionFind.Classes.{
  SameClass, Joined, Joined-swap, Root-is_Root, set-IsRanked, hung-Joined,
}

-- What a union promises of the forest it returns.
abbrev pub IsUnion : {C : Type 0} → UnionFind C → ℕ → ℕ → UnionFind C → Type 0
IsUnion uf a b uf' =
    IsForest uf'
    × (length uf'.parent ≡ length uf.parent)
    × ((i j : ℕ)
        → i < length uf.parent
        → j < length uf.parent
        → SameClass uf' i j ↔ Joined uf a b i j)

module _ {C : Type 0} (uf : UnionFind C) (forest : IsForest uf) where
  -- Nothing to do where the classes are one.
  IsUnion-same : (a b : ℕ) → SameClass uf a b → IsUnion uf a b uf
  IsUnion-same a b same = (forest, refl, λ i j _ _. (λ e. inl e, back i j))
    where
      back : (i j : ℕ) → Joined uf a b i j → SameClass uf i j
      back i j (inl e) = e
      back i j (inr (inl (e, f))) = e ∙ same ∙ sym f
      back i j (inr (inr (e, f))) = e ∙ sym same ∙ sym f

  -- `x`, the root of `a`, is hung under `y`, the root of `b`.
  module _ (a b x y : ℕ) (edges : List (ℕ × ℕ × C)) (rank' : List ℕ) (at_a : find uf a ≡ some x)
      (at_b : find uf b ≡ some y) (lt_x : x < length uf.parent) (lt_y : y < length uf.parent)
      (root_x : get_elem? uf.parent x ≡ some x) (root_y : get_elem? uf.parent y ≡ some y)
      (ne : x ≢ y) (len : length rank' ≡ length uf.rank)
      (grows : (i : ℕ) → get_or uf.rank i 0 ≤ get_or rank' i 0)
      (keeps : (i : ℕ) → i ≢ y → get_or rank' i 0 ≡ get_or uf.rank i 0)
      (up : get_or rank' x 0 < get_or rank' y 0) where
    hang-IsUnion :
        IsUnion uf a b (record { parent = set uf.parent x y; rank = rank'; edges = edges })
    hang-IsUnion =
        let uf' : UnionFind C = record {
          parent = set uf.parent x y;
          rank = rank';
          edges = edges;
        } in
        let forest' : IsForest uf' = (
          omega (arith, forest.0, length-set uf.parent x y),
          set-IsRanked uf.parent x y lt_x root_x root_y ne uf.rank rank' forest.1 lt_y grows keeps
              up,
        ) in
        (
          forest',
          length-set uf.parent x y,
          hung-Joined uf uf' x y forest forest' refl lt_x root_x root_y ne a b at_a at_b,
        )

  IsUnion-swap : (a b : ℕ) (uf' : UnionFind C) → IsUnion uf b a uf' → IsUnion uf a b uf'
  IsUnion-swap a b uf' (forest', len, joins) = (
    forest',
    len,
    λ i j lt_i lt_j. (
      λ e. (Joined-swap uf a b i j).0 ((joins i j lt_i lt_j).0 e),
      λ h. (joins i j lt_i lt_j).1 ((Joined-swap uf a b i j).1 h),
    ),
  )

  link-IsUnion :
      (a b x y : ℕ) (conf : C)
      → find uf a ≡ some x
      → find uf b ≡ some y
      → x < length uf.parent
      → y < length uf.parent
      → get_elem? uf.parent x ≡ some x
      → get_elem? uf.parent y ≡ some y
      → x ≢ y
      → IsUnion uf a b (link uf a b conf x y)
  unfolding link
  link-IsUnion a b x y conf at_a at_b lt_x lt_y root_x root_y ne =
      let rx = get_or uf.rank x 0 in
      let ry = get_or uf.rank y 0 in
      elim (Bool-cases (ltb rx ry)) [
        | inl e ↦ rw e (
            hang-IsUnion a b x y _ uf.rank at_a at_b lt_x lt_y root_x root_y ne refl
              (λ i. omega arith) (λ i _. refl) (ground arith))
        | inr e ↦ elim (Bool-cases (ltb ry rx)) [
          | inl e' ↦
              rw (e, e')
                (IsUnion-swap a b _ (
                  hang-IsUnion b a y x _ uf.rank at_b at_a lt_y lt_x root_y root_x (λ q. ne (sym q))
                    refl (λ i. omega arith) (λ i _. refl) (ground arith)))
          | inr e' ↦
              let lt_rank : x < length uf.rank = omega (arith, forest.0) in
              let at = λ (i : ℕ). get_or-set uf.rank x i (rx + 1) 0 lt_rank in
              rw (e, e')
                (IsUnion-swap a b _ (
                  hang-IsUnion b a y x _ (set uf.rank x (rx + 1)) at_b at_a lt_y lt_x root_y root_x
                    (λ q. ne (sym q)) (length-set uf.rank x (rx + 1)) (λ i. ground (arith, at i))
                    (λ i other. ground (arith, at i)) (ground (arith, at x, at y))))
        ]
      ]

  pub union-IsUnion :
      (a b : ℕ) (conf : C)
      → a < length uf.parent
      → b < length uf.parent
      → (uf' : UnionFind C) × (union uf a b conf ≡ some uf') × IsUnion uf a b uf'
  unfolding union
  union-IsUnion a b conf lt_a lt_b =
      let (x, at_a, ra, lt_x) = find-Root uf a forest lt_a in
      let (y, at_b, rb, lt_y) = find-Root uf b forest lt_b in
      elim (Bool-cases (x == y)) [
        | inl e ↦
            let same : x ≡ y = ground arith in
            (uf, ground (arith, at_a, at_b), IsUnion-same a b (at_a ∙ ap some same ∙ sym at_b))
        | inr e ↦ (
          link uf a b conf x y,
          ground (arith, at_a, at_b),
          link-IsUnion a b x y conf at_a at_b lt_x lt_y (Root-is_Root uf.parent x a ra)
              (Root-is_Root uf.parent y b rb) (ground arith),
        )
      ]

  -- In a forest the union of two nodes in range returns a forest over the same nodes, in which two
  -- nodes have one root exactly when they had one before, or one was in the class of `a` and the
  -- other in that of `b`.
  pub union-Joined :
      (a b : ℕ) (conf : C) (i j : ℕ)
      → a < length uf.parent
      → b < length uf.parent
      → i < length uf.parent
      → j < length uf.parent
      → (uf' : UnionFind C) × (union uf a b conf ≡ some uf')
        × IsForest uf'
        × (length uf'.parent ≡ length uf.parent)
        × (SameClass uf' i j ↔ Joined uf a b i j)
  union-Joined a b conf i j lt_a lt_b lt_i lt_j =
      let (uf', run, (forest', len, joins)) = union-IsUnion a b conf lt_a lt_b in
      (uf', run, forest', len, joins i j lt_i lt_j)
