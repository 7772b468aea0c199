-- ===== src/Resolution/Merging.antt =====
-- Tiers 2 and 3, and the three tiers together: no panic, and one kind in each class.
use mathlib.Core.Path.{subst}
use lens_lm.Base.{
  ℕ, ◌+◌, ◌<◌, ◌≡◌, ◌∙◌, ◌&&◌, sym, ap, inl, inr, Bool, true, false, Bool-cases, Option,
  Option-cases, none, some, List, [], ◌∷◌, length, All, All-append, ltb, ◌==◌, arith, suc,
}
use lens_lm.Base.Outcome.{Outcome, ok, err, panic, ◌>>=◌}
use lens_lm.Base.Text.{Str}
use lens_lm.Resolution.UnionFind.{UnionFind, find}
use lens_lm.Resolution.UnionFind.Roots.{find-Root}
use lens_lm.Resolution.Tiers.{
  EntityNode, Scores, index_by_id, has_pair, Tier2, add_candidate, tier2_pair, tier2_neighbors,
  tier2_nodes, LlmVerdict, verdict, skip, budget_stop, tier3_verdict, tier3_adjudicate,
  resolve_groups, resolve_groups,
}
use lens_lm.Resolution.Veto.{
  kind_at, kind_at-lt, index_by_id-lt, IsVetoed, union-IsVetoed, OneKind,
  tier1_exact_and_coref-IsVetoed,
}

-- The call does not panic, and an `ok` has the property.
abbrev pub Settles : {A : Type 0} → (A → Type 0) → Outcome A → Type 0
Settles P (ok a) = P a
Settles P (err e) = Unit
Settles P panic = ⊥

Settles-bind :
    {A B : Type 0} (P : A → Type 0) (Q : B → Type 0) (m : Outcome A) (f : A → Outcome B)
    → Settles P m
    → ((a : A) → P a → Settles Q (f a))
    → Settles Q (m >>= f)
Settles-bind P Q (ok a) f h k = k a h
Settles-bind P Q (err e) f h k = tt
Settles-bind P Q panic f h k = h

Settles-elim :
    {A : Type 0} (P : A → Type 0) (b : Bool) (x y : Outcome A)
    → Settles P x
    → Settles P y
    → Settles P (elim b [ true ↦ x | false ↦ y ])
Settles-elim P true x y h k = h
Settles-elim P false x y h k = k

module _ (sc : Scores) (to_lowercase : Str → Str) (nodes : List EntityNode) where
  -- Two nodes of one kind.
  abbrev pub IsPair : ℕ × ℕ × sc.Score → Type 0
  IsPair (i, j, _) = (i < length nodes) × (j < length nodes) × (kind_at nodes i ≡ kind_at nodes j)

  find-returns :
      (uf : UnionFind sc.Score) (i : ℕ)
      → IsVetoed nodes uf
      → i < length nodes
      → (r : ℕ) × (find uf i ≡ some r)
  find-returns uf i (forest, len, _) lt =
      let (r, at, _, _) = find-Root uf i forest (omega arith) in (r, at)

  tier3_verdict-IsVetoed :
      (i j : ℕ) (same : Bool) (conf sim : sc.Score) (uf : UnionFind sc.Score)
      → IsPair (i, j, sim)
      → IsVetoed nodes uf
      → Settles (IsVetoed nodes) (tier3_verdict sc to_lowercase nodes i j same conf uf)
  unfolding tier3_verdict
  tier3_verdict-IsVetoed i j same conf sim uf (lt_i, lt_j, kinds) veto =
      let (uf1, run, veto1) = union-IsVetoed nodes uf i j conf veto lt_i lt_j kinds in
      elim (Bool-cases (same && sc.ge conf sc.write_bar)) [
        | inl e ↦ rw (e, run) veto1
        | inr e ↦ rw e veto
      ]

  Settles-cached :
      {A : Type 0} (P : A → Type 0) (o : Option (Bool × sc.Score)) (x : Outcome A)
      (z : Bool → sc.Score → Outcome A)
      → Settles P x
      → ((same : Bool) (conf : sc.Score) → Settles P (z same conf))
      → Settles P (elim o [ some (same, conf) ↦ z same conf | none ↦ x ])
  Settles-cached P none x z h k = h
  Settles-cached P (some (same, conf)) x z h k = k same conf

  Settles-llm :
      {A : Type 0} (P : A → Type 0) (v : LlmVerdict sc to_lowercase nodes) (x y : Outcome A)
      (z : Bool → sc.Score → Outcome A)
      → Settles P x
      → Settles P y
      → ((same : Bool) (conf : sc.Score) → Settles P (z same conf))
      → Settles P (elim v [ skip ↦ x | budget_stop ↦ y | verdict same conf ↦ z same conf ])
  Settles-llm P (verdict same conf) x y z h k l = l same conf
  Settles-llm P skip x y z h k l = h
  Settles-llm P budget_stop x y z h k l = k

  -- A cache that does not panic.
  module _ (cache : ℕ → ℕ → Outcome (Option (Bool × sc.Score)))
      (llm : ℕ → ℕ → LlmVerdict sc to_lowercase nodes)
      (steady : (i j : ℕ) → Settles (λ _. Unit {0}) (cache i j)) where
    tier3_adjudicate-IsVetoed :
        (pairs : List (ℕ × ℕ × sc.Score)) (uf : UnionFind sc.Score)
        → All IsPair pairs
        → IsVetoed nodes uf
        → Settles (IsVetoed nodes) (tier3_adjudicate sc to_lowercase nodes cache llm pairs uf)
    unfolding tier3_adjudicate
    tier3_adjudicate-IsVetoed [] uf all veto = veto
    tier3_adjudicate-IsVetoed ((i, j, sim) ∷ r) uf (pair, all) veto =
        let (ri, at_i) = find-returns uf i veto pair.0 in
        let (rj, at_j) = find-returns uf j veto pair.1 in
        let next : (same : Bool) (conf : sc.Score)
            → Settles (IsVetoed nodes) (
                tier3_verdict sc to_lowercase nodes i j same conf uf >>= λ uf1.
                tier3_adjudicate sc to_lowercase nodes cache llm r uf1) =
          λ same conf.
            Settles-bind (IsVetoed nodes) (IsVetoed nodes)
              (tier3_verdict sc to_lowercase nodes i j same conf uf) _
              (tier3_verdict-IsVetoed i j same conf sim uf pair veto)
              λ uf1 veto1. tier3_adjudicate-IsVetoed r uf1 all veto1 in
        rw (at_i, at_j)
          (Settles-elim (IsVetoed nodes) (ri == rj) _ _ (tier3_adjudicate-IsVetoed r uf all veto) (
            Settles-bind (λ _. Unit {0}) (IsVetoed nodes) (cache i j) _ (steady i j)
              λ cached _.
                Settles-cached (IsVetoed nodes) cached _ _
                  (Settles-llm (IsVetoed nodes) (llm i j) _ _ _
                    (tier3_adjudicate-IsVetoed r uf all veto) veto λ same conf. next same conf)
                  λ same conf. next same conf))

  -- A forest with one kind in each class, and candidates that are pairs of one kind.
  abbrev IsSearched : Tier2 sc to_lowercase nodes → Type 0
  IsSearched t = IsVetoed nodes t.uf × All IsPair t.candidates

  add_candidate-IsSearched :
      (i j : ℕ) (sim : sc.Score) (t : Tier2 sc to_lowercase nodes)
      → IsPair (i, j, sim)
      → IsSearched t
      → IsSearched (add_candidate sc to_lowercase nodes i j sim t)
  unfolding add_candidate
  add_candidate-IsSearched i j sim t (lt_i, lt_j, kinds) (veto, all) = elim (Bool-cases (ltb i j)) [
    | inl e ↦ rw e (elim (Bool-cases (has_pair sc to_lowercase nodes i j t.seen_pairs)) [
      | inl q ↦ rw q (veto, all)
      | inr q ↦ rw q (veto, All-append IsPair t.candidates _ all ((lt_i, lt_j, kinds), tt))
    ])
    | inr e ↦ rw e (elim (Bool-cases (has_pair sc to_lowercase nodes j i t.seen_pairs)) [
      | inl q ↦ rw q (veto, all)
      | inr q ↦ rw q (veto, All-append IsPair t.candidates _ all ((lt_j, lt_i, sym kinds), tt))
    ])
  ]

  tier2_pair-IsSearched :
      (i j : ℕ) (sim : sc.Score) (t : Tier2 sc to_lowercase nodes)
      → IsPair (i, j, sim)
      → IsSearched t
      → Settles IsSearched (tier2_pair sc to_lowercase nodes i j sim t)
  unfolding tier2_pair
  tier2_pair-IsSearched i j sim t pair (veto, all) =
      let (ri, at_i) = find-returns t.uf i veto pair.0 in
      let (rj, at_j) = find-returns t.uf j veto pair.1 in
      let (uf1, run, veto1) = union-IsVetoed nodes t.uf i j sim veto pair.0 pair.1 pair.2 in
      elim (Bool-cases (ri == rj)) [
        | inl e ↦ rw (at_i, at_j, e) (veto, all)
        | inr e ↦ elim (Bool-cases (sc.ge sim sc.auto_merge)) [
          | inl q ↦ rw (at_i, at_j, e, q, run) (veto1, all)
          | inr q ↦ elim (Bool-cases (sc.lt sim sc.keep_separate)) [
            | inl w ↦ rw (at_i, at_j, e, q, w) (veto, all)
            | inr w ↦ rw (at_i, at_j, e, q, w) (add_candidate-IsSearched i j sim t pair (veto, all))
          ]
        ]
      ]

  -- What the store may answer for a node: no panic, and neighbours of the node's kind.
  abbrev pub IsOfKind : Str → Option (Outcome (List (Str × sc.Score))) → Type 0
  IsOfKind kind none = Unit
  IsOfKind kind (some found) =
      Settles
        (All (λ hit. (j : ℕ) → index_by_id 0 nodes hit.0 ≡ some j → kind_at nodes j ≡ some kind))
        found

  tier2_neighbors-IsSearched :
      (i : ℕ) (kind : Str) (hits : List (Str × sc.Score)) (t : Tier2 sc to_lowercase nodes)
      → kind_at nodes i ≡ some kind
      → All (λ hit. (j : ℕ) → index_by_id 0 nodes hit.0 ≡ some j → kind_at nodes j ≡ some kind) hits
      → IsSearched t
      → Settles IsSearched (tier2_neighbors sc to_lowercase nodes i hits t)
  unfolding tier2_neighbors
  tier2_neighbors-IsSearched i kind [] t at kinds ok_t = ok_t
  tier2_neighbors-IsSearched i kind ((id, distance) ∷ r) t at (here, kinds) ok_t =
      elim (Option-cases (index_by_id 0 nodes id)) [
        | inl e ↦ rw (e, tier2_neighbors) (tier2_neighbors-IsSearched i kind r t at kinds ok_t)
        | inr (j, e) ↦
            let pair : IsPair (i, j, sc.similarity distance) = (
              kind_at-lt nodes i kind at,
              omega (arith, index_by_id-lt 0 nodes id j e),
              at ∙ sym (here j e),
            ) in
            rw (e, tier2_neighbors)
              (Settles-elim IsSearched (j == i) _ _
                (tier2_neighbors-IsSearched i kind r t at kinds ok_t)
                (Settles-bind IsSearched IsSearched
                  (tier2_pair sc to_lowercase nodes i j (sc.similarity distance) t) _
                  (tier2_pair-IsSearched i j (sc.similarity distance) t pair ok_t)
                  λ u ok_u. tier2_neighbors-IsSearched i kind r u at kinds ok_u))
      ]

  module _ (ann : ℕ → EntityNode → Option (Outcome (List (Str × sc.Score))))
      (filtered : (i : ℕ) (n : EntityNode) → IsOfKind n.kind (ann i n)) where
    tier2_nodes-IsSearched :
        (i : ℕ) (rest : List EntityNode) (t : Tier2 sc to_lowercase nodes)
        → ((k : ℕ) → kind_at rest k ≡ kind_at nodes (i + k))
        → IsSearched t
        → Settles IsSearched (tier2_nodes sc to_lowercase nodes ann i rest t)
    unfolding tier2_nodes
    tier2_nodes-IsSearched i [] t at ok_t = ok_t
    tier2_nodes-IsSearched i (n ∷ r) t at ok_t =
        let here : kind_at nodes i ≡ some n.kind =
          let z : i ≡ i + 0 = omega arith in ap (λ m. kind_at nodes m) z ∙ sym (at 0) in
        let later : (k : ℕ) → kind_at r k ≡ kind_at nodes (i + 1 + k) = λ k.
          let z : i + suc k ≡ i + 1 + k = omega arith in at (suc k) ∙ ap (λ m. kind_at nodes m) z in
        elim (Option-cases (ann i n)) [
          | inl e ↦ rw (e, tier2_nodes) (tier2_nodes-IsSearched (i + 1) r t later ok_t)
          | inr (found, e) ↦
              let kinds : IsOfKind n.kind (some found) =
                subst (λ m. IsOfKind n.kind m) e (filtered i n) in
              rw (e, tier2_nodes)
                (Settles-bind _ IsSearched found _ kinds λ hits all.
                  Settles-bind IsSearched IsSearched
                    (tier2_neighbors sc to_lowercase nodes i hits t) _
                    (tier2_neighbors-IsSearched i n.kind hits t here all ok_t)
                    λ u ok_u. tier2_nodes-IsSearched (i + 1) r u later ok_u)
        ]

  -- Let each pair of coreference be of one kind, the store not panic and answer for a node with
  -- neighbours of its kind, and the cache not panic. Then the three tiers do not panic, whatever the
  -- language model answers, and the forest of an `ok` is ranked, over the nodes, and has nodes of
  -- one kind in each class.
  pub resolve_groups-IsVetoed :
      (ann : ℕ → EntityNode → Option (Outcome (List (Str × sc.Score))))
      (cache : ℕ → ℕ → Outcome (Option (Bool × sc.Score)))
      (llm : ℕ → ℕ → LlmVerdict sc to_lowercase nodes) (pairs : List (Str × Str))
      → ((i : ℕ) (n : EntityNode) → IsOfKind n.kind (ann i n))
      → ((i j : ℕ) → Settles (λ _. Unit {0}) (cache i j))
      → All (OneKind sc to_lowercase nodes) pairs
      → Settles (IsVetoed nodes) (resolve_groups sc to_lowercase nodes ann cache llm pairs)
  unfolding resolve_groups
  resolve_groups-IsVetoed ann cache llm pairs filtered steady all =
      let (uf1, run, veto1) = tier1_exact_and_coref-IsVetoed sc to_lowercase nodes pairs all in
      rw run (
        Settles-bind IsSearched (IsVetoed nodes)
          (tier2_nodes sc to_lowercase nodes ann 0 nodes
            (record { uf = uf1; seen_pairs = []; candidates = [] }))
          _
          (tier2_nodes-IsSearched ann filtered 0 nodes _
            (λ k. let z : k ≡ 0 + k = omega arith in ap (λ m. kind_at nodes m) z) (veto1, tt))
          λ t (veto, pairs_of_one).
            tier3_adjudicate-IsVetoed cache llm steady t.candidates t.uf pairs_of_one veto)
