-- ===== src/Retrieval/Fusion/Hits.antt =====
-- The fused hits: one to an id, told by its places in the lists, the best first.
use lens_lm.Base.{
  ℕ, ◌≤◌, ◌≡◌, ◌∙◌, refl, Bool, Bool-cases, true, false, inl, inr, Option, List, [], ◌∷◌, ◌++◌, map,
  take, ap, arith,
}
use lens_lm.Base.Text.{Str}
use lens_lm.Base.Text.Distinct.{distinct}
use lens_lm.Retrieval.Fusion.{
  HitSource, dense, bm25, both, graph, View, Acc, RetrievalHit, source_of, fuse_lists, hit_of,
  behind, rrf_merge3,
}
use lens_lm.Retrieval.Fusion.Entries.{view_of, IsFused, fuse_lists-IsFused}
use lens_lm.Retrieval.Fusion.Seen.{ids_of, IsNumbered, fuse_lists-seen}
use lens_lm.Retrieval.Trim.{Comparison, cmp, is_greater}
use lens_lm.Retrieval.Trim.Sorting.{
  IsReordering, sort_by-IsReordering, IsChain, sort_by-IsChain, reverse, GoesFirst, then_with-asym,
  then_with-GoesFirst,
}

-- The source that is named for an id in these lists, dense, bm25 and graph.
abbrev pub named_source : Bool → Bool → Bool → HitSource
named_source true true in_graph = both
named_source true false in_graph = dense
named_source false true in_graph = bm25
named_source false false true = graph
named_source false false false = dense

abbrev pub told : {F : Type 0} → Acc F → RetrievalHit F
told a = record {
  chunk_id = a.chunk_id;
  score = a.view.score;
  source = named_source a.view.in_dense a.view.in_bm25 a.view.in_graph;
}

source_of-named_source :
    {F : Type 0} (v : View F) → source_of v ≡ named_source v.in_dense v.in_bm25 v.in_graph
unfolding source_of
source_of-named_source v = elim (Bool-cases v.in_dense) [
  | inl d ↦ elim (Bool-cases v.in_bm25) [ inl b ↦ rw (d, b) refl | inr b ↦ rw (d, b) refl ]
  | inr d ↦ elim (Bool-cases v.in_bm25) [
    | inl b ↦ rw (d, b) refl
    | inr b ↦ elim (Bool-cases v.in_graph) [ inl g ↦ rw (d, b, g) refl | inr g ↦ rw (d, b, g) refl ]
  ]
]

map-told : {F : Type 0} (acc : List (Acc F)) → map hit_of acc ≡ map told acc
unfolding hit_of
map-told {F = F} [] = refl
map-told {F = F} (a ∷ r) =
    let hit : HitSource → RetrievalHit F =
      λ s. record { chunk_id = a.chunk_id; score = a.view.score; source = s } in
    ap (λ t. hit (source_of a.view) ∷ t) (map-told r)
    ∙ ap (λ s. hit s ∷ map told r) (source_of-named_source a.view)

-- The next one's score is less, or no greater and it was seen no earlier.
abbrev pub InRankOrder : {F : Type 0} → (F → F → Option Comparison) → Acc F → Acc F → Type 0
InRankOrder partial_cmp x y =
    GoesFirst (partial_cmp y.view.score x.view.score) (x.first_seen ≤ y.first_seen)

cmp_asym : (m n : ℕ) → is_greater (cmp m n) ≡ true → is_greater (cmp n m) ≡ false
unfolding is_greater cmp
cmp_asym m n h = ground (arith, h)

cmp_order : (m n : ℕ) → is_greater (cmp m n) ≡ false → m ≤ n
unfolding is_greater cmp
cmp_order m n h = ground (arith, h)

module _ {F : Type 0} (partial_cmp : F → F → Option Comparison) where
  behind_asym :
      ((a b : F) → partial_cmp b a ≡ reverse (partial_cmp a b))
      → (x y : Acc F) → behind partial_cmp x y ≡ true
      → behind partial_cmp y x ≡ false
  unfolding behind
  behind_asym dual x y h = rw (dual y.view.score x.view.score) (
      then_with-asym (partial_cmp y.view.score x.view.score) (cmp x.first_seen y.first_seen)
        (cmp y.first_seen x.first_seen) (cmp_asym x.first_seen y.first_seen) h)

  behind_order : (x y : Acc F) → behind partial_cmp x y ≡ false → InRankOrder partial_cmp x y
  unfolding behind
  behind_order x y h =
      then_with-GoesFirst (partial_cmp y.view.score x.view.score) (cmp x.first_seen y.first_seen)
        (x.first_seen ≤ y.first_seen) (cmp_order x.first_seen y.first_seen) h

module _ {F : Type 0} (zero_f : F) (add : F → F → F) (reciprocal : ℕ → F)
    (partial_cmp : F → F → Option Comparison) where
  -- The hits are of the first `limit` entries in the ranking.
  abbrev pub FusedTo : List Str → List Str → List Str → ℕ → ℕ → List (RetrievalHit F) → Type 0
  FusedTo dense_ids bm25_ids graph_ids k limit hits =
      (entries : List (Acc F)) × (ranked : List (Acc F)) × (ids_of entries
        ≡ distinct [] ((dense_ids ++ bm25_ids) ++ graph_ids))
      × IsNumbered 0 entries
      × ((id : Str)
          → IsFused zero_f add reciprocal k id dense_ids bm25_ids graph_ids (view_of id entries))
      × IsReordering ranked entries
      × IsChain (InRankOrder partial_cmp) ranked
      × (hits ≡ map told (take limit ranked))

  -- Where partial_cmp answers the reverse for two scores the other way round, and in whatever
  -- order the hash map gives its entries: rrf_merge3 ranks one entry for each id of the three
  -- lists, with the sum of the reciprocals at its places and the flags of the lists that hold the
  -- id, and returns the first `limit` of the ranking, each with the source that its flags name.
  -- Each entry of the ranking has a greater score than the next one, or neither is greater and it
  -- was seen first, going through the dense, the bm25 and the graph list.
  pub rrf_merge3-IsFused :
      (shuffle : List (Acc F) → List (Acc F)) (dense_ids bm25_ids graph_ids : List Str)
      (k limit : ℕ)
      → ((a b : F) → partial_cmp b a ≡ reverse (partial_cmp a b))
      → ((acc : List (Acc F)) → IsReordering (shuffle acc) acc)
      → FusedTo dense_ids bm25_ids graph_ids k limit (
          rrf_merge3 zero_f add reciprocal partial_cmp shuffle dense_ids bm25_ids graph_ids k limit)
  unfolding rrf_merge3
  rrf_merge3-IsFused shuffle dense_ids bm25_ids graph_ids k limit dual same =
      let entries = fuse_lists zero_f add reciprocal dense_ids bm25_ids graph_ids k in
      let (ids, numbered) = fuse_lists-seen zero_f add reciprocal dense_ids bm25_ids graph_ids k in
      let gt = behind partial_cmp in
      (
        entries,
        _,
        ids,
        numbered,
        λ id. fuse_lists-IsFused zero_f add reciprocal k id dense_ids bm25_ids graph_ids,
        λ f. sort_by-IsReordering gt (shuffle entries) f ∙ same entries f,
        sort_by-IsChain gt (InRankOrder partial_cmp) (behind_asym partial_cmp dual)
            (behind_order partial_cmp) (shuffle entries),
        map-told _,
      )
