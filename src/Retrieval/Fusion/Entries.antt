-- ===== src/Retrieval/Fusion/Entries.antt =====
-- An id's entry is what its places in the lists make of it.
use mathlib.Core.Path.{subst}
use lens_lm.Base.{
  ℕ, ◌+◌, ◌≡◌, ◌∙◌, refl, sym, ap, Bool-cases, true, false, inl, inr, Option, none, some, List, [],
  ◌∷◌, if◌then◌else◌, arith,
}
use lens_lm.Base.Text.{Str, str_eq, str_eq_sound, str_eq_refl}
use lens_lm.Base.Text.Distinct.{is_in}
use lens_lm.Retrieval.Fusion.{
  Which, from_dense, from_bm25, from_graph, View, Acc, mark, new_view, bump, add_entry, fuse_list,
  fuse_lists,
}

abbrev pub view_of : {F : Type 0} → Str → List (Acc F) → Option (View F)
view_of id [] = none
view_of id (a ∷ r) = if str_eq a.chunk_id id then some a.view else view_of id r

module _ {F : Type 0} (zero_f : F) (add : F → F → F) (reciprocal : ℕ → F) where
  abbrev pub or_new : Option (View F) → View F
  or_new none = new_view zero_f add reciprocal
  or_new (some v) = v

  add_entry-same :
      (id : Str) (which : Which) (place order : ℕ) (acc : List (Acc F))
      → view_of id (add_entry zero_f add reciprocal id which place order acc)
        ≡ some (bump zero_f add reciprocal which place (or_new (view_of id acc)))
  unfolding add_entry
  add_entry-same id which place order [] = rw (str_eq_refl id) refl
  add_entry-same id which place order (a ∷ r) = elim (Bool-cases (str_eq a.chunk_id id)) [
    | inl e ↦ rw (e, add_entry) (rw e refl)
    | inr e ↦ rw (e, add_entry) (rw e (add_entry-same id which place order r))
  ]

  add_entry-other :
      (id x : Str) (which : Which) (place order : ℕ) (acc : List (Acc F))
      → str_eq x id ≡ false
      → view_of id (add_entry zero_f add reciprocal x which place order acc) ≡ view_of id acc
  unfolding add_entry
  add_entry-other id x which place order [] h = rw h refl
  add_entry-other id x which place order (a ∷ r) h = elim (Bool-cases (str_eq a.chunk_id x)) [
    | inl e ↦
        let differs : str_eq a.chunk_id id ≡ false =
          ap (λ t. str_eq t id) (str_eq_sound a.chunk_id x e) ∙ h in
        rw (e, add_entry) (rw differs refl)
    | inr e ↦ elim (Bool-cases (str_eq a.chunk_id id)) [
      | inl f ↦ rw (e, add_entry) (rw f refl)
      | inr f ↦ rw (e, add_entry) (rw f (add_entry-other id x which place order r h))
    ]
  ]

  -- The score behind a list: a term for each place of the id.
  abbrev pub scored : ℕ → ℕ → Str → List Str → F → F
  scored k rank id [] s = s
  scored k rank id (x ∷ r) s =
      scored k (rank + 1) id r (if str_eq x id then add s (reciprocal (k + rank)) else s)

  abbrev fused : Which → ℕ → ℕ → Str → List Str → Option (View F) → Option (View F)
  fused which k rank id list o =
      if is_in id list
      then some (mark which (record (or_new o) { score = scored k rank id list (or_new o).score }))
      else o

  scored_none :
      (k rank : ℕ) (id : Str) (list : List Str) (s : F)
      → is_in id list ≡ false
      → scored k rank id list s ≡ s
  scored_none k rank id [] s h = refl
  scored_none k rank id (x ∷ r) s h = elim (Bool-cases (str_eq x id)) [
    | inl e ↦ absurd (ground (arith, e, h))
    | inr e ↦ rw e (scored_none k (rank + 1) id r s (ground (arith, e, h)))
  ]

  -- Two marks from one list are one.
  mark_twice :
      (which : Which) (v : View F) (s t : F)
      → mark which (record (mark which (record v { score = s })) { score = t })
        ≡ mark which (record v { score = t })
  mark_twice from_dense v s t = refl
  mark_twice from_bm25 v s t = refl
  mark_twice from_graph v s t = refl

  mark_score : (which : Which) (v : View F) → (mark which v).score ≡ v.score
  mark_score from_dense v = refl
  mark_score from_bm25 v = refl
  mark_score from_graph v = refl

  fused-cons :
      (which : Which) (k rank : ℕ) (id x : Str) (r : List Str) (o : Option (View F))
      → str_eq x id ≡ true
      → fused which k
          (rank + 1)
          id
          r
          (some (bump zero_f add reciprocal which (k + rank) (or_new o)))
        ≡ fused which k rank id (x ∷ r) o
  fused-cons which k rank id x r o e =
      let s = add (or_new o).score (reciprocal (k + rank)) in
      elim (Bool-cases (is_in id r)) [
        | inl m ↦
            rw (e, m)
              (rw (mark_score which (record (or_new o) { score = s }))
                (ap some (mark_twice which (or_new o) s (scored k (rank + 1) id r s))))
        | inr m ↦ rw (e, m) (rw (scored_none k (rank + 1) id r s m) refl)
      ]

  fused_skip :
      (which : Which) (k rank : ℕ) (id x : Str) (r : List Str) (o : Option (View F))
      → str_eq x id ≡ false
      → fused which k (rank + 1) id r o ≡ fused which k rank id (x ∷ r) o
  fused_skip which k rank id x r o e = rw e refl

  fuse_list-fused :
      (k : ℕ) (which : Which) (rank : ℕ) (id : Str) (list : List Str) (acc : List (Acc F))
      (order : ℕ)
      → view_of id (fuse_list zero_f add reciprocal k which rank list (acc, order)).0
        ≡ fused which k rank id list (view_of id acc)
  unfolding fuse_list
  fuse_list-fused k which rank id [] acc order = refl
  fuse_list-fused k which rank id (x ∷ r) acc order =
      fuse_list-fused k which (rank + 1) id r _ _ ∙ elim (Bool-cases (str_eq x id)) [
        | inl e ↦
            let entry = λ (y : Str). add_entry zero_f add reciprocal y which (k + rank) order acc in
            ap (fused which k (rank + 1) id r) (
              ap (λ y. view_of id (entry y)) (str_eq_sound x id e)
              ∙ add_entry-same id which (k + rank) order acc)
            ∙ fused-cons which k rank id x r (view_of id acc) e
        | inr e ↦
            ap (fused which k (rank + 1) id r) (add_entry-other id x which (k + rank) order acc e)
            ∙ fused_skip which k rank id x r (view_of id acc) e
      ]

  -- What the three lists say of an id.
  abbrev pub IsFused : ℕ → Str → List Str → List Str → List Str → Option (View F) → Type 0
  IsFused k id dense_ids bm25_ids graph_ids none =
      (is_in id dense_ids ≡ false) × (is_in id bm25_ids ≡ false) × (is_in id graph_ids ≡ false)
  IsFused k id dense_ids bm25_ids graph_ids (some v) =
      (v.in_dense ≡ is_in id dense_ids)
      × (v.in_bm25 ≡ is_in id bm25_ids)
      × (v.in_graph ≡ is_in id graph_ids)
      × (v.score
          ≡ scored k 0 id graph_ids (scored k 0 id bm25_ids (scored k 0 id dense_ids zero_f)))

  fused-IsFused :
      (k : ℕ) (id : Str) (dense_ids bm25_ids graph_ids : List Str)
      → IsFused k id dense_ids bm25_ids graph_ids (
          fused from_graph k 0 id graph_ids
            (fused from_bm25 k 0 id bm25_ids (fused from_dense k 0 id dense_ids none)))
  fused-IsFused k id dense_ids bm25_ids graph_ids =
      let by_dense = scored k 0 id dense_ids in
      let by_bm25 = scored k 0 id bm25_ids in
      let by_graph = scored k 0 id graph_ids in
      let dense_none = scored_none k 0 id dense_ids zero_f in
      let bm25_none = scored_none k 0 id bm25_ids (by_dense zero_f) in
      let graph_none = scored_none k 0 id graph_ids (by_bm25 (by_dense zero_f)) in
      elim (Bool-cases (is_in id dense_ids)) [
        | inl d ↦ elim (Bool-cases (is_in id bm25_ids)) [
          | inl b ↦ elim (Bool-cases (is_in id graph_ids)) [
            | inl g ↦ rw (d, b, g) (sym d, sym b, sym g, refl)
            | inr g ↦ rw (d, b, g) (sym d, sym b, sym g, sym (graph_none g))
          ]
          | inr b ↦ elim (Bool-cases (is_in id graph_ids)) [
            | inl g ↦ rw (d, b, g) (sym d, sym b, sym g, ap by_graph (sym (bm25_none b)))
            | inr g ↦ rw (d, b, g) (sym d, sym b, sym g, sym (graph_none g ∙ bm25_none b))
          ]
        ]
        | inr d ↦ elim (Bool-cases (is_in id bm25_ids)) [
          | inl b ↦ elim (Bool-cases (is_in id graph_ids)) [
            | inl g ↦
                rw (d, b, g)
                  (sym d, sym b, sym g, ap (λ t. by_graph (by_bm25 t)) (sym (dense_none d)))
            | inr g ↦
                rw (d, b, g) (sym d, sym b, sym g, sym (graph_none g ∙ ap by_bm25 (dense_none d)))
          ]
          | inr b ↦ elim (Bool-cases (is_in id graph_ids)) [
            | inl g ↦
                rw (d, b, g) (sym d, sym b, sym g, ap by_graph (sym (bm25_none b ∙ dense_none d)))
            | inr g ↦ rw (d, b, g) (d, b, g)
          ]
        ]
      ]

  pub fuse_lists-IsFused :
      (k : ℕ) (id : Str) (dense_ids bm25_ids graph_ids : List Str)
      → IsFused k id dense_ids bm25_ids graph_ids
          (view_of id (fuse_lists zero_f add reciprocal dense_ids bm25_ids graph_ids k))
  unfolding fuse_lists
  fuse_lists-IsFused k id dense_ids bm25_ids graph_ids =
      let first = fuse_list zero_f add reciprocal k from_dense 0 dense_ids ([], 0) in
      let second = fuse_list zero_f add reciprocal k from_bm25 0 bm25_ids first in
      subst (IsFused k id dense_ids bm25_ids graph_ids)
        (sym (
          fuse_list-fused k from_graph 0 id graph_ids second.0 second.1
          ∙ ap (fused from_graph k 0 id graph_ids) (
              fuse_list-fused k from_bm25 0 id bm25_ids first.0 first.1
              ∙ ap (fused from_bm25 k 0 id bm25_ids)
                  (fuse_list-fused k from_dense 0 id dense_ids [] 0))))
        (fused-IsFused k id dense_ids bm25_ids graph_ids)
