-- ===== src/Retrieval/Fusion/Seen.antt =====
-- The entries stand in the order in which their ids are first seen, and `first_seen` numbers them so.
use mathlib.Core.Path.{subst}
use lens_lm.Base.{
  ℕ, suc, ◌+◌, ◌≡◌, ◌∙◌, refl, sym, ap, Bool-cases, true, false, ◌||◌, inl, inr, List, [], ◌∷◌,
  ◌++◌, append-nil, append_assoc, length, if◌then◌else◌, arith,
}
use lens_lm.Base.Text.{Str, str_eq}
use lens_lm.Base.Text.Distinct.{is_in, is_in-same, is_in-snoc, distinct, distinct-snoc}
use lens_lm.Retrieval.Fusion.{
  Which, from_dense, from_bm25, from_graph, Acc, add_entry, has_entry, fuse_list, fuse_lists,
}

abbrev pub ids_of : {F : Type 0} → List (Acc F) → List Str
ids_of [] = []
ids_of (a ∷ r) = a.chunk_id ∷ ids_of r

abbrev pub IsNumbered : {F : Type 0} → ℕ → List (Acc F) → Type 0
IsNumbered n [] = Unit
IsNumbered n (a ∷ r) = (a.first_seen ≡ n) × IsNumbered (n + 1) r

has_entry-ids_of :
    {F : Type 0} (x : Str) (acc : List (Acc F)) → has_entry x acc ≡ is_in x (ids_of acc)
unfolding has_entry
has_entry-ids_of x [] = refl
has_entry-ids_of x (a ∷ r) = ground (arith, has_entry-ids_of x r)

module _ {F : Type 0} (zero_f : F) (add : F → F → F) (reciprocal : ℕ → F) where
  add_entry-ids_of :
      (x : Str) (which : Which) (place order : ℕ) (acc : List (Acc F))
      → ids_of (add_entry zero_f add reciprocal x which place order acc)
        ≡ ids_of acc ++ (if is_in x (ids_of acc) then [] else x ∷ [])
  unfolding add_entry
  add_entry-ids_of x which place order [] = refl
  add_entry-ids_of x which place order (a ∷ r) = elim (Bool-cases (str_eq a.chunk_id x)) [
    | inl e ↦ rw (e, add_entry) (ap (λ t. a.chunk_id ∷ t) (sym (append-nil (ids_of r))))
    | inr e ↦ rw (e, add_entry) (ap (λ t. a.chunk_id ∷ t) (add_entry-ids_of x which place order r))
  ]

  add_entry-IsNumbered :
      (x : Str) (which : Which) (place order n : ℕ) (acc : List (Acc F))
      → order ≡ n + length acc
      → IsNumbered n acc
      → IsNumbered n (add_entry zero_f add reciprocal x which place order acc)
  unfolding add_entry
  add_entry-IsNumbered x which place order n [] h all = (omega arith, tt)
  add_entry-IsNumbered x which place order n (a ∷ r) h (first, all) =
      elim (Bool-cases (str_eq a.chunk_id x)) [
        | inl e ↦ rw (e, add_entry) (first, all)
        | inr e ↦
            rw (e, add_entry)
              (first, add_entry-IsNumbered x which place order (n + 1) r (omega arith) all)
      ]

  -- The entries behind the ids `done`.
  abbrev IsSeen : List Str → List (Acc F) × ℕ → Type 0
  IsSeen done (acc, order) =
      (ids_of acc ≡ distinct [] done)
      × IsNumbered 0 acc
      × (order ≡ length acc)
      × ((k : Str) → is_in k (ids_of acc) ≡ is_in k done)

  length-ids_of : (acc : List (Acc F)) → length (ids_of acc) ≡ length acc
  length-ids_of [] = refl
  length-ids_of (a ∷ r) = ap suc (length-ids_of r)

  length-snoc : (xs : List Str) (x : Str) → length (xs ++ x ∷ []) ≡ length xs + 1
  length-snoc [] x = refl
  length-snoc (y ∷ xs) x = omega (arith, length-snoc xs x)

  -- One more id.
  entry-IsSeen :
      (x : Str) (which : Which) (place order : ℕ) (done : List Str) (acc : List (Acc F))
      → IsSeen done (acc, order)
      → IsSeen (done ++ x ∷ []) (
        add_entry zero_f add reciprocal x which place order acc,
        if has_entry x acc then order else order + 1,
      )
  entry-IsSeen x which place order done acc (ids, numbered, count, same) =
      let new = add_entry zero_f add reciprocal x which place order acc in
      let joined = add_entry-ids_of x which place order acc in
      let all = add_entry-IsNumbered x which place order 0 acc (omega (arith, count)) numbered in
      let size = length-ids_of new in
      let old_size = length-ids_of acc in
      let snoc = distinct-snoc done x in
      elim (Bool-cases (is_in x (ids_of acc))) [
        | inl e ↦
            let known : is_in x done ≡ true = sym (same x) ∙ e in
            let stays : ids_of new ≡ ids_of acc = joined ∙ rw e (append-nil (ids_of acc)) in
            (
              stays ∙ ids ∙ sym (snoc ∙ rw known (append-nil (distinct [] done))),
              all,
              ground (arith, has_entry-ids_of x acc, e, size, old_size, ap length stays, count),
              λ k. ap (is_in k) stays ∙ same k ∙ sym (is_in-snoc k done x ∙ no_more k known),
            )
        | inr e ↦
            let fresh : is_in x done ≡ false = sym (same x) ∙ e in
            let grows : ids_of new ≡ ids_of acc ++ x ∷ [] = joined ∙ rw e refl in
            (
              grows ∙ ap (λ t. t ++ x ∷ []) ids ∙ sym (snoc ∙ rw fresh refl),
              all,
              ground (
                arith,
                has_entry-ids_of x acc,
                e,
                size,
                old_size,
                ap length grows,
                length-snoc (ids_of acc) x,
                count,
              ),
              λ k.
                  ap (is_in k) grows
                  ∙ is_in-snoc k (ids_of acc) x
                  ∙ ap (λ b. b || str_eq x k) (same k)
                  ∙ sym (is_in-snoc k done x),
            )
      ]
    where
      no_more : (k : Str) → is_in x done ≡ true → (is_in k done || str_eq x k) ≡ is_in k done
      no_more k known = elim (Bool-cases (str_eq x k)) [
        | inl f ↦ ground (arith, f, known, is_in-same x k done f)
        | inr f ↦ ground (arith, f)
      ]

  fuse_list-IsSeen :
      (k : ℕ) (which : Which) (rank : ℕ) (list done : List Str) (acc : List (Acc F)) (order : ℕ)
      → IsSeen done (acc, order)
      → IsSeen (done ++ list) (fuse_list zero_f add reciprocal k which rank list (acc, order))
  unfolding fuse_list
  fuse_list-IsSeen k which rank [] done acc order seen = rw (append-nil done) seen
  fuse_list-IsSeen k which rank (x ∷ r) done acc order seen =
      subst (λ d. IsSeen d (fuse_list zero_f add reciprocal k which rank (x ∷ r) (acc, order)))
        (append_assoc done (x ∷ []) r)
        (fuse_list-IsSeen k which (rank + 1) r (done ++ x ∷ []) _ _
          (entry-IsSeen x which (k + rank) order done acc seen))

  -- The ids of the three lists, each once, in the order of the lists.
  pub fuse_lists-seen :
      (dense_ids bm25_ids graph_ids : List Str) (k : ℕ)
      → let entries = fuse_lists zero_f add reciprocal dense_ids bm25_ids graph_ids k in
        (ids_of entries ≡ distinct [] ((dense_ids ++ bm25_ids) ++ graph_ids)) × IsNumbered 0 entries
  unfolding fuse_lists
  fuse_lists-seen dense_ids bm25_ids graph_ids k =
      let (ids, numbered, count, same) =
        fuse_list-IsSeen k from_graph 0 graph_ids (dense_ids ++ bm25_ids) _ _ (
          fuse_list-IsSeen k from_bm25 0 bm25_ids dense_ids _ _
            (fuse_list-IsSeen k from_dense 0 dense_ids [] [] 0 (refl, tt, refl, λ k. refl))) in
      (ids, numbered)
