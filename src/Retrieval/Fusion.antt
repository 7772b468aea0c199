-- ===== src/Retrieval/Fusion.antt =====
-- lens-core/src/retrieval/rrf.rs: rrf_merge3. f32 is a parameter: zero, the sum, the reciprocal of a
-- number and partial_cmp; `shuffle` is the order in which the hash map gives its entries.
pub mod Entries
pub mod Hits
pub mod Seen
use lens_lm.Base.{
  ℕ, zero, suc, ◌+◌, Bool, true, false, Option, none, some, List, [], ◌∷◌, ◌++◌, map, take,
  if◌then◌else◌,
}
use lens_lm.Base.Text.{Str, str_eq}
use lens_lm.Retrieval.Trim.{Comparison, cmp, then_with, is_greater, unwrap_or_equal, sort_by}

-- HitSource of lens-core/src/retrieval/mod.rs, and a list that is fused.
pub data HitSource : Type 0 where
  dense bm25 both graph : HitSource

pub data Which : Type 0 where
  from_dense from_bm25 from_graph : Which

-- What is known of an id so far.
pub record View (F : Type 0) : Type 0 where
  pub score : F
  pub in_dense : Bool
  pub in_bm25 : Bool
  pub in_graph : Bool

pub record Acc (F : Type 0) : Type 0 where
  pub chunk_id : Str
  pub view : View F
  pub first_seen : ℕ

pub record RetrievalHit (F : Type 0) : Type 0 where
  chunk_id : Str
  score : F
  source : HitSource

abbrev pub mark : {F : Type 0} → Which → View F → View F
mark from_dense v = record v { in_dense = true }
mark from_bm25 v = record v { in_bm25 = true }
mark from_graph v = record v { in_graph = true }

unfoldable pub source_of : {F : Type 0} → View F → HitSource
source_of v =
    if v.in_dense
    then if v.in_bm25 then both else dense
    else if v.in_bm25
    then bm25
    else if v.in_graph
    then graph
    else dense

module _ {F : Type 0} where
  unfoldable pub has_entry : Str → List (Acc F) → Bool
  has_entry id [] = false
  has_entry id (a ∷ r) = if str_eq a.chunk_id id then true else has_entry id r

  unfoldable pub hit_of : Acc F → RetrievalHit F
  unfolding source_of
  hit_of a = record { chunk_id = a.chunk_id; score = a.view.score; source = source_of a.view }

module _ {F : Type 0} (partial_cmp : F → F → Option Comparison) where
  -- The score in descending order, then the first seen.
  unfoldable pub behind : Acc F → Acc F → Bool
  unfolding is_greater then_with unwrap_or_equal cmp
  behind a b = is_greater (
      then_with (unwrap_or_equal (partial_cmp b.view.score a.view.score))
        (cmp a.first_seen b.first_seen))

module _ {F : Type 0} (zero_f : F) (add : F → F → F) (reciprocal : ℕ → F) where
  abbrev pub new_view : View F
  new_view = record { score = zero_f; in_dense = false; in_bm25 = false; in_graph = false }

  -- `e.score += 1.0 / (k + rank) as f32`, and the flag.
  abbrev pub bump : Which → ℕ → View F → View F
  bump which place v = mark which (record v { score = add v.score (reciprocal place) })

  -- `entry(id).or_insert_with(..)`, and the change of the entry; `order` is the number of entries.
  unfoldable pub add_entry : Str → Which → ℕ → ℕ → List (Acc F) → List (Acc F)
  add_entry id which place order [] =
      (record { chunk_id = id; view = bump which place new_view; first_seen = order }) ∷ []
  add_entry id which place order (a ∷ r) =
      let rest = add_entry id which place order r in
      if str_eq a.chunk_id id then record a { view = bump which place a.view } ∷ r else a ∷ rest

  -- The loop over a list, from `rank` on.
  unfoldable pub fuse_list : ℕ → Which → ℕ → List Str → List (Acc F) × ℕ → List (Acc F) × ℕ
  unfolding add_entry has_entry
  fuse_list k which rank [] state = state
  fuse_list k which rank (id ∷ r) (acc, order) =
      fuse_list k which (rank + 1) r
        (add_entry id which (k + rank) order acc, if has_entry id acc then order else order + 1)

  unfoldable pub fuse_lists : List Str → List Str → List Str → ℕ → List (Acc F)
  unfolding fuse_list
  fuse_lists dense_ids bm25_ids graph_ids k =
      (fuse_list k from_graph 0 graph_ids
        (fuse_list k from_bm25 0 bm25_ids (fuse_list k from_dense 0 dense_ids ([], 0)))).0

  module _ (partial_cmp : F → F → Option Comparison) where
    unfoldable pub rrf_merge3 :
        (List (Acc F) → List (Acc F))
        → List Str
        → List Str
        → List Str
        → ℕ
        → ℕ
        → List (RetrievalHit F)
    unfolding fuse_lists hit_of sort_by behind
    rrf_merge3 shuffle dense_ids bm25_ids graph_ids k limit = map hit_of (
        take limit
          (sort_by (behind partial_cmp) (shuffle (fuse_lists dense_ids bm25_ids graph_ids k))))
