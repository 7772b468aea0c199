-- ===== src/Retrieval/Trim.antt =====
-- lens-core/src/retrieval/router.rs: estimate_tokens, doc_order_key and trim_and_order, on any list of
-- candidates: their order, which comes from a hash map, is arbitrary. Scores are a type parameter with
-- its partial_cmp, and a provenance is a type parameter. Levels and token offsets are not negative.
pub mod Sorting
pub mod Budget
use lens_lm.Base.{
  ℕ, zero, suc, ◌+◌, ◌/◌, Bool, true, false, ◌&&◌, ◌||◌, not, Option, none, some, List, [], ◌∷◌,
  ltb, leb, ◌==◌, if◌then◌else◌,
}
use lens_lm.Base.Text.{Str}
use lens_lm.Citation.Extract.{ContextUnit}

unfoldable pub is_cjk : ℕ → Bool
is_cjk c =
    (leb 0x3040 c && leb c 0x30ff)
    || (leb 0x3400 c && leb c 0x4dbf)
    || (leb 0x4e00 c && leb c 0x9fff)
    || (leb 0xf900 c && leb c 0xfaff)
    || (leb 0xac00 c && leb c 0xd7af)

-- The loop over the characters: the two counters.
unfoldable pub count_chars : Str → ℕ × ℕ
unfolding is_cjk
count_chars [] = (0, 0)
count_chars (c ∷ s) =
    let (cjk, other) = count_chars s in if is_cjk c then (cjk + 1, other) else (cjk, other + 1)

unfoldable pub estimate_tokens : Str → ℕ
unfolding count_chars
estimate_tokens text = let (cjk, other) = count_chars text in cjk + other / 4

-- `std::cmp::Ordering`.
pub data Comparison : Type 0 where
  less equal greater : Comparison

unfoldable pub cmp : ℕ → ℕ → Comparison
cmp a b = if ltb a b then less else if ltb b a then greater else equal

unfoldable pub then_with : Comparison → Comparison → Comparison
then_with equal c = c
then_with less c = less
then_with greater c = greater

unfoldable pub is_greater : Comparison → Bool
is_greater greater = true
is_greater less = false
is_greater equal = false

-- A stable sort: `gt a b` says that a belongs behind b.
module _ {A : Type 0} (gt : A → A → Bool) where
  unfoldable pub sort_insert : A → List A → List A
  sort_insert x [] = x ∷ []
  sort_insert x (y ∷ ys) = let rest = sort_insert x ys in if gt x y then y ∷ rest else x ∷ y ∷ ys

  unfoldable pub sort_by : List A → List A
  unfolding sort_insert
  sort_by [] = []
  sort_by (x ∷ xs) = sort_insert x (sort_by xs)

module _ (F P : Type 0) where
  pub record Candidate : Type 0 where
    pub chunk_id : Str
    pub source_id : Str
    pub parent_id : Option Str
    pub text : Str
    pub locator : Option Str
    pub provenance : P
    pub score : F
    pub level : ℕ
    pub token_start : ℕ

unfoldable pub rank_of : Option ℕ → ℕ
rank_of none = 18446744073709551615
rank_of (some r) = r

unfoldable pub unwrap_or_equal : Option Comparison → Comparison
unwrap_or_equal none = equal
unwrap_or_equal (some c) = c

module _ {F P : Type 0} where
  unfoldable pub total_tokens : List (Candidate F P) → ℕ
  unfolding estimate_tokens
  total_tokens [] = 0
  total_tokens (c ∷ r) = estimate_tokens c.text + total_tokens r

  -- The loop: what is chosen from here on, and what is not.
  unfoldable pub choose_loop :
      ℕ → ℕ → Bool → List (Candidate F P) → List (Candidate F P) × List (Candidate F P)
  unfolding estimate_tokens
  choose_loop cap running chosen [] = ([], [])
  choose_loop cap running chosen (c ∷ r) =
      let (more, left) = choose_loop cap (running + estimate_tokens c.text) true r in
      if ltb cap (running + estimate_tokens c.text) && chosen then ([], c ∷ r) else (c ∷ more, left)

  unfoldable pub unit_of : ℕ → Candidate F P → ContextUnit × P
  unit_of order_index c = (
    record {
      text = c.text;
      source_id = c.source_id;
      chunk_id = c.chunk_id;
      parent_id = c.parent_id;
      locator = c.locator;
      order_index = order_index;
    },
    c.provenance,
  )

  unfoldable pub number_units : ℕ → List (Candidate F P) → List (ContextUnit × P)
  unfolding unit_of
  number_units i [] = []
  number_units i (c ∷ r) = unit_of i c ∷ number_units (i + 1) r

module _ {F P : Type 0} (partial_cmp : F → F → Option Comparison)
    (source_rank : Str → Option ℕ) where
  unfoldable pub doc_order_key : Candidate F P → ℕ × ℕ × ℕ
  unfolding rank_of
  doc_order_key c = (rank_of (source_rank c.source_id), c.level, c.token_start)

  unfoldable pub key_cmp : Candidate F P → Candidate F P → Comparison
  unfolding doc_order_key cmp then_with
  key_cmp a b =
      let (rank, level, start) = doc_order_key a in
      let (rank', level', start') = doc_order_key b in
      then_with (cmp rank rank') (then_with (cmp level level') (cmp start start'))

  unfoldable pub by_score : Candidate F P → Candidate F P → Bool
  unfolding unwrap_or_equal then_with is_greater key_cmp
  by_score a b =
      is_greater (then_with (unwrap_or_equal (partial_cmp b.score a.score)) (key_cmp a b))

  unfoldable pub by_key : Candidate F P → Candidate F P → Bool
  unfolding is_greater key_cmp
  by_key a b = is_greater (key_cmp a b)

  unfoldable pub survivors_of : List (Candidate F P) → ℕ → List (Candidate F P)
  unfolding choose_loop total_tokens sort_by by_score
  survivors_of candidates cap =
      if leb (total_tokens candidates) cap
      then candidates
      else (choose_loop cap 0 false (sort_by by_score candidates)).0

  unfoldable pub trim_and_order : List (Candidate F P) → ℕ → List (ContextUnit × P)
  unfolding survivors_of number_units sort_by by_key
  trim_and_order candidates tier2_cap =
      number_units 0 (sort_by by_key (survivors_of candidates tier2_cap))
