-- ===== src/Resolution/Tiers.antt =====
-- lens-core/src/resolution/mod.rs: the three tiers of resolve_notebook. Scores are f64 there and
-- a parameter here, with the comparisons that the code makes. The vector store, the cache and the
-- language model are parameters that say what each call returns; the budget is the model's affair.
use lens_lm.Base.{length}
use lens_lm.Base.{
  ℕ, ◌+◌, Bool, true, false, ◌&&◌, ◌||◌, Option, none, some, List, [], ◌∷◌, ◌++◌, ltb, ◌==◌,
  if◌then◌else◌, leb,
}
use mathlib.Core.List.{reverse}
use lens_lm.Base.Outcome.{Outcome, ok, panic, ◌>>=◌}
use lens_lm.Base.Text.{Str, str_eq, is_whitespace}
use lens_lm.Resolution.UnionFind.{UnionFind, new, find, union}

pub record EntityNode : Type 0 where
  pub id : Str
  pub name : Str
  pub kind : Str
  pub definition : Option Str

-- The scores and the thresholds that they are compared with.
pub record Scores : Type 1 where
  pub Score : Type 0
  pub one : Score
  pub auto_merge : Score
  pub keep_separate : Score
  pub write_bar : Score
  pub ge : Score → Score → Bool
  pub lt : Score → Score → Bool
  -- `1.0 - distance as f64`
  pub similarity : Score → Score

-- `name.split_whitespace().collect::<Vec<_>>().join(" ")`: `pending` is a gap behind a word.
collapse : Str → Bool → Bool → Str
collapse [] started pending = []
collapse (c ∷ s) started pending =
    if is_whitespace c
    then collapse s started started
    else if pending
    then b' ' ∷ c ∷ collapse s true false
    else c ∷ collapse s true false

is_ascii_punctuation : ℕ → Bool
is_ascii_punctuation c =
    (leb 0x21 c && leb c 0x2f)
    || (leb 0x3a c && leb c 0x40)
    || (leb 0x5b c && leb c 0x60)
    || (leb 0x7b c && leb c 0x7e)

drop_punctuation : Str → Str
drop_punctuation [] = []
drop_punctuation (c ∷ s) = if is_ascii_punctuation c then drop_punctuation s else c ∷ s

-- `to_lowercase` is the Unicode mapping of the standard library.
unfoldable pub normalize_name : (Str → Str) → Str → Str
unfolding collapse drop_punctuation is_ascii_punctuation
normalize_name to_lowercase name =
    to_lowercase (reverse (drop_punctuation (reverse (collapse name false false))))

abbrev pub of_option : {A : Type 0} → Option A → Outcome A
of_option none = panic
of_option (some a) = ok a

-- The map from ids to indices: the last node of an id wins.
unfoldable pub index_by_id : ℕ → List EntityNode → Str → Option ℕ
index_by_id i [] id = none
index_by_id i (n ∷ r) id = elim (index_by_id (i + 1) r id) [
  | some j ↦ some j
  | none ↦ if str_eq n.id id then some i else none
]

module _ (sc : Scores) (to_lowercase : Str → Str) (nodes : List EntityNode) where
  open sc use {Score, one, auto_merge, keep_separate, write_bar, ge, lt, similarity}

  abbrev pub Forest : Type 0
  Forest = UnionFind Score

  -- `first_of_key`: the index at which a name and kind was first seen.
  unfoldable pub first_of_key : List (Str × Str × ℕ) → Str → Str → Option ℕ
  first_of_key [] name kind = none
  first_of_key ((m, k, i) ∷ r) name kind =
      if str_eq m name && str_eq k kind then some i else first_of_key r name kind

  unfoldable pub tier1_exact : ℕ → List EntityNode → List (Str × Str × ℕ) → Forest → Outcome Forest
  unfolding first_of_key
  tier1_exact i [] seen uf = ok uf
  tier1_exact i (n ∷ r) seen uf =
      let name = normalize_name to_lowercase n.name in
      elim (first_of_key seen name n.kind) [
        | some first ↦ do uf' ← of_option (union uf first i one); tier1_exact (i + 1) r seen uf'
        | none ↦ tier1_exact (i + 1) r ((name, n.kind, i) ∷ seen) uf
      ]

  -- The pairs of coreference, of any kinds.
  unfoldable pub tier1_coref : List (Str × Str) → Forest → Outcome Forest
  tier1_coref [] uf = ok uf
  tier1_coref ((a, b) ∷ r) uf = elim (index_by_id 0 nodes a) [
    | none ↦ tier1_coref r uf
    | some ia ↦ elim (index_by_id 0 nodes b) [
      | none ↦ tier1_coref r uf
      | some ib ↦ do uf' ← of_option (union uf ia ib one); tier1_coref r uf'
    ]
  ]

  unfoldable pub tier1_exact_and_coref : List (Str × Str) → Forest → Outcome Forest
  unfolding tier1_exact tier1_coref
  tier1_exact_and_coref coref_pairs uf = do
    uf' ← tier1_exact 0 nodes [] uf
    tier1_coref coref_pairs uf'

  pub record Tier2 : Type 0 where
    pub uf : Forest
    pub seen_pairs : List (ℕ × ℕ)
    pub candidates : List (ℕ × ℕ × Score)

  unfoldable pub has_pair : ℕ → ℕ → List (ℕ × ℕ) → Bool
  has_pair a b [] = false
  has_pair a b ((c, d) ∷ r) = (a == c && b == d) || has_pair a b r

  -- The pair joins the candidates if it is new; the smaller index comes first.
  unfoldable pub add_candidate : ℕ → ℕ → Score → Tier2 → Tier2
  unfolding has_pair
  add_candidate i j sim s =
      let a = if ltb i j then i else j in
      let b = if ltb i j then j else i in
      if has_pair a b s.seen_pairs then s else record s {
        seen_pairs = (a, b) ∷ s.seen_pairs;
        candidates = s.candidates ++ (a, b, sim) ∷ [];
      }

  unfoldable pub tier2_pair : ℕ → ℕ → Score → Tier2 → Outcome Tier2
  unfolding add_candidate
  tier2_pair i j sim s = do
    ri ← of_option (find s.uf i)
    rj ← of_option (find s.uf j)
    if ri == rj
        then ok s
        else if ge sim auto_merge
        then elim (union s.uf i j sim) [ none ↦ panic | some uf' ↦ ok (record s { uf = uf' }) ]
        else if lt sim keep_separate
        then ok s
        else ok (add_candidate i j sim s)

  -- Self-hits and unknown ids are passed over.
  unfoldable pub tier2_neighbors : ℕ → List (Str × Score) → Tier2 → Outcome Tier2
  unfolding tier2_pair
  tier2_neighbors i [] s = ok s
  tier2_neighbors i ((id, distance) ∷ r) s = elim (index_by_id 0 nodes id) [
    | none ↦ tier2_neighbors i r s
    | some j ↦ elim (j == i) [
      | true ↦ tier2_neighbors i r s
      | false ↦ do t ← tier2_pair i j (similarity distance) s; tier2_neighbors i r t
    ]
  ]

  -- `ann i node` is what the store returns for node `i`: none if the node has no vector.
  module _ (ann : ℕ → EntityNode → Option (Outcome (List (Str × Score)))) where
    unfoldable pub tier2_nodes : ℕ → List EntityNode → Tier2 → Outcome Tier2
    unfolding tier2_neighbors
    tier2_nodes i [] s = ok s
    tier2_nodes i (n ∷ r) s = elim (ann i n) [
      | none ↦ tier2_nodes (i + 1) r s
      | some found ↦ do
        neighbors ← found
        t ← tier2_neighbors i neighbors s
        tier2_nodes (i + 1) r t
    ]

  pub data LlmVerdict : Type 0 where
    verdict : Bool → Score → LlmVerdict
    skip : LlmVerdict
    budget_stop : LlmVerdict

  unfoldable pub tier3_verdict : ℕ → ℕ → Bool → Score → Forest → Outcome Forest
  tier3_verdict i j same conf uf =
      if same && ge conf write_bar then of_option (union uf i j conf) else ok uf

  -- `cache i j` and `llm i j` answer for a pair of candidates.
  module _ (cache : ℕ → ℕ → Outcome (Option (Bool × Score))) (llm : ℕ → ℕ → LlmVerdict) where
    unfoldable pub tier3_adjudicate : List (ℕ × ℕ × Score) → Forest → Outcome Forest
    unfolding tier3_verdict
    tier3_adjudicate [] uf = ok uf
    tier3_adjudicate ((i, j, sim) ∷ r) uf = do
      ri ← of_option (find uf i)
      rj ← of_option (find uf j)
      elim (ri == rj) [
        | true ↦ tier3_adjudicate r uf
        | false ↦ do
          cached ← cache i j
          elim cached [
            | some (same, conf) ↦ do uf' ← tier3_verdict i j same conf uf; tier3_adjudicate r uf'
            | none ↦ elim (llm i j) [
              | skip ↦ tier3_adjudicate r uf
              | budget_stop ↦ ok uf
              | verdict same conf ↦ do uf' ← tier3_verdict i j same conf uf; tier3_adjudicate r uf'
            ]
          ]
      ]

  -- The forest that resolve_notebook hands to assign_canonical: the tiers on the new forest.
  module _ (ann : ℕ → EntityNode → Option (Outcome (List (Str × Score))))
      (cache : ℕ → ℕ → Outcome (Option (Bool × Score))) (llm : ℕ → ℕ → LlmVerdict) where
    unfoldable pub resolve_groups : List (Str × Str) → Outcome Forest
    unfolding tier1_exact_and_coref tier2_nodes tier3_adjudicate
    resolve_groups coref_pairs = do
      uf ← tier1_exact_and_coref coref_pairs (new (length nodes))
      t ← tier2_nodes ann 0 nodes (record { uf = uf; seen_pairs = []; candidates = [] })
      tier3_adjudicate cache llm t.candidates t.uf
