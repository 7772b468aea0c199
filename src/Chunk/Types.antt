-- ===== src/Chunk/Types.antt =====
-- lens-core/src/chunk.rs: constants, rows and ids. Block is that of lens-core/src/parse.rs.
-- The `tokenizers` crate, the `uuid` crate and SHA-256 are parameters. usize and i64 are unbounded.
use lens_lm.Base.{ℕ, zero, suc, ◌%◌, ◌/◌, Option, none, some, List, [], ◌∷◌, ◌++◌}
use lens_lm.Base.Outcome.{Outcome, ok, err, panic, parse}
use lens_lm.Base.Text.{Str, codes, slice, utf8}

-- The number of ids of `encode(text, true)`, or none if the tokenizer fails.
pub record Tokenizer : Type 0 where
  pub encode : Str → Option ℕ

pub record Block : Type 0 where
  pub block_type : Str
  pub section_path : Str
  pub text : Str
  pub char_start : ℕ
  pub char_end : ℕ

abbrev pub child_token_target : ℕ
child_token_target = 128

abbrev pub parent_token_target : ℕ
parent_token_target = 512

abbrev pub child_token_tolerance : ℕ
child_token_tolerance = 1

abbrev pub parent_token_tolerance : ℕ
parent_token_tolerance = 1

abbrev pub child_overlap_tokens : ℕ
child_overlap_tokens = 16

abbrev pub kind_parent : Str
kind_parent = codes "parent"

abbrev pub kind_child : Str
kind_child = codes "child"

pub record Chunk : Type 0 where
  pub id : Str
  pub parent_id : Option Str
  pub kind : Str
  pub level : ℕ
  pub section_path : Str
  pub text : Str
  pub token_start : ℕ
  pub token_end : ℕ
  pub char_start : ℕ
  pub char_end : ℕ
  pub block_type : Option Str
  pub source_anchor : Option Str

-- `v7` holds what `Uuid::now_v7` returns to the call for a level and an ordinal, of which each
-- pair makes one call. `content_derived` holds `Sha256`, printed in hexadecimal.
pub data IdStrategy : Type 0 where
  v7 : (ℕ → ℕ → Str) → IdStrategy
  content_derived : (List ℕ → Str) → IdStrategy

-- `to_le_bytes` of a number of the given width in bytes.
unfoldable pub to_le_bytes : ℕ → ℕ → List ℕ
to_le_bytes zero n = []
to_le_bytes (suc w) n = n % 256 ∷ to_le_bytes w (n / 256)

unfoldable pub make_id : IdStrategy → ℕ → Str → Str → ℕ → Str
unfolding to_le_bytes
make_id (v7 now) level section_path text ordinal = now level ordinal
make_id (content_derived sha256) level section_path text ordinal = sha256 (
    to_le_bytes 4 level
    ++ (0 ∷ (utf8 section_path ++ (0 ∷ (utf8 text ++ (0 ∷ to_le_bytes 8 ordinal))))))

unfoldable pub token_count : Tokenizer → Str → Outcome ℕ
token_count tokenizer text = elim (tokenizer.encode text) [ none ↦ err parse | some n ↦ ok n ]

-- `&s[i..j]`.
unfoldable pub index : Str → ℕ → ℕ → Outcome Str
index s i j = elim (slice s i j) [ none ↦ panic | some t ↦ ok t ]
