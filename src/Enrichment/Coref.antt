-- ===== src/Enrichment/Coref.antt =====
-- lens-core/src/enrichment/coref.rs: the bounds of a response, and apply_substitutions. Offsets count
-- characters; the code turns them into bytes. The lowercase mapping is a parameter, and `none` is the
-- panic of a slice that is no part of the text.
pub mod Offsets
pub mod Applied
use lens_lm.Base.{
  ℕ, ◌+◌, ◌-◌, ◌^◌, Bool, true, false, ◌&&◌, not, Option, none, some, List, [], ◌∷◌, ◌++◌, map, any,
  length, ltb, ◌==◌, if◌then◌else◌,
}
use lens_lm.Base.Text.{Str, len_utf8, byte_len, split_at, slice, str_eq}
use lens_lm.Citation.Markers.{trim}
use lens_lm.Enrichment.Meta.{truncate, truncate_chars, structural_map_max_field_chars}
use lens_lm.Retrieval.Trim.{sort_by}

pub record CorefSub : Type 0 where
  pub mention : Str
  pub char_start : ℕ
  pub char_end : ℕ
  pub antecedent : Str

pub record ChunkCoref : Type 0 where
  pub id : ℕ
  pub subs : List CorefSub

abbrev pub coref_max_results : ℕ
coref_max_results = 256

abbrev pub coref_max_subs_per_chunk : ℕ
coref_max_subs_per_chunk = 128

bound_sub : CorefSub → CorefSub
bound_sub s = record s {
  mention = truncate_chars s.mention structural_map_max_field_chars;
  antecedent = truncate_chars s.antecedent structural_map_max_field_chars;
}

bound_chunk : ChunkCoref → ChunkCoref
unfolding bound_sub
bound_chunk c = record c { subs = map bound_sub (truncate c.subs coref_max_subs_per_chunk) }

unfoldable pub bound_results : List ChunkCoref → List ChunkCoref
unfolding bound_chunk
bound_results results = map bound_chunk (truncate results coref_max_results)

-- The loop over the characters, for one of the two offsets it looks for.
unfoldable pub offset_loop : Str → ℕ → ℕ → ℕ → Option ℕ → Option ℕ
offset_loop [] target cp_idx byte_idx found = found
offset_loop (c ∷ s) target cp_idx byte_idx found =
    offset_loop s target (cp_idx + 1) (byte_idx + len_utf8 c)
      (if cp_idx == target then some byte_idx else found)

-- With the index behind the last character.
unfoldable pub codepoint_to_byte : Str → ℕ → Option ℕ
codepoint_to_byte text target =
    if target == length text then some (byte_len text) else offset_loop text target 0 0 none

unfoldable pub codepoint_range_to_bytes : Str → ℕ → ℕ → Option (ℕ × ℕ)
codepoint_range_to_bytes text char_start char_end =
    if ltb char_end char_start then none else elim (codepoint_to_byte text char_start) [
      | none ↦ none
      | some s ↦ elim (codepoint_to_byte text char_end) [ none ↦ none | some e ↦ some (s, e) ]
    ]

-- `String::replace_range`.
unfoldable pub replace_range : Str → ℕ → ℕ → Str → Option Str
replace_range s i j t = if ltb j i then none else elim (split_at s i) [
  | none ↦ none
  | some (a, rest) ↦ elim (split_at rest (j - i)) [
    | none ↦ none
    | some (_, q) ↦ some (a ++ (t ++ q))
  ]
]

unfoldable pub is_blank : Str → Bool
is_blank [] = true
is_blank (c ∷ s) = false

abbrev pub usize_max : ℕ
usize_max = 2 ^ 64 - 1

-- The substitution of the larger start stands first.
unfoldable pub starts_before : CorefSub → CorefSub → Bool
starts_before a b = ltb a.char_start b.char_start

unfoldable pub apply_loop : Str → Str → ℕ → List CorefSub → Option Str
apply_loop text result last_applied_start [] = some result
apply_loop text result last_applied_start (sub ∷ r) =
    let skip = apply_loop text result last_applied_start r in
    if ltb last_applied_start sub.char_end
    then skip
    else elim (codepoint_range_to_bytes text sub.char_start sub.char_end) [
      | none ↦ skip
      | some (byte_start, byte_end) ↦
          elim (replace_range result byte_start byte_end sub.antecedent) [
            | none ↦ none
            | some result' ↦ apply_loop text result' sub.char_start r
          ]
    ]

unfoldable pub is_allowed : (Str → Str) → List Str → CorefSub → Bool
is_allowed lowercase allowed_antecedents sub =
    any (λ a. str_eq (lowercase a) (lowercase sub.antecedent)) allowed_antecedents

module _ (lowercase : Str → Str) (text : Str) (allowed_antecedents : List Str) where
  unfoldable pub is_valid_sub : CorefSub → Option Bool
  is_valid_sub sub =
      if is_blank (trim sub.antecedent)
      then some false
      else elim (codepoint_range_to_bytes text sub.char_start sub.char_end) [
        | none ↦ some false
        | some (byte_start, byte_end) ↦ elim (slice text byte_start byte_end) [
          | none ↦ none
          | some t ↦ some (str_eq t sub.mention && is_allowed lowercase allowed_antecedents sub)
        ]
      ]

  unfoldable pub filter_valid : List CorefSub → Option (List CorefSub)
  filter_valid [] = some []
  filter_valid (sub ∷ r) = elim (is_valid_sub sub) [
    | none ↦ none
    | some is_valid ↦ elim (filter_valid r) [
      | none ↦ none
      | some valid ↦ some (if is_valid then sub ∷ valid else valid)
    ]
  ]

  unfoldable pub apply_substitutions : List CorefSub → Option Str
  apply_substitutions subs = elim (filter_valid subs) [
    | none ↦ none
    | some [] ↦ some text
    | some (sub ∷ r) ↦ apply_loop text text usize_max (sort_by starts_before (sub ∷ r))
  ]
