-- ===== src/Section.antt =====
-- lens-core/src/section.rs: the outline of a document. Counters are unbounded here, u32 there; the
-- cast of the level to u8 is written out.
pub mod Nesting
pub mod Ordinals
use lens_lm.Base.{
  ℕ, zero, suc, ◌+◌, ◌%◌, min, max, Bool, true, false, ◌&&◌, ◌||◌, not, List, [], ◌∷◌, ltb, leb,
  ◌==◌, if◌then◌else◌, get_or,
}
use lens_lm.Base.Text.{Str, codes, str_eq}
use lens_lm.Chunk.Types.{Block}
use lens_lm.Chunk.Parent.{is_empty}

pub record Section : Type 0 where
  pub level : ℕ
  pub ordinal : ℕ
  pub title : Str
  pub char_start : ℕ
  pub char_end : ℕ

-- A heading as the first loop collects it.
pub record Heading : Type 0 where
  pub level : ℕ
  pub title : Str
  pub char_start : ℕ

heading_type : Str
heading_type = codes "heading"

-- Whether the text begins with " > ".
starts_separator : Str → Bool
starts_separator [] = false
starts_separator (a ∷ []) = false
starts_separator (a ∷ b ∷ []) = false
starts_separator (a ∷ b ∷ c ∷ _) = a == b' ' && (b == b'>' && c == b' ')

-- The separators that do not overlap; `skip` characters belong to the last one found.
separators : Str → ℕ → ℕ
separators [] skip = 0
separators (c ∷ s) (suc skip) = separators s skip
separators (c ∷ s) zero =
    (if starts_separator (c ∷ s) then 1 else 0)
    + separators s (if starts_separator (c ∷ s) then 2 else 0)

-- `(section_path.split(" > ").count() as u8).clamp(1, 6)`
unfoldable pub level_of : Str → ℕ
unfolding separators starts_separator
level_of section_path = max 1 (min 6 ((separators section_path 0 + 1) % 256))

-- `blocks.iter().map(|b| b.char_end).max().unwrap_or(0)`
unfoldable pub doc_end : List Block → ℕ
doc_end [] = 0
doc_end (b ∷ r) = max b.char_end (doc_end r)

unfoldable pub headings : List Block → List Heading
unfolding heading_type is_empty level_of
headings [] = []
headings (b ∷ r) =
    if not (str_eq b.block_type heading_type) || is_empty b.section_path
    then headings r
    else record { level = level_of b.section_path; title = b.text; char_start = b.char_start }
      ∷ headings r

zeros : List ℕ → List ℕ
zeros [] = []
zeros (_ ∷ r) = 0 ∷ zeros r

-- The counter of the level goes up, and those of the deeper levels go to 0.
unfoldable pub bump : List ℕ → ℕ → List ℕ
unfolding zeros
bump [] lvl = []
bump (c ∷ r) zero = suc c ∷ zeros r
bump (c ∷ r) (suc lvl) = c ∷ bump r lvl

-- The start of the next heading of the same or a shallower level, or the document's end.
unfoldable pub section_end : ℕ → ℕ → List Heading → ℕ
section_end doc_end level [] = doc_end
section_end doc_end level (h ∷ r) =
    if leb h.level level then h.char_start else section_end doc_end level r

unfoldable pub outline : ℕ → List ℕ → List Heading → List Section
unfolding bump section_end
outline doc_end counters [] = []
outline doc_end counters (h ∷ r) =
    let counters' = bump counters h.level in
    record {
      level = h.level;
      ordinal = get_or counters' h.level 0;
      title = h.title;
      char_start = h.char_start;
      char_end = section_end doc_end h.level r;
    }
    ∷ outline doc_end counters' r

abbrev pub counters_init : List ℕ
counters_init = 0 ∷ 0 ∷ 0 ∷ 0 ∷ 0 ∷ 0 ∷ 0 ∷ []

unfoldable pub build_sections : List Block → List Section
unfolding outline headings doc_end
build_sections blocks = outline (doc_end blocks) counters_init (headings blocks)
