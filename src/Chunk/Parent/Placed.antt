-- ===== src/Chunk/Parent/Placed.antt =====
-- Where blocks and parent windows stand in the source, how many tokens they hold, and their text.
use lens_lm.Base.{ℕ, ◌+◌, ◌≤◌, ◌≡◌, refl, sym, ◌⊎◌, List, [], ◌∷◌, ◌++◌, append_assoc, arith, some}
use lens_lm.Base.Text.{Str, slice}
use lens_lm.Chunk.Types.{Tokenizer, Block}
use lens_lm.Chunk.Split.Tiles.{IsBounded}
use lens_lm.Chunk.Parent.{ParentWindow, parent_limit}

-- The blocks are slices of the source, in order and apart, between `lo` and `hi`.
abbrev pub PlacedTo : Str → ℕ → List Block → ℕ → Type 0
PlacedTo src lo [] hi = lo ≤ hi
PlacedTo src lo (b ∷ r) hi =
    (lo ≤ b.char_start)
    × (slice src b.char_start b.char_end ≡ some b.text)
    × PlacedTo src b.char_end r hi

pub PlacedTo-append :
    (src : Str) (lo mid hi : ℕ) (xs ys : List Block)
    → PlacedTo src lo xs mid
    → PlacedTo src mid ys hi
    → PlacedTo src lo (xs ++ ys) hi
PlacedTo-append src lo mid hi [] [] h k = omega arith
PlacedTo-append src lo mid hi [] (b ∷ r) h k = (omega arith, k.1, k.2)
PlacedTo-append src lo mid hi (b ∷ r) ys h k =
    (h.0, h.1, PlacedTo-append src b.char_end mid hi r ys h.2 k)

-- The blocks' token counts, each taken by itself, add up to `k`.
abbrev pub TokenSum : Tokenizer → List Block → ℕ → Type 0
TokenSum tokenizer [] k = k ≡ 0
TokenSum tokenizer (b ∷ r) k =
    (n : ℕ) × (m : ℕ) × (tokenizer.encode b.text ≡ some n) × TokenSum tokenizer r m × (k ≡ n + m)

pub TokenSum-append :
    (tokenizer : Tokenizer) (xs : List Block) (b : Block) (k n : ℕ)
    → TokenSum tokenizer xs k
    → tokenizer.encode b.text ≡ some n
    → TokenSum tokenizer (xs ++ b ∷ []) (k + n)
TokenSum-append tokenizer [] b k n h e = (n, 0, e, refl, omega arith)
TokenSum-append tokenizer (x ∷ xs) b k n (i, j, f, g, s) e =
    (i, j + n, f, TokenSum-append tokenizer xs b j n g e, omega arith)

-- The text of blocks, one behind the other.
abbrev pub content : List Block → Str
content [] = []
content (b ∷ r) = b.text ++ content r

pub content-append : (xs ys : List Block) → content (xs ++ ys) ≡ content xs ++ content ys
content-append [] ys = refl
content-append (b ∷ r) ys =
    rw (content-append r ys) (sym (append_assoc b.text (content r) (content ys)))

abbrev pub window_content : List ParentWindow → Str
window_content [] = []
window_content (w ∷ r) = content w.blocks ++ window_content r

pub window_content-append :
    (xs ys : List ParentWindow) → window_content (xs ++ ys) ≡ window_content xs ++ window_content ys
window_content-append [] ys = refl
window_content-append (w ∷ r) ys =
    rw (window_content-append r ys)
      (sym (append_assoc (content w.blocks) (window_content r) (window_content ys)))

-- The token sum of the window's blocks is within the limit, or its own text is.
abbrev pub IsPacked : Tokenizer → ParentWindow → Type 0
IsPacked tokenizer w =
    ((k : ℕ) × TokenSum tokenizer w.blocks k × (k ≤ parent_limit))
    ⊎ IsBounded tokenizer parent_limit w.text

-- The windows are slices of the source, in order and apart, between `lo` and `hi`; each holds its
-- blocks between its ends, and is packed.
abbrev pub WindowsTo : Tokenizer → Str → ℕ → List ParentWindow → ℕ → Type 0
WindowsTo tokenizer src lo [] hi = lo ≤ hi
WindowsTo tokenizer src lo (w ∷ r) hi =
    (lo ≤ w.char_start)
    × (slice src w.char_start w.char_end ≡ some w.text)
    × PlacedTo src w.char_start w.blocks w.char_end
    × IsPacked tokenizer w
    × WindowsTo tokenizer src w.char_end r hi

pub WindowsTo-append :
    (tokenizer : Tokenizer) (src : Str) (lo mid hi : ℕ) (xs ys : List ParentWindow)
    → WindowsTo tokenizer src lo xs mid
    → WindowsTo tokenizer src mid ys hi
    → WindowsTo tokenizer src lo (xs ++ ys) hi
WindowsTo-append tokenizer src lo mid hi [] [] h k = omega arith
WindowsTo-append tokenizer src lo mid hi [] (w ∷ r) h (a, b, c, d, e) = (omega arith, b, c, d, e)
WindowsTo-append tokenizer src lo mid hi (w ∷ r) ys (a, b, c, d, e) k =
    (a, b, c, d, WindowsTo-append tokenizer src w.char_end mid hi r ys e k)

pub WindowsTo-weaken :
    (tokenizer : Tokenizer) (src : Str) (lo hi hi' : ℕ) (ws : List ParentWindow)
    → WindowsTo tokenizer src lo ws hi
    → hi ≤ hi'
    → WindowsTo tokenizer src lo ws hi'
WindowsTo-weaken tokenizer src lo hi hi' [] h le = omega arith
WindowsTo-weaken tokenizer src lo hi hi' (w ∷ r) (a, b, c, d, e) le =
    (a, b, c, d, WindowsTo-weaken tokenizer src w.char_end hi hi' r e le)
