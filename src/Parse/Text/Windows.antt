-- ===== src/Parse/Text/Windows.antt =====
-- parse_text and build_parent_windows together: the parent windows of a plain text.
use lens_lm.Base.{◌≡◌, ◌∙◌, ap}
use lens_lm.Base.Text.{Str, byte_len}
use lens_lm.Chunk.Ends.{Ends, Ends-map}
use lens_lm.Chunk.Parent.{build_parent_windows}
use lens_lm.Chunk.Parent.Pack.{build_parent_windows-WindowsTo}
use lens_lm.Chunk.Parent.Placed.{WindowsTo, window_content}
use lens_lm.Chunk.Types.{Tokenizer}
use lens_lm.Parse.Text.{parse_text}
use lens_lm.Parse.Text.Placed.{parse_text-PlacedTo}
use lens_lm.Parse.Text.Trimming.{solid}

-- Whatever the plain text and the tokenizer: the parent windows of the text's blocks are built without
-- a panic, and an error is the tokenizer's. They are slices of the text, in order and apart, within the
-- token bound, and hold every character of the text that is not whitespace.
pub build_parent_windows-parse_text :
    (tokenizer : Tokenizer) (src : Str)
    → Ends tokenizer
        (λ ws.
          WindowsTo tokenizer src 0 ws (byte_len src) × (solid (window_content ws) ≡ solid src))
        (build_parent_windows src (parse_text src) tokenizer)
build_parent_windows-parse_text tokenizer src =
    let (placed, held) = parse_text-PlacedTo src in
    Ends-map tokenizer _ _ (build_parent_windows src (parse_text src) tokenizer)
      (build_parent_windows-WindowsTo tokenizer src (parse_text src) (byte_len src) placed)
      (λ ws _ (windows, same). (windows, ap solid same ∙ held))
