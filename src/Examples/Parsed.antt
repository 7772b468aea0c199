-- ===== src/Examples/Parsed.antt =====
-- Runs of the plain-text path and of the trail of headings.
use lens_lm.Base.{ℕ, ◌≡◌, ◌+◌, some, List, [], ◌∷◌, length}
use lens_lm.Base.Text.{Str, codes, join, byte_len}
use lens_lm.Chunk.Ends.{Ends}
use lens_lm.Chunk.Parent.{build_parent_windows}
use lens_lm.Chunk.Parent.Placed.{PlacedTo, content, WindowsTo, window_content}
use lens_lm.Chunk.Types.{Tokenizer}
use lens_lm.Parse.Text.{parse_text}
use lens_lm.Parse.Text.Placed.{parse_text-PlacedTo}
use lens_lm.Parse.Text.Trimming.{solid}
use lens_lm.Parse.Text.Windows.{build_parent_windows-parse_text}
use lens_lm.Parse.Trail.{current}
use lens_lm.Parse.Trail.InForce.{stack_of, in_force, current-stack_of}

abbrev text : Str
text = codes "\n  One é\nline.\n \n\tTwo. \n\n"

parse_text-PlacedTo_example :
    PlacedTo text 0 (parse_text text) (byte_len text)
    × (solid (content (parse_text text)) ≡ solid text)
parse_text-PlacedTo_example = parse_text-PlacedTo text

-- A token for each character, and two more.
abbrev by_chars : Tokenizer
by_chars = record { encode = λ t. some (length t + 2) }

build_parent_windows-parse_text_example :
    Ends by_chars
      (λ ws.
        WindowsTo by_chars text 0 ws (byte_len text) × (solid (window_content ws) ≡ solid text))
      (build_parent_windows text (parse_text text) by_chars)
build_parent_windows-parse_text_example = build_parent_windows-parse_text by_chars text

-- A, B below it, C below B, and then D instead of B.
abbrev headings : List (ℕ × Str)
headings = (2, codes "D") ∷ (3, codes "C") ∷ (2, codes "B") ∷ (1, codes "A") ∷ []

current-stack_of_example : current (stack_of headings) ≡ join (codes " > ") (in_force 7 headings)
current-stack_of_example = current-stack_of headings
