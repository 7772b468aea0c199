-- ===== src/Examples/Dialogues.antt =====
-- A dialogue that is repaired, and an array of turns in prose.
use lens_lm.Base.{
  ℕ, zero, suc, ◌≡◌, refl, Bool, true, false, Option, none, some, List, [], ◌∷◌, ◌++◌, arith,
}
use lens_lm.Base.Outcome.{Outcome, ok, err, parse}
use lens_lm.Base.Text.{Str, codes}
use lens_lm.Tts.Orpheus.{Speaker, host, guest}
use lens_lm.Enrichment.Json.Objects.{raw}
use lens_lm.Dialogue.Script.{Turn, preset, short}
use lens_lm.Dialogue.Generate.{Services, ModelReply, replied, generate_dialogue}
use lens_lm.Dialogue.Generate.Told.{ToldBy, Sound, generate_dialogue-ToldBy}
use lens_lm.Dialogue.Salvage.{Value, is_ascii_whitespace, parse_dialogue}
use lens_lm.Dialogue.Salvage.Commas.{Inner, IsInner, done, other, string, object}
use lens_lm.Dialogue.Salvage.Arrays.{sloppy_array, parse_dialogue-sloppy_array}

abbrev turn : Speaker → Turn
turn s = record { speaker = s; text = codes "Hello."; emotion = none; source_ids = [] }

abbrev script : List Turn
script = turn host ∷ turn guest ∷ turn host ∷ turn guest ∷ turn host ∷ turn guest ∷ []

-- The reply is the script or nothing.
abbrev read_reply : Str → Outcome (List Turn)
read_reply [] = err parse
read_reply (c ∷ s) = ok script

abbrev model : ℕ → ModelReply
model zero = replied []
model (suc n) = replied (codes "[]")

abbrev services : Services ℕ ℕ ℕ
services = record {
  cancelled_before = false;
  embedded = ok 0;
  cancelled_embedded = false;
  search = λ (v : ℕ). ok (1 ∷ []);
  titles = λ (us : List ℕ). ok 2;
  cancelled_titled = false;
}

abbrev example_prompt : List ℕ → ℕ → Str × Str
example_prompt us titles = (codes "system", codes "user")

abbrev tally : ℕ → Str
tally zero = []
tally (suc n) = b'1' ∷ tally n

abbrev no_source : Str → Bool
no_source id = false

generate_dialogue-ToldBy_example :
    ToldBy services example_prompt tally read_reply no_source (preset short) true model (
      generate_dialogue services example_prompt tally read_reply no_source
        (preset short)
        true
        model)
    × Sound services example_prompt tally read_reply no_source (preset short) true model (
        generate_dialogue services example_prompt tally read_reply no_source
          (preset short)
          true
          model)
generate_dialogue-ToldBy_example =
    generate_dialogue-ToldBy services example_prompt tally read_reply no_source (preset short) true
      model

-- The text `Ok, [{"a":1, }, ] done`.
abbrev item : Inner
item = object (string (raw b'a' ∷ []) (other b':' (other b'1' done))) (some (codes " ")) done

abbrev reads_all : Str → Option (List Turn)
reads_all s = some script

abbrev reads_none : Str → Option Value
reads_none s = none

space_lem : is_ascii_whitespace 0x20 ≡ true
unfolding is_ascii_whitespace
space_lem = refl

item-IsInner : IsInner item
item-IsInner = (((omega arith, tt), (omega arith, (omega arith, tt))), ((space_lem, tt), tt))

parse_dialogue-sloppy_array_example :
    parse_dialogue reads_all reads_all reads_none
      (codes "Ok, " ++ sloppy_array item (some (codes " ")) (codes " done"))
    ≡ ok script
parse_dialogue-sloppy_array_example =
    parse_dialogue-sloppy_array reads_all reads_all reads_none (codes "Ok, ") (codes " done") item
      (some (codes " ")) script (omega arith) item-IsInner (space_lem, tt) refl
