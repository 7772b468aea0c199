-- ===== src/Chat/History.antt =====
-- lens-core/src/chat.rs: history_messages. A hash map is a function.
pub mod Complete
pub mod Order
pub mod Windows
use lens_lm.Base.{
  ℕ, zero, suc, ◌+◌, ◌-◌, ◌%◌, min, Bool, true, false, ◌&&◌, not, Option, none, some, List, [], ◌∷◌,
  ◌++◌, length, ltb, ◌==◌, if◌then◌else◌,
}
use lens_lm.Base.Text.{Str, str_eq}
use lens_lm.Chunk.Pipeline.{is_blank}
use lens_lm.Chat.Stored.{ChatRole, user, assistant, ChatState, ChatMessage}

-- LlmMessage of lens-core/src/llm.rs.
pub record LlmMessage : Type 0 where
  role : ChatRole
  content : Str

abbrev pub StrMap : Type 0
StrMap = Str → Option Str

unfoldable pub insert : StrMap → Str → Str → StrMap
insert m key value k = if str_eq key k then some value else m k

abbrev pub is_some : Option Str → Bool
is_some none = false
is_some (some _) = true

unfoldable pub contains_key : StrMap → Str → Bool
contains_key m key = is_some (m key)

-- The loop's three collections.
pub record Turns : Type 0 where
  order : List Str
  user_of : StrMap
  answer_of : StrMap

unfoldable pub is_real_answer : ChatMessage → Bool
unfolding is_blank
is_real_answer r = (elim r.state [ none ↦ true | some _ ↦ false ]) && not (is_blank r.content)

-- What the body does with a row, after its turn has been seen.
unfoldable pub store : ChatRole → ChatMessage → Turns → Turns
unfolding insert is_real_answer
store user r g = record g { user_of = insert g.user_of r.turn_id r.content }
store assistant r g =
    if is_real_answer r then record g { answer_of = insert g.answer_of r.turn_id r.content } else g

unfoldable pub see : Str → Turns → Turns
unfolding contains_key
see turn g =
    if not (contains_key g.user_of turn) && not (contains_key g.answer_of turn)
    then record g { order = g.order ++ turn ∷ [] }
    else g

-- The loop over the rows, up to the current turn.
unfoldable pub group_rows : List ChatMessage → Str → Turns → Turns
unfolding store see
group_rows [] current_turn_id g = g
group_rows (r ∷ rows) current_turn_id g =
    let rest = group_rows rows current_turn_id (store r.role r (see r.turn_id g)) in
    if str_eq r.turn_id current_turn_id then g else rest

unfoldable pub push_pair : Option Str → Option Str → List LlmMessage → List LlmMessage
push_pair (some u) (some a) msgs =
    (record { role = user; content = u }) ∷ (record { role = assistant; content = a }) ∷ msgs
push_pair u a msgs = msgs

unfoldable pub turn_messages : Turns → List Str → List LlmMessage
unfolding push_pair
turn_messages g [] = []
turn_messages g (turn ∷ r) = push_pair (g.user_of turn) (g.answer_of turn) (turn_messages g r)

unfoldable pub next_multiple_of : ℕ → ℕ → ℕ
next_multiple_of x m = if x % m == 0 then x else x + (m - x % m)

-- `drain(0..n)`, for n within the length.
unfoldable pub drain : List LlmMessage → ℕ → List LlmMessage
drain [] n = []
drain (x ∷ r) zero = x ∷ r
drain (x ∷ r) (suc n) = drain r n

unfoldable pub trim_pairs : List LlmMessage → ℕ → List LlmMessage
unfolding next_multiple_of drain
trim_pairs msgs limit =
    if ltb limit (length msgs)
    then drain msgs (min (next_multiple_of (length msgs - limit) 2) (length msgs))
    else msgs

unfoldable pub no_turns : Turns
no_turns = record { order = []; user_of = λ k. none; answer_of = λ k. none }

unfoldable pub history_messages : List ChatMessage → Str → ℕ → List LlmMessage
unfolding group_rows turn_messages trim_pairs no_turns
history_messages rows current_turn_id limit =
    let g = group_rows rows current_turn_id no_turns in
    if limit == 0 then [] else trim_pairs (turn_messages g g.order) limit
