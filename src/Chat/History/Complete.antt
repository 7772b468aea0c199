-- ===== src/Chat/History/Complete.antt =====
-- The loop over the rows against a reference: the last question and the last answer of a turn.
use lens_lm.Base.{
  ◌≡◌, ◌∙◌, sym, ap, refl, Bool, Bool-cases, true, false, ◌&&◌, not, Option, none, some, inl, inr,
  List, [], ◌∷◌, arith, if◌then◌else◌,
}
use lens_lm.Base.Text.{Str, str_eq}
use lens_lm.Chat.Stored.{ChatRole, user, assistant, ChatMessage}
use lens_lm.Chat.History.{Turns, StrMap, insert, is_real_answer, store, see, group_rows, no_turns}

-- The rows before the current turn.
abbrev pub before : List ChatMessage → Str → List ChatMessage
before [] current = []
before (r ∷ rows) current = if str_eq r.turn_id current then [] else r ∷ before rows current

abbrev pub is_user : ChatRole → Bool
is_user user = true
is_user assistant = false

abbrev pub or_else : Option Str → Option Str → Option Str
or_else none o = o
or_else (some x) o = some x

-- A row is a question of the turn, or a real answer of it.
abbrev pub question : Str → ChatMessage → Option Str
question turn r = if str_eq r.turn_id turn && is_user r.role then some r.content else none

abbrev pub answer : Str → ChatMessage → Option Str
answer turn r =
    if str_eq r.turn_id turn && (not (is_user r.role) && is_real_answer r)
    then some r.content
    else none

-- The last row that gives something.
abbrev pub last : (ChatMessage → Option Str) → List ChatMessage → Option Str
last f [] = none
last f (r ∷ rows) = or_else (last f rows) (f r)

-- The state behind one row.
see-user_of : (turn : Str) (g : Turns) → (see turn g).user_of ≡ g.user_of
unfolding see
see-user_of turn g = ground arith

see-answer_of : (turn : Str) (g : Turns) → (see turn g).answer_of ≡ g.answer_of
unfolding see
see-answer_of turn g = ground arith

store-user_of :
    (role : ChatRole) (r : ChatMessage) (g : Turns) (k : Str)
    → (store role r g).user_of k
      ≡ or_else (if str_eq r.turn_id k && is_user role then some r.content else none) (g.user_of k)
unfolding store insert
store-user_of user r g k = ground arith
store-user_of assistant r g k = ground arith

store-answer_of :
    (role : ChatRole) (r : ChatMessage) (g : Turns) (k : Str)
    → (store role r g).answer_of k
      ≡ or_else
          (if str_eq r.turn_id k && (not (is_user role) && is_real_answer r)
            then some r.content
            else none)
          (g.answer_of k)
unfolding store insert
store-answer_of user r g k = ground arith
store-answer_of assistant r g k = ground arith

or_else_assoc : (a b c : Option Str) → or_else (or_else a b) c ≡ or_else a (or_else b c)
or_else_assoc none b c = refl
or_else_assoc (some x) b c = refl

row-user_of :
    (r : ChatMessage) (g : Turns) (k : Str)
    → (store r.role r (see r.turn_id g)).user_of k ≡ or_else (question k r) (g.user_of k)
row-user_of r g k =
    store-user_of r.role r (see r.turn_id g) k
    ∙ ap (λ m. or_else (question k r) (m k)) (see-user_of r.turn_id g)

row-answer_of :
    (r : ChatMessage) (g : Turns) (k : Str)
    → (store r.role r (see r.turn_id g)).answer_of k ≡ or_else (answer k r) (g.answer_of k)
row-answer_of r g k =
    store-answer_of r.role r (see r.turn_id g) k
    ∙ ap (λ m. or_else (answer k r) (m k)) (see-answer_of r.turn_id g)

-- For a map of the three and what a row puts in it.
module _ (get : Turns → StrMap) (of : Str → ChatMessage → Option Str)
    (step : (r : ChatMessage) (g : Turns) (k : Str)
      → get (store r.role r (see r.turn_id g)) k ≡ or_else (of k r) (get g k)) where
  group_rows-get :
      (rows : List ChatMessage) (current : Str) (g : Turns) (k : Str)
      → get (group_rows rows current g) k ≡ or_else (last (of k) (before rows current)) (get g k)
  unfolding group_rows
  group_rows-get [] current g k = refl
  group_rows-get (r ∷ rows) current g k = elim (Bool-cases (str_eq r.turn_id current)) [
    | inl e ↦ rw (e, group_rows) refl
    | inr e ↦
        let later = last (of k) (before rows current) in
        rw (e, group_rows)
          (group_rows-get rows current (store r.role r (see r.turn_id g)) k
            ∙ ap (or_else later) (step r g k)
            ∙ sym (or_else_assoc later (of k r) (get g k)))
  ]

or_else-none : (o : Option Str) → or_else o none ≡ o
or_else-none none = refl
or_else-none (some x) = refl

pub group_rows-question :
    (rows : List ChatMessage) (current k : Str)
    → (group_rows rows current no_turns).user_of k ≡ last (question k) (before rows current)
unfolding no_turns
group_rows-question rows current k =
    group_rows-get (λ g. g.user_of) question row-user_of rows current no_turns k ∙ or_else-none _

pub group_rows-answer :
    (rows : List ChatMessage) (current k : Str)
    → (group_rows rows current no_turns).answer_of k ≡ last (answer k) (before rows current)
unfolding no_turns
group_rows-answer rows current k =
    group_rows-get (λ g. g.answer_of) answer row-answer_of rows current no_turns k ∙ or_else-none _
