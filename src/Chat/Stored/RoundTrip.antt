-- ===== src/Chat/Stored/RoundTrip.antt =====
-- Messages survive the row in the database, and for any other row the first fault is the error.
use mathlib.Core.Path.{subst}
use lens_lm.Base.{
  All, ◌≡◌, ◌≢◌, ◌∙◌, sym, ap, refl, Bool-cases, inl, inr, Option, none, some, List, [], ◌∷◌, any,
}
use lens_lm.Base.Outcome.{internal}
use lens_lm.Base.Text.{Str, str_eq}
use lens_lm.Chat.Stored.{
  ChatRole, user, assistant, ChatFeedback, up, down, ChatState, cancelled, errored, role_str,
  feedback_str, state_str, Result, ok, err, SqlxError, from_sqlx, ChatMessage, ChatRow, from_row,
}
use lens_lm.Chat.Stored.Faults.{
  map_str, row_of, role_names, feedback_names, state_names, unreadable, unknown, unknown_text,
  unknown_column, first_fault, faults, After, from_row-After,
}

role_known : (r : ChatRole) → unknown role_names (role_str r) ≡ none
unfolding role_str str_eq
role_known user = refl
role_known assistant = refl

feedback_known :
    (o : Option ChatFeedback) → unknown_text feedback_names (map_str feedback_str o) ≡ none
unfolding feedback_str str_eq
feedback_known none = refl
feedback_known (some up) = refl
feedback_known (some down) = refl

state_known : (o : Option ChatState) → unknown_text state_names (map_str state_str o) ≡ none
unfolding state_str str_eq
state_known none = refl
state_known (some cancelled) = refl
state_known (some errored) = refl

-- The row of a message has no fault.
faults-row_of : (m : ChatMessage) → first_fault (faults (row_of m)) ≡ none
faults-row_of m = rw (role_known m.role, feedback_known m.feedback, state_known m.state) refl

abbrev IsInternal : Option SqlxError → Type 0
IsInternal none = Unit
IsInternal (some e) = from_sqlx e ≡ internal

unreadable-IsInternal : {A : Type 0} (name : Str) (c : Option A) → IsInternal (unreadable name c)
unfolding from_sqlx
unreadable-IsInternal name none = refl
unreadable-IsInternal name (some a) = tt

unknown-IsInternal : (names : List Str) (s : Str) → IsInternal (unknown names s)
unfolding from_sqlx
unknown-IsInternal names s = elim (Bool-cases (any (str_eq s) names)) [
  | inl e ↦ rw e tt
  | inr e ↦ rw e refl
]

text-IsInternal : (names : List Str) (c : Option Str) → IsInternal (unknown_text names c)
text-IsInternal names none = tt
text-IsInternal names (some s) = unknown-IsInternal names s

column-IsInternal :
    (names : List Str) (c : Option (Option Str)) → IsInternal (unknown_column names c)
column-IsInternal names none = tt
column-IsInternal names (some o) = text-IsInternal names o

first_fault-IsInternal :
    (fs : List (Option SqlxError)) → All IsInternal fs → IsInternal (first_fault fs)
first_fault-IsInternal [] all = tt
first_fault-IsInternal (none ∷ r) (h, all) = first_fault-IsInternal r all
first_fault-IsInternal (some e ∷ r) (h, all) = h

faults-IsInternal : (row : ChatRow) → IsInternal (first_fault (faults row))
faults-IsInternal row = first_fault-IsInternal (faults row) (
  unreadable-IsInternal _ row.role_column,
  (
    unreadable-IsInternal _ row.feedback_column,
    (
      unreadable-IsInternal _ row.state_column,
      (
        text-IsInternal role_names row.role_column,
        (
          column-IsInternal feedback_names row.feedback_column,
          (
            column-IsInternal state_names row.state_column,
            (
              unreadable-IsInternal _ row.id_column,
              (
                unreadable-IsInternal _ row.notebook_id_column,
                (
                  unreadable-IsInternal _ row.turn_id_column,
                  (
                    unreadable-IsInternal _ row.content_column,
                    (
                      unreadable-IsInternal _ row.citations_column,
                      (
                        unreadable-IsInternal _ row.tokens_used_column,
                        (
                          unreadable-IsInternal _ row.error_kind_column,
                          (unreadable-IsInternal _ row.created_at_column, tt),
                        ),
                      ),
                    ),
                  ),
                ),
              ),
            ),
          ),
        ),
      ),
    ),
  ),
)

-- What from_row makes of a row: the message whose row it is, or the error of its first fault.
abbrev pub Read : ChatRow → Result SqlxError ChatMessage → Type 0
Read row (ok m) = row ≡ row_of m
Read row (err e) =
    (first_fault (faults row) ≡ some e)
    × (from_sqlx e ≡ internal)
    × ((m : ChatMessage) → row ≢ row_of m)

After-Read :
    (row : ChatRow) (o : Result SqlxError ChatMessage) → After row (faults row) o → Read row o
unfolding After
After-Read row (ok m) h = h
After-Read row (err e) h = (
  h,
  subst IsInternal h (faults-IsInternal row),
  λ m same. cc (sym h ∙ ap (λ r. first_fault (faults r)) same ∙ faults-row_of m),
)

-- from_row reads exactly the rows of messages, each as that message. For any other row it gives the
-- error of the first fault: role, feedback and state are read, then parsed, where a text that is no
-- name is a Decode error, and then the other columns are read. LensError turns all of these into an
-- internal error.
pub from_row-Read : (row : ChatRow) → Read row (from_row row)
from_row-Read row = After-Read row (from_row row) (from_row-After row)
