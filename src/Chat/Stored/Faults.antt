-- ===== src/Chat/Stored/Faults.antt =====
-- The columns of a row that from_row cannot read, and that it gives the first of them.
use lens_lm.Base.{
  ◌≡◌, ◌∙◌, ap, refl, Bool-cases, inl, inr, Option, none, some, List, [], ◌∷◌, any, if◌then◌else◌,
}
use lens_lm.Base.Outcome.{LensError, validation}
use lens_lm.Base.Text.{Str, codes, str_eq, str_eq_sound}
use lens_lm.Chat.Stored.{
  user, assistant, up, down, cancelled, errored, role_str, feedback_str, state_str, role_from_str,
  feedback_from_str, state_from_str, Result, ok, err, ◌>>=◌, SqlxError, decode, column, decoded,
  parse_optional, ChatMessage, ChatRow, try_get, from_row,
}

abbrev pub map_str : {A : Type 0} → (A → Str) → Option A → Option Str
map_str str none = none
map_str str (some a) = some (str a)

-- The row that is written for a message.
abbrev pub row_of : ChatMessage → ChatRow
row_of m = record {
  id_column = some m.id;
  notebook_id_column = some m.notebook_id;
  turn_id_column = some m.turn_id;
  role_column = some (role_str m.role);
  content_column = some m.content;
  citations_column = some m.citations;
  feedback_column = some (map_str feedback_str m.feedback);
  tokens_used_column = some m.tokens_used;
  state_column = some (map_str state_str m.state);
  error_kind_column = some m.error_kind;
  created_at_column = some m.created_at;
}

abbrev pub role_names : List Str
role_names = codes "user" ∷ codes "assistant" ∷ []

abbrev pub feedback_names : List Str
feedback_names = codes "up" ∷ codes "down" ∷ []

abbrev pub state_names : List Str
state_names = codes "cancelled" ∷ codes "errored" ∷ []

-- What is wrong with a column.
abbrev pub unreadable : {A : Type 0} → Str → Option A → Option SqlxError
unreadable name none = some (column name)
unreadable name (some a) = none

abbrev pub unknown : List Str → Str → Option SqlxError
unknown names s = if any (str_eq s) names then none else some (decode validation)

abbrev pub unknown_text : List Str → Option Str → Option SqlxError
unknown_text names none = none
unknown_text names (some s) = unknown names s

abbrev pub unknown_column : List Str → Option (Option Str) → Option SqlxError
unknown_column names none = none
unknown_column names (some o) = unknown_text names o

abbrev pub first_fault : List (Option SqlxError) → Option SqlxError
first_fault [] = none
first_fault (none ∷ r) = first_fault r
first_fault (some e ∷ r) = some e

-- The faults that a row may have, in the order in which they are found.
abbrev pub faults : ChatRow → List (Option SqlxError)
faults row =
    unreadable (codes "role") row.role_column
    ∷ unreadable (codes "feedback") row.feedback_column
    ∷ unreadable (codes "state") row.state_column
    ∷ unknown_text role_names row.role_column
    ∷ unknown_column feedback_names row.feedback_column
    ∷ unknown_column state_names row.state_column
    ∷ unreadable (codes "id") row.id_column
    ∷ unreadable (codes "notebook_id") row.notebook_id_column
    ∷ unreadable (codes "turn_id") row.turn_id_column
    ∷ unreadable (codes "content") row.content_column
    ∷ unreadable (codes "citations") row.citations_column
    ∷ unreadable (codes "tokens_used") row.tokens_used_column
    ∷ unreadable (codes "error_kind") row.error_kind_column
    ∷ unreadable (codes "created_at") row.created_at_column
    ∷ []

-- A text that was read is the text of what was read, and one of the names; any other is not.
module _ {A : Type 0} (str : A → Str) (names : List Str) where
  abbrev ReadBack : Str → Result LensError A → Type 0
  ReadBack s (ok a) = (s ≡ str a) × (unknown names s ≡ none)
  ReadBack s (err e) = unknown names s ≡ some (decode e)

  abbrev OptionalBack : Option Str → Result LensError (Option A) → Type 0
  OptionalBack o (ok a) = (o ≡ map_str str a) × (unknown_text names o ≡ none)
  OptionalBack o (err e) = unknown_text names o ≡ some (decode e)

  optional-ReadBack :
      (parse : Str → Result LensError A) (o : Option Str)
      → ((s : Str) → ReadBack s (parse s))
      → OptionalBack o (parse_optional parse o)
  unfolding parse_optional
  optional-ReadBack parse none h = (refl, refl)
  optional-ReadBack parse (some s) h = by_parse (parse s) (h s)
    where
      by_parse :
          (m : Result LensError A) → ReadBack s m → OptionalBack (some s) (m >>= λ a. ok (some a))
      by_parse (ok a) (e, known) = (ap some e, known)
      by_parse (err x) e = e

two-ReadBack :
    {A : Type 0} (str : A → Str) (a b : A) (s : Str)
    → ReadBack str
        (str a ∷ str b ∷ [])
        s
        (if str_eq s (str a) then ok a else if str_eq s (str b) then ok b else err validation)
two-ReadBack str a b s = elim (Bool-cases (str_eq s (str a))) [
  | inl e ↦ rw e (str_eq_sound s _ e, rw e refl)
  | inr e ↦ elim (Bool-cases (str_eq s (str b))) [
    | inl e' ↦ rw (e, e') (str_eq_sound s _ e', rw (e, e') refl)
    | inr e' ↦ rw (e, e') (rw (e, e') refl)
  ]
]

-- A row, the faults that it may have from here on, and what the rest makes of it.
unfoldable pub After : ChatRow → List (Option SqlxError) → Result SqlxError ChatMessage → Type 0
After row fs (ok m) = row ≡ row_of m
After row fs (err e) = first_fault fs ≡ some e

After-skip :
    (row : ChatRow) (fs : List (Option SqlxError)) (o : Result SqlxError ChatMessage)
    → After row fs o
    → After row (none ∷ fs) o
unfolding After
After-skip row fs (ok m) k = k
After-skip row fs (err e) k = k

-- A parse with its fault, if it has one, and what holds where it has none.
abbrev Parsed : {A : Type 0} → (A → Type 0) → Option SqlxError → Result LensError A → Type 0
Parsed Fine fault (ok a) = Fine a × (fault ≡ none)
Parsed Fine fault (err e) = fault ≡ some (decode e)

text-Parsed :
    {A : Type 0} (str : A → Str) (names : List Str) (c : Option Str) (s : Str)
    (m : Result LensError A)
    → c ≡ some s
    → ReadBack str names s m
    → Parsed (λ a. c ≡ some (str a)) (unknown_text names c) m
text-Parsed str names c s (ok a) at (e, known) =
    (at ∙ ap some e, ap (unknown_text names) at ∙ known)
text-Parsed str names c s (err x) at e = ap (unknown_text names) at ∙ e

column-Parsed :
    {A : Type 0} (str : A → Str) (names : List Str) (c : Option (Option Str)) (o : Option Str)
    (m : Result LensError (Option A))
    → c ≡ some o
    → OptionalBack str names o m
    → Parsed (λ a. c ≡ some (map_str str a)) (unknown_column names c) m
column-Parsed str names c o (ok a) at (e, known) =
    (at ∙ ap some e, ap (unknown_column names) at ∙ known)
column-Parsed str names c o (err x) at e = ap (unknown_column names) at ∙ e

module _ (row : ChatRow) where
  try_get-After :
      {A : Type 0} (name : Str) (c : Option A) (fs : List (Option SqlxError))
      (f : A → Result SqlxError ChatMessage)
      → ((a : A) → c ≡ some a → After row fs (f a))
      → After row (unreadable name c ∷ fs) (try_get name c >>= f)
  unfolding try_get After
  try_get-After name none fs f h = refl
  try_get-After name (some a) fs f h = After-skip row fs (f a) (h a refl)

  decoded-After :
      {A : Type 0} (Fine : A → Type 0) (m : Result LensError A) (fault : Option SqlxError)
      (fs : List (Option SqlxError)) (f : A → Result SqlxError ChatMessage)
      → Parsed Fine fault m
      → ((a : A) → Fine a → After row fs (f a))
      → After row (fault ∷ fs) (decoded m >>= f)
  unfolding decoded After
  decoded-After Fine (ok a) none fs f (fine, e) h = After-skip row fs (f a) (h a fine)
  decoded-After Fine (ok a) (some x) fs f (fine, e) h = absurd (cc e)
  decoded-After Fine (err x) none fs f e h = absurd (cc e)
  decoded-After Fine (err x) (some y) fs f e h = e

  ok-After : (m : ChatMessage) → row ≡ row_of m → After row [] (ok m)
  unfolding After
  ok-After m e = e

  pub from_row-After : After row (faults row) (from_row row)
  unfolding from_row role_from_str feedback_from_str state_from_str role_str feedback_str state_str
  from_row-After = try_get-After _ _ _ _ (λ role_text at_role.
      try_get-After _ _ _ _ (λ feedback_text at_feedback.
        try_get-After _ _ _ _ (λ state_text at_state.
          decoded-After (λ r. row.role_column ≡ some (role_str r)) (role_from_str role_text)
            (unknown_text role_names row.role_column) _ _
            (text-Parsed role_str role_names _ role_text _ at_role
              (two-ReadBack role_str user assistant role_text))
            (λ role is_role.
              decoded-After (λ f. row.feedback_column ≡ some (map_str feedback_str f))
                (parse_optional feedback_from_str feedback_text)
                (unknown_column feedback_names row.feedback_column) _ _
                (column-Parsed feedback_str feedback_names _ feedback_text _ at_feedback (
                  optional-ReadBack feedback_str feedback_names feedback_from_str feedback_text
                    (two-ReadBack feedback_str up down)))
                (λ feedback is_feedback.
                  decoded-After (λ t. row.state_column ≡ some (map_str state_str t))
                    (parse_optional state_from_str state_text)
                    (unknown_column state_names row.state_column) _ _
                    (column-Parsed state_str state_names _ state_text _ at_state (
                      optional-ReadBack state_str state_names state_from_str state_text
                        (two-ReadBack state_str cancelled errored)))
                    (λ state is_state. try_get-After _ _ _ _ (λ id e0.
                      try_get-After _ _ _ _ (λ notebook_id e1. try_get-After _ _ _ _ (λ turn_id e2.
                        try_get-After _ _ _ _ (λ content e3. try_get-After _ _ _ _ (λ citations e4.
                          try_get-After _ _ _ _ (λ tokens_used e5.
                            try_get-After _ _ _ _ (λ error_kind e6.
                              try_get-After _ _ _ _
                                (λ created_at e7. ok-After _ (cc e7)))))))))))))))
