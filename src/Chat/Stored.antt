-- ===== src/Chat/Stored.antt =====
-- lens-core/src/chat.rs: ChatMessage, with ChatRole, ChatFeedback and ChatState, whose text is in the
-- database.
pub mod Faults
pub mod RoundTrip
use lens_lm.Base.{ℕ, Option, none, some, if◌then◌else◌}
use lens_lm.Base.Outcome.{LensError, validation, internal}
use lens_lm.Base.Text.{Str, codes, str_eq}

pub data ChatRole : Type 0 where
  user assistant : ChatRole

pub data ChatFeedback : Type 0 where
  up down : ChatFeedback

pub data ChatState : Type 0 where
  cancelled errored : ChatState

-- ChatRole::as_str and ChatRole::from_str, and so on.
unfoldable pub role_str : ChatRole → Str
role_str user = codes "user"
role_str assistant = codes "assistant"

unfoldable pub feedback_str : ChatFeedback → Str
feedback_str up = codes "up"
feedback_str down = codes "down"

unfoldable pub state_str : ChatState → Str
state_str cancelled = codes "cancelled"
state_str errored = codes "errored"

-- Rust's Result.
pub data Result (E A : Type 0) : Type 0 where
  ok : A → Result E A
  err : E → Result E A

infixl 5 ◌>>=◌
abbrev pub ◌>>=◌ : {E A B : Type 0} → Result E A → (A → Result E B) → Result E B
ok a >>= f = f a
err e >>= f = err e

unfoldable pub role_from_str : Str → Result LensError ChatRole
unfolding str_eq
role_from_str s =
    if str_eq s (codes "user")
    then ok user
    else if str_eq s (codes "assistant")
    then ok assistant
    else err validation

unfoldable pub feedback_from_str : Str → Result LensError ChatFeedback
unfolding str_eq
feedback_from_str s =
    if str_eq s (codes "up")
    then ok up
    else if str_eq s (codes "down")
    then ok down
    else err validation

unfoldable pub state_from_str : Str → Result LensError ChatState
unfolding str_eq
state_from_str s =
    if str_eq s (codes "cancelled")
    then ok cancelled
    else if str_eq s (codes "errored")
    then ok errored
    else err validation

-- sqlx::Error: the ones that from_row makes, where `column` is an error of the driver for the column
-- of that name, and the others as far as the conversion to LensError tells them apart.
pub data SqlxError : Type 0 where
  decode : LensError → SqlxError
  column : Str → SqlxError
  unique_violation foreign_key_violation other : SqlxError

-- `From<sqlx::Error> for LensError`.
unfoldable pub from_sqlx : SqlxError → LensError
from_sqlx unique_violation = validation
from_sqlx foreign_key_violation = validation
from_sqlx (decode e) = internal
from_sqlx (column name) = internal
from_sqlx other = internal

-- A parse whose error is boxed in `sqlx::Error::Decode`.
unfoldable pub decoded : {A : Type 0} → Result LensError A → Result SqlxError A
decoded (ok a) = ok a
decoded (err e) = err (decode e)

-- `Option::map` of a parse, and `transpose`.
unfoldable pub parse_optional :
    {A : Type 0} → (Str → Result LensError A) → Option Str → Result LensError (Option A)
parse_optional parse none = ok none
parse_optional parse (some s) = do a ← parse s; ok (some a)

-- `i64`.
pub data ℤ : Type 0 where
  pos : ℕ → ℤ
  negsuc : ℕ → ℤ

pub record ChatMessage : Type 0 where
  pub id : Str
  pub notebook_id : Str
  pub turn_id : Str
  pub role : ChatRole
  pub content : Str
  pub citations : Option Str
  pub feedback : Option ChatFeedback
  pub tokens_used : Option ℤ
  pub state : Option ChatState
  pub error_kind : Option Str
  pub created_at : Str

-- A row of the table `chat_messages`, as the database's driver gives it: `none` is a column that
-- try_get cannot give in its type.
pub record ChatRow : Type 0 where
  pub id_column : Option Str
  pub notebook_id_column : Option Str
  pub turn_id_column : Option Str
  pub role_column : Option Str
  pub content_column : Option Str
  pub citations_column : Option (Option Str)
  pub feedback_column : Option (Option Str)
  pub tokens_used_column : Option (Option ℤ)
  pub state_column : Option (Option Str)
  pub error_kind_column : Option (Option Str)
  pub created_at_column : Option Str

unfoldable pub try_get : {A : Type 0} → Str → Option A → Result SqlxError A
try_get name none = err (column name)
try_get name (some a) = ok a

-- ChatMessage::from_row.
unfoldable pub from_row : ChatRow → Result SqlxError ChatMessage
unfolding role_from_str feedback_from_str state_from_str parse_optional decoded try_get
from_row row = do
  role_text ← try_get (codes "role") row.role_column
  feedback_text ← try_get (codes "feedback") row.feedback_column
  state_text ← try_get (codes "state") row.state_column
  role ← decoded (role_from_str role_text)
  feedback ← decoded (parse_optional feedback_from_str feedback_text)
  state ← decoded (parse_optional state_from_str state_text)
  id ← try_get (codes "id") row.id_column
  notebook_id ← try_get (codes "notebook_id") row.notebook_id_column
  turn_id ← try_get (codes "turn_id") row.turn_id_column
  content ← try_get (codes "content") row.content_column
  citations ← try_get (codes "citations") row.citations_column
  tokens_used ← try_get (codes "tokens_used") row.tokens_used_column
  error_kind ← try_get (codes "error_kind") row.error_kind_column
  created_at ← try_get (codes "created_at") row.created_at_column
  ok (record {
    id = id;
    notebook_id = notebook_id;
    turn_id = turn_id;
    role = role;
    content = content;
    citations = citations;
    feedback = feedback;
    tokens_used = tokens_used;
    state = state;
    error_kind = error_kind;
    created_at = created_at;
  })
