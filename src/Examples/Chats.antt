-- ===== src/Examples/Chats.antt =====
-- Runs of the chat's rows and of its history.
use lens_lm.Base.{refl, inl, inr, none, some, List, [], ◌∷◌}
use lens_lm.Base.Text.{Str, codes, str_eq}
use lens_lm.Chat.History.{history_messages}
use lens_lm.Chat.History.Complete.{before}
use lens_lm.Chat.History.Windows.{IsHistory, history_messages-IsHistory}
use lens_lm.Chat.Stored.{
  ChatRole, user, assistant, up, cancelled, errored, ChatMessage, ChatRow, from_row,
}
use lens_lm.Chat.Stored.Faults.{row_of}
use lens_lm.Chat.Stored.RoundTrip.{Read, from_row-Read}

abbrev message : Str → ChatRole → Str → ChatMessage
message turn role content = record {
  id = codes "m";
  notebook_id = codes "n";
  turn_id = turn;
  role = role;
  content = content;
  citations = none;
  feedback = none;
  tokens_used = none;
  state = none;
  error_kind = none;
  created_at = codes "now";
}

abbrev liked : ChatMessage
liked = record (message (codes "t1") assistant (codes "Yes.")) {
  feedback = some up;
  state = some errored;
}

abbrev odd_row : ChatRow
odd_row = record (row_of liked) { role_column = some (codes "system") }

from_row-Read_example : Read odd_row (from_row odd_row)
from_row-Read_example = from_row-Read odd_row

-- A complete turn, one that was cancelled, another complete one, and the current turn.
abbrev rows : List ChatMessage
rows =
    message (codes "t1") user (codes "Why?")
    ∷ message (codes "t1") assistant (codes "So.")
    ∷ message (codes "t2") user (codes "And?")
    ∷ record (message (codes "t2") assistant (codes "B")) { state = some cancelled }
    ∷ message (codes "t3") user (codes "Who?")
    ∷ message (codes "t3") assistant (codes "She.")
    ∷ message (codes "t4") user (codes "When?")
    ∷ []

history_messages-IsHistory_example :
    IsHistory (before rows (codes "t4")) 3 (history_messages rows (codes "t4") 3)
unfolding str_eq
history_messages-IsHistory_example =
    history_messages-IsHistory rows (codes "t4") 3
      (inr refl, (inl refl, (inr refl, (inl refl, (inr refl, (inl refl, tt))))))
