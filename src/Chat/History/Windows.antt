-- ===== src/Chat/History/Windows.antt =====
-- history_messages is the newest complete turns, in whole pairs, within the limit.
use lens_lm.Base.{
  append-nil, ℕ, zero, suc, ◌+◌, ◌-◌, ◌*◌, ◌/◌, min, ◌≤◌, ◌<◌, ◌≡◌, ◌∙◌, sym, ap, refl, ◌⊎◌,
  Bool-cases, true, Option, none, some, inl, inr, List, [], ◌∷◌, ◌++◌, length, arith, ltb, ◌==◌,
}
use lens_lm.Base.Text.{Str}
use lens_lm.Chat.Stored.{user, assistant, ChatMessage}
use lens_lm.Chat.History.{
  LlmMessage, Turns, group_rows, no_turns, push_pair, turn_messages, next_multiple_of, drain,
  trim_pairs, history_messages,
}
use lens_lm.Chat.History.Complete.{
  before, question, answer, last, group_rows-question, group_rows-answer,
}
use lens_lm.Base.Text.Distinct.{distinct}
use lens_lm.Chat.History.Order.{Begun, turn_ids, group_rows-distinct}

-- A complete turn's question and answer.
abbrev pub both : Option Str → Option Str → Option (Str × Str)
both (some u) (some a) = some (u, a)
both u a = none

abbrev pub pair_of : List ChatMessage → Str → Option (Str × Str)
pair_of rows turn = both (last (question turn) rows) (last (answer turn) rows)

abbrev pub cons_some : Option (Str × Str) → List (Str × Str) → List (Str × Str)
cons_some none r = r
cons_some (some p) r = p ∷ r

abbrev pub pairs_of : List ChatMessage → List Str → List (Str × Str)
pairs_of rows [] = []
pairs_of rows (t ∷ r) = cons_some (pair_of rows t) (pairs_of rows r)

abbrev pub messages_of : List (Str × Str) → List LlmMessage
messages_of [] = []
messages_of ((u, a) ∷ r) =
    (record { role = user; content = u })
    ∷ (record { role = assistant; content = a })
    ∷ messages_of r

push_pair-both :
    (u a : Option Str) (r : List (Str × Str))
    → push_pair u a (messages_of r) ≡ messages_of (cons_some (both u a) r)
unfolding push_pair
push_pair-both none a r = refl
push_pair-both (some u) none r = refl
push_pair-both (some u) (some a) r = refl

turn_messages-pairs_of :
    (rows : List ChatMessage) (g : Turns) (turns : List Str)
    → ((k : Str) → g.user_of k ≡ last (question k) rows)
    → ((k : Str) → g.answer_of k ≡ last (answer k) rows)
    → turn_messages g turns ≡ messages_of (pairs_of rows turns)
unfolding turn_messages
turn_messages-pairs_of rows g [] q a = refl
turn_messages-pairs_of rows g (t ∷ r) q a =
    rw (q t, a t, turn_messages-pairs_of rows g r q a) (push_pair-both _ _ (pairs_of rows r))

length-messages_of : (ps : List (Str × Str)) → length (messages_of ps) ≡ 2 * length ps
length-messages_of [] = refl
length-messages_of ((u, a) ∷ r) = omega (arith, length-messages_of r)

abbrev double : ℕ → ℕ
double zero = 0
double (suc e) = suc (suc (double e))

double_lem : (e : ℕ) → double e ≡ 2 * e
double_lem zero = refl
double_lem (suc e) = omega (arith, double_lem e)

-- Pairs of which the first `e` are drained.
abbrev Drained : List (Str × Str) → ℕ → List LlmMessage → Type 0
Drained ps e msgs =
    (older : List (Str × Str)) × (newer : List (Str × Str)) × (ps ≡ older ++ newer)
    × (length older ≡ e)
    × (length older + length newer ≡ length ps)
    × (msgs ≡ messages_of newer)

drain-Drained :
    (e : ℕ) (ps : List (Str × Str))
    → e ≤ length ps
    → Drained ps e (drain (messages_of ps) (double e))
unfolding drain
drain-Drained zero [] h = ([], [], refl, refl, refl, refl)
drain-Drained zero ((u, a) ∷ r) h = ([], (u, a) ∷ r, refl, refl, omega arith, refl)
drain-Drained (suc e) [] h = absurd (omega arith)
drain-Drained (suc e) ((u, a) ∷ r) h =
    let (older, newer, joined, n, sizes, same) = drain-Drained e r (omega arith) in
    ((u, a) ∷ older, newer, ap (λ t. (u, a) ∷ t) joined, ap suc n, omega arith, same)

-- The newest pairs that fit.
abbrev pub Fits : List (Str × Str) → ℕ → List LlmMessage → Type 0
Fits ps limit msgs =
    (older : List (Str × Str)) × (newer : List (Str × Str)) × (ps ≡ older ++ newer)
    × (msgs ≡ messages_of newer)
    × (2 * length newer ≤ limit)
    × ((older ≡ []) ⊎ (limit < 2 * length newer + 2))

half_lem :
    (n limit : ℕ)
    → 0 < limit
    → limit < 2 * n
    → (e : ℕ) × (e ≤ n)
      × (min (next_multiple_of (2 * n - limit) 2) (2 * n) ≡ 2 * e)
      × (2 * n ≤ limit + 2 * e)
      × (limit + 2 * e < 2 * n + 2)
unfolding next_multiple_of
half_lem n limit p h =
    ((2 * n - limit + 1) / 2, omega arith, ground arith, omega arith, omega arith)

trim_pairs-Fits :
    (ps : List (Str × Str)) (limit : ℕ)
    → 0 < limit
    → Fits ps limit (trim_pairs (messages_of ps) limit)
unfolding trim_pairs
trim_pairs-Fits ps limit p = elim (Bool-cases (ltb limit (length (messages_of ps)))) [
  | inl over ↦
      let len = length-messages_of ps in
      let more : limit < 2 * length ps = ground (arith, over, len) in
      let (e, most, cut, enough, least) = half_lem (length ps) limit p more in
      let (older, newer, joined, n, sizes, same) = drain-Drained e ps most in
      let at : min (next_multiple_of (length (messages_of ps) - limit) 2) (length (messages_of ps))
          ≡ double e =
        rw len (cut ∙ sym (double_lem e)) in
      rw over (
        older,
        newer,
        joined,
        rw at same,
        omega (arith, double_lem e),
        inr (omega (arith, double_lem e)),
      )
  | inr e ↦ rw e ([], ps, refl, refl, ground (arith, e, length-messages_of ps), inl refl)
]

-- The history is of the turns in the order of their first rows, each once.
abbrev pub IsHistory : List ChatMessage → ℕ → List LlmMessage → Type 0
IsHistory rows limit msgs = Fits (pairs_of rows (distinct [] (turn_ids rows))) limit msgs

no_room-Fits : (ps : List (Str × Str)) (limit : ℕ) → (limit == 0) ≡ true → Fits ps limit []
no_room-Fits ps limit z =
    (ps, [], sym (append-nil ps), refl, ground (arith, z), inr (ground (arith, z)))

-- Where each turn before the current one begins with a question: history_messages gives questions and
-- answers in turn, a question first, at most `limit` of them. They are the newest complete turns, as
-- many as fit, in the order of the turns' first rows, and no turn stands twice. A turn is complete if
-- it has a question and a real answer, and gives the last of each.
pub history_messages-IsHistory :
    (rows : List ChatMessage) (current : Str) (limit : ℕ)
    → Begun [] (before rows current)
    → IsHistory (before rows current) limit (history_messages rows current limit)
unfolding history_messages
history_messages-IsHistory rows current limit begun =
    let earlier = before rows current in
    let g = group_rows rows current no_turns in
    let turns = distinct [] (turn_ids earlier) in
    let msgs : turn_messages g g.order ≡ messages_of (pairs_of earlier turns) =
      turn_messages-pairs_of earlier g g.order (group_rows-question rows current)
        (group_rows-answer rows current)
      ∙ ap (λ o. messages_of (pairs_of earlier o)) (group_rows-distinct rows current begun) in
    elim (Bool-cases (limit == 0)) [
      | inl z ↦ rw z (no_room-Fits (pairs_of earlier turns) limit z)
      | inr z ↦ rw (z, msgs) (trim_pairs-Fits (pairs_of earlier turns) limit (ground (arith, z)))
    ]
