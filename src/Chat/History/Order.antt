-- ===== src/Chat/History/Order.antt =====
-- The order of the turns, where each turn begins with its question: that of their first rows.
use lens_lm.Base.{
  append-nil, append_assoc, ◌≡◌, ◌∙◌, sym, ap, refl, ◌⊎◌, Bool, Bool-cases, true, false, ◌&&◌, ◌||◌,
  not, inl, inr, Option, List, [], ◌∷◌, ◌++◌, arith,
}
use lens_lm.Base.Text.{Str, str_eq}
use lens_lm.Base.Text.Distinct.{is_in, distinct, is_in-same}
use lens_lm.Chat.Stored.{ChatRole, user, assistant, ChatMessage}
use lens_lm.Chat.History.{
  Turns, insert, contains_key, is_real_answer, store, see, group_rows, no_turns,
}
use lens_lm.Chat.History.Complete.{before, is_user}

abbrev pub turn_ids : List ChatMessage → List Str
turn_ids [] = []
turn_ids (r ∷ rows) = r.turn_id ∷ turn_ids rows

-- A row of a turn that is not among `seen` is a question.
abbrev pub Begun : List Str → List ChatMessage → Type 0
Begun seen [] = Unit
Begun seen (r ∷ rows) =
    ((is_in r.turn_id seen ≡ true) ⊎ (is_user r.role ≡ true)) × Begun (r.turn_id ∷ seen) rows

abbrev is_known : Turns → Str → Bool
is_known g k = contains_key g.user_of k || contains_key g.answer_of k

-- The maps know the turns that were seen.
abbrev Knows : Turns → List Str → Type 0
Knows g seen = (k : Str) → is_known g k ≡ is_in k seen

see-known : (t k : Str) (g : Turns) → is_known (see t g) k ≡ is_known g k
unfolding see
see-known t k g = ground arith

insert_known :
    (m : Str → Option Str) (t v k : Str)
    → contains_key (insert m t v) k ≡ (str_eq t k || contains_key m k)
unfolding insert contains_key
insert_known m t v k = ground arith

store-Knows :
    (role : ChatRole) (r : ChatMessage) (g : Turns) (seen : List Str)
    → Knows g seen
    → (is_in r.turn_id seen ≡ true) ⊎ (is_user role ≡ true)
    → Knows (store role r g) (r.turn_id ∷ seen)
unfolding store
store-Knows user r g seen h b k = ground (arith, insert_known g.user_of r.turn_id r.content k, h k)
store-Knows assistant r g seen h (inr e) k = absurd (cc e)
store-Knows assistant r g seen h (inl e) k = elim (Bool-cases (is_real_answer r)) [
  | inl real ↦ rw real (ground (arith, insert_known g.answer_of r.turn_id r.content k, h k))
  | inr not_real ↦ rw not_real (elim (Bool-cases (str_eq r.turn_id k)) [
    | inl same ↦ ground (arith, same, h k, e, is_in-same r.turn_id k seen same)
    | inr other ↦ ground (arith, other, h k)
  ])
]

store-order : (role : ChatRole) (r : ChatMessage) (g : Turns) → (store role r g).order ≡ g.order
unfolding store
store-order user r g = refl
store-order assistant r g = ground arith

see-order :
    (t : Str) (g : Turns) (seen ids : List Str)
    → Knows g seen
    → (see t g).order ++ distinct (t ∷ seen) ids ≡ g.order ++ distinct seen (t ∷ ids)
unfolding see
see-order t g seen ids h = elim (Bool-cases (is_in t seen)) [
  | inl e ↦
      let known : (not (contains_key g.user_of t) && not (contains_key g.answer_of t)) ≡ false =
        ground (arith, h t, e) in
      rw (known, e) refl
  | inr e ↦
      let fresh : (not (contains_key g.user_of t) && not (contains_key g.answer_of t)) ≡ true =
        ground (arith, h t, e) in
      rw (fresh, e) (append_assoc g.order (t ∷ []) (distinct (t ∷ seen) ids))
]

group_rows-order :
    (rows : List ChatMessage) (current : Str) (g : Turns) (seen : List Str)
    → Knows g seen
    → Begun seen (before rows current)
    → (group_rows rows current g).order ≡ g.order ++ distinct seen (turn_ids (before rows current))
unfolding group_rows
group_rows-order [] current g seen h = λ b. sym (append-nil g.order)
group_rows-order (r ∷ rows) current g seen h = elim (Bool-cases (str_eq r.turn_id current)) [
  | inl e ↦ rw (e, group_rows) (λ b. sym (append-nil g.order))
  | inr e ↦
      rw (e, group_rows)
        (λ (first, b).
          let g' = store r.role r (see r.turn_id g) in
          let ids = turn_ids (before rows current) in
          let knows =
            store-Knows r.role r (see r.turn_id g) seen (λ k. see-known r.turn_id k g ∙ h k)
              first in
          group_rows-order rows current g' (r.turn_id ∷ seen) knows b
          ∙ ap (λ o. o ++ distinct (r.turn_id ∷ seen) ids) (store-order r.role r (see r.turn_id g))
          ∙ see-order r.turn_id g seen ids h)
]

-- The turns stand in the order of their first rows, each once.
pub group_rows-distinct :
    (rows : List ChatMessage) (current : Str)
    → Begun [] (before rows current)
    → (group_rows rows current no_turns).order ≡ distinct [] (turn_ids (before rows current))
unfolding no_turns contains_key
group_rows-distinct rows current b = group_rows-order rows current no_turns [] (λ k. refl) b
