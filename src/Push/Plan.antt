-- ===== src/Push/Plan.antt =====
-- src/push_queue/plan.rs: the order in which a confirmed plan runs its items. A send that replies to a
-- message comes before an action that moves the message away.
pub mod Pick
pub mod Order
use agent_first_mail.Prelude.{
  ℕ, zero, suc, String, Bool, true, false, not, ◌&&◌, Option, none, some, List, [], ◌∷◌, length,
  str_eq, if◌then◌else◌, any,
}
use agent_first_mail.Push.Item.{
  OutboundAction, save_draft, send, MessagePushAction, case_add, notification, spam, trash, unspam,
  untrash, MessageActionPush, OutboundPush, PushItem, has_started_effects,
}

abbrev unwrap_or : ℕ → Option ℕ → ℕ
unwrap_or default none = default
unwrap_or default (some i) = i

abbrev pub one_later : Option ℕ → Option ℕ
one_later none = none
one_later (some i) = some (suc i)

-- The place of the first hit, and what `Vec::remove` takes out of a list that is not empty. It is
-- called at places that are in range.
module _ {A : Type 0} where
  unfoldable pub position : (A → Bool) → List A → Option ℕ
  position test [] = none
  position test (x ∷ xs) = if test x then some 0 else one_later (position test xs)

  remove_at : ℕ → A → List A → A × List A
  remove_at zero x xs = (x, xs)
  remove_at (suc i) x [] = (x, [])
  remove_at (suc i) x (y ∷ ys) = let (taken, rest) = remove_at i y ys in (taken, x ∷ rest)

  abbrev take_first : (A → Bool) → A → List A → A × List A
  take_first test x xs = remove_at (unwrap_or 0 (position test (x ∷ xs))) x xs

module _ {A : Type 0} (before : A → A → Bool) where
  -- No item of the list must run before the candidate.
  abbrev pub is_free : List A → A → Bool
  is_free remaining candidate = not (any (λ item. before item candidate) remaining)

  -- The loop, on the number of rounds.
  order_loop : ℕ → List A → List A
  unfolding position remove_at any
  order_loop zero remaining = []
  order_loop (suc rounds) [] = []
  order_loop (suc rounds) (x ∷ xs) =
      let (next, rest) = take_first (is_free (x ∷ xs)) x xs in next ∷ order_loop rounds rest

abbrev replied_to : Option OutboundPush → Option String
replied_to none = none
replied_to (some outbound) = elim outbound.action [
  | save_draft ↦ none
  | send ↦ outbound.reply_to_message_id
]

abbrev moves_away : MessagePushAction → Bool
moves_away notification = true
moves_away spam = true
moves_away trash = true
moves_away case_add = false
moves_away unspam = false
moves_away untrash = false

abbrev touches : String → Bool → Option MessageActionPush → Bool
touches message_id started none = false
touches message_id started (some action) =
    not started && moves_away action.action && any (λ id. str_eq id message_id) action.message_ids

abbrev must_precede : Option String → PushItem → Bool
must_precede none candidate = false
must_precede (some message_id) candidate =
    touches message_id (has_started_effects candidate) candidate.planned_message_action

unfoldable pub item_must_run_before : PushItem → PushItem → Bool
unfolding any has_started_effects
item_must_run_before item candidate = must_precede (replied_to item.planned_outbound) candidate

unfoldable pub order_items_for_dependencies : List PushItem → List PushItem
unfolding order_loop item_must_run_before
order_items_for_dependencies items = order_loop item_must_run_before (length items) items
