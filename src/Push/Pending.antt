-- ===== src/Push/Pending.antt =====
-- src/store/push_state.rs: the pushes that a message waits for, kept in the workspace's part of the
-- message. The store gives this part of each message; the failure of a message is that of checking its
-- id, of reading it or of writing it, which all leave it as it was.
pub mod Waits
mod Tests
use agent_first_mail.Prelude.{
  ℕ, String, Bool, true, false, not, ◌&&◌, ◌||◌, Option, none, some, List, [], ◌∷◌, ◌++◌, length,
  any, retain, map, ◌==◌, str_eq, str_lt, is_some, if◌then◌else◌, Result, ok, err, AppError,
}
use agent_first_mail.Push.Item.{PushItem, message_ids}

pub record WorkspacePendingPush : Type 0 where
  pub push_id : String
  pub kind : String
  pub queued_rfc3339 : String
  pub last_error : Option String

pub record WorkspacePushState : Type 0 where
  pub pending : List WorkspacePendingPush
  pub last_completed_rfc3339 : Option String

abbrev pub Store : Type 0
Store = String → Option WorkspacePushState

abbrev pub state_or_default : Option WorkspacePushState → WorkspacePushState
state_or_default none = record { pending = []; last_completed_rfc3339 = none }
state_or_default (some state) = state

-- A state that says nothing is not kept.
abbrev pub kept_state : List WorkspacePendingPush → Option String → Option WorkspacePushState
kept_state [] none = none
kept_state [] (some at) = some (record { pending = []; last_completed_rfc3339 = some at })
kept_state (first ∷ rest) at = some (record { pending = first ∷ rest; last_completed_rfc3339 = at })

abbrev pub write : String → WorkspacePushState → Store → Store
write message_id state store asked =
    if str_eq message_id asked
    then kept_state state.pending state.last_completed_rfc3339
    else store asked

update_checked :
    Option AppError
    → (WorkspacePushState → WorkspacePushState)
    → String
    → Store
    → Result (Unit {0}) × Store
update_checked (some e) update message_id store = (err e, store)
update_checked none update message_id store =
    (ok tt, write message_id (update (state_or_default (store message_id))) store)

-- `update_message_push_state`
unfoldable pub update_message_push_state :
    (String → Option AppError)
    → (WorkspacePushState → WorkspacePushState)
    → String
    → Store
    → Result (Unit {0}) × Store
unfolding update_checked
update_message_push_state failure update message_id store =
    update_checked (failure message_id) update message_id store

abbrev and_then :
    Result (Unit {0}) × Store → (Store → Result (Unit {0}) × Store) → Result (Unit {0}) × Store
and_then (ok done_so, store) next = next store
and_then (err e, store) next = (err e, store)

-- The loop of an operation over the messages of its item.
pub update_each :
    (String → Option AppError)
    → (WorkspacePushState → WorkspacePushState)
    → List String
    → Store
    → Result (Unit {0}) × Store
unfolding update_message_push_state
update_each failure update [] store = (ok tt, store)
update_each failure update (message_id ∷ ids) store =
    and_then (update_message_push_state failure update message_id store)
      (update_each failure update ids)

-- One step of a stable sort by push ids.
pub place_push : WorkspacePendingPush → List WorkspacePendingPush → List WorkspacePendingPush
place_push push [] = push ∷ []
place_push push (first ∷ rest) =
    let later = place_push push rest in
    if str_lt first.push_id push.push_id then first ∷ later else push ∷ first ∷ rest

pub sort_pushes : List WorkspacePendingPush → List WorkspacePendingPush
unfolding place_push
sort_pushes [] = []
sort_pushes (push ∷ pushes) = place_push push (sort_pushes pushes)

abbrev pub is_push_id : String → WorkspacePendingPush → Bool
is_push_id push_id push = str_eq push.push_id push_id

abbrev pub pending_of : (PushItem → String) → PushItem → WorkspacePendingPush
pending_of display_kind item = record {
  push_id = item.push_id;
  kind = display_kind item;
  queued_rfc3339 = item.created_rfc3339;
  last_error = item.last_error;
}

abbrev pub add_pending : WorkspacePendingPush → WorkspacePushState → WorkspacePushState
add_pending push state = record state {
  pending = sort_pushes (retain (λ p. not (is_push_id push.push_id p)) state.pending ++ push ∷ []);
}

unfoldable pub record_pending_push_item :
    (PushItem → String) → (String → Option AppError) → PushItem → Store → Result (Unit {0}) × Store
unfolding update_each sort_pushes retain
record_pending_push_item display_kind failure item store =
    update_each failure (add_pending (pending_of display_kind item)) (message_ids item) store

abbrev pub with_error : String → String → WorkspacePendingPush → WorkspacePendingPush
with_error push_id error push = record push {
  last_error = if is_push_id push_id push then some error else push.last_error;
}

abbrev pub fail_pending : String → String → WorkspacePushState → WorkspacePushState
fail_pending push_id error state = record state {
  pending = map (with_error push_id error) state.pending;
}

abbrev refresh_after : Option AppError → List String → Store → Result (Unit {0}) × Store
refresh_after unrefreshed [] store = (ok tt, store)
refresh_after none (id ∷ ids) store = (ok tt, store)
refresh_after (some e) (id ∷ ids) store = (err e, store)

-- `unrefreshed` is the failure of the views, which are made anew if the item has messages.
unfoldable pub mark_pending_push_error :
    (String → Option AppError)
    → Option AppError
    → PushItem
    → String
    → Store
    → Result (Unit {0}) × Store
unfolding update_each
mark_pending_push_error failure unrefreshed item error store =
    and_then (update_each failure (fail_pending item.push_id error) (message_ids item) store)
      (refresh_after unrefreshed (message_ids item))

abbrev completion : String → Bool → ℕ → ℕ → Option String → Option String
completion now completed before after last =
    if completed && (not (after == before) || before == 0) then some now else last

abbrev pub drop_pending : String → List String → Bool → WorkspacePushState → WorkspacePushState
drop_pending now push_ids completed state =
    let pending : List WorkspacePendingPush =
      retain (λ p. not (any (λ push_id. is_push_id push_id p) push_ids)) state.pending in
    record {
      pending = pending;
      last_completed_rfc3339 =
          completion now completed (length state.pending) (length pending)
            state.last_completed_rfc3339;
    }

unfoldable pub clear_pending_push_item :
    String → (String → Option AppError) → PushItem → Store → Result (Unit {0}) × Store
unfolding update_each retain any
clear_pending_push_item now failure item store =
    update_each failure (drop_pending now (item.push_id ∷ []) true) (message_ids item) store
