-- ===== src/Push/Pending/Waits.antt =====
-- src/store/push_state.rs: which pushes a message waits for after an operation.
use agent_first_mail.Prelude.{
  String, ◌≡◌, refl, ◌∙◌, ap, fun_ext, Bool, true, false, not, ◌&&◌, ◌||◌, Bool-cases, Option, none,
  some, List, [], ◌∷◌, ◌++◌, any, retain, map, str_eq, eq_iff, arith, if◌then◌else◌, Result, ok,
  err, inl, inr, All, AppError,
}
use agent_first_mail.Push.Item.{PushItem, message_ids}
use agent_first_mail.Push.Pending.{
  WorkspacePendingPush, WorkspacePushState, Store, state_or_default, kept_state, write, update_each,
  update_message_push_state, update_checked, and_then, place_push, sort_pushes, is_push_id,
  pending_of, add_pending, record_pending_push_item, fail_pending, with_error, refresh_after,
  mark_pending_push_error, drop_pending, clear_pending_push_item,
}

abbrev has_push : String → WorkspacePushState → Bool
has_push push_id state = any (is_push_id push_id) state.pending

-- Whether the message waits for the push.
unfoldable pub waits : String → String → Store → Bool
unfolding any
waits push_id message_id store = has_push push_id (state_or_default (store message_id))

has_push-kept_state :
    (push_id : String) (state : WorkspacePushState)
    → has_push push_id (state_or_default (kept_state state.pending state.last_completed_rfc3339))
      ≡ has_push push_id state
has_push-kept_state push_id state = of_parts state.pending state.last_completed_rfc3339
  where
    of_parts :
        (pending : List WorkspacePendingPush) (at : Option String)
        → any (is_push_id push_id) (state_or_default (kept_state pending at)).pending
          ≡ any (is_push_id push_id) pending
    of_parts [] none = refl
    of_parts [] (some at) = refl
    of_parts (first ∷ rest) at = refl

waits-write :
    (id push_id message_id : String) (state : WorkspacePushState) (store : Store)
    → waits push_id message_id (write id state store)
      ≡ (if str_eq id message_id then has_push push_id state else waits push_id message_id store)
unfolding waits
waits-write id push_id message_id state store = elim (Bool-cases (str_eq id message_id)) [
  | inl same ↦ rw same (has_push-kept_state push_id state)
  | inr other ↦ rw other refl
]

twice :
    (op : Bool → Bool) (later first b : Bool)
    → ((c : Bool) → op (op c) ≡ op c)
    → (if later then op (if first then op b else b) else (if first then op b else b))
      ≡ (if first || later then op b else b)
twice op true true b g = g b
twice op true false b g = refl
twice op false true b g = refl
twice op false false b g = refl

own_state :
    (update : WorkspacePushState → WorkspacePushState) (id push_id message_id : String)
    (op : Bool → Bool) (store : Store)
    → ((state : WorkspacePushState) → has_push push_id (update state) ≡ op (has_push push_id state))
    → (if str_eq id message_id
        then has_push push_id (update (state_or_default (store id)))
        else waits push_id message_id store)
      ≡ (if str_eq id message_id
          then op (waits push_id message_id store)
          else waits push_id message_id store)
unfolding waits
own_state update id push_id message_id op store h = elim (Bool-cases (str_eq id message_id)) [
  | inl same ↦
      let at : id ≡ message_id = ground (arith, same, eq_iff id message_id) in
      rw same (
        h (state_or_default (store id))
        ∙ ap (λ k. op (has_push push_id (state_or_default (store k)))) at)
  | inr other ↦ rw other refl
]

-- An update answers for the push by `op`, which does the same when it is repeated.
waits-update_each :
    (failure : String → Option AppError) (update : WorkspacePushState → WorkspacePushState)
    (push_id message_id : String) (op : Bool → Bool) (ids : List String) (store : Store)
    → ((state : WorkspacePushState) → has_push push_id (update state) ≡ op (has_push push_id state))
    → ((b : Bool) → op (op b) ≡ op b)
    → All (λ id. failure id ≡ none) ids
    → waits push_id message_id (update_each failure update ids store).1 ≡ (
        if any (λ id. str_eq id message_id) ids
        then op (waits push_id message_id store)
        else waits push_id message_id store)
unfolding update_each update_message_push_state update_checked any
waits-update_each failure update push_id message_id op [] store h g a = refl
waits-update_each failure update push_id message_id op (id ∷ ids) store h g a =
    let next : Store = write id (update (state_or_default (store id))) store in
    let later : Bool = any (λ i. str_eq i message_id) ids in
    let there : waits push_id message_id next ≡ (
        if str_eq id message_id
        then op (waits push_id message_id store)
        else waits push_id message_id store) =
      waits-write id push_id message_id (update (state_or_default (store id))) store
      ∙ own_state update id push_id message_id op store h in
    rw a.0 (
      waits-update_each failure update push_id message_id op ids next h g a.1
      ∙ ap (λ b. if later then op b else b) there
      ∙ twice op later (str_eq id message_id) (waits push_id message_id store) g)

has-place_push :
    (push_id : String) (push : WorkspacePendingPush) (pushes : List WorkspacePendingPush)
    → any (is_push_id push_id) (place_push push pushes)
      ≡ (is_push_id push_id push || any (is_push_id push_id) pushes)
unfolding place_push any
has-place_push push_id push [] = refl
has-place_push push_id push (first ∷ rest) = ground (arith, has-place_push push_id push rest)

has-sort_pushes :
    (push_id : String) (pushes : List WorkspacePendingPush)
    → any (is_push_id push_id) (sort_pushes pushes) ≡ any (is_push_id push_id) pushes
unfolding sort_pushes any
has-sort_pushes push_id [] = refl
has-sort_pushes push_id (push ∷ pushes) =
    has-place_push push_id push (sort_pushes pushes)
    ∙ ap (λ b. is_push_id push_id push || b) (has-sort_pushes push_id pushes)

has-retain :
    (asked push_id : String) (pushes : List WorkspacePendingPush)
    → any (is_push_id asked) (retain (λ p. not (is_push_id push_id p)) pushes)
      ≡ (not (str_eq push_id asked) && any (is_push_id asked) pushes)
unfolding retain any
has-retain asked push_id [] = ground arith
has-retain asked push_id (push ∷ pushes) = ground (
  arith,
  has-retain asked push_id pushes,
  eq_iff push.push_id push_id,
  eq_iff push.push_id asked,
  eq_iff push_id asked,
)

has-append :
    (asked : String) (pushes : List WorkspacePendingPush) (push : WorkspacePendingPush)
    → any (is_push_id asked) (pushes ++ push ∷ [])
      ≡ (is_push_id asked push || any (is_push_id asked) pushes)
unfolding any
has-append asked [] push = refl
has-append asked (first ∷ pushes) push = ground (arith, has-append asked pushes push)

has-with_error :
    (asked push_id error : String) (pushes : List WorkspacePendingPush)
    → any (is_push_id asked) (map (with_error push_id error) pushes) ≡ any (is_push_id asked) pushes
unfolding any
has-with_error asked push_id error [] = refl
has-with_error asked push_id error (push ∷ pushes) =
    ap (λ b. is_push_id asked push || b) (has-with_error asked push_id error pushes)

-- What a message waits for after each operation on an item whose messages can all be written.
pub record Waiting (display_kind : PushItem → String) (failure : String → Option AppError)
    (unrefreshed : Option AppError) (now error : String) (item : PushItem) (store : Store)
    (push_id message_id : String) : Type 0 where
  pub recorded :
      waits push_id message_id (record_pending_push_item display_kind failure item store).1 ≡ (
        if any (λ id. str_eq id message_id) (message_ids item)
        then str_eq item.push_id push_id || waits push_id message_id store
        else waits push_id message_id store)
  pub failed :
      waits push_id message_id (mark_pending_push_error failure unrefreshed item error store).1
      ≡ waits push_id message_id store
  pub cleared : waits push_id message_id (clear_pending_push_item now failure item store).1 ≡ (
      if any (λ id. str_eq id message_id) (message_ids item)
      then not (str_eq item.push_id push_id) && waits push_id message_id store
      else waits push_id message_id store)

after_refresh :
    (unrefreshed : Option AppError) (ids : List String) (r : Result (Unit {0}) × Store)
    → (and_then r (refresh_after unrefreshed ids)).1 ≡ r.1
after_refresh unrefreshed [] (ok u, store) = refl
after_refresh none (id ∷ ids) (ok u, store) = refl
after_refresh (some e) (id ∷ ids) (ok u, store) = refl
after_refresh unrefreshed ids (err e, store) = refl

same_branches : (b c : Bool) → (if b then c else c) ≡ c
same_branches true c = refl
same_branches false c = refl

-- If every message of the item can be read and written: after an item is recorded, its messages wait
-- for it too; after it is cleared, they wait for it no longer; an error changes nothing of that; and
-- every other message, and every other push, waits as before.
pub pending-Waiting :
    (display_kind : PushItem → String) (failure : String → Option AppError)
    (unrefreshed : Option AppError) (now error : String) (item : PushItem) (store : Store)
    (push_id message_id : String)
    → All (λ id. failure id ≡ none) (message_ids item)
    → Waiting display_kind failure unrefreshed now error item store push_id message_id
unfolding record_pending_push_item mark_pending_push_error clear_pending_push_item any
pending-Waiting display_kind failure unrefreshed now error item store push_id message_id a =
    let push = pending_of display_kind item in
    let ids = message_ids item in
    let there : Bool = any (λ id. str_eq id message_id) ids in
    record {
      recorded =
          waits-update_each failure (add_pending push) push_id message_id
            (λ b. str_eq item.push_id push_id || b) ids store
            (λ state.
              let others : List WorkspacePendingPush =
                retain (λ p. not (is_push_id push.push_id p)) state.pending in
              has-sort_pushes push_id (others ++ push ∷ [])
              ∙ has-append push_id others push
              ∙ ap (λ b. str_eq item.push_id push_id || b)
                  (has-retain push_id item.push_id state.pending)
              ∙ ground arith)
            (λ b. ground arith) a;
      failed =
          ap (waits push_id message_id) (
            after_refresh unrefreshed ids
              (update_each failure (fail_pending item.push_id error) ids store))
          ∙ waits-update_each failure (fail_pending item.push_id error) push_id message_id (λ b. b)
              ids store (λ state. has-with_error push_id item.push_id error state.pending)
              (λ b. refl) a
          ∙ same_branches there (waits push_id message_id store);
      cleared =
          waits-update_each failure (drop_pending now (item.push_id ∷ []) true) push_id message_id
            (λ b. not (str_eq item.push_id push_id) && b) ids store (λ state. cleared_of state)
            (λ b. ground arith) a;
    }
  where
    cleared_of :
        (state : WorkspacePushState)
        → has_push push_id (drop_pending now (item.push_id ∷ []) true state)
          ≡ (not (str_eq item.push_id push_id) && has_push push_id state)
    cleared_of state =
        ap (λ f. any (is_push_id push_id) (retain f state.pending))
          (fun_ext λ p. ap not (ground (arith, eq_iff p.push_id item.push_id)))
        ∙ has-retain push_id item.push_id state.pending
