-- ===== src/Push/Queue/Started.antt =====
-- src/push_queue/mod.rs: an item whose effects have started is neither replaced nor removed by the
-- local operations on the queue.
use agent_first_mail.Prelude.{
  String, ◌≡◌, refl, Bool, true, false, not, Option, none, some, List, [], ◌∷◌, arith, any, find,
  retain, Map, lookup, remove, values, lookup-insert, lookup-remove, Result, ok, err, AppError,
  str_eq, eq_iff, Bool-cases, inl, inr,
}
use agent_first_mail.Push.Item.{PushItem, has_started_effects, OutboundAction, MessagePushAction}
use agent_first_mail.Push.Queue.{
  is_draft_of, find_draft_item, validate_outbound_requeue, queued_item, queue_checked, store_item,
  queue_outbound, after_delete, delete_items, delete_read, delete_unstarted, was,
  remove_outbound_for_draft, is_push_of, remove_pending_message_pushes, new_item,
}

-- Every file has one item, whose push id is the file's name.
unfoldable pub IsDirectory : Map PushItem → Type 0
unfolding lookup
IsDirectory [] = Unit {0}
IsDirectory ((id, item) ∷ queue) =
    (item.push_id ≡ id) × (lookup id queue ≡ none) × IsDirectory queue

lookup_found :
    (p : PushItem → Bool) (queue : Map PushItem) (item : PushItem)
    → IsDirectory queue
    → find p (values queue) ≡ some item
    → lookup item.push_id queue ≡ some item
unfolding find lookup IsDirectory
lookup_found p [] item d e = absurd (cc)
lookup_found p ((id, other) ∷ queue) item d e =
    ground (arith, d.0, d.1, eq_iff id item.push_id, lookup_found p queue item d.2)

-- Each of the items stands in the directory at its id.
pub Listed : Map PushItem → List PushItem → Type 0
Listed queue [] = Unit {0}
Listed queue (item ∷ items) = (lookup item.push_id queue ≡ some item) × Listed queue items

Listed-cons :
    (id : String) (other : PushItem) (queue : Map PushItem) (items : List PushItem)
    → lookup id queue ≡ none
    → Listed queue items
    → Listed ((id, other) ∷ queue) items
unfolding lookup Listed
Listed-cons id other queue [] n l = tt
Listed-cons id other queue (item ∷ items) n l =
    (ground (arith, n, l.0, eq_iff id item.push_id), Listed-cons id other queue items n l.1)

Listed-retain :
    (p : PushItem → Bool) (queue : Map PushItem)
    → IsDirectory queue
    → Listed queue (retain p (values queue))
unfolding retain lookup IsDirectory Listed
Listed-retain p [] d = tt
Listed-retain p ((id, other) ∷ queue) d =
    let rest =
      Listed-cons id other queue (retain p (values queue)) d.1 (Listed-retain p queue d.2) in
    elim (Bool-cases (p other)) [
      | inl kept ↦ rw kept (ground (arith, d.0, eq_iff id other.push_id), rest)
      | inr dropped ↦ rw dropped rest
    ]

after_delete_kept :
    (o : Option AppError) (id k : String) (queue : Map PushItem)
    (rest : Result (List String) × Map PushItem) (item : PushItem)
    → lookup k queue ≡ some item
    → lookup k rest.1 ≡ some item
    → lookup k (after_delete o id queue rest).1 ≡ some item
unfolding after_delete
after_delete_kept (some e) id k queue rest item h g = h
after_delete_kept none id k queue (ok ids, left) item h g = g
after_delete_kept none id k queue (err e, left) item h g = g

-- The item at `k` started, and no item of the list did: `k` is not the id of one of them.
delete_items_kept :
    (failure : String → Option AppError) (first : Map PushItem) (k : String) (item : PushItem)
    → lookup k first ≡ some item
    → has_started_effects item ≡ true
    → (items : List PushItem) (queue : Map PushItem) → Listed first items
    → any has_started_effects items ≡ false
    → lookup k queue ≡ some item
    → lookup k (delete_items failure items queue).1 ≡ some item
unfolding delete_items any Listed
delete_items_kept failure first k item at_k started [] queue l n h = h
delete_items_kept failure first k item at_k started (other ∷ items) queue l n h =
    let kept : lookup k (remove other.push_id queue) ≡ some item =
      rw lookup-remove (ground (arith, h, at_k, started, l.0, n, eq_iff other.push_id k)) in
    after_delete_kept (failure other.push_id) other.push_id k queue
      (delete_items failure items (remove other.push_id queue)) item h
      (delete_items_kept failure first k item at_k started items (remove other.push_id queue) l.1
        (ground (arith, n)) kept)

delete_unstarted_kept :
    (text : String) (failure : String → Option AppError) (unread : Option AppError)
    (items : List PushItem) (queue : Map PushItem) (k : String) (item : PushItem)
    → Listed queue items
    → lookup k queue ≡ some item
    → has_started_effects item ≡ true
    → lookup k (delete_unstarted text failure unread items queue).1 ≡ some item
unfolding delete_unstarted delete_read
delete_unstarted_kept text failure unread items queue k item l h started =
    elim (Bool-cases (any has_started_effects items)) [
      | inl refused ↦ rw refused h
      | inr free ↦ rw free (read_kept unread items l free)
    ]
  where
    read_kept :
        (o : Option AppError) (list : List PushItem)
        → Listed queue list
        → any has_started_effects list ≡ false
        → lookup k (delete_read failure queue o list).1 ≡ some item
    read_kept none list m f = delete_items_kept failure queue k item h started list queue m f h
    read_kept (some e) [] m f = h
    read_kept (some e) (other ∷ list) m f = h

queued_item_id :
    (queue : Map PushItem) (new_id now c d : String) (o : Option PushItem) (reset : Bool)
    (k : String) (item : PushItem)
    → lookup new_id queue ≡ none
    → ((existing : PushItem) → o ≡ some existing → lookup existing.push_id queue ≡ some existing)
    → ((existing : PushItem) → o ≡ some existing → has_started_effects existing ≡ false)
    → lookup k queue ≡ some item
    → has_started_effects item ≡ true
    → str_eq (queued_item queue new_id now c d o reset).push_id k ≡ false
unfolding queued_item new_item
queued_item_id queue new_id now c d none reset k item fresh found unstarted h started =
    ground (arith, fresh, h, eq_iff new_id k)
queued_item_id queue new_id now c d (some existing) true k item fresh found unstarted h started =
    ground
      (arith, found existing refl, unstarted existing refl, h, started, eq_iff existing.push_id k)
queued_item_id queue new_id now c d (some existing) false k item fresh found unstarted h started =
    ground
      (arith, found existing refl, unstarted existing refl, h, started, eq_iff existing.push_id k)

store_item_kept :
    (failure : Option AppError) (new : PushItem) (queue : Map PushItem) (k : String)
    (item : PushItem)
    → str_eq new.push_id k ≡ false
    → lookup k queue ≡ some item
    → lookup k (store_item failure new queue).1 ≡ some item
unfolding store_item
store_item_kept none new queue k item n h = rw lookup-insert (rw n h)
store_item_kept (some e) new queue k item n h = h

module _ (queue : Map PushItem) (directory : IsDirectory queue) (k : String) (item : PushItem)
    (h : lookup k queue ≡ some item) (started : has_started_effects item ≡ true) where
  queue_checked_kept :
      (failure : Option AppError) (new_id now c d : String) (o : Option PushItem)
      (previous : Option OutboundAction) (action : OutboundAction)
      → lookup new_id queue ≡ none
      → ((existing : PushItem) → o ≡ some existing → lookup existing.push_id queue ≡ some existing)
      → lookup k
          (queue_checked failure queue new_id now c d o
            (validate_outbound_requeue o previous action)).1
        ≡ some item
  unfolding queue_checked validate_outbound_requeue
  queue_checked_kept failure new_id now c d none previous action fresh found =
      store_item_kept failure (queued_item queue new_id now c d none false) queue k item
        (queued_item_id queue new_id now c d none false k item fresh found (λ x e. absurd (cc)) h
          started)
        h
  queue_checked_kept failure new_id now c d (some existing) previous action fresh found =
      elim (Bool-cases (has_started_effects existing)) [
        | inl refused ↦ rw refused h
        | inr free ↦
            let reset = not (was previous action) in
            rw free (
              store_item_kept failure (queued_item queue new_id now c d (some existing) reset) queue
                k item
                (queued_item_id queue new_id now c d (some existing) reset k item fresh found
                  (λ x e. ground (arith, e, free)) h started)
                h)
      ]

  -- In a directory where each file has the item of its name, an item whose effects have started is
  -- the same after a draft is queued under an unused id, after a draft's items are removed, and after
  -- the pushes of a message are removed, failed writes and removals included.
  pub started_kept :
      (new_id : String)
      → lookup new_id queue ≡ none
      → ((failure : Option AppError) (now case_uid draft_name : String)
            (previous : Option OutboundAction) (action : OutboundAction)
          → lookup k (queue_outbound failure queue new_id now case_uid draft_name previous action).1
            ≡ some item)
        × ((failure : String → Option AppError) (unread : Option AppError)
              (case_uid draft_name : String)
            → lookup k (remove_outbound_for_draft failure unread queue case_uid draft_name).1
              ≡ some item)
        × ((failure : String → Option AppError) (message_id : String) (action : MessagePushAction)
            → lookup k (remove_pending_message_pushes failure queue message_id action).1
              ≡ some item)
  unfolding queue_outbound remove_outbound_for_draft remove_pending_message_pushes
  started_kept new_id fresh = (
    λ failure now c d previous action.
        queue_checked_kept failure new_id now c d (find_draft_item queue c d) previous action fresh
          (λ existing e. lookup_found (is_draft_of c d) queue existing directory e),
    λ failure unread c d.
        delete_unstarted_kept _ failure unread (retain (is_draft_of c d) (values queue)) queue k
          item (Listed-retain (is_draft_of c d) queue directory) h started,
    λ failure id action.
        delete_unstarted_kept _ failure none (retain (is_push_of id action) (values queue)) queue k
          item (Listed-retain (is_push_of id action) queue directory) h started,
  )
