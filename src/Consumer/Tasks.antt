-- ===== src/Consumer/Tasks.antt =====
-- src/sources/cloudflare/journal.rs: the life of a notification task.
use agent_first_mail.Prelude.{
  String, ◌≡◌, not, Option-cases, true, false, Option, some, none, arith, Map, lookup, insert,
  remove, lookup-insert, lookup-remove, lookup-retain_values, Result, ok, eq_iff, inl, inr, keep_if,
}
use agent_first_mail.Prelude.Int.{ℤ}
use agent_first_mail.Consumer.{
  Receipt, Task, preparing, pending, Journal, JournalStore, is_pending, is_preparing, has_status,
  prune, save, save_as, prepare, withdraw, imported, cleaned, is_completed, consultable,
}

abbrev live : Option Task → Option Task
live = keep_if (λ task. not (is_completed task.status))

lookup-prune :
    (now : ℤ) (j : Journal) (k : String) → lookup k (prune now j).tasks ≡ live (lookup k j.tasks)
unfolding prune
lookup-prune now j k = lookup-retain_values _ k j.tasks

lookup-save_as :
    (now : ℤ) (io : Result (Unit {0})) (s : JournalStore) (j : Journal) (k : String)
    → lookup k (save_as now io s j).1.journal.tasks ≡ live (lookup k j.tasks)
unfolding save
lookup-save_as now io s j k = lookup-prune now j k

module _ (now : ℤ) (io : Result (Unit {0})) (s : JournalStore) (k : String) (t : Task)
    (e : lookup k s.journal.tasks ≡ some t) (w : is_pending t.status ≡ true) where
  survives-prepare :
      (index : Map String) (key id : String)
      → lookup k (prepare now io index key id s).1.journal.tasks ≡ some t
  unfolding prepare
  survives-prepare index key id = ground (
    arith,
    e,
    w,
    eq_iff key k,
    lookup-save_as now io s
        (record s.journal {
          tasks = insert key (record { message_id = id; status = preparing }) s.journal.tasks;
        })
        k,
    lookup-insert key k (record { message_id = id; status = preparing }) s.journal.tasks,
  )

  survives-withdraw : (key : String) → lookup k (withdraw now io key s).1.journal.tasks ≡ some t
  unfolding withdraw
  survives-withdraw key = ground (
    arith,
    e,
    w,
    eq_iff key k,
    lookup-save_as now io s (record s.journal { tasks = remove key s.journal.tasks }) k,
    lookup-remove key k s.journal.tasks,
  )

  survives-imported :
      (object_id : String) (r : Receipt)
      → lookup k (imported now io object_id r s).1.journal.tasks ≡ some t
  unfolding imported
  survives-imported object_id r = rw lookup-save_as (
      ground (
        arith,
        e,
        w,
        eq_iff r.content_key k,
        lookup-insert r.content_key k (record { message_id = r.message_id; status = pending })
            s.journal.tasks,
      ))

  survives-cleaned :
      (object_id : String) → lookup k (cleaned now io object_id s).1.journal.tasks ≡ some t
  unfolding cleaned
  survives-cleaned object_id = elim (Option-cases (lookup object_id s.journal.receipts)) [
    | inl absent ↦ rw absent e
    | inr (r, found) ↦ rw found (rw lookup-save_as (ground (arith, e, w)))
  ]

-- A waiting task and its message survive every method of the journal, failed writes included.
pub pending_survives :
    (now : ℤ) (io : Result (Unit {0})) (s : JournalStore) (k : String) (t : Task)
    → lookup k s.journal.tasks ≡ some t
    → is_pending t.status ≡ true
    → ((index : Map String) (key id : String)
        → lookup k (prepare now io index key id s).1.journal.tasks ≡ some t)
      × ((key : String) → lookup k (withdraw now io key s).1.journal.tasks ≡ some t)
      × ((object_id : String) (receipt : Receipt)
          → lookup k (imported now io object_id receipt s).1.journal.tasks ≡ some t)
      × ((object_id : String) → lookup k (cleaned now io object_id s).1.journal.tasks ≡ some t)
pending_survives now io s k t e w = (
  survives-prepare now io s k t e w,
  survives-withdraw now io s k t e w,
  survives-imported now io s k t e w,
  survives-cleaned now io s k t e w,
)

abbrev new_task : String → Task
new_task id = record { message_id = id; status = preparing }

prepare_new :
    (now : ℤ) (index : Map String) (key id : String) (s : JournalStore)
    → lookup key index ≡ none
    → lookup key s.journal.tasks ≡ none
    → prepare now (ok tt) index key id s ≡ (
      ok true,
      (save_as now
          (ok tt)
          s
          (record s.journal { tasks = insert key (new_task id) s.journal.tasks })).1,
    )
unfolding prepare save
prepare_new now index key id s i n = rw (i, n)

withdraw_own :
    (now : ℤ) (key : String) (s : JournalStore)
    → has_status is_preparing (lookup key s.journal.tasks) ≡ true
    → withdraw now (ok tt) key s
      ≡ save_as now (ok tt) s (record s.journal { tasks = remove key s.journal.tasks })
unfolding withdraw
withdraw_own now key s h = rw h

-- A pull that prepares a new task and withdraws it again leaves, at every key, the task that `prune`
-- alone would have left.
pub withdraw-prepare :
    (now : ℤ) (index : Map String) (key id : String) (s : JournalStore) (k : String)
    → lookup key index ≡ none
    → lookup key s.journal.tasks ≡ none
    → lookup k (withdraw now (ok tt) key (prepare now (ok tt) index key id s).1).1.journal.tasks
      ≡ lookup k (prune now s.journal).tasks
withdraw-prepare now index key id s k i n =
    let j = record s.journal { tasks = insert key (new_task id) s.journal.tasks } in
    let s' = (save_as now (ok tt) s j).1 in
    let at_key : lookup key s'.journal.tasks ≡ some (new_task id) =
      rw lookup-save_as (rw lookup-insert (ground (arith, eq_iff key key))) in
    rw (prepare_new now index key id s i n) (
      rw (withdraw_own now key s' (rw at_key)) (
        rw (lookup-save_as, lookup-prune)
          (ground (
            arith,
            n,
            eq_iff key k,
            lookup-remove key k s'.journal.tasks,
            lookup-save_as now (ok tt) s j k,
            lookup-insert key k (new_task id) s.journal.tasks,
          ))))

imported_own :
    (now : ℤ) (object_id : String) (r : Receipt) (s : JournalStore) (key : String)
    → r.content_key ≡ key
    → r.cleanup_complete ≡ false
    → has_status is_preparing (lookup key s.journal.tasks) ≡ true
    → let j = (imported now (ok tt) object_id r s).1.journal in
      (lookup key j.tasks ≡ some (record { message_id = r.message_id; status = pending }))
      × (lookup object_id j.receipts ≡ some r)
unfolding imported
imported_own now object_id r s key e c own = (
  rw lookup-save_as (
      ground (
        arith,
        e,
        own,
        eq_iff r.content_key key,
        lookup-insert r.content_key key (record { message_id = r.message_id; status = pending })
            s.journal.tasks,
      )),
  unfold save prune consultable in
      rw (lookup-retain_values, lookup-insert) (ground (arith, c, eq_iff object_id object_id)),
)

-- A task that was prepared waits, with the message of the receipt, once its mail is imported, and the
-- receipt is recorded if its cleanup is open.
pub imported-prepare :
    (now : ℤ) (index : Map String) (key id object_id : String) (receipt : Receipt)
    (s : JournalStore)
    → lookup key index ≡ none
    → lookup key s.journal.tasks ≡ none
    → receipt.content_key ≡ key
    → receipt.cleanup_complete ≡ false
    → let j =
        (imported now (ok tt) object_id receipt (prepare now (ok tt) index key id s).1).1.journal in
      (lookup key j.tasks ≡ some (record { message_id = receipt.message_id; status = pending }))
      × (lookup object_id j.receipts ≡ some receipt)
imported-prepare now index key id object_id receipt s i n e c =
    let j = record s.journal { tasks = insert key (new_task id) s.journal.tasks } in
    let s' = (save_as now (ok tt) s j).1 in
    let at_key : lookup key s'.journal.tasks ≡ some (new_task id) =
      rw lookup-save_as (rw lookup-insert (ground (arith, eq_iff key key))) in
    rw (prepare_new now index key id s i n)
      (imported_own now object_id receipt s' key e c (rw at_key))
