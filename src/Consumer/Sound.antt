-- ===== src/Consumer/Sound.antt =====
-- src/sources/cloudflare/journal.rs and consumer.rs: what each operation keeps of the journal and its
-- file.
use agent_first_mail.Prelude.{
  ℕ, String, ◌≡◌, refl, Bool, true, false, Option, none, some, arith, Map, lookup, inl, inr,
  AppError, Bool-cases, Option-cases, is_some, Result, ok, err,
}
use agent_first_mail.Prelude.Int.{ℤ}
use agent_first_mail.Consumer.{
  Receipt, Journal, JournalFile, JournalStore, is_pending, has_status, validate_batch,
  validate_active, load, prune, write_outcome, save, save_as, prepare, withdraw, imported,
  clean_receipt, is_preparing, Task, Batch,
}
use agent_first_mail.Consumer.Valid.{
  KeepsPending, validate_active_mono, KeepsPending-insert, KeepsPending-remove, KeepsPending-prune,
}
use agent_first_mail.Consumer.Batches.{
  MarkerFile, apply_completed, record_completed, is_active, save_folded, start_attempt, start_batch,
  fail_batch, record_failure,
}
use agent_first_mail.Consumer.Batches.Completion.{apply_completed-valid}

not_pending : (t : Option Task) → has_status is_preparing t ≡ true → has_status is_pending t ≡ false
not_pending none h = cc
not_pending (some t) h = ground arith

-- The journal in memory passes the check, and what is on disk loads.
pub record IsSound (s : JournalStore) : Type 0 where
  pub valid : validate_active s.journal ≡ ok tt
  pub on_disk : (j : Journal) × (load s.file ≡ ok j) × (validate_active j ≡ ok tt)

load-written :
    (io : Result (Unit {0})) (j : Journal) (f : JournalFile)
    → validate_active j ≡ ok tt
    → (old : Journal) × (load f ≡ ok old) × (validate_active old ≡ ok tt)
    → (new : Journal) × (load (write_outcome io j f) ≡ ok new) × (validate_active new ≡ ok tt)
unfolding load
load-written (ok done) j f v old = (j, ground (arith, v), v)
load-written (err e) j f v old = old

pub save-IsSound :
    (now : ℤ) (io : Result (Unit {0})) (s : JournalStore) → IsSound s → IsSound (save now io s).1
unfolding save
save-IsSound now io s h =
    let v =
      validate_active_mono s.journal (prune now s.journal) (unfold prune in refl)
        (KeepsPending-prune now s.journal) h.valid in
    record { valid = v; on_disk = load-written io (prune now s.journal) s.file v h.on_disk }

-- Saving a journal with the same batch, in which every waiting task still waits.
pub save_as-IsSound :
    (now : ℤ) (io : Result (Unit {0})) (s : JournalStore) (j : Journal)
    → IsSound s
    → j.active ≡ s.journal.active
    → KeepsPending s.journal.tasks j.tasks
    → IsSound (save_as now io s j).1
save_as-IsSound now io s j h e keep =
    save-IsSound now io (record s { journal = j })
      (record { valid = validate_active_mono s.journal j e keep h.valid; on_disk = h.on_disk })

pub prepare-IsSound :
    (now : ℤ) (io : Result (Unit {0})) (index : Map String) (key id : String) (s : JournalStore)
    → IsSound s
    → IsSound (prepare now io index key id s).1
unfolding prepare
prepare-IsSound now io index key id s h = elim (Bool-cases (is_some (lookup key index))) [
  | inl known ↦ rw known h
  | inr new ↦ elim (Option-cases (lookup key s.journal.tasks)) [
    | inr (t, e) ↦ rw (new, e) h
    | inl e ↦
        rw (new, e)
          (save_as-IsSound now io s _ h refl
            (KeepsPending-insert key _ s.journal.tasks (inl (rw e))))
  ]
]

pub withdraw-IsSound :
    (now : ℤ) (io : Result (Unit {0})) (key : String) (s : JournalStore)
    → IsSound s
    → IsSound (withdraw now io key s).1
unfolding withdraw
withdraw-IsSound now io key s h =
    elim (Bool-cases (has_status is_preparing (lookup key s.journal.tasks))) [
      | inr other ↦ rw other h
      | inl own ↦ rw own (
          save_as-IsSound now io s _ h refl (
            KeepsPending-remove key s.journal.tasks (not_pending (lookup key s.journal.tasks) own)))
    ]

pub imported-IsSound :
    (now : ℤ) (io : Result (Unit {0})) (object_id : String) (receipt : Receipt) (s : JournalStore)
    → IsSound s
    → IsSound (imported now io object_id receipt s).1
unfolding imported
imported-IsSound now io object_id receipt s h =
    elim (Bool-cases (has_status is_preparing (lookup receipt.content_key s.journal.tasks))) [
      | inl own ↦ rw own (
          save_as-IsSound now io s _ h refl
            (KeepsPending-insert receipt.content_key _ s.journal.tasks (inr refl)))
      | inr other ↦ rw other (save_as-IsSound now io s _ h refl (λ k w. w))
    ]

pub clean_receipt-IsSound :
    (now : ℤ) (io : Result (Unit {0})) (object_id : String) (r : Option Receipt) (s : JournalStore)
    → IsSound s
    → IsSound (clean_receipt now io object_id r s).1
unfolding clean_receipt
clean_receipt-IsSound now io object_id none s h = h
clean_receipt-IsSound now io object_id (some r) s h = save_as-IsSound now io s _ h refl (λ k w. w)

fold_saved :
    (now : ℤ) (io : Result (Unit {0})) (r : Result Bool) (s : JournalStore)
    → IsSound s
    → IsSound (save_folded now io r s).1
unfolding record_completed
fold_saved now io (err e) s h = h
fold_saved now io (ok true) s h = save-IsSound now io s h
fold_saved now io (ok false) s h = h

pub record_completed-IsSound :
    (now : ℤ) (io : Result (Unit {0})) (marker : MarkerFile) (s : JournalStore)
    → IsSound s
    → IsSound (record_completed now io marker s).1
unfolding record_completed
record_completed-IsSound now io marker s h =
    fold_saved now io (apply_completed marker s.journal).0
      (record s { journal = (apply_completed marker s.journal).1 })
      (record { valid = apply_completed-valid marker s.journal h.valid; on_disk = h.on_disk })

start_batch-valid :
    (now : ℤ) (time : String) (timeout_s delay_s : ℕ) (tasks : Map Task) (a : Option Batch)
    → validate_batch tasks a ≡ ok tt
    → validate_batch tasks (start_batch now time timeout_s delay_s a) ≡ ok tt
unfolding start_attempt validate_batch
start_batch-valid now time timeout_s delay_s tasks none v = v
start_batch-valid now time timeout_s delay_s tasks (some b) v = v

fail_batch-valid :
    (now : ℤ) (delay_s : ℕ) (id : String) (e : AppError) (c : Option ℤ) (tasks : Map Task)
    (a : Option Batch)
    → validate_batch tasks a ≡ ok tt
    → validate_batch tasks (fail_batch now delay_s id e c a) ≡ ok tt
unfolding record_failure validate_batch
fail_batch-valid now delay_s id e c tasks none v = v
fail_batch-valid now delay_s id e c tasks (some b) v = v

pub start_attempt-valid :
    (now : ℤ) (time : String) (timeout_s delay_s : ℕ) (j : Journal)
    → validate_active j ≡ ok tt
    → validate_active (start_attempt now time timeout_s delay_s j) ≡ ok tt
unfolding start_attempt validate_active
start_attempt-valid now time timeout_s delay_s j v =
    start_batch-valid now time timeout_s delay_s j.tasks j.active v

pub record_failure-IsSound :
    (now : ℤ) (io : Result (Unit {0})) (delay_s : ℕ) (id : String) (e : AppError) (c : Option ℤ)
    (s : JournalStore)
    → IsSound s
    → IsSound (record_failure now io delay_s id e c s).1
unfolding record_failure
record_failure-IsSound now io delay_s id e c s h =
    elim (Bool-cases (is_active id s.journal.active)) [
      | inr other ↦ rw other h
      | inl own ↦ rw own (
          save-IsSound now io _ (record {
            valid =
                unfold validate_active in
                fail_batch-valid now delay_s id e c s.journal.tasks s.journal.active h.valid;
            on_disk = h.on_disk;
          }))
    ]
