-- ===== src/Consumer/Reach.antt =====
-- src/sources/cloudflare/journal.rs and consumer.rs: every sequence of the consumer's operations,
-- whatever the clock, the writes and the workspace do, leaves a journal that can be loaded again.
use agent_first_mail.Prelude.{
  ℕ, String, ◌≡◌, refl, Option, List, arith, Map, lookup, AppError, Result, ok,
}
use agent_first_mail.Prelude.Int.{ℤ}
use agent_first_mail.Consumer.{
  Receipt, Journal, not_found, JournalStore, default_journal, validate_active, load, save_as,
  prepare, withdraw, imported, cleaned,
}
use agent_first_mail.Consumer.Batches.{
  MarkerFile, record_completed, Evidence, Drop, choose_batch, start_attempt, record_failure,
}
use agent_first_mail.Consumer.Batches.Choice.{choose_batch-valid}
use agent_first_mail.Consumer.Batches.TaskId.{IsHexDigest}
use agent_first_mail.Consumer.Sound.{
  IsSound, save-IsSound, prepare-IsSound, withdraw-IsSound, imported-IsSound, clean_receipt-IsSound,
  record_completed-IsSound, start_attempt-valid, record_failure-IsSound,
}

-- One operation. `digest` is the digest of task keys, and each constructor takes what its operation
-- meets: the clock, the outcome of the write, what the file system and the handler gave.
pub data Step (digest : List String → String) : JournalStore → JournalStore → Type 0 where
  prepares :
      (now : ℤ) (io : Result (Unit {0})) (index : Map String) (key id : String) (s : JournalStore)
      → Step digest s (prepare now io index key id s).1
  withdraws :
      (now : ℤ) (io : Result (Unit {0})) (key : String) (s : JournalStore)
      → Step digest s (withdraw now io key s).1
  imports :
      (now : ℤ) (io : Result (Unit {0})) (object_id : String) (receipt : Receipt) (s : JournalStore)
      → Step digest s (imported now io object_id receipt s).1
  cleans :
      (now : ℤ) (io : Result (Unit {0})) (object_id : String) (s : JournalStore)
      → Step digest s (cleaned now io object_id s).1
  completes :
      (now : ℤ) (io : Result (Unit {0})) (marker : MarkerFile) (s : JournalStore)
      → Step digest s (record_completed now io marker s).1
  -- `dispatch` goes without a batch, or waits for its retry time: it saves what it dropped.
  chooses :
      (now : ℤ) (io : Result (Unit {0})) (evidence : String → Evidence) (size : ℕ)
      (warnings : List AppError) (s : JournalStore)
      → Step digest s
          (save_as now io s
            (choose_batch evidence digest size
              (record { journal = s.journal; warnings = warnings })).state.journal).1
  -- `dispatch` records the attempt before it runs the handler.
  starts :
      (now : ℤ) (io : Result (Unit {0})) (evidence : String → Evidence) (size : ℕ)
      (warnings : List AppError) (time : String) (timeout_s delay_s : ℕ) (s : JournalStore)
      → Step digest s
          (save_as now io s (
            start_attempt now time timeout_s delay_s
              (choose_batch evidence digest size
                (record { journal = s.journal; warnings = warnings })).state.journal)).1
  fails :
      (now : ℤ) (io : Result (Unit {0})) (delay_s : ℕ) (task_id : String) (e : AppError)
      (exit_code : Option ℤ) (s : JournalStore)
      → Step digest s (record_failure now io delay_s task_id e exit_code s).1
  -- The next pull or `consume` starts from the file.
  reloads :
      (j : Journal) (s : JournalStore)
      → load s.file ≡ ok j
      → Step digest s (record s { journal = j })

pub data Reach (digest : List String → String) (s : JournalStore) : JournalStore → Type 0 where
  here : Reach digest s s
  next : {t u : JournalStore} → Reach digest s t → Step digest t u → Reach digest s u

abbrev pub fresh : JournalStore
fresh = record { journal = default_journal; file = not_found }

-- Every operation keeps the journal sound.
Step-IsSound :
    {digest : List String → String} {s t : JournalStore}
    → IsHexDigest digest
    → Step digest s t
    → IsSound s
    → IsSound t
Step-IsSound hex (prepares now io index key id s) h = prepare-IsSound now io index key id s h
Step-IsSound hex (withdraws now io key s) h = withdraw-IsSound now io key s h
Step-IsSound hex (imports now io o r s) h = imported-IsSound now io o r s h
Step-IsSound hex (cleans now io o s) h =
    unfold cleaned in clean_receipt-IsSound now io o (lookup o s.journal.receipts) s h
Step-IsSound hex (completes now io marker s) h = record_completed-IsSound now io marker s h
Step-IsSound {digest} hex (chooses now io evidence size warnings s) h =
    save-IsSound now io _ (record {
      valid =
          choose_batch-valid evidence digest hex size
            (record { journal = s.journal; warnings = warnings }) h.valid;
      on_disk = h.on_disk;
    })
Step-IsSound {digest} hex (starts now io evidence size warnings time timeout_s delay_s s) h =
    let d : Drop = record { journal = s.journal; warnings = warnings } in
    let j = (choose_batch evidence digest size d).state.journal in
    save-IsSound now io _ (record {
      valid =
          start_attempt-valid now time timeout_s delay_s j
            (choose_batch-valid evidence digest hex size d h.valid);
      on_disk = h.on_disk;
    })
Step-IsSound hex (fails now io delay_s id e c s) h =
    record_failure-IsSound now io delay_s id e c s h
Step-IsSound hex (reloads j s loaded) h = record {
  valid = ground (arith, loaded, h.on_disk.1, h.on_disk.2);
  on_disk = h.on_disk;
}

Reach-IsSound :
    {digest : List String → String} {s t : JournalStore}
    → IsHexDigest digest
    → IsSound s
    → Reach digest s t
    → IsSound t
Reach-IsSound hex h here = h
Reach-IsSound hex h (next r st) = Step-IsSound hex st (Reach-IsSound hex h r)

fresh-IsSound : IsSound fresh
unfolding validate_active load
fresh-IsSound = record { valid = refl; on_disk = (default_journal, refl, refl) }

-- From an empty workspace, after any operations in any order, with any clock, failed writes, lost
-- messages and stray markers: the journal in memory is valid, and the file on disk loads.
pub Reach-fresh :
    (digest : List String → String)
    → IsHexDigest digest
    → (s : JournalStore) → Reach digest fresh s
    → (validate_active s.journal ≡ ok tt)
      × ((j : Journal) × (load s.file ≡ ok j) × (validate_active j ≡ ok tt))
Reach-fresh digest hex s r = let h = Reach-IsSound hex fresh-IsSound r in (h.valid, h.on_disk)
