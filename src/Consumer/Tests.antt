-- ===== src/Consumer/Tests.antt =====
-- src/sources/cloudflare/journal.rs and consumer.rs: one notification from its preparation to its
-- completion, and the theorems at that run.
use agent_first_mail.Prelude.{
  String, ◌≡◌, ◌≢◌, ◌↔◌, ◌⊎◌, ◌+◌, ◌≤◌, refl, true, false, all, none, some, List, [], ◌∷◌, arith,
  Map, lookup, insert, remove, retain_values, ok, err, app_error, if◌then◌else◌,
}
use agent_first_mail.Prelude.Int.{pos, pos_part, neg_part}
use agent_first_mail.Consumer.{
  Receipt, Task, pending, completed, Batch, Journal, JournalStore, JournalFile, not_found,
  is_pending, has_status, has_key, validate_active, load, prune, save, safe_task_id, all_pending,
  prepare, withdraw, imported, cleaned, pending_count,
}
use agent_first_mail.Consumer.Promise.{Promised, validate_active_iff}
use agent_first_mail.Consumer.Tasks.{pending_survives, withdraw-prepare, imported-prepare}
use agent_first_mail.Consumer.Prune.{lookup-prune_receipts}
use agent_first_mail.Consumer.Batches.{
  MarkerFile, missing, entry, Evidence, gone, Drop, apply_completed, choose_batch, record_completed,
}
use agent_first_mail.Consumer.Batches.TaskId.{IsHexDigest}
use agent_first_mail.Consumer.Batches.Choice.{choose_batch-valid}
use agent_first_mail.Consumer.Batches.Progress.{choose_batch-none}
use agent_first_mail.Consumer.Batches.Completion.{
  IsMarkerOf, mark_done, apply_completed-marker, apply_completed-unchanged,
}
use agent_first_mail.Consumer.Reach.{
  Reach, here, next, fresh, prepares, imports, completes, Reach-fresh,
}

abbrev digest : List String → String
digest keys = "0123456789abcdef0123456789abcdef0123456789abcdef0123456789abcdef"

digest-IsHexDigest : IsHexDigest digest
unfolding all
digest-IsHexDigest = record { size = λ keys. refl; hex = λ keys. refl }

abbrev receipt : Receipt
receipt = record {
  message_id = "m1";
  imported_epoch_s = pos 100;
  content_key = "k1";
  quota_managed = false;
  archive_key = none;
  cleanup_complete = false;
}

abbrev task : Task
task = record { message_id = "m1"; status = pending }

abbrev batch : Batch
batch = record {
  task_id = "mail_0123";
  content_keys = "k1" ∷ [];
  retry_after_epoch_s = pos 0;
  attempt_count = 0;
  last_attempt_rfc3339 = none;
  last_error_code = none;
  last_exit_code = none;
}

-- One task waits, and is in the active batch; another was completed.
abbrev busy : Journal
busy = record {
  receipts = ("o1", receipt) ∷ [];
  tasks = ("k1", task) ∷ ("k2", record { message_id = "m2"; status = completed }) ∷ [];
  active = some batch;
}

abbrev busy_store : JournalStore
busy_store = record { journal = busy; file = not_found }

abbrev marker : MarkerFile
marker = entry true 90 (
    ok (
      90,
      some (record {
        schema_name = "mail_received_task_completed";
        schema_version = 1;
        task_id = "mail_0123";
      }),
    ))

busy-valid : validate_active busy ≡ ok tt
unfolding validate_active safe_task_id all_pending lookup
busy-valid = refl

pending_after_import :
    pending_count
      (imported
        (pos 9)
        (ok tt)
        "o1"
        receipt
        (prepare (pos 9) (ok tt) [] "k1" "m1" fresh).1).1.journal
    ≡ 1
unfolding pending_count imported prepare save retain_values lookup insert
pending_after_import = refl

-- A journal whose batch refers to a task that does not wait is refused.
stale_refused :
    load (
      JournalFile.document (record {
        schema_name = "cloudflare_consumer";
        schema_version = 2;
        journal = record { receipts = []; tasks = []; active = some batch };
      }))
    ≡ err (
        app_error "consumer_journal_invalid"
          "Active consumer batch must have a safe task id and distinct pending notification tasks")
unfolding load validate_active safe_task_id all_pending lookup
stale_refused = refl

validate_active_iff_example :
    (validate_active busy ≡ ok tt)
    ↔ ((busy.active ≡ none) ⊎ ((b : Batch) × (busy.active ≡ some b) × Promised busy.tasks b))
validate_active_iff_example = validate_active_iff busy

pending_survives_example :
    ((index : Map String) (key id : String)
      → lookup "k1"
          (prepare (pos 9) (err (app_error "io" "full")) index key id busy_store).1.journal.tasks
        ≡ some task)
    × ((key : String)
        → lookup "k1"
            (withdraw (pos 9) (err (app_error "io" "full")) key busy_store).1.journal.tasks
          ≡ some task)
    × ((object_id : String) (r : Receipt)
        → lookup "k1"
            (imported (pos 9) (err (app_error "io" "full")) object_id r busy_store).1.journal.tasks
          ≡ some task)
    × ((object_id : String)
        → lookup "k1"
            (cleaned (pos 9) (err (app_error "io" "full")) object_id busy_store).1.journal.tasks
          ≡ some task)
pending_survives_example =
    pending_survives (pos 9) (err (app_error "io" "full")) busy_store "k1" task
      (unfold lookup in refl) refl

withdraw-prepare_example :
    lookup "k1"
      (withdraw
        (pos 9)
        (ok tt)
        "k3"
        (prepare (pos 9) (ok tt) [] "k3" "m3" busy_store).1).1.journal.tasks
    ≡ lookup "k1" (prune (pos 9) busy).tasks
withdraw-prepare_example =
    withdraw-prepare (pos 9) [] "k3" "m3" busy_store "k1" (unfold lookup in refl)
      (unfold lookup in refl)

imported-prepare_example :
    let j =
      (imported
        (pos 9)
        (ok tt)
        "o1"
        receipt
        (prepare (pos 9) (ok tt) [] "k1" "m1" fresh).1).1.journal in
    (lookup "k1" j.tasks ≡ some task) × (lookup "o1" j.receipts ≡ some receipt)
imported-prepare_example =
    imported-prepare (pos 9) [] "k1" "m1" "o1" receipt fresh (unfold lookup in refl)
      (unfold lookup in refl) refl refl

lookup-prune_receipts_example : (lookup "o1" (prune (pos 9) busy).receipts ≡ some receipt) ↔ (
    (lookup "o1" busy.receipts ≡ some receipt)
    × ((receipt.cleanup_complete ≡ false)
        ⊎ (pos_part (pos 9) + neg_part receipt.imported_epoch_s + 1
            ≤ 1296000 + pos_part receipt.imported_epoch_s + neg_part (pos 9))))
lookup-prune_receipts_example = lookup-prune_receipts (pos 9) busy "o1" receipt

abbrev all_gone : String → Evidence
all_gone id = gone

abbrev busy_drop : Drop
busy_drop = record { journal = busy; warnings = [] }

choose_batch-valid_example :
    validate_active (choose_batch all_gone digest 10 busy_drop).state.journal ≡ ok tt
choose_batch-valid_example =
    choose_batch-valid all_gone digest digest-IsHexDigest 10 busy_drop busy-valid

choose_batch-none_example :
    has_status is_pending
      (lookup "k1" (choose_batch all_gone digest 10 busy_drop).state.journal.tasks)
    ≡ false
unfolding lookup remove
choose_batch-none_example =
    choose_batch-none all_gone digest 10 busy_drop (omega arith) (unfold choose_batch in refl) "k1"

marker-IsMarkerOf : IsMarkerOf "mail_0123" marker
marker-IsMarkerOf = record {
  size = 90;
  bytes = 90;
  is_entry = refl;
  small = (omega arith, omega arith);
}

apply_completed-marker_example :
    ((apply_completed marker busy).0 ≡ ok true)
    × ((apply_completed marker busy).1.active ≡ none)
    × ((apply_completed marker busy).1.receipts ≡ busy.receipts)
    × ((k : String)
        → lookup k (apply_completed marker busy).1.tasks ≡ (
            if has_key k batch.content_keys
            then mark_done (lookup k busy.tasks)
            else lookup k busy.tasks))
apply_completed-marker_example =
    apply_completed-marker busy batch marker busy-valid refl marker-IsMarkerOf

no_marker : ¬ IsMarkerOf "mail_0123" missing
no_marker m = absurd (let e = m.is_entry in cc)

apply_completed-unchanged_example :
    ((apply_completed missing busy).0 ≢ ok true) × ((apply_completed missing busy).1 ≡ busy)
apply_completed-unchanged_example =
    apply_completed-unchanged busy batch missing busy-valid refl no_marker

-- A mail is prepared and imported, a batch is chosen, and its handler leaves no marker.
abbrev run : JournalStore
run =
    (record_completed (pos 12) (ok tt) missing
      (imported (pos 11) (err (app_error "io" "full")) "o1" receipt
        (prepare (pos 10) (ok tt) [] "k1" "m1" fresh).1).1).1

run_reached : Reach digest fresh run
run_reached =
    next
      (next (next here (prepares (pos 10) (ok tt) [] "k1" "m1" fresh))
        (imports (pos 11) (err (app_error "io" "full")) "o1" receipt _))
      (completes (pos 12) (ok tt) missing _)

Reach-fresh_example :
    (validate_active run.journal ≡ ok tt)
    × ((j : Journal) × (load run.file ≡ ok j) × (validate_active j ≡ ok tt))
Reach-fresh_example = Reach-fresh digest digest-IsHexDigest run run_reached
