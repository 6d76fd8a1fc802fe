-- ===== src/Consumer/Batches.antt =====
-- src/sources/cloudflare/journal.rs and consumer.rs: the completion marker, and the choice of the
-- batch that the handler is given.
pub mod Loops
pub mod Choice
pub mod Progress
pub mod TaskId
pub mod Completion
use Prim.Native.String.{◌++◌ as str_append}
use agent_first_mail.Prelude.{
  ℕ, min, ◌+◌, String, Bool, true, false, not, ◌||◌, Option, none, some, List, [], ◌∷◌, ◌++◌, ltb,
  leb, ◌==◌, str_eq, if◌then◌else◌, Map, lookup, insert, remove, length, Result, ok, err, AppError,
  app_error, ◌>>=◌, ◌>>◌, refuse_if,
}
use agent_first_mail.Prelude.Int.{ℤ, pos, add_i64, as_i64}
use agent_first_mail.Consumer.{
  Task, completed, Batch, Journal, JournalStore, CompletionMarker, is_pending, is_empty,
  validate_active, save, save_as,
}

-- What stands at the marker's path: nothing, a failure, or an entry with its kind, its length, and
-- what reading up to 4097 bytes gave: the number of bytes, and the marker if they parse.
pub data MarkerFile : Type 0 where
  missing : MarkerFile
  uninspectable : AppError → MarkerFile
  entry : Bool → ℕ → Result (ℕ × Option CompletionMarker) → MarkerFile

abbrev pub max_marker_bytes : ℕ
max_marker_bytes = 4096

abbrev pub completion_invalid : AppError
completion_invalid =
    app_error "consumer_completion_invalid"
      "Consumer completion marker must be a bounded regular JSON document matching the active task"

check_marker : String → Option CompletionMarker → Result (Unit {0})
check_marker task_id none = err completion_invalid
check_marker task_id (some marker) =
    refuse_if
      (not (str_eq marker.schema_name "mail_received_task_completed")
        || not (marker.schema_version == 1)
        || not (str_eq marker.task_id task_id))
      completion_invalid

-- `false` if there is no marker.
pub read_marker : String → MarkerFile → Result Bool
unfolding check_marker
read_marker task_id missing = ok false
read_marker task_id (uninspectable e) = err e
read_marker task_id (entry is_file size contents) = do
  refuse_if (not is_file || ltb max_marker_bytes size) completion_invalid
  (bytes, marker) ← contents
  refuse_if (ltb max_marker_bytes bytes) completion_invalid
  check_marker task_id marker
  ok true

complete_at : String → Option Task → Map Task → Map Task
complete_at key none tasks = tasks
complete_at key (some task) tasks = insert key (record task { status = completed }) tasks

pub complete_tasks : List String → Map Task → Map Task
unfolding complete_at
complete_tasks [] tasks = tasks
complete_tasks (key ∷ keys) tasks = complete_tasks keys (complete_at key (lookup key tasks) tasks)

fold_marker : Journal → Batch → Result Bool → Result Bool × Journal
unfolding complete_tasks
fold_marker j active (ok true) =
    (ok true, record j { tasks = complete_tasks active.content_keys j.tasks; active = none })
fold_marker j active (ok false) = (ok false, j)
fold_marker j active (err e) = (err e, j)

apply_marker : MarkerFile → Journal → Option Batch → Result Bool × Journal
unfolding fold_marker read_marker
apply_marker marker j none = (ok false, j)
apply_marker marker j (some active) = fold_marker j active (read_marker active.task_id marker)

apply_checked : Result (Unit {0}) → MarkerFile → Journal → Result Bool × Journal
unfolding apply_marker
apply_checked (err e) marker j = (err e, j)
apply_checked (ok valid) marker j = apply_marker marker j j.active

unfoldable pub apply_completed : MarkerFile → Journal → Result Bool × Journal
unfolding apply_checked validate_active
apply_completed marker j = apply_checked (validate_active j) marker j

pub save_folded :
    ℤ → Result (Unit {0}) → Result Bool → JournalStore → Result (Unit {0}) × JournalStore
save_folded now io (ok true) s = save now io s
save_folded now io (ok false) s = (ok tt, s)
save_folded now io (err e) s = (err e, s)

-- The first part of `record_completed`: fold the marker, and save if it was there. The second part
-- removes marker files, and leaves the journal alone.
unfoldable pub record_completed :
    ℤ → Result (Unit {0}) → MarkerFile → JournalStore → Result (Unit {0}) × JournalStore
unfolding save_folded
record_completed now io marker s =
    let (r, j) = apply_completed marker s.journal in save_folded now io r (record s { journal = j })

-- What the workspace holds of a message: its raw file is gone, cannot be read, or can.
pub data Evidence : Type 0 where
  gone : Evidence
  damaged : AppError → Evidence
  readable : Evidence

pub record Drop : Type 0 where
  pub journal : Journal
  pub warnings : List AppError

abbrev pub dropped : String → AppError → Drop → Option String × Drop
dropped key problem d = (
  none,
  record {
    journal = record d.journal { tasks = remove key d.journal.tasks };
    warnings = d.warnings ++ problem ∷ [];
  },
)

drop_by_evidence : String → String → Evidence → Drop → Option String × Drop
drop_by_evidence key message_id readable d = (some message_id, d)
drop_by_evidence key message_id gone d =
    dropped key
      (app_error "consumer_message_missing"
        "a pending consumer task refers to a message that no longer exists; the task was dropped")
      d
drop_by_evidence key message_id (damaged e) d =
    dropped key
      (app_error e.error_code
        "a pending consumer task refers to an unreadable message; the task was dropped")
      d

drop_task : (String → Evidence) → String → Option Task → Drop → Option String × Drop
unfolding drop_by_evidence
drop_task evidence key none d = (none, d)
drop_task evidence key (some task) d =
    drop_by_evidence key task.message_id (evidence task.message_id) d

-- The workspace is the argument `evidence`, which the loop does not change.
pub drop_unavailable : (String → Evidence) → String → Drop → Option String × Drop
unfolding drop_task
drop_unavailable evidence key d = drop_task evidence key (lookup key d.journal.tasks) d

-- The keys and the message ids that a loop of `dispatch` has collected.
pub record Chosen : Type 0 where
  pub keys : List String
  pub items : List String
  pub state : Drop

abbrev pub choose : String → Option String × Drop → Chosen → Chosen
choose key (none, d) c = record c { state = d }
choose key (some message_id, d) c = record {
  keys = c.keys ++ key ∷ [];
  items = c.items ++ message_id ∷ [];
  state = d;
}

-- The loop over the keys of the active batch.
pub keep_available : (String → Evidence) → List String → Chosen → Chosen
unfolding drop_unavailable
keep_available evidence [] c = c
keep_available evidence (key ∷ keys) c =
    keep_available evidence keys (choose key (drop_unavailable evidence key c.state) c)

-- The loop over the keys of the waiting tasks, which stops when the batch is full.
pub fill_batch : (String → Evidence) → ℕ → List String → Chosen → Chosen
unfolding drop_unavailable
fill_batch evidence batch_size [] c = c
fill_batch evidence batch_size (key ∷ keys) c =
    let rest =
      fill_batch evidence batch_size keys (choose key (drop_unavailable evidence key c.state) c) in
    if leb batch_size (length c.keys) then c else rest

abbrev pub without_key : String → List String → List String
without_key k [] = []
without_key k (j ∷ keys) = let rest = without_key k keys in if str_eq j k then rest else j ∷ rest

-- A key is met once, at its first entry.
pub pending_keys : Map Task → List String
pending_keys [] = []
pending_keys ((key, task) ∷ tasks) =
    let rest = without_key key (pending_keys tasks) in
    if is_pending task.status then key ∷ rest else rest

-- `digest` is the hexadecimal BLAKE3 of the JSON text of the keys.
abbrev new_batch : (List String → String) → List String → Batch
new_batch digest keys = record {
  task_id = str_append "mail_" (digest keys);
  content_keys = keys;
  retry_after_epoch_s = pos 0;
  attempt_count = 0;
  last_attempt_rfc3339 = none;
  last_error_code = none;
  last_exit_code = none;
}

abbrev set_active : Option Batch → Chosen → Chosen
set_active a c = record c {
  state = record c.state { journal = record c.state.journal { active = a } };
}

refresh_active : (String → Evidence) → Option Batch → Drop → Chosen
unfolding keep_available
refresh_active evidence none d = record { keys = []; items = []; state = d }
refresh_active evidence (some active) d =
    let c =
      keep_available evidence active.content_keys (record { keys = []; items = []; state = d }) in
    set_active (if is_empty c.keys then none else some (record active { content_keys = c.keys })) c

take_new : (String → Evidence) → (List String → String) → ℕ → Option Batch → Chosen → Chosen
unfolding fill_batch
take_new evidence digest batch_size (some active) c = c
take_new evidence digest batch_size none c =
    let c' =
      fill_batch evidence batch_size (pending_keys c.state.journal.tasks)
        (record { keys = []; items = []; state = c.state }) in
    if is_empty c'.keys then c' else set_active (some (new_batch digest c'.keys)) c'

-- The choice of the batch in `dispatch`: the active batch, less what is gone, or a new one.
unfoldable pub choose_batch : (String → Evidence) → (List String → String) → ℕ → Drop → Chosen
unfolding refresh_active take_new pending_keys
choose_batch evidence digest batch_size d =
    let c = refresh_active evidence d.journal.active d in
    take_new evidence digest batch_size c.state.journal.active c

abbrev pub u64_max : ℕ
u64_max = 18446744073709551615

pub start_batch : ℤ → String → ℕ → ℕ → Option Batch → Option Batch
start_batch now time timeout_s delay_s none = none
start_batch now time timeout_s delay_s (some active) = some (record active {
  attempt_count = min (active.attempt_count + 1) u64_max;
  last_attempt_rfc3339 = some time;
  retry_after_epoch_s = add_i64 (add_i64 now (as_i64 timeout_s)) (as_i64 delay_s);
})

-- The attempt is recorded before the handler runs.
unfoldable pub start_attempt : ℤ → String → ℕ → ℕ → Journal → Journal
unfolding start_batch
start_attempt now time timeout_s delay_s j = record j {
  active = start_batch now time timeout_s delay_s j.active;
}

pub fail_batch : ℤ → ℕ → String → AppError → Option ℤ → Option Batch → Option Batch
fail_batch now delay_s task_id e exit_code none = none
fail_batch now delay_s task_id e exit_code (some active) = some (record active {
  last_error_code = some e.error_code;
  last_exit_code = exit_code;
  retry_after_epoch_s = add_i64 now (as_i64 delay_s);
})

abbrev pub is_active : String → Option Batch → Bool
is_active task_id none = false
is_active task_id (some active) = str_eq active.task_id task_id

-- The handler failed: its outcome is kept if its batch is still the active one.
unfoldable pub record_failure :
    ℤ
    → Result (Unit {0})
    → ℕ
    → String
    → AppError
    → Option ℤ
    → JournalStore
    → Result (Unit {0}) × JournalStore
unfolding fail_batch
record_failure now io delay_s task_id e exit_code s =
    if is_active task_id s.journal.active
    then save_as now io s
        (record s.journal { active = fail_batch now delay_s task_id e exit_code s.journal.active })
    else (ok tt, s)
