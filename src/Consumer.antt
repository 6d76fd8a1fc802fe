-- ===== src/Consumer.antt =====
-- src/sources/cloudflare/journal.rs: the journal of the Cloudflare consumer. It is written before
-- ingestion and before remote cleanup. A method on `&mut self` returns the new journal; a method
-- that saves acts on the journal together with its file, and is given the clock and the outcome of
-- the write.
pub mod Batches
pub mod Valid
pub mod Promise
pub mod Sound
pub mod Reach
pub mod Tasks
pub mod Prune
mod Tests
use Prim.Native.Char.{code}
use Prim.Native.String.{len}
use text.Mathlib.Text.{starts_with}
use agent_first_mail.Prelude.{
  ℕ, ◌+◌, ◌*◌, String, Bool, true, false, not, ◌&&◌, ◌||◌, Option, none, some, List, [], ◌∷◌, ltb,
  leb, ◌==◌, str_eq, is_some, if◌then◌else◌, any, all, Map, lookup, insert, remove, retain_values,
  values, Result, ok, err, AppError, app_error, ◌>>=◌, ◌>>◌, refuse_if,
}
use agent_first_mail.Prelude.Int.{ℤ, pos, ltb_ℤ, saturating_sub}

pub record Receipt : Type 0 where
  pub message_id : String
  pub imported_epoch_s : ℤ
  pub content_key : String
  pub quota_managed : Bool
  pub archive_key : Option String
  pub cleanup_complete : Bool

pub data TaskStatus : Type 0 where
  preparing pending completed : TaskStatus

pub record Task : Type 0 where
  pub message_id : String
  pub status : TaskStatus

pub record Batch : Type 0 where
  pub task_id : String
  pub content_keys : List String
  pub retry_after_epoch_s : ℤ
  pub attempt_count : ℕ
  pub last_attempt_rfc3339 : Option String
  pub last_error_code : Option String
  pub last_exit_code : Option ℤ

pub record Journal : Type 0 where
  pub receipts : Map Receipt
  pub tasks : Map Task
  pub active : Option Batch

pub record Document : Type 0 where
  pub schema_name : String
  pub schema_version : ℕ
  pub journal : Journal

pub record CompletionMarker : Type 0 where
  pub schema_name : String
  pub schema_version : ℕ
  pub task_id : String

abbrev pub schema_version : ℕ
schema_version = 2

abbrev pub receipt_retention_s : ℕ
receipt_retention_s = (14 + 1) * 86400

-- `Journal::default()`
abbrev pub default_journal : Journal
default_journal = record { receipts = []; tasks = []; active = none }

abbrev pub is_preparing : TaskStatus → Bool
is_preparing preparing = true
is_preparing _ = false

abbrev pub is_pending : TaskStatus → Bool
is_pending pending = true
is_pending _ = false

abbrev pub is_completed : TaskStatus → Bool
is_completed completed = true
is_completed _ = false

-- `tasks.get(key).is_some_and(|task| task.status == …)`
abbrev pub has_status : (TaskStatus → Bool) → Option Task → Bool
has_status p none = false
has_status p (some task) = p task.status

-- The bytes of an ASCII text. A byte above 127 and a character above 127 are refused alike below.
abbrev pub codes : String → List ℕ
codes String.[] = []
codes (String.◌∷◌ c s) = code c ∷ codes s

pub safe_byte : ℕ → Bool
safe_byte b =
    (leb b'0' b && leb b b'9')
    || (leb b'A' b && leb b b'Z')
    || (leb b'a' b && leb b b'z')
    || b == b'_'
    || b == b'-'

abbrev pub has_key : String → List String → Bool
has_key k [] = false
has_key k (j ∷ keys) = str_eq j k || has_key k keys

-- `unique.len() == content_keys.len()` for the set of the keys
abbrev pub distinct : List String → Bool
distinct [] = true
distinct (k ∷ keys) = not (has_key k keys) && distinct keys

abbrev pub is_empty {ℓ} : {A : Type ℓ} → List A → Bool
is_empty [] = true
is_empty (x ∷ xs) = false

pub safe_task_id : String → Bool
unfolding safe_byte all
safe_task_id id = starts_with id "mail_" && leb (len id) 128 && all safe_byte (codes id)

pub all_pending : Map Task → List String → Bool
unfolding all
all_pending tasks keys = all (λ key. has_status is_pending (lookup key tasks)) keys

abbrev pub journal_invalid : String → AppError
journal_invalid = app_error "consumer_journal_invalid"

pub validate_batch : Map Task → Option Batch → Result (Unit {0})
validate_batch tasks none = ok tt
validate_batch tasks (some active) =
    refuse_if
      (not (safe_task_id active.task_id)
        || is_empty active.content_keys
        || not (distinct active.content_keys)
        || not (all_pending tasks active.content_keys))
      (journal_invalid
        "Active consumer batch must have a safe task id and distinct pending notification tasks")

pub validate_active : Journal → Result (Unit {0})
unfolding validate_batch
validate_active j = validate_batch j.tasks j.active

-- What reading journal.json gave: no file, another failure, bytes that do not parse, a document.
pub data JournalFile : Type 0 where
  not_found : JournalFile
  unreadable : AppError → JournalFile
  unparsable : JournalFile
  document : Document → JournalFile

pub load : JournalFile → Result Journal
load not_found = ok default_journal
load (unreadable e) = err e
load unparsable =
    err (journal_invalid "Cloudflare consumer journal is invalid; restore it from a trusted backup")
load (document doc) = do
  refuse_if
      (not (str_eq doc.schema_name "cloudflare_consumer")
        || not (doc.schema_version == schema_version))
      (journal_invalid "unsupported Cloudflare consumer journal schema")
  validate_active doc.journal
  ok doc.journal

-- The test of `prune` on a receipt.
pub consultable : ℤ → Receipt → Bool
consultable now receipt =
    not receipt.cleanup_complete
    || ltb_ℤ (saturating_sub now receipt.imported_epoch_s) (pos receipt_retention_s)

pub prune : ℤ → Journal → Journal
prune now j = record j {
  tasks = retain_values (λ task. not (is_completed task.status)) j.tasks;
  receipts = retain_values (consultable now) j.receipts;
}

-- The journal in memory, and what reading its file would give.
pub record JournalStore : Type 0 where
  pub journal : Journal
  pub file : JournalFile

abbrev pub write_outcome : Result (Unit {0}) → Journal → JournalFile → JournalFile
write_outcome (ok done) j file =
    document
      (record { schema_name = "cloudflare_consumer"; schema_version = schema_version; journal = j })
write_outcome (err e) j file = file

-- The write is atomic: a failed one leaves the old file, and the pruned journal in memory.
pub save : ℤ → Result (Unit {0}) → JournalStore → Result (Unit {0}) × JournalStore
unfolding prune
save now io s =
    let j = prune now s.journal in (io, record { journal = j; file = write_outcome io j s.file })

-- A change of the journal that is saved.
abbrev pub save_as :
    ℤ → Result (Unit {0}) → JournalStore → Journal → Result (Unit {0}) × JournalStore
save_as now io s j = save now io (record s { journal = j })

-- `index` holds the content ids of the workspace; the key and the message id are those of `raw`.
pub prepare :
    ℤ → Result (Unit {0}) → Map String → String → String → JournalStore → Result Bool × JournalStore
prepare now io index content_key message_id s =
    if not (is_some (lookup content_key index))
      && not (is_some (lookup content_key s.journal.tasks))
    then (let (r, s') = save_as now io s (record s.journal {
      tasks =
          insert content_key (record { message_id = message_id; status = preparing })
            s.journal.tasks;
    }) in
        (r >>= λ _. ok true, s'))
    else (ok false, s)

pub withdraw : ℤ → Result (Unit {0}) → String → JournalStore → Result (Unit {0}) × JournalStore
withdraw now io content_key s =
    if has_status is_preparing (lookup content_key s.journal.tasks)
    then save_as now io s (record s.journal { tasks = remove content_key s.journal.tasks })
    else (ok tt, s)

pub imported :
    ℤ → Result (Unit {0}) → String → Receipt → JournalStore → Result (Unit {0}) × JournalStore
imported now io object_id receipt s = save_as now io s (record s.journal {
  tasks =
      if has_status is_preparing (lookup receipt.content_key s.journal.tasks)
      then insert receipt.content_key (record { message_id = receipt.message_id; status = pending })
          s.journal.tasks
      else s.journal.tasks;
  receipts = insert object_id receipt s.journal.receipts;
})

pub clean_receipt :
    ℤ
    → Result (Unit {0})
    → String
    → Option Receipt
    → JournalStore
    → Result (Unit {0}) × JournalStore
clean_receipt now io object_id none s = (ok tt, s)
clean_receipt now io object_id (some receipt) s = save_as now io s (record s.journal {
  receipts = insert object_id (record receipt { cleanup_complete = true }) s.journal.receipts;
})

pub cleaned : ℤ → Result (Unit {0}) → String → JournalStore → Result (Unit {0}) × JournalStore
unfolding clean_receipt
cleaned now io object_id s = clean_receipt now io object_id (lookup object_id s.journal.receipts) s

count_pending : List Task → ℕ
count_pending [] = 0
count_pending (task ∷ tasks) =
    if is_pending task.status then count_pending tasks + 1 else count_pending tasks

pub pending_count : Journal → ℕ
unfolding count_pending
pending_count j = count_pending (values j.tasks)
