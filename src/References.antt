-- ===== src/References.antt =====
-- src/store/refs.rs: the index of the messages that cases refer to. What the workspace holds of a case
-- is an argument, with the name of the folder above it.
pub mod Scan
pub mod Build
mod Tests
use Prim.Native.String.{◌++◌ as str_append}
use agent_first_mail.Prelude.{
  ℕ, zero, suc, String, Bool, true, false, not, ◌||◌, Option, none, some, List, [], ◌∷◌, ◌++◌, any,
  get_elem?, str_eq, str_lt, is_some, if◌then◌else◌, Map, lookup, insert, Result, ok, err, ◌>>=◌,
  ◌>>◌, refuse_if, AppError, app_error,
}

-- A set in the order of its keys.
place_id : String → List String → List String
place_id key [] = key ∷ []
place_id key (first ∷ rest) =
    let later = place_id key rest in if str_lt key first then key ∷ first ∷ rest else first ∷ later

abbrev pub member : String → List String → Bool
member key keys = any (λ first. str_eq first key) keys

pub set_insert : String → List String → List String
unfolding place_id any
set_insert key keys = if member key keys then keys else place_id key keys

unfoldable pub id_set : List String → List String → List String
unfolding set_insert
id_set [] keys = keys
id_set (key ∷ rest) keys = id_set rest (set_insert key keys)

pub record CaseIndexEntry : Type 0 where
  pub case_uid : String
  pub group : String
  pub path : String
  pub status : String
  pub message_ids : List String

pub record CaseIndex : Type 0 where
  pub entries : List CaseIndexEntry
  pub entries_by_message : Map (List ℕ)

pub record CaseMessages : Type 0 where
  pub status : String
  pub message_ids : List String

-- A folder of a case: the file of its messages is there or not, and can be read or not.
pub record CaseFolder : Type 0 where
  pub case_uid : String
  pub group : String
  pub path : String
  pub has_json : Bool
  pub messages : Result CaseMessages

abbrev pub is_active_status : String → Bool
is_active_status status = str_eq status ""

abbrev pub is_archived_status : String → Bool
is_archived_status status = str_eq status "archiving" || str_eq status "archived"

-- `{:?}` of a status without characters that it escapes
abbrev quoted : String → String
quoted status = str_append "\"" (str_append status "\"")

abbrev metadata_invalid : String → AppError
metadata_invalid text = app_error "case_metadata_invalid" text

abbrev active_invalid : CaseFolder → String → AppError
active_invalid folder status = metadata_invalid (
    str_append "active case " (
      str_append folder.case_uid
        (str_append " must have an empty canonical status, found " (quoted status))))

abbrev archived_invalid : CaseFolder → String → AppError
archived_invalid folder status = metadata_invalid (
    str_append "case " (
      str_append folder.case_uid
        (str_append " stored under archived-cases has invalid canonical status " (quoted status))))

abbrev entry_of : CaseFolder → CaseMessages → CaseIndexEntry
entry_of folder messages = record {
  case_uid = folder.case_uid;
  group = folder.group;
  path = folder.path;
  status = messages.status;
  message_ids = id_set messages.message_ids [];
}

abbrev read_entry :
    (String → Bool)
    → (CaseFolder → String → AppError)
    → CaseFolder
    → Result (List CaseIndexEntry)
    → Result (List CaseIndexEntry)
read_entry valid invalid folder later = do
  messages ← folder.messages
  refuse_if (not (valid messages.status)) (invalid folder messages.status)
  entries ← later
  ok (entry_of folder messages ∷ entries)

-- The folders without a file of messages are passed over.
read_entries :
    (String → Bool)
    → (CaseFolder → String → AppError)
    → List CaseFolder
    → Result (List CaseIndexEntry)
unfolding id_set
read_entries valid invalid [] = ok []
read_entries valid invalid (folder ∷ folders) =
    let later = read_entries valid invalid folders in
    if folder.has_json then read_entry valid invalid folder later else later

abbrev pub or_default : Option (List ℕ) → List ℕ
or_default none = []
or_default (some places) = places

pub index_ids : ℕ → List String → Map (List ℕ) → Map (List ℕ)
unfolding lookup insert
index_ids entry_index [] index = index
index_ids entry_index (id ∷ ids) index =
    index_ids entry_index ids (insert id (or_default (lookup id index) ++ entry_index ∷ []) index)

pub index_entries : ℕ → List CaseIndexEntry → Map (List ℕ) → Map (List ℕ)
unfolding index_ids
index_entries entry_index [] index = index
index_entries entry_index (entry ∷ entries) index =
    index_entries (suc entry_index) entries (index_ids entry_index entry.message_ids index)

-- `CaseIndex::build`, over the active and the archived cases
unfoldable pub build : List CaseFolder → List CaseFolder → Result CaseIndex
unfolding read_entries index_entries
build active archived = do
  first ← read_entries is_active_status active_invalid active
  second ← read_entries is_archived_status archived_invalid archived
  let entries = first ++ second
  ok (record { entries = entries; entries_by_message = index_entries 0 entries [] })

abbrev cons_some : {A : Type 0} → Option A → List A → List A
cons_some none xs = xs
cons_some (some x) xs = x ∷ xs

pub entries_at : List CaseIndexEntry → List ℕ → List CaseIndexEntry
entries_at entries [] = []
entries_at entries (place ∷ places) =
    cons_some (get_elem? entries place) (entries_at entries places)

unfoldable pub entries_for_message : CaseIndex → String → List CaseIndexEntry
unfolding entries_at lookup
entries_for_message index id =
    entries_at index.entries (or_default (lookup id index.entries_by_message))

unfoldable pub has_any_reference : CaseIndex → String → Bool
unfolding lookup
has_any_reference index id = is_some (lookup id index.entries_by_message)

unfoldable pub has_active_reference : CaseIndex → String → Bool
unfolding entries_for_message any
has_active_reference index id =
    any (λ (entry : CaseIndexEntry). is_active_status entry.status) (entries_for_message index id)

unfoldable pub has_archived_reference : CaseIndex → String → Bool
unfolding entries_for_message any
has_archived_reference index id =
    any (λ (entry : CaseIndexEntry). is_archived_status entry.status) (entries_for_message index id)
