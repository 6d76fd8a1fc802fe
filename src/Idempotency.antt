-- ===== src/Idempotency.antt =====
-- src/store/idempotency.rs: a request id names one effect. The record of a request is on disk before
-- its operation starts, and a later attempt reads the record instead of running the operation again.
pub mod Once
pub mod Replay
mod Tests
use Prim.Native.String.{◌++◌ as str_append}
use agent_first_mail.Prelude.{
  ℕ, suc, ◌==◌, String, Bool, true, false, not, ◌&&◌, ◌||◌, Option, none, some, List, [], ◌∷◌,
  str_eq, opt_is, if◌then◌else◌, Map, lookup, insert, Result, ok, err, ◌>>◌, refuse_if, AppError,
  app_error,
}

pub record IdempotencyRecord (V : Type 0) : Type 0 where
  pub schema_name : String
  pub schema_version : ℕ
  pub request_id : String
  pub command : String
  pub input_hash : String
  pub status : String
  pub created_rfc3339 : String
  pub updated_rfc3339 : String
  pub result : Option V

-- What is at the path of a request's record.
pub data RecordFile (V : Type 0) : Type 0 where
  unreadable : AppError → RecordFile V
  readable : IdempotencyRecord V → RecordFile V

-- The directory of records, and the rest of the workspace with the remote side.
pub record Requests (V W : Type 0) : Type 0 where
  pub files : Map (RecordFile V)
  pub world : W
  pub tick : ℕ

-- The arguments of `run_idempotent_request_with_precheck`.
pub record Request (V W T : Type 0) : Type 0 where
  pub request_id : String
  pub command : String
  pub input : V
  pub precheck : W → Result T
  pub operation : T → W → Result V × W

-- The clock, the failed writes, the variable AFMAIL_TEST_FAIL_IDEMPOTENCY_AFTER_OPERATION, what
-- `require_workspace` finds, the test of a path segment, and the BLAKE3 fingerprint of the JSON.
pub record Outside (V W : Type 0) : Type 0 where
  pub time : ℕ → String
  pub write_error : ℕ → Option AppError
  pub fail_after : Option String
  pub require_workspace : W → Result (Unit {0})
  pub is_path_segment : String → Bool
  pub fingerprint : String → V → String

abbrev validate_id : {V W : Type 0} → Outside V W → String → String → Result (Unit {0})
validate_id outside label value = refuse_if (not (outside.is_path_segment value)) (
    app_error "invalid_request"
      (str_append "invalid " (str_append label ": must be a single path segment")))

abbrev pub answered : {A : Type 0} → Option AppError → A → Result A
answered (some e) a = err e
answered none a = ok a

module _ {V : Type 0} where
  completed_result : String → Option V → Result V
  completed_result request_id (some value) = ok value
  completed_result request_id none = err (
      app_error "idempotency_record_invalid"
        (str_append "completed idempotency record has no result: " request_id))

  -- The answer from the record of an earlier attempt. The path in the text of the first error, the
  -- details and the hint are left out.
  unfoldable pub replay : String → String → String → RecordFile V → Result V
  unfolding completed_result
  replay request_id command input_hash (unreadable e) = err e
  replay request_id command input_hash (readable found) =
      if not (str_eq found.schema_name "idempotency_request" && found.schema_version == 1)
      then err (app_error "idempotency_record_invalid" "invalid idempotency record schema")
      else if not (str_eq found.command command && str_eq found.input_hash input_hash)
      then err (
          app_error "idempotency_conflict" (
            str_append "request id "
              (str_append request_id " was already used with different input")))
      else if str_eq found.status "completed"
      then completed_result request_id found.result
      else err (
          app_error "idempotency_incomplete"
            (str_append "request id " (str_append request_id " has an incomplete prior attempt")))

module _ {V W : Type 0} where
  -- `write_json_pretty` writes the whole file or nothing.
  abbrev pub saved_if : Option AppError → IdempotencyRecord V → Requests V W → Requests V W
  saved_if (some e) found s = record s { tick = suc s.tick }
  saved_if none found s = record s {
    files = insert found.request_id (readable found) s.files;
    tick = suc s.tick;
  }

module _ {V W T : Type 0} (outside : Outside V W) where
  unfoldable pub validate_request : Request V W T → W → Result (Unit {0})
  validate_request q world =
      outside.require_workspace world
      >> validate_id outside "request_id" q.request_id
      >> validate_id outside "idempotency command" q.command

  unfoldable pub record_of :
      Request V W T → String → String → String → Option V → IdempotencyRecord V
  record_of q status created updated result = record {
    schema_name = "idempotency_request";
    schema_version = 1;
    request_id = q.request_id;
    command = q.command;
    input_hash = outside.fingerprint q.command q.input;
    status = status;
    created_rfc3339 = created;
    updated_rfc3339 = updated;
    result = result;
  }

  -- From the answer of the operation on.
  unfoldable pub finish : Request V W T → String → Result V → Requests V W → Result V × Requests V W
  unfolding record_of
  finish q created (err e) s = (err e, s)
  finish q created (ok value) s =
      if opt_is outside.fail_after q.request_id
      then (
        err (
            app_error "idempotency_after_operation_test_failure" (
              str_append "test failure after idempotent operation "
                (str_append q.command (str_append " for " q.request_id)))),
        s,
      )
      else (
        answered (outside.write_error (suc s.tick)) value,
        saved_if (outside.write_error (suc s.tick))
            (record_of q "completed" created (outside.time s.tick) (some value))
            (record s { tick = suc s.tick }),
      )

  -- From the write of the pending record on.
  unfoldable pub start :
      Request V W T → T → String → Option AppError → Requests V W → Result V × Requests V W
  unfolding finish
  start q prepared created (some e) s = (err e, s)
  start q prepared created none s =
      let (r, world) = q.operation prepared s.world in
      finish q created r (record s { world = world; tick = suc s.tick })

  unfoldable pub begin : Request V W T → Result T → Requests V W → Result V × Requests V W
  unfolding start record_of
  begin q (err e) s = (err e, s)
  begin q (ok prepared) s =
      let now = outside.time s.tick in
      let failed = outside.write_error (suc s.tick) in
      start q prepared now failed
        (saved_if failed (record_of q "pending" now now none) (record s { tick = suc s.tick }))

  unfoldable pub look_up :
      Request V W T → Option (RecordFile V) → Requests V W → Result V × Requests V W
  unfolding begin replay
  look_up q (some file) s =
      (replay q.request_id q.command (outside.fingerprint q.command q.input) file, s)
  look_up q none s = begin q (q.precheck s.world) s

  unfoldable pub proceed :
      Request V W T → Result (Unit {0}) → Requests V W → Result V × Requests V W
  unfolding look_up
  proceed q (err e) s = (err e, s)
  proceed q (ok valid) s = look_up q (lookup q.request_id s.files) s

  -- The entry point, which `run_idempotent_request` calls without a check.
  unfoldable pub run_idempotent_request_with_precheck :
      Request V W T → Requests V W → Result V × Requests V W
  unfolding proceed validate_request
  run_idempotent_request_with_precheck q s = proceed q (validate_request q s.world) s

  -- One attempt after another, with their answers.
  unfoldable pub run_all : List (Request V W T) → Requests V W → List (Result V) × Requests V W
  unfolding run_idempotent_request_with_precheck
  run_all [] s = ([], s)
  run_all (q ∷ requests) s =
      let (r, t) = run_idempotent_request_with_precheck q s in
      let (results, u) = run_all requests t in (r ∷ results, u)
