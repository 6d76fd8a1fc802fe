-- ===== src/Idempotency/Tests.antt =====
-- src/store/idempotency.rs: a request that adds one to a number, and its repetition.
use agent_first_mail.Prelude.{
  ℕ, ◌+◌, ◌≡◌, ◌≢◌, refl, true, none, [], ◌∷◌, map, arith, lookup, insert, ok, app_error,
}
use agent_first_mail.Idempotency.{
  Requests, Request, Outside, validate_request, run_idempotent_request_with_precheck, run_all,
}
use agent_first_mail.Idempotency.Once.{disarm, effect_once}
use agent_first_mail.Idempotency.Replay.{replay_same}

abbrev outside : Outside ℕ ℕ
outside = record {
  time = λ tick. "now";
  write_error = λ tick. none;
  fail_after = none;
  require_workspace = λ world. ok tt;
  is_path_segment = λ value. true;
  fingerprint = λ command input. "hash";
}

abbrev adding : ℕ → Request ℕ ℕ (Unit {0})
adding n = record {
  request_id = "r1";
  command = "add";
  input = 5;
  precheck = λ world. ok tt;
  operation = λ prepared world. (ok (world + n), world + n);
}

abbrev fresh : Requests ℕ ℕ
fresh = record { files = []; world = 0; tick = 0 }

first_adds : (run_idempotent_request_with_precheck outside (adding 1) fresh).1.world ≡ 1
unfolding run_idempotent_request_with_precheck lookup insert
first_adds = refl

first_answers : (run_idempotent_request_with_precheck outside (adding 1) fresh).0 ≡ ok 1
unfolding run_idempotent_request_with_precheck lookup insert
first_answers = refl

first_has_effect :
    (run_idempotent_request_with_precheck outside (adding 1) fresh).1.world ≢ fresh.world
first_has_effect same = omega (arith, same, first_adds)

still_valid :
    validate_request outside
      (adding 9)
      (run_idempotent_request_with_precheck outside (adding 1) fresh).1.world
    ≡ ok tt
unfolding validate_request
still_valid = refl

effect_once_example :
    run_all outside
      (map (disarm "r1" (app_error "twice" "run before")) (adding 2 ∷ adding 3 ∷ []))
      (run_idempotent_request_with_precheck outside (adding 1) fresh).1
    ≡ run_all outside
        (adding 2 ∷ adding 3 ∷ [])
        (run_idempotent_request_with_precheck outside (adding 1) fresh).1
effect_once_example =
    effect_once outside (adding 1) fresh first_has_effect (app_error "twice" "run before")
      (adding 2 ∷ adding 3 ∷ [])

replay_same_example :
    run_idempotent_request_with_precheck outside
      (adding 9)
      (run_idempotent_request_with_precheck outside (adding 1) fresh).1
    ≡ (ok 1, (run_idempotent_request_with_precheck outside (adding 1) fresh).1)
replay_same_example =
    replay_same outside (adding 1) (adding 9) 1 fresh refl refl refl first_answers still_valid
