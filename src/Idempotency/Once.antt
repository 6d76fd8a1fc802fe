-- ===== src/Idempotency/Once.antt =====
-- src/store/idempotency.rs: an attempt with an effect leaves a record, and a record stays and stops
-- the operations of later attempts.
use agent_first_mail.Prelude.{
  suc, String, ◌≡◌, ◌≢◌, refl, ◌∙◌, ap, Bool, true, Option, none, some, List, [], ◌∷◌, map, str_eq,
  opt_is, is_some, if◌then◌else◌, arith, eq_iff, eq_refl, lookup, lookup-insert, Result, ok, err,
  AppError, Bool-cases, inl, inr,
}
use agent_first_mail.Idempotency.{
  IdempotencyRecord, RecordFile, Requests, Request, Outside, validate_request, record_of, saved_if,
  finish, start, begin, look_up, proceed, run_idempotent_request_with_precheck, run_all,
}

-- The request, with an operation that fails without an effect if it has the id.
abbrev pub disarm : {V W T : Type 0} → String → AppError → Request V W T → Request V W T
disarm id e q = record q {
  operation = λ prepared world.
      if str_eq q.request_id id then (err e, world) else q.operation prepared world;
}

abbrev pub has_record : {V W : Type 0} → String → Requests V W → Bool
has_record id s = is_some (lookup id s.files)

has_record-saved_if :
    {V W : Type 0} (id : String) (o : Option AppError) (found : IdempotencyRecord V)
    (s : Requests V W)
    → has_record id s ≡ true
    → has_record id (saved_if o found s) ≡ true
has_record-saved_if id none found s h = rw lookup-insert (ground (arith, h))
has_record-saved_if id (some e) found s h = h

module _ {V W T : Type 0} (outside : Outside V W) where
  has_record-finish :
      (id : String) (q : Request V W T) (created : String) (r : Result V) (s : Requests V W)
      → has_record id s ≡ true
      → has_record id (finish outside q created r s).1 ≡ true
  unfolding finish
  has_record-finish id q created (err e) s h = h
  has_record-finish id q created (ok value) s h =
      elim (Bool-cases (opt_is outside.fail_after q.request_id)) [
        | inl stopped ↦ rw stopped h
        | inr further ↦ rw further (has_record-saved_if id _ _ (record s { tick = suc s.tick }) h)
      ]

  has_record-start :
      (id : String) (q : Request V W T) (prepared : T) (created : String) (o : Option AppError)
      (s : Requests V W)
      → has_record id s ≡ true
      → has_record id (start outside q prepared created o s).1 ≡ true
  unfolding start
  has_record-start id q prepared created none s h =
      let (r, world) = q.operation prepared s.world in
      has_record-finish id q created r (record s { world = world; tick = suc s.tick }) h
  has_record-start id q prepared created (some e) s h = h

  has_record-begin :
      (id : String) (q : Request V W T) (r : Result T) (s : Requests V W)
      → has_record id s ≡ true
      → has_record id (begin outside q r s).1 ≡ true
  unfolding begin
  has_record-begin id q (err e) s h = h
  has_record-begin id q (ok prepared) s h = has_record-start id q prepared _ _ _ (
      has_record-saved_if id (outside.write_error (suc s.tick)) _ (record s { tick = suc s.tick })
        h)

  has_record-look_up :
      (id : String) (q : Request V W T) (o : Option (RecordFile V)) (s : Requests V W)
      → has_record id s ≡ true
      → has_record id (look_up outside q o s).1 ≡ true
  unfolding look_up
  has_record-look_up id q none s h = has_record-begin id q (q.precheck s.world) s h
  has_record-look_up id q (some file) s h = h

  has_record-proceed :
      (id : String) (q : Request V W T) (r : Result (Unit {0})) (s : Requests V W)
      → has_record id s ≡ true
      → has_record id (proceed outside q r s).1 ≡ true
  unfolding proceed
  has_record-proceed id q (err e) s h = h
  has_record-proceed id q (ok valid) s h = has_record-look_up id q (lookup q.request_id s.files) s h

  -- An attempt with an effect leaves a record.
  effect-start :
      (q : Request V W T) (prepared : T) (created : String) (o : Option AppError)
      (found : IdempotencyRecord V) (s : Requests V W)
      → found.request_id ≡ q.request_id
      → (start outside q prepared created o (saved_if o found s)).1.world ≢ s.world
      → has_record q.request_id (start outside q prepared created o (saved_if o found s)).1 ≡ true
  unfolding start
  effect-start q prepared created (some e) found s same changed = absurd (changed refl)
  effect-start q prepared created none found s same changed =
      let (r, world) = q.operation prepared s.world in
      has_record-finish q.request_id q created r _
        (rw lookup-insert (rw (same, eq_refl q.request_id) refl))

  effect-begin :
      (q : Request V W T) (r : Result T) (s : Requests V W)
      → (begin outside q r s).1.world ≢ s.world
      → has_record q.request_id (begin outside q r s).1 ≡ true
  unfolding begin record_of
  effect-begin q (err e) s changed = absurd (changed refl)
  effect-begin q (ok prepared) s changed =
      effect-start q prepared _ (outside.write_error (suc s.tick)) _
        (record s { tick = suc s.tick }) refl changed

  effect-look_up :
      (q : Request V W T) (o : Option (RecordFile V)) (s : Requests V W)
      → (look_up outside q o s).1.world ≢ s.world
      → has_record q.request_id (look_up outside q o s).1 ≡ true
  unfolding look_up
  effect-look_up q none s changed = effect-begin q (q.precheck s.world) s changed
  effect-look_up q (some file) s changed = absurd (changed refl)

  effect-proceed :
      (q : Request V W T) (r : Result (Unit {0})) (s : Requests V W)
      → (proceed outside q r s).1.world ≢ s.world
      → has_record q.request_id (proceed outside q r s).1 ≡ true
  unfolding proceed
  effect-proceed q (err e) s changed = absurd (changed refl)
  effect-proceed q (ok valid) s changed = effect-look_up q (lookup q.request_id s.files) s changed

  disarm-look_up :
      (id : String) (e : AppError) (q : Request V W T) (o : Option (RecordFile V))
      (s : Requests V W)
      → is_some o ≡ true
      → look_up outside (disarm id e q) o s ≡ look_up outside q o s
  unfolding look_up
  disarm-look_up id e q none s h = absurd (cc)
  disarm-look_up id e q (some file) s h = refl

  disarm-proceed :
      (id : String) (e : AppError) (q : Request V W T) (r : Result (Unit {0})) (s : Requests V W)
      → has_record id s ≡ true
      → q.request_id ≡ id
      → proceed outside (disarm id e q) r s ≡ proceed outside q r s
  unfolding proceed
  disarm-proceed id e q (err x) s h same = refl
  disarm-proceed id e q (ok valid) s h same =
      disarm-look_up id e q (lookup q.request_id s.files) s (ap (λ i. has_record i s) same ∙ h)

  disarm-run :
      (id : String) (e : AppError) (q : Request V W T) (s : Requests V W)
      → has_record id s ≡ true
      → run_idempotent_request_with_precheck outside (disarm id e q) s
        ≡ run_idempotent_request_with_precheck outside q s
  unfolding run_idempotent_request_with_precheck validate_request
  disarm-run id e q s h = elim (Bool-cases (str_eq q.request_id id)) [
    | inl same ↦
        disarm-proceed id e q (validate_request outside q s.world) s h
          (ground (arith, same, eq_iff q.request_id id))
    | inr other ↦ rw other refl
  ]

  has_record-run :
      (id : String) (q : Request V W T) (s : Requests V W)
      → has_record id s ≡ true
      → has_record id (run_idempotent_request_with_precheck outside q s).1 ≡ true
  unfolding run_idempotent_request_with_precheck
  has_record-run id q s h = has_record-proceed id q (validate_request outside q s.world) s h

  disarm-run_all :
      (id : String) (e : AppError) (requests : List (Request V W T)) (s : Requests V W)
      → has_record id s ≡ true
      → run_all outside (map (disarm id e) requests) s ≡ run_all outside requests s
  unfolding run_all
  disarm-run_all id e [] s h = refl
  disarm-run_all id e (q ∷ requests) s h =
      let (r, t) = run_idempotent_request_with_precheck outside q s in
      rw (disarm-run id e q s h)
        (rw (disarm-run_all id e requests t (has_record-run id q s h)) refl)

  -- After an attempt that changed anything but the records, whatever its answer, no later attempt
  -- with the same request id runs an operation: with operations that fail there at once, whatever the
  -- error, any sequence of attempts gives the same answers and the same workspace.
  pub effect_once :
      (q : Request V W T) (s : Requests V W)
      → (run_idempotent_request_with_precheck outside q s).1.world ≢ s.world
      → (e : AppError) (later : List (Request V W T))
      → run_all outside
          (map (disarm q.request_id e) later)
          (run_idempotent_request_with_precheck outside q s).1
        ≡ run_all outside later (run_idempotent_request_with_precheck outside q s).1
  unfolding run_idempotent_request_with_precheck
  effect_once q s changed e later =
      disarm-run_all q.request_id e later _
        (effect-proceed q (validate_request outside q s.world) s changed)
