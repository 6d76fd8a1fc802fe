-- ===== src/Idempotency/Replay.antt =====
-- src/store/idempotency.rs: the answer of a request that succeeded is the answer of its repetitions.
use agent_first_mail.Prelude.{
  suc, String, ◌≡◌, refl, ◌∙◌, ap, Option, none, some, opt_is, eq_refl, lookup, lookup-insert,
  Result, ok, err, AppError, Bool-cases, inl, inr,
}
use agent_first_mail.Idempotency.{
  RecordFile, readable, Requests, Request, Outside, validate_request, replay, record_of, answered,
  saved_if, finish, start, begin, look_up, proceed, run_idempotent_request_with_precheck,
}

module _ {V W T : Type 0} (outside : Outside V W) where
  -- The answer that a record gives to the request.
  abbrev answer_of : Request V W T → Option (RecordFile V) → Option (Result V)
  answer_of q none = none
  answer_of q (some file) =
      some (replay q.request_id q.command (outside.fingerprint q.command q.input) file)

  answer-record_of :
      (q : Request V W T) (created updated : String) (value : V)
      → replay q.request_id q.command
          (outside.fingerprint q.command q.input)
          (readable (record_of outside q "completed" created updated (some value)))
        ≡ ok value
  unfolding replay record_of
  answer-record_of q created updated value =
      rw (eq_refl q.command, eq_refl (outside.fingerprint q.command q.input)) refl

  answer-saved_if :
      (o : Option AppError) (q : Request V W T) (created updated : String) (value answer : V)
      (s : Requests V W)
      → answered o value ≡ ok answer
      → answer_of q (
          lookup q.request_id
            (saved_if o (record_of outside q "completed" created updated (some value)) s).files)
        ≡ some (ok answer)
  unfolding record_of
  answer-saved_if (some e) q created updated value answer s h = absurd (cc)
  answer-saved_if none q created updated value answer s h =
      rw lookup-insert
        (rw (eq_refl q.request_id) (ap some (answer-record_of q created updated value ∙ h)))

  answer-finish :
      (q : Request V W T) (created : String) (r : Result V) (answer : V) (s : Requests V W)
      → (finish outside q created r s).0 ≡ ok answer
      → answer_of q (lookup q.request_id (finish outside q created r s).1.files) ≡ some (ok answer)
  unfolding finish
  answer-finish q created (err e) answer s h = absurd (cc)
  answer-finish q created (ok value) answer s h =
      elim (Bool-cases (opt_is outside.fail_after q.request_id)) [
        | inl stopped ↦ absurd (let g = rw stopped at h in cc)
        | inr further ↦ rw further (
            answer-saved_if (outside.write_error (suc s.tick)) q created (outside.time s.tick) value
              answer (record s { tick = suc s.tick }) (rw further at h))
      ]

  answer-start :
      (q : Request V W T) (prepared : T) (created : String) (o : Option AppError) (answer : V)
      (s : Requests V W)
      → (start outside q prepared created o s).0 ≡ ok answer
      → answer_of q (lookup q.request_id (start outside q prepared created o s).1.files)
        ≡ some (ok answer)
  unfolding start
  answer-start q prepared created (some e) answer s h = absurd (cc)
  answer-start q prepared created none answer s h =
      let (r, world) = q.operation prepared s.world in
      answer-finish q created r answer (record s { world = world; tick = suc s.tick }) h

  answer-begin :
      (q : Request V W T) (r : Result T) (answer : V) (s : Requests V W)
      → (begin outside q r s).0 ≡ ok answer
      → answer_of q (lookup q.request_id (begin outside q r s).1.files) ≡ some (ok answer)
  unfolding begin
  answer-begin q (err e) answer s h = absurd (cc)
  answer-begin q (ok prepared) answer s h =
      answer-start q prepared _ (outside.write_error (suc s.tick)) answer _ h

  answer-look_up :
      (q : Request V W T) (o : Option (RecordFile V)) (answer : V) (s : Requests V W)
      → lookup q.request_id s.files ≡ o
      → (look_up outside q o s).0 ≡ ok answer
      → answer_of q (lookup q.request_id (look_up outside q o s).1.files) ≡ some (ok answer)
  unfolding look_up
  answer-look_up q none answer s there h = answer-begin q (q.precheck s.world) answer s h
  answer-look_up q (some file) answer s there h = ap (answer_of q) there ∙ ap some h

  answer-proceed :
      (q : Request V W T) (r : Result (Unit {0})) (answer : V) (s : Requests V W)
      → (proceed outside q r s).0 ≡ ok answer
      → answer_of q (lookup q.request_id (proceed outside q r s).1.files) ≡ some (ok answer)
  unfolding proceed
  answer-proceed q (err e) answer s h = absurd (cc)
  answer-proceed q (ok valid) answer s h =
      answer-look_up q (lookup q.request_id s.files) answer s refl h

  look_up-answered :
      (q q' : Request V W T) (o : Option (RecordFile V)) (answer : V) (s : Requests V W)
      → q'.request_id ≡ q.request_id
      → q'.command ≡ q.command
      → q'.input ≡ q.input
      → answer_of q o ≡ some (ok answer)
      → look_up outside q' o s ≡ (ok answer, s)
  unfolding look_up
  look_up-answered q q' none answer s id command input h = absurd (cc)
  look_up-answered q q' (some file) answer s id command input h =
      rw (id, command, input) (ap (λ r. (r, s)) (cc))

  -- When a request has been answered with a value, a repetition of it, with the same id, command and
  -- input but any check and operation, gives that value and changes nothing, if its validation
  -- passes.
  pub replay_same :
      (q q' : Request V W T) (answer : V) (s : Requests V W)
      → q'.request_id ≡ q.request_id
      → q'.command ≡ q.command
      → q'.input ≡ q.input
      → (run_idempotent_request_with_precheck outside q s).0 ≡ ok answer
      → validate_request outside q' (run_idempotent_request_with_precheck outside q s).1.world
        ≡ ok tt
      → run_idempotent_request_with_precheck outside q'
          (run_idempotent_request_with_precheck outside q s).1
        ≡ (ok answer, (run_idempotent_request_with_precheck outside q s).1)
  unfolding run_idempotent_request_with_precheck proceed
  replay_same q q' answer s id command input h valid =
      let t = (proceed outside q (validate_request outside q s.world) s).1 in
      rw valid (
        ap (λ i. look_up outside q' (lookup i t.files) t) id
        ∙ look_up-answered q q' (lookup q.request_id t.files) answer t id command input
            (answer-proceed q (validate_request outside q s.world) answer s h))
