-- ===== src/Push/Perform/MoveProof/Evidence.antt =====
-- src/push_queue/execute.rs: what is known of each message when a lost move is taken for done.
use mathlib.Core.Path.{subst}
use Prim.Native.String.{◌++◌ as str_append}
use agent_first_mail.Prelude.{
  ℕ, zero, suc, String, ◌≡◌, refl, ◌∙◌, ap, sym, inl, inr, true, false, Bool-cases, Option, none,
  some, List, [], ◌∷◌, arith, find, get_elem?, Map, map, keys, lookup, insert, lookup-insert,
  str_eq, eq_iff, Result, ok, err, AppError, app_error,
}
use agent_first_mail.Push.Mail.{RemoteLocation}
use agent_first_mail.Push.Item.{ActionStep, PushItem, PushLocation, message_ids}
use agent_first_mail.Push.Session.{Session, Exec, continue}
use agent_first_mail.Push.Perform.{Services, MessageFile, require, action_locations}
use agent_first_mail.Push.Perform.Executors.Quiet.{Still-action_locations}
use agent_first_mail.Push.Perform.MoveProof.{
  Reconciled, Located, has_active_planned_source, sources_of, is_target, with_first, absent_or,
  reconcile_sources, remote_target, local_or_remote, find_target, located_with, locate,
  with_targets, with_sources, prove_messages, set_of, recover_remote_outcome_unknown_move,
}

module _ {R : Type 0} where
  -- An answer of two actions in sequence is one of the second, after an answer of the first.
  answered :
      {A B : Type 0} (r : Result A) (f : A → Exec R B) (t : Session R) (b : B)
      → (continue r f t).0 ≡ ok b
      → (a : A) × (r ≡ ok a) × ((f a t).0 ≡ ok b)
  answered (ok a) f t b e = (a, refl, e)
  answered (err x) f t b e = absurd (cc)

set_keeps :
    (xs : List String) (ids : Map (Unit {0})) (id : String)
    → lookup id ids ≡ some tt
    → lookup id (set_of xs ids) ≡ some tt
unfolding set_of
set_keeps [] ids id h = h
set_keeps (x ∷ xs) ids id h =
    set_keeps xs (insert x tt ids) id (lookup-insert x id tt ids ∙ ground (arith, h))

set_has :
    (xs : List String) (ids : Map (Unit {0})) (id : String) (n : ℕ)
    → get_elem? xs n ≡ some id
    → lookup id (set_of xs ids) ≡ some tt
unfolding set_of
set_has [] ids id n h = absurd (cc)
set_has (x ∷ xs) ids id zero h =
    set_keeps xs (insert x tt ids) id (lookup-insert x id tt ids ∙ ground (arith, eq_iff x id))
set_has (x ∷ xs) ids id (suc n) h = set_has xs (insert x tt ids) id n h

key_place :
    (ids : Map (Unit {0})) (id : String)
    → lookup id ids ≡ some tt
    → (n : ℕ) × (get_elem? (keys ids) n ≡ some id)
unfolding lookup
key_place [] id h = absurd (cc)
key_place ((k, v) ∷ ids) id h = elim (Bool-cases (str_eq k id)) [
  | inl same ↦ (0, ground (arith, eq_iff k id))
  | inr differs ↦ let (n, at) = key_place ids id (rw differs at h) in (suc n, at)
]

module _ {R : Type 0} (services : Services R)
    (find_by_message_id : Session R → String → String → Result (Option RemoteLocation) × R) where
  -- The message as it was read has no planned source left.
  pub record Gone (places : List PushLocation) (id : String) (r : Reconciled) : Type 0 where
    pub named : r.message_id ≡ id
    pub session : Session R
    pub read : (services.read_message_by_id session id).0 ≡ ok r.message
    pub inactive : has_active_planned_source r.message (sources_of places id) ≡ false

  nothing :
      {A : Type 0} (o : Result (Option (List A))) (xs : List A) → o ≡ ok none → o ≡ ok (some xs) → ⊥
  nothing o xs e h = cc

  first_inverse :
      {A : Type 0} (a : A) (o : Option (List A)) (xs : List A)
      → ok (with_first a o) ≡ ok (some xs)
      → (rest : List A) × (o ≡ some rest) × (xs ≡ a ∷ rest)
  first_inverse a none xs e = absurd (cc)
  first_inverse a (some rest) xs e = (rest, refl, cc)

  -- The message at place n of the list is found so.
  abbrev GoneAt : List PushLocation → String → List Reconciled → ℕ → Type 0
  GoneAt places id rs n = (r : Reconciled) × (get_elem? rs n ≡ some r) × Gone places id r

  abbrev reconciled_as : List PushLocation → String → MessageFile → Reconciled
  reconciled_as places id message = record {
    message_id = id;
    message = message;
    sources = sources_of places id;
  }

  cons-Gone :
      (places : List PushLocation) (first id : String) (ids : List String) (message : MessageFile)
      (s : Session R) (rest : List Reconciled) (n : ℕ)
      → (services.read_message_by_id s first).0 ≡ ok message
      → has_active_planned_source message (sources_of places first) ≡ false
      → get_elem? (first ∷ ids) n ≡ some id
      → ((m : ℕ) → get_elem? ids m ≡ some id → GoneAt places id rest m)
      → GoneAt places id (reconciled_as places first message ∷ rest) n
  cons-Gone places first id ids message s rest zero read clear h later =
      let same : first ≡ id = ground arith in
      (
        reconciled_as places first message,
        refl,
        record {
          named = same;
          session = s;
          read = subst (λ i. (services.read_message_by_id s i).0 ≡ ok message) same read;
          inactive =
              subst (λ i. has_active_planned_source message (sources_of places i) ≡ false) same
                clear;
        },
      )
  cons-Gone places first id ids message s rest (suc m) read clear h later = later m h

  sources-Gone :
      (places : List PushLocation) (ids : List String) (s : Session R) (rs : List Reconciled)
      (n : ℕ) (id : String)
      → (reconcile_sources services find_by_message_id places ids s).0 ≡ ok (some rs)
      → get_elem? ids n ≡ some id
      → GoneAt places id rs n
  unfolding reconcile_sources
  sources-Gone places [] s rs n id e h = absurd (cc)
  sources-Gone places (first ∷ ids) s rs n id e h =
      let (r, remote) = services.read_message_by_id s first in
      let t = record s { remote = remote; tick = suc s.tick } in
      let (message, read, e1) = answered r _ t (some rs) e in
      elim (Bool-cases (has_active_planned_source message (sources_of places first))) [
        | inl active ↦ absurd (nothing (ok none) rs refl (rw active at e1))
        | inr clear ↦
            let (q, u) = reconcile_sources services find_by_message_id places ids t in
            let (o, eo, e2) = answered q _ u (some rs) (rw clear at e1) in
            let (rest, er, ers) = first_inverse (reconciled_as places first message) o rs e2 in
            subst (λ xs. GoneAt places id xs n) (sym ers)
              (cons-Gone places first id ids message s rest n read clear h
                λ m g. sources-Gone places ids t rest m id (eo ∙ ap ok er) g)
      ]

  -- Where the message was found after the move.
  pub data Target (folder : String) (message : MessageFile) : Type 0 where
    known :
        (place : RemoteLocation)
        → find (is_target folder) message.locations ≡ some place
        → Target folder message
    found :
        (id : String) (s : Session R) (place : RemoteLocation)
        → message.rfc822_message_id ≡ some id
        → (find_by_message_id s folder id).0 ≡ ok (some place)
        → Target folder message

  remote-Target :
      (folder id : String) (message : MessageFile) (s : Session R) (place : RemoteLocation)
      (r : Result (Option RemoteLocation))
      → message.rfc822_message_id ≡ some id
      → (find_by_message_id s folder id).0 ≡ r
      → absent_or r ≡ ok (some place)
      → Target folder message
  remote-Target folder id message s place (ok (some other)) m f e = found id s other m f
  remote-Target folder id message s place (ok none) m f e = absurd (cc)
  remote-Target folder id message s place (err x) m f e = absurd (ground arith)

  local-Target :
      (folder id : String) (message : MessageFile) (s : Session R) (place : RemoteLocation)
      (o : Option RemoteLocation)
      → message.rfc822_message_id ≡ some id
      → find (is_target folder) message.locations ≡ o
      → (local_or_remote services find_by_message_id folder id o s).0 ≡ ok (some place)
      → Target folder message
  unfolding local_or_remote remote_target
  local-Target folder id message s place (some other) m f e = known other f
  local-Target folder id message s place none m f e =
      remote-Target folder id message s place _ m refl e

  required :
      {A : Type 0} (x : AppError) (o : Option A) (s : Session R) (a : A)
      → (require x o s).0 ≡ ok a
      → o ≡ some a
  unfolding require
  required x none s a e = absurd (cc)
  required x (some b) s a e = cc

  found-Target :
      (folder : String) (r : Reconciled) (s : Session R) (place : RemoteLocation)
      → (find_target services find_by_message_id folder r s).0 ≡ ok (some place)
      → Target folder r.message
  unfolding find_target
  found-Target folder r s place e =
      let (q, t) =
        require
          (app_error "rfc822_message_id_missing"
            (str_append "message cannot be verified after remote move: " r.message_id))
          r.message.rfc822_message_id s in
      let (id, m, e') = answered q _ t (some place) e in
      local-Target folder id r.message t place (find (is_target folder) r.message.locations)
        (required _ r.message.rfc822_message_id s id m) refl e'

  next-Target :
      (folder : String) (first : Reconciled) (rest : List Reconciled) (s t : Session R)
      (o : Option RemoteLocation) (ls : List Located) (n : ℕ) (r : Reconciled)
      → (find_target services find_by_message_id folder first s).0 ≡ ok o
      → (located_with services find_by_message_id first o
          (locate services find_by_message_id folder rest)
          t).0
        ≡ ok (some ls)
      → get_elem? (first ∷ rest) n ≡ some r
      → ((later : List Located) (m : ℕ)
          → (locate services find_by_message_id folder rest t).0 ≡ ok (some later)
          → get_elem? rest m ≡ some r
          → Target folder r.message)
      → Target folder r.message
  unfolding located_with
  next-Target folder first rest s t none ls n r eo e h later = absurd (cc)
  next-Target folder first rest s t (some place) ls zero r eo e h later =
      let same : first ≡ r = ground arith in
      subst (λ (x : Reconciled). Target folder x.message) same
        (found-Target folder first s place eo)
  next-Target folder first rest s t (some place) ls (suc m) r eo e h later =
      let (q, u) = locate services find_by_message_id folder rest t in
      let (o, eq, e1) = answered q _ u (some ls) e in
      let (xs, ex, es) =
        first_inverse
          (record { message_id = first.message_id; sources = first.sources; target = place }) o ls
          e1 in
      later xs m (eq ∙ ap ok ex) h

  located-Target :
      (folder : String) (rs : List Reconciled) (s : Session R) (ls : List Located) (n : ℕ)
      (r : Reconciled)
      → (locate services find_by_message_id folder rs s).0 ≡ ok (some ls)
      → get_elem? rs n ≡ some r
      → Target folder r.message
  unfolding locate located_with
  located-Target folder [] s ls n r e h = absurd (cc)
  located-Target folder (first ∷ rest) s ls n r e h =
      let (q, t) = find_target services find_by_message_id folder first s in
      let (o, eo, e1) = answered q _ t (some ls) e in
      next-Target folder first rest s t o ls n r eo e1 h
        λ later m. located-Target folder rest t later m r

  -- What is known of a message when a lost move is taken for done: it was read with none of its planned
  -- sources active, and it is in the folder of the target, by its own places or by a search for its
  -- Message-ID.
  pub record Proved (places : List PushLocation) (mailbox_id id : String) : Type 0 where
    pub reconciled : Reconciled
    pub gone : Gone places id reconciled
    pub folder : String
    pub asked : Session R
    pub resolved : (services.action_mailbox_folder asked mailbox_id).0 ≡ ok folder
    pub target : Target folder reconciled.message

  some_targets :
      (o : Option (List Located)) (t : Session R)
      → (with_targets services find_by_message_id o t).0 ≡ ok true
      → (ls : List Located) × (o ≡ some ls)
  unfolding with_targets
  some_targets none t e = absurd (cc)
  some_targets (some ls) t e = (ls, refl)

  with_sources-Proved :
      (places : List PushLocation) (mailbox_id id : String) (n : ℕ) (t : Session R)
      (o : Option (List Reconciled))
      → (with_sources services find_by_message_id mailbox_id o t).0 ≡ ok true
      → ((rs : List Reconciled) → o ≡ some rs → GoneAt places id rs n)
      → Proved places mailbox_id id
  unfolding with_sources with_targets
  with_sources-Proved places mailbox_id id n t none e g = absurd (cc)
  with_sources-Proved places mailbox_id id n t (some rs) e g =
      let (q, remote) = services.action_mailbox_folder t mailbox_id in
      let u = record t { remote = remote; tick = suc t.tick } in
      let (folder, ef, e1) = answered q _ u true e in
      let (l, v) = locate services find_by_message_id folder rs u in
      let (o, eo, e2) = answered l _ v true e1 in
      let (ls, eq) = some_targets o v e2 in
      let (r, at, gone) = g rs refl in
      record {
        reconciled = r;
        gone = gone;
        folder = folder;
        asked = t;
        resolved = ef;
        target = located-Target folder rs u ls n r (eo ∙ ap ok eq) at;
      }

  prove_messages-Proved :
      (places : List PushLocation) (ids : List String) (mailbox_id : String) (s : Session R)
      → (prove_messages services find_by_message_id places ids mailbox_id s).0 ≡ ok true
      → (n : ℕ) (id : String) → get_elem? ids n ≡ some id
      → Proved places mailbox_id id
  unfolding prove_messages
  prove_messages-Proved places [] mailbox_id s e n id h = absurd (cc)
  prove_messages-Proved places (first ∷ rest) mailbox_id s e n id h =
      let (q, t) = reconcile_sources services find_by_message_id places (first ∷ rest) s in
      let (o, eo, e1) = answered q _ t true e in
      with_sources-Proved places mailbox_id id n t o e1
        λ rs g. sources-Gone places (first ∷ rest) s rs n id (eo ∙ ap ok g) h

  -- When the recovery of a lost move succeeds, then for each message of the item, with the planned places
  -- of the step: the message was read with none of those active, and it is in the folder of the target,
  -- by its own places or by a search for its Message-ID.
  pub recover_remote_outcome_unknown_move-Proved :
      (step : ActionStep) (mailbox_id : String) (s : Session R) (n : ℕ) (id : String)
      → (recover_remote_outcome_unknown_move services find_by_message_id step mailbox_id s).0
        ≡ ok true
      → get_elem? (message_ids s.item) n ≡ some id
      → (places : List PushLocation) × ((action_locations services step s).0 ≡ ok places)
        × Proved places mailbox_id id
  unfolding recover_remote_outcome_unknown_move
  recover_remote_outcome_unknown_move-Proved step mailbox_id s n id e h' =
      let (q, t) = action_locations services step s in
      let (places, ep, e1) = answered q _ t true e in
      let h =
        subst (λ (x : PushItem). get_elem? (message_ids x) n ≡ some id)
          (sym ((Still-action_locations services step).item s)) h' in
      let others = map (λ (place : PushLocation). place.message_id) places in
      let own = set_of (message_ids t.item) [] in
      let (m, at) =
        key_place (set_of others own) id
          (set_keeps others own id (set_has (message_ids t.item) [] id n h)) in
      (places, ep, prove_messages-Proved places (keys (set_of others own)) mailbox_id t e1 m id at)
