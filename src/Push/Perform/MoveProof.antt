-- ===== src/Push/Perform/MoveProof.antt =====
-- src/push_queue/execute.rs: recover_remote_outcome_unknown_move, the evidence that a move whose target
-- places were not told is complete. The mark of the step that follows is `succeed_if` of the loop.
pub mod Evidence
mod Tests
use Prim.Native.String.{◌++◌ as str_append}
use agent_first_mail.Prelude.{
  ℕ, zero, suc, String, ◌≡◌, ◌⊎◌, refl, ◌∙◌, inl, inr, Bool, true, false, not, ◌&&◌, Bool-cases,
  Option, none, some, List, [], ◌∷◌, ◌++◌, arith, any, find, retain, get_elem?, str_eq, is_some,
  if◌then◌else◌, Map, insert, keys, map, Result, ok, err, AppError, app_error,
}
use agent_first_mail.Push.Mail.{RemoteLocation}
use agent_first_mail.Push.Item.{ActionStep, PushLocation, PushItem, message_ids}
use agent_first_mail.Push.Session.{Session, Exec, continue, ◌>>=◌, ◌>>◌, done, ask}
use agent_first_mail.Push.Execute.{find_absence_is_nonfatal}
use agent_first_mail.Push.Perform.{
  Services, MessageFile, matches_push, same_place, is_active_place, answer, refuse, require,
  action_locations,
}

-- A message with the places that the plan moves it from.
pub record Reconciled : Type 0 where
  pub message_id : String
  pub message : MessageFile
  pub sources : List PushLocation

-- A message with the place that it was moved to.
pub record Located : Type 0 where
  pub message_id : String
  pub sources : List PushLocation
  pub target : RemoteLocation

abbrev planned_at : List PushLocation → RemoteLocation → Bool
planned_at sources existing = any (λ source. matches_push existing source) sources

unfoldable pub has_active_planned_source : MessageFile → List PushLocation → Bool
unfolding any
has_active_planned_source message sources =
    any (λ existing. is_active_place existing && planned_at sources existing) message.locations

unfoldable pub sources_of : List PushLocation → String → List PushLocation
unfolding retain
sources_of places message_id =
    retain (λ (place : PushLocation). str_eq place.message_id message_id) places

-- The active places without the planned sources, and with the target once.
relocated : List PushLocation → RemoteLocation → List RemoteLocation → List RemoteLocation
unfolding any retain
relocated sources target locations =
    let left =
      retain (λ existing. not (planned_at sources existing)) (retain is_active_place locations) in
    if any (λ existing. same_place existing target) left then left else left ++ target ∷ []

abbrev with_first : {A : Type 0} → A → Option (List A) → Option (List A)
with_first a none = none
with_first a (some rest) = some (a ∷ rest)

abbrev pub is_target : String → RemoteLocation → Bool
is_target folder location = str_eq location.mailbox_name folder && is_active_place location

set_of : List String → Map (Unit {0}) → Map (Unit {0})
unfolding insert
set_of [] ids = ids
set_of (id ∷ rest) ids = set_of rest (insert id tt ids)

abbrev absent_or : Result (Option RemoteLocation) → Result (Option RemoteLocation)
absent_or (ok found) = ok found
absent_or (err e) = if find_absence_is_nonfatal e then ok none else err e

module _ {R : Type 0} (services : Services R)
    (find_by_message_id : Session R → String → String → Result (Option RemoteLocation) × R) where
  abbrev unless_active : {A : Type 0} → Bool → Exec R (Option A) → Exec R (Option A)
  unless_active true m = answer none
  unless_active false m = m

  -- `none` is the early answer that nothing is proved.
  reconcile_sources : List PushLocation → List String → Exec R (Option (List Reconciled))
  unfolding has_active_planned_source sources_of
  reconcile_sources places [] = answer (some [])
  reconcile_sources places (id ∷ ids) = do
    message ← ask (λ s. services.read_message_by_id s id)
    unless_active (has_active_planned_source message (sources_of places id)) (do
      rest ← reconcile_sources places ids
      answer (
          with_first (record { message_id = id; message = message; sources = sources_of places id })
            rest))

  remote_target : String → String → Exec R (Option RemoteLocation)
  unfolding find_absence_is_nonfatal
  remote_target folder rfc822_id s =
      let (r, remote) = find_by_message_id s folder rfc822_id in
      (absent_or r, record s { remote = remote; tick = suc s.tick })

  local_or_remote : String → String → Option RemoteLocation → Exec R (Option RemoteLocation)
  unfolding remote_target
  local_or_remote folder rfc822_id (some location) = answer (some location)
  local_or_remote folder rfc822_id none = remote_target folder rfc822_id

  find_target : String → Reconciled → Exec R (Option RemoteLocation)
  unfolding local_or_remote find require
  find_target folder r = do
    rfc822_id ←
        require
          (app_error "rfc822_message_id_missing"
            (str_append "message cannot be verified after remote move: " r.message_id))
          r.message.rfc822_message_id
    local_or_remote folder rfc822_id (find (is_target folder) r.message.locations)

  located_with :
      Reconciled
      → Option RemoteLocation
      → Exec R (Option (List Located))
      → Exec R (Option (List Located))
  located_with r none rest = answer none
  located_with r (some target) rest = do
    later ← rest
    answer (
        with_first (record { message_id = r.message_id; sources = r.sources; target = target })
          later)

  locate : String → List Reconciled → Exec R (Option (List Located))
  unfolding find_target located_with
  locate folder [] = answer (some [])
  locate folder (r ∷ rest) = do
    target ← find_target folder r
    located_with r target (locate folder rest)

  relocate_all : List Located → Exec R (Unit {0})
  unfolding relocated
  relocate_all [] = done
  relocate_all (l ∷ rest) = do
    message ← ask (λ s. services.read_message_by_id s l.message_id)
    ask (λ s.
        services.relocate_message s l.message_id (relocated l.sources l.target message.locations))
    relocate_all rest

  with_targets : Option (List Located) → Exec R Bool
  unfolding relocate_all
  with_targets none = answer false
  with_targets (some located) = do relocate_all located; answer true

  with_sources : String → Option (List Reconciled) → Exec R Bool
  unfolding locate with_targets
  with_sources mailbox_id none = answer false
  with_sources mailbox_id (some reconciled) = do
    folder ← ask (λ s. services.action_mailbox_folder s mailbox_id)
    located ← locate folder reconciled
    with_targets located

  unfoldable pub prove_messages : List PushLocation → List String → String → Exec R Bool
  unfolding reconcile_sources with_sources
  prove_messages places [] mailbox_id = answer false
  prove_messages places (id ∷ ids) mailbox_id = do
    reconciled ← reconcile_sources places (id ∷ ids)
    with_sources mailbox_id reconciled

  -- The messages are those of the item and of the planned places.
  unfoldable pub recover_remote_outcome_unknown_move : ActionStep → String → Exec R Bool
  unfolding action_locations prove_messages set_of message_ids
  recover_remote_outcome_unknown_move step mailbox_id = do
    places ← action_locations services step
    λ s.
        prove_messages places
          (keys (
            set_of (map (λ (place : PushLocation). place.message_id) places)
              (set_of (message_ids s.item) [])))
          mailbox_id s
