-- ===== src/Push/Queue/Actions/Kept.antt =====
-- src/push_queue/mod.rs: an item whose effects have started keeps its progress when actions are queued.
use mathlib.Core.Path.{subst}
use text.Mathlib.TextLemmas.{append_cancel_left}
use agent_first_mail.Prelude.{
  String, ◌≡◌, ◌≢◌, refl, ◌∙◌, ap, sym, true, false, Bool-cases, Option, none, some, [], ◌∷◌, arith,
  find, str_eq, str_lt, eq_iff, Map, lookup, insert, lookup-insert, ok, inl, inr, ◌==◌,
}
use agent_first_mail.Push.Item.{
  PushItem, PushPayload, draft, message, MessagePushAction, item_message, has_started_steps,
  has_started_effects, stored,
}
use agent_first_mail.Push.Queue.{action_code}
use agent_first_mail.Push.Queue.Actions.{
  is_for_message, find_message_item, message_push_id, action_changed,
  ensure_started_action_unchanged, ensure_unchanged, ActionRequest, action_item, new_action_item,
  snapshot_of,
}

-- The file of a message's push is named for the message, and no other file is.
unfoldable pub Own : String → PushPayload → Type 0
Own k (message m) = k ≡ message_push_id m.message_id
Own k (draft d) = (id : String) → k ≢ message_push_id id

unfoldable pub IsNamed : Map PushItem → Type 0
IsNamed [] = Unit {0}
IsNamed ((k, item) ∷ queue) = Own k item.payload × (item.push_id ≡ k) × IsNamed queue

pushed_as : (id id' : String) → message_push_id id ≡ message_push_id id' → id ≡ id'
unfolding message_push_id
pushed_as id id' e = append_cancel_left "push_message_" id id' e

named_for :
    (k id : String) (item : PushItem)
    → Own k item.payload
    → is_for_message id item ≡ str_eq k (message_push_id id)
unfolding Own
named_for k id item o = go item.payload o
  where
    go :
        (p : PushPayload)
        → Own k p
        → is_for_message id (record item { payload = p }) ≡ str_eq k (message_push_id id)
    go (draft d) h = ground (arith, h id, eq_iff k (message_push_id id))
    go (message m) h =
        ground
          (arith, pushed_as m.message_id id, eq_iff k (message_push_id id), eq_iff m.message_id id)

pub find-lookup :
    (queue : Map PushItem) (id : String)
    → IsNamed queue
    → find_message_item queue id ≡ lookup (message_push_id id) queue
unfolding find_message_item find lookup IsNamed
find-lookup [] id n = refl
find-lookup ((k, item) ∷ queue) id n =
    ground (arith, named_for k id item n.0, find-lookup queue id n.2)

pub IsNamed-insert :
    (k : String) (item : PushItem) (queue : Map PushItem)
    → Own k item.payload
    → item.push_id ≡ k
    → IsNamed queue
    → IsNamed (insert k item queue)
unfolding insert IsNamed
IsNamed-insert k item [] o e n = (o, e, tt)
IsNamed-insert k item ((j, other) ∷ queue) o e n = elim (Bool-cases (str_eq j k)) [
  | inl same ↦ rw same (o, e, n.2)
  | inr differs ↦ elim (Bool-cases (str_lt k j)) [
    | inl below ↦ rw (differs, below) (o, e, n)
    | inr above ↦ rw (differs, above) (n.0, n.1, IsNamed-insert k item queue o e n.2)
  ]
]

-- What an item keeps.
pub record Kept (before after : PushItem) : Type 0 where
  pub same_id : after.push_id ≡ before.push_id
  pub same_payload : after.payload ≡ before.payload
  pub same_seq : after.enqueue_seq ≡ before.enqueue_seq
  pub same_states : after.step_states ≡ before.step_states
  pub same_stage : after.local_stage ≡ before.local_stage
  pub same_audit : after.audit_pending ≡ before.audit_pending
  pub same_attempts : after.attempt_count ≡ before.attempt_count
  pub same_creation : after.created_rfc3339 ≡ before.created_rfc3339

pub Kept-refl : (item : PushItem) → Kept item item
Kept-refl item = record {
  same_id = refl;
  same_payload = refl;
  same_seq = refl;
  same_states = refl;
  same_stage = refl;
  same_audit = refl;
  same_attempts = refl;
  same_creation = refl;
}

pub Kept-trans : (a b c : PushItem) → Kept a b → Kept b c → Kept a c
Kept-trans a b c h g = record {
  same_id = g.same_id ∙ h.same_id;
  same_payload = g.same_payload ∙ h.same_payload;
  same_seq = g.same_seq ∙ h.same_seq;
  same_states = g.same_states ∙ h.same_states;
  same_stage = g.same_stage ∙ h.same_stage;
  same_audit = g.same_audit ∙ h.same_audit;
  same_attempts = g.same_attempts ∙ h.same_attempts;
  same_creation = g.same_creation ∙ h.same_creation;
}

pub started-Kept :
    (a b : PushItem) → Kept a b → has_started_effects a ≡ true → has_started_effects b ≡ true
unfolding has_started_effects has_started_steps
started-Kept a b h s = ground (arith, h.same_states, h.same_stage, h.same_audit)

same_code : (a b : MessagePushAction) → (action_code a == action_code b) ≡ true → a ≡ b
same_code a b h = ground arith

module _ (request : ActionRequest) (now : String) (queue : Map PushItem) (id : String) where
  pub action_item_id :
      (o : Option PushItem) → (action_item request now queue id o).push_id ≡ message_push_id id
  unfolding action_item new_action_item
  action_item_id none = refl
  action_item_id (some existing) =
      elim (Bool-cases (action_changed request.action (some existing))) [
        | inl changed ↦ rw changed refl
        | inr same ↦ rw same refl
      ]

  pub action_item-Own :
      (o : Option PushItem) → Own (message_push_id id) (action_item request now queue id o).payload
  unfolding action_item new_action_item Own
  action_item-Own none = refl
  action_item-Own (some existing) =
      elim (Bool-cases (action_changed request.action (some existing))) [
        | inl changed ↦ rw changed refl
        | inr same ↦ rw same refl
      ]

  same_message :
      (item : PushItem) (p : PushPayload)
      → Own (message_push_id id) p
      → action_changed request.action (some (record item { payload = p })) ≡ false
      → message (record {
        message_id = id;
        action = request.action;
        message_action_snapshot = snapshot_of (item_message (record item { payload = p }));
      })
        ≡ p
  unfolding Own
  same_message item (draft d) o h = absurd (o id refl)
  same_message item (message m) o h =
      ap (λ i. message (record m { message_id = i; action = request.action }))
        (pushed_as id m.message_id o)
      ∙ ap (λ a. message (record m { action = a }))
          (sym (same_code m.action request.action (ground (arith, h))))

  action_item-Kept :
      (item : PushItem)
      → Own (message_push_id id) item.payload
      → item.push_id ≡ message_push_id id
      → action_changed request.action (some item) ≡ false
      → Kept item (stored (action_item request now queue id (some item)))
  unfolding action_item new_action_item
  action_item-Kept item o e h = rw h (record {
    same_id = sym e;
    same_payload = same_message item item.payload o h;
    same_seq = refl;
    same_states = refl;
    same_stage = refl;
    same_audit = refl;
    same_attempts = refl;
    same_creation = refl;
  })

-- What one round leaves of an item that has started.
pub record Leaves (k : String) (item : PushItem) (queue : Map PushItem) : Type 0 where
  pub named : IsNamed queue
  pub after : PushItem
  pub there : lookup k queue ≡ some after
  pub kept : Kept item after

named_at :
    (queue : Map PushItem) (k : String) (item : PushItem)
    → IsNamed queue
    → lookup k queue ≡ some item
    → Own k item.payload × (item.push_id ≡ k)
unfolding lookup IsNamed
named_at [] k item n h = absurd (cc)
named_at ((j, other) ∷ queue) k item n h = elim (Bool-cases (str_eq j k)) [
  | inl same ↦
      let at_k : j ≡ k = ground (arith, eq_iff j k) in
      let it : other ≡ item = ground arith in
      subst (λ i. Own i item.payload × (item.push_id ≡ i)) at_k
        (subst (λ (x : PushItem). Own j x.payload × (x.push_id ≡ j)) it (n.0, n.1))
  | inr differs ↦ named_at queue k item n.2 (rw differs at h)
]

unchanged_action :
    (action : MessagePushAction) (item : PushItem)
    → has_started_effects item ≡ true
    → ensure_unchanged action (some item) ≡ ok tt
    → action_changed action (some item) ≡ false
unfolding ensure_unchanged ensure_started_action_unchanged
unchanged_action action item s c = ground arith

module _ (now : String) (request : ActionRequest) (queue : Map PushItem) (k id : String)
    (item : PushItem) (n : IsNamed queue) (h : lookup k queue ≡ some item)
    (s : has_started_effects item ≡ true)
    (c : ensure_unchanged request.action (find_message_item queue id) ≡ ok tt) where
  abbrev new : PushItem
  new = action_item request now queue id (find_message_item queue id)

  new-IsNamed : IsNamed (insert new.push_id (stored new) queue)
  new-IsNamed =
      let named = action_item_id request now queue id (find_message_item queue id) in
      subst (λ j. IsNamed (insert j (stored new) queue)) (sym named)
        (IsNamed-insert (message_push_id id) (stored new) queue
          (action_item-Own request now queue id (find_message_item queue id)) named n)

  replaced-Kept : message_push_id id ≡ k → Kept item (stored new)
  replaced-Kept e =
      let found : find_message_item queue id ≡ some item =
        find-lookup queue id n ∙ ap (λ j. lookup j queue) e ∙ h in
      let (own, named) = named_at queue k item n h in
      subst (λ o. Kept item (stored (action_item request now queue id o))) (sym found)
        (action_item-Kept request now queue id item (subst (λ j. Own j item.payload) (sym e) own)
          (named ∙ sym e)
          (unchanged_action request.action item s
            (ap (ensure_unchanged request.action) (sym found) ∙ c)))

  pub stored-Leaves : Leaves k item (insert new.push_id (stored new) queue)
  stored-Leaves = elim (Bool-cases (str_eq new.push_id k)) [
    | inl same ↦ record {
      named = new-IsNamed;
      after = stored new;
      there = rw lookup-insert (rw same refl);
      kept = replaced-Kept (
          sym (action_item_id request now queue id (find_message_item queue id))
          ∙ ground (arith, eq_iff new.push_id k));
    }
    | inr differs ↦ record {
      named = new-IsNamed;
      after = item;
      there = rw lookup-insert (rw differs h);
      kept = Kept-refl item;
    }
  ]

  pub same-Leaves : Leaves k item queue
  same-Leaves = record { named = n; after = item; there = h; kept = Kept-refl item }
