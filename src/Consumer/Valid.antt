-- ===== src/Consumer/Valid.antt =====
-- src/sources/cloudflare/journal.rs: what `validate_active` accepts, and what keeps it.
use agent_first_mail.Prelude.{
  String, ◌≡◌, ◌≢◌, ◌⊎◌, refl, true, false, Option, none, some, List, [], ◌∷◌, arith, Map, lookup,
  insert, remove, lookup-insert, lookup-remove, lookup-retain_values, ok, eq_iff,
}
use agent_first_mail.Prelude.Int.{ℤ}
use agent_first_mail.Consumer.{
  Task, Batch, Journal, has_key, distinct, is_pending, has_status, safe_task_id, all_pending,
  validate_batch, validate_active, prune,
}

-- Membership as a predicate.
abbrev pub Holds : String → List String → Type 0
Holds k keys = has_key k keys ≡ true

-- The checks of an active batch, one by one.
pub record IsReady (tasks : Map Task) (b : Batch) : Type 0 where
  pub safe : safe_task_id b.task_id ≡ true
  pub nonempty : b.content_keys ≢ []
  pub no_repeat : distinct b.content_keys ≡ true
  pub waiting :
      (k : String) → Holds k b.content_keys → has_status is_pending (lookup k tasks) ≡ true

-- Every task that waits in the first map waits in the second.
abbrev pub KeepsPending : Map Task → Map Task → Type 0
KeepsPending m m' =
    (k : String)
    → has_status is_pending (lookup k m) ≡ true
    → has_status is_pending (lookup k m') ≡ true

pub all_pending-of :
    (tasks : Map Task) (keys : List String) (k : String)
    → all_pending tasks keys ≡ true
    → Holds k keys
    → has_status is_pending (lookup k tasks) ≡ true
unfolding all_pending
all_pending-of tasks [] k h m = cc
all_pending-of tasks (j ∷ keys) k h m = ground (arith, eq_iff j k, all_pending-of tasks keys k)

pub of-all_pending :
    (tasks : Map Task) (keys : List String)
    → ((k : String) → Holds k keys → has_status is_pending (lookup k tasks) ≡ true)
    → all_pending tasks keys ≡ true
unfolding all_pending
of-all_pending tasks [] h = refl
of-all_pending tasks (j ∷ keys) h =
    ground (arith, h j, eq_iff j j, of-all_pending tasks keys (λ k m. h k (ground arith)))

pub IsReady-of_valid :
    (tasks : Map Task) (b : Batch) → validate_batch tasks (some b) ≡ ok tt → IsReady tasks b
unfolding validate_batch
IsReady-of_valid tasks b h = record {
  safe = ground arith;
  nonempty = λ e. ground (arith, e);
  no_repeat = ground arith;
  waiting = λ k m. ground (arith, all_pending-of tasks b.content_keys k);
}

pub valid-of_IsReady :
    (tasks : Map Task) (b : Batch) → IsReady tasks b → validate_batch tasks (some b) ≡ ok tt
unfolding validate_batch
valid-of_IsReady tasks b r =
    ground (arith, r.safe, r.nonempty, r.no_repeat, of-all_pending tasks b.content_keys r.waiting)

validate_batch_mono :
    (m m' : Map Task) (a : Option Batch)
    → KeepsPending m m'
    → validate_batch m a ≡ ok tt
    → validate_batch m' a ≡ ok tt
validate_batch_mono m m' none keep h = unfold validate_batch in refl
validate_batch_mono m m' (some b) keep h =
    let r = IsReady-of_valid m b h in
    valid-of_IsReady m' b (record {
      safe = r.safe;
      nonempty = r.nonempty;
      no_repeat = r.no_repeat;
      waiting = λ k held. keep k (r.waiting k held);
    })

-- A change that lets every waiting task wait on, and leaves the batch alone, keeps the journal valid.
pub validate_active_mono :
    (j j' : Journal)
    → j'.active ≡ j.active
    → KeepsPending j.tasks j'.tasks
    → validate_active j ≡ ok tt
    → validate_active j' ≡ ok tt
unfolding validate_active
validate_active_mono j j' e keep h = rw e (validate_batch_mono j.tasks j'.tasks j.active keep h)

pub KeepsPending-insert :
    (k : String) (t : Task) (m : Map Task)
    → (has_status is_pending (lookup k m) ≡ false) ⊎ (is_pending t.status ≡ true)
    → KeepsPending m (insert k t m)
KeepsPending-insert k t m h j w = rw lookup-insert (ground (arith, eq_iff k j))

pub KeepsPending-remove :
    (k : String) (m : Map Task)
    → has_status is_pending (lookup k m) ≡ false
    → KeepsPending m (remove k m)
KeepsPending-remove k m h j w = rw lookup-remove (ground (arith, eq_iff k j))

pub KeepsPending-prune : (now : ℤ) (j : Journal) → KeepsPending j.tasks (prune now j).tasks
unfolding prune
KeepsPending-prune now j k w = rw lookup-retain_values (ground arith)
