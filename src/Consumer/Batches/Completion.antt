-- ===== src/Consumer/Batches/Completion.antt =====
-- src/sources/cloudflare/journal.rs: folding the completion marker of a batch into the journal.
use agent_first_mail.Prelude.{
  String, ◌≡◌, ◌⊎◌, refl, Bool, true, false, Option, none, some, List, [], ◌∷◌, arith, str_eq, Map,
  lookup, lookup-insert, Result, ok, err, eq_iff, eq_refl, ◌≢◌, if◌then◌else◌, inl, inr, ℕ, ◌≤◌,
}
use agent_first_mail.Consumer.{Task, completed, Batch, Journal, has_key, validate_active}
use agent_first_mail.Consumer.Batches.{
  MarkerFile, entry, uninspectable, fold_marker, apply_marker, missing, max_marker_bytes,
  read_marker, complete_at, complete_tasks, apply_completed,
}

-- A marker that belongs to the batch: a regular file of at most 4096 bytes with the batch's id.
pub record IsMarkerOf (task_id : String) (marker : MarkerFile) : Type 0 where
  pub size : ℕ
  pub bytes : ℕ
  pub is_entry :
      marker
      ≡ entry true size (
          ok (
            bytes,
            some (record {
              schema_name = "mail_received_task_completed";
              schema_version = 1;
              task_id = task_id;
            }),
          ))
  pub small : (size ≤ max_marker_bytes) × (bytes ≤ max_marker_bytes)

abbrev pub mark_done : Option Task → Option Task
mark_done none = none
mark_done (some task) = some (record task { status = completed })

lookup-complete_at :
    (k j : String) (t : Option Task) (m : Map Task)
    → lookup k m ≡ t
    → lookup j (complete_at k t m) ≡ (if str_eq k j then mark_done (lookup j m) else lookup j m)
unfolding complete_at
lookup-complete_at k j none m e = ground (arith, eq_iff k j)
lookup-complete_at k j (some t) m e = rw lookup-insert (ground (arith, eq_iff k j))

-- A task of the batch is completed, with the message it had, and every other task is as it was.
lookup-complete_tasks :
    (keys : List String) (j : String) (m : Map Task)
    → lookup j (complete_tasks keys m)
      ≡ (if has_key j keys then mark_done (lookup j m) else lookup j m)
unfolding complete_tasks
lookup-complete_tasks [] j m = refl
lookup-complete_tasks (k ∷ keys) j m = ground (
  arith,
  lookup-complete_tasks keys j (complete_at k (lookup k m) m),
  lookup-complete_at k j (lookup k m) m refl,
  eq_iff k j,
)

read_marker-ok :
    (id : String) (marker : MarkerFile) → IsMarkerOf id marker → read_marker id marker ≡ ok true
unfolding read_marker
read_marker-ok id marker m = rw m.is_entry (ground (arith, m.small, eq_refl id))

IsMarkerOf-read_marker :
    (id : String) (marker : MarkerFile) → read_marker id marker ≡ ok true → IsMarkerOf id marker
unfolding read_marker
IsMarkerOf-read_marker id missing h = absurd (cc)
IsMarkerOf-read_marker id (uninspectable e) h = absurd (cc)
IsMarkerOf-read_marker id (entry is_file size (err e)) h = absurd (ground arith)
IsMarkerOf-read_marker id (entry is_file size (ok (bytes, none))) h = absurd (ground arith)
IsMarkerOf-read_marker id (entry is_file size (ok (bytes, some mk))) h = record {
  size = size;
  bytes = bytes;
  is_entry =
      ground (arith, eq_iff mk.schema_name "mail_received_task_completed", eq_iff mk.task_id id);
  small = ground arith;
}

apply_completed_folded :
    (j : Journal) (b : Batch) (marker : MarkerFile)
    → validate_active j ≡ ok tt
    → j.active ≡ some b
    → read_marker b.task_id marker ≡ ok true
    → apply_completed marker j
      ≡ (ok true, record j { tasks = complete_tasks b.content_keys j.tasks; active = none })
unfolding apply_completed
apply_completed_folded j b marker v e r = ground (arith, v, e, r)

-- A valid journal with an active batch, and the marker of that batch: the fold succeeds, the batch is
-- over, its tasks are completed, and every other task and every receipt is as it was.
pub apply_completed-marker :
    (j : Journal) (b : Batch) (marker : MarkerFile)
    → validate_active j ≡ ok tt
    → j.active ≡ some b
    → IsMarkerOf b.task_id marker
    → ((apply_completed marker j).0 ≡ ok true)
      × ((apply_completed marker j).1.active ≡ none)
      × ((apply_completed marker j).1.receipts ≡ j.receipts)
      × ((k : String)
          → lookup k (apply_completed marker j).1.tasks
            ≡ (if has_key k b.content_keys then mark_done (lookup k j.tasks) else lookup k j.tasks))
apply_completed-marker j b marker v e m =
    rw (apply_completed_folded j b marker v e (read_marker-ok b.task_id marker m))
      (refl, refl, refl, λ k. lookup-complete_tasks b.content_keys k j.tasks)

apply_completed_fold :
    (j : Journal) (b : Batch) (marker : MarkerFile)
    → validate_active j ≡ ok tt
    → j.active ≡ some b
    → apply_completed marker j ≡ fold_marker j b (read_marker b.task_id marker)
unfolding apply_completed
apply_completed_fold j b marker v e = ground (arith, v, e)

fold_marker_cases :
    (j : Journal) (b : Batch) (r : Result Bool)
    → (r ≡ ok true) ⊎ ((fold_marker j b r).0 ≢ ok true) × ((fold_marker j b r).1 ≡ j)
unfolding fold_marker
fold_marker_cases j b (ok true) = inl refl
fold_marker_cases j b (ok false) = inr (λ e. cc, refl)
fold_marker_cases j b (err e) = inr (λ p. cc, refl)

-- Anything at the marker's path but the marker of the active batch leaves the journal as it was, and
-- is not taken for a completion: another batch's marker, and an oversized, odd or unreadable entry.
pub apply_completed-unchanged :
    (j : Journal) (b : Batch) (marker : MarkerFile)
    → validate_active j ≡ ok tt
    → j.active ≡ some b
    → ¬ IsMarkerOf b.task_id marker
    → ((apply_completed marker j).0 ≢ ok true) × ((apply_completed marker j).1 ≡ j)
apply_completed-unchanged j b marker v e m =
    elim (fold_marker_cases j b (read_marker b.task_id marker)) [
      | inl r ↦ absurd (m (IsMarkerOf-read_marker b.task_id marker r))
      | inr q ↦ rw (apply_completed_fold j b marker v e) q
    ]

fold_marker-valid :
    (j : Journal) (b : Batch) (r : Result Bool)
    → validate_active j ≡ ok tt
    → validate_active (fold_marker j b r).1 ≡ ok tt
unfolding fold_marker
fold_marker-valid j b (ok true) v = unfold validate_active in refl
fold_marker-valid j b (ok false) v = v
fold_marker-valid j b (err e) v = v

apply_marker-valid :
    (marker : MarkerFile) (j : Journal) (a : Option Batch)
    → validate_active j ≡ ok tt
    → validate_active (apply_marker marker j a).1 ≡ ok tt
unfolding apply_marker
apply_marker-valid marker j none v = v
apply_marker-valid marker j (some b) v = fold_marker-valid j b (read_marker b.task_id marker) v

-- The fold keeps a valid journal valid.
pub apply_completed-valid :
    (marker : MarkerFile) (j : Journal)
    → validate_active j ≡ ok tt
    → validate_active (apply_completed marker j).1 ≡ ok tt
unfolding apply_completed
apply_completed-valid marker j v = rw v (apply_marker-valid marker j j.active v)
