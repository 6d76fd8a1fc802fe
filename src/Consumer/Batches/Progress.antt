-- ===== src/Consumer/Batches/Progress.antt =====
-- src/sources/cloudflare/consumer.rs: `dispatch` goes without a batch only if nothing waits.
use agent_first_mail.Prelude.{
  ℕ, ◌≤◌, String, ◌≡◌, refl, Bool, true, false, Option, none, some, List, [], ◌∷◌, ◌++◌, arith,
  lookup, lookup-remove, length, eq_iff, Bool-cases, inl, inr, leb,
}
use agent_first_mail.Consumer.{Task, Batch, has_key, is_pending, is_empty, has_status, all_pending}
use agent_first_mail.Consumer.Batches.{
  Evidence, Drop, dropped, drop_task, drop_unavailable, Chosen, choose, fill_batch, pending_keys,
  choose_batch, refresh_active, take_new,
}
use agent_first_mail.Consumer.Batches.Loops.{
  has_key-pending_keys, all_pending-pending_keys, distinct-pending_keys, drop_unavailable_cases,
  IsLoop-dropped, head_pending, IsLoop,
}

is_empty-append : (keys : List String) (key : String) → is_empty (keys ++ key ∷ []) ≡ false
is_empty-append [] key = refl
is_empty-append (k ∷ keys) key = refl

nonempty_contradiction : {b : Bool} → b ≡ false → b ≡ true → ⊥
nonempty_contradiction p q = cc

full_not_empty :
    (size : ℕ) (keys : List String)
    → 1 ≤ size
    → leb size (length keys) ≡ true
    → is_empty keys ≡ true
    → ⊥
full_not_empty size [] pos full n = ground arith
full_not_empty size (k ∷ keys) pos full n = cc

nonempty-drop_task :
    (evidence : String → Evidence) (key : String) (t : Option Task) (c : Chosen)
    → is_empty c.keys ≡ false
    → is_empty (choose key (drop_task evidence key t c.state) c).keys ≡ false
unfolding drop_task
nonempty-drop_task evidence key none c n = n
nonempty-drop_task evidence key (some t) c n = ground (arith, is_empty-append c.keys key)

module _ (evidence : String → Evidence) where
  nonempty-choose :
      (key : String) (c : Chosen)
      → is_empty c.keys ≡ false
      → is_empty (choose key (drop_unavailable evidence key c.state) c).keys ≡ false
  unfolding drop_unavailable
  nonempty-choose key c n = nonempty-drop_task evidence key (lookup key c.state.journal.tasks) c n

  nonempty-fill_batch :
      (size : ℕ) (keys : List String) (c : Chosen)
      → is_empty c.keys ≡ false
      → is_empty (fill_batch evidence size keys c).keys ≡ false
  unfolding fill_batch
  nonempty-fill_batch size [] c n = n
  nonempty-fill_batch size (key ∷ keys) c n = elim (Bool-cases (leb size (length c.keys))) [
    | inl full ↦ rw full n
    | inr room ↦ rw room (nonempty-fill_batch size keys _ (nonempty-choose key c n))
  ]

  -- A batch that stays empty has used up the keys: none of them waits any more.
  fill_batch_exhausts :
      (size : ℕ) (keys : List String) (c : Chosen)
      → 1 ≤ size
      → IsLoop keys c
      → is_empty (fill_batch evidence size keys c).keys ≡ true
      → (k : String)
      → has_status is_pending (lookup k (fill_batch evidence size keys c).state.journal.tasks)
        ≡ true
      → (has_status is_pending (lookup k c.state.journal.tasks) ≡ true) × (has_key k keys ≡ false)
  unfolding fill_batch
  fill_batch_exhausts size [] c pos l n k w = (w, refl)
  fill_batch_exhausts size (key ∷ keys) c pos l n k w =
      elim (Bool-cases (leb size (length c.keys))) [
        | inl full ↦ absurd (full_not_empty size c.keys pos full (rw full at n))
        | inr room ↦
            elim (drop_unavailable_cases evidence key c.state
              (head_pending c.state.journal.tasks key keys l.to_come)) [
                | inl (m, e) ↦ absurd (
                    nonempty_contradiction
                      (nonempty-fill_batch size keys (choose key (some m, c.state) c)
                        (is_empty-append c.keys key))
                      (rw e at (rw room at n)))
                | inr (p, e) ↦ ground (
                  arith,
                  fill_batch_exhausts size keys (choose key (dropped key p c.state) c) pos
                      (IsLoop-dropped key p keys c l) (rw e at (rw room at n)) k
                      (rw e at (rw room at w)),
                  lookup-remove key k c.state.journal.tasks,
                  eq_iff key k,
                )
              ]
      ]

  take_new-none :
      (digest : List String → String) (size : ℕ) (a : Option Batch) (c : Chosen)
      → 1 ≤ size
      → c.state.journal.active ≡ a
      → (take_new evidence digest size a c).state.journal.active ≡ none
      → (k : String)
      → has_status is_pending (lookup k (take_new evidence digest size a c).state.journal.tasks)
        ≡ false
  unfolding take_new
  take_new-none digest size (some b) c pos e n k = cc
  take_new-none digest size none c pos e n k =
      let keys = pending_keys c.state.journal.tasks in
      let start : Chosen = record { keys = []; items = []; state = c.state } in
      let c' = fill_batch evidence size keys start in
      elim (Bool-cases (is_empty c'.keys)) [
        | inr left ↦ absurd (ground (arith, left))
        | inl nothing ↦
            rw nothing
              (elim (Bool-cases (has_status is_pending (lookup k c'.state.journal.tasks))) [
                | inr out ↦ out
                | inl w ↦ ground (
                  arith,
                  fill_batch_exhausts size keys start pos
                      (record {
                        no_repeat = distinct-pending_keys c.state.journal.tasks;
                        chosen = unfold all_pending in refl;
                        to_come = all_pending-pending_keys c.state.journal.tasks;
                      })
                      nothing k w,
                  has_key-pending_keys k c.state.journal.tasks,
                )
              ])
      ]

  -- With a batch size of at least one, `dispatch` goes without a batch only if no task waits any
  -- more: a message that is gone or damaged never blocks the others.
  pub choose_batch-none :
      (digest : List String → String) (size : ℕ) (d : Drop)
      → 1 ≤ size
      → (choose_batch evidence digest size d).state.journal.active ≡ none
      → (k : String)
      → has_status is_pending (lookup k (choose_batch evidence digest size d).state.journal.tasks)
        ≡ false
  unfolding choose_batch
  choose_batch-none digest size d pos n k =
      let c = refresh_active evidence d.journal.active d in
      take_new-none digest size c.state.journal.active c pos refl n k
