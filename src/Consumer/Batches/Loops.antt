-- ===== src/Consumer/Batches/Loops.antt =====
-- src/sources/cloudflare/consumer.rs: what the two loops of `dispatch` over task keys keep.
use mathlib.Core.List.{append_assoc}
use agent_first_mail.Prelude.{
  ℕ, String, ◌≡◌, ◌⊎◌, refl, true, false, ◌||◌, Option, none, some, List, [], ◌∷◌, ◌++◌, arith,
  str_eq, Map, lookup, remove, lookup-remove, length, AppError, eq_iff, if◌then◌else◌, Bool-cases,
  inl, inr, leb,
}
use agent_first_mail.Consumer.{Task, has_key, distinct, is_pending, has_status, all_pending}
use agent_first_mail.Consumer.Valid.{of-all_pending}
use agent_first_mail.Consumer.Batches.{
  Evidence, gone, damaged, readable, Drop, dropped, drop_by_evidence, drop_task, drop_unavailable,
  Chosen, choose, keep_available, fill_batch, without_key, pending_keys,
}

pub has_key-append :
    (k : String) (xs ys : List String) → has_key k (xs ++ ys) ≡ (has_key k xs || has_key k ys)
has_key-append k [] ys = refl
has_key-append k (x ∷ xs) ys = ground (arith, has_key-append k xs ys)

pub distinct_middle :
    (k : String) (xs ys : List String)
    → distinct (xs ++ k ∷ ys) ≡ true
    → (distinct (xs ++ ys) ≡ true) × (has_key k xs ≡ false) × (has_key k ys ≡ false)
distinct_middle k [] ys h = ground arith
distinct_middle k (x ∷ xs) ys h = ground (
  arith,
  distinct_middle k xs ys,
  has_key-append x xs (k ∷ ys),
  has_key-append x xs ys,
  eq_iff k x,
  eq_iff x k,
)

pub all_pending-append :
    (tasks : Map Task) (xs ys : List String)
    → all_pending tasks (xs ++ ys) ≡ (if all_pending tasks xs then all_pending tasks ys else false)
unfolding all_pending
all_pending-append tasks [] ys = refl
all_pending-append tasks (x ∷ xs) ys = ground (arith, all_pending-append tasks xs ys)

pub all_pending-remove :
    (k : String) (tasks : Map Task) (xs : List String)
    → has_key k xs ≡ false
    → all_pending tasks xs ≡ true
    → all_pending (remove k tasks) xs ≡ true
unfolding all_pending
all_pending-remove k tasks [] n h = refl
all_pending-remove k tasks (x ∷ xs) n h =
    ground (arith, all_pending-remove k tasks xs, lookup-remove k x tasks, eq_iff k x, eq_iff x k)

pub has_key-without_key :
    (k j : String) (keys : List String)
    → has_key j (without_key k keys) ≡ (if str_eq k j then false else has_key j keys)
has_key-without_key k j [] = ground arith
has_key-without_key k j (i ∷ keys) =
    ground (arith, eq_iff i k, eq_iff i j, eq_iff k j, has_key-without_key k j keys)

pub distinct-without_key :
    (k : String) (keys : List String) → distinct keys ≡ true → distinct (without_key k keys) ≡ true
distinct-without_key k [] h = refl
distinct-without_key k (i ∷ keys) h =
    ground
      (arith, distinct-without_key k keys, has_key-without_key k i keys, eq_iff i k, eq_iff k i)

-- The keys that the loop walks are those of the waiting tasks.
pub has_key-pending_keys :
    (k : String) (m : Map Task) → has_key k (pending_keys m) ≡ has_status is_pending (lookup k m)
unfolding pending_keys lookup
has_key-pending_keys k [] = refl
has_key-pending_keys k ((j, t) ∷ m) =
    ground (arith, eq_iff j k, has_key-pending_keys k m, has_key-without_key j k (pending_keys m))

pub all_pending-pending_keys : (m : Map Task) → all_pending m (pending_keys m) ≡ true
all_pending-pending_keys m =
    of-all_pending m (pending_keys m) (λ k held. rw (← has_key-pending_keys k m) held)

pub distinct-pending_keys : (m : Map Task) → distinct (pending_keys m) ≡ true
unfolding pending_keys
distinct-pending_keys [] = refl
distinct-pending_keys ((j, t) ∷ m) = ground (
  arith,
  eq_iff j j,
  has_key-without_key j j (pending_keys m),
  distinct-pending_keys m,
  distinct-without_key j (pending_keys m),
)

-- What the loops keep: the keys chosen so far and those to come are distinct, and all wait.
pub record IsLoop (rest : List String) (c : Chosen) : Type 0 where
  pub no_repeat : distinct (c.keys ++ rest) ≡ true
  pub chosen : all_pending c.state.journal.tasks c.keys ≡ true
  pub to_come : all_pending c.state.journal.tasks rest ≡ true

drop_by_evidence_cases :
    (key m : String) (v : Evidence) (d : Drop)
    → (drop_by_evidence key m v d ≡ (some m, d))
      ⊎ ((e : AppError) × (drop_by_evidence key m v d ≡ dropped key e d))
unfolding drop_by_evidence
drop_by_evidence_cases key m gone d = inr (_, refl)
drop_by_evidence_cases key m (damaged e) d = inr (_, refl)
drop_by_evidence_cases key m readable d = inl refl

drop_task_cases :
    (evidence : String → Evidence) (key : String) (t : Option Task) (d : Drop)
    → has_status is_pending t ≡ true
    → ((m : String) × (drop_task evidence key t d ≡ (some m, d)))
      ⊎ ((e : AppError) × (drop_task evidence key t d ≡ dropped key e d))
unfolding drop_task
drop_task_cases evidence key none d w = cc
drop_task_cases evidence key (some t) d w =
    elim (drop_by_evidence_cases key t.message_id (evidence t.message_id) d) [
      | inl e ↦ inl (t.message_id, e)
      | inr p ↦ inr p
    ]

-- A waiting task is kept, with the journal as it was, or is taken out of it.
pub drop_unavailable_cases :
    (evidence : String → Evidence) (key : String) (d : Drop)
    → has_status is_pending (lookup key d.journal.tasks) ≡ true
    → ((m : String) × (drop_unavailable evidence key d ≡ (some m, d)))
      ⊎ ((e : AppError) × (drop_unavailable evidence key d ≡ dropped key e d))
unfolding drop_unavailable
drop_unavailable_cases evidence key d w =
    drop_task_cases evidence key (lookup key d.journal.tasks) d w

pub IsLoop-kept :
    (key m : String) (rest : List String) (c : Chosen)
    → IsLoop (key ∷ rest) c
    → IsLoop rest (choose key (some m, c.state) c)
IsLoop-kept key m rest c l = record {
  no_repeat = rw append_assoc l.no_repeat;
  chosen = rw all_pending-append (rw l.chosen (unfold all_pending in ground (arith, l.to_come)));
  to_come = unfold all_pending in ground (arith, l.to_come);
}

pub IsLoop-dropped :
    (key : String) (e : AppError) (rest : List String) (c : Chosen)
    → IsLoop (key ∷ rest) c
    → IsLoop rest (choose key (dropped key e c.state) c)
IsLoop-dropped key e rest c l =
    let (apart, out, later) = distinct_middle key c.keys rest l.no_repeat in
    record {
      no_repeat = apart;
      chosen = all_pending-remove key c.state.journal.tasks c.keys out l.chosen;
      to_come =
          all_pending-remove key c.state.journal.tasks rest later
            (unfold all_pending in ground (arith, l.to_come));
    }

pub head_pending :
    (tasks : Map Task) (key : String) (rest : List String)
    → all_pending tasks (key ∷ rest) ≡ true
    → has_status is_pending (lookup key tasks) ≡ true
unfolding all_pending
head_pending tasks key rest h = ground arith

pub IsLoop-choose :
    (evidence : String → Evidence) (key : String) (rest : List String) (c : Chosen)
    → IsLoop (key ∷ rest) c
    → IsLoop rest (choose key (drop_unavailable evidence key c.state) c)
IsLoop-choose evidence key rest c l =
    elim (drop_unavailable_cases evidence key c.state
      (head_pending c.state.journal.tasks key rest l.to_come)) [
        | inl (m, e) ↦ rw e (IsLoop-kept key m rest c l)
        | inr (p, e) ↦ rw e (IsLoop-dropped key p rest c l)
      ]

pub IsLoop-keep_available :
    (evidence : String → Evidence) (keys : List String) (c : Chosen)
    → IsLoop keys c
    → IsLoop [] (keep_available evidence keys c)
unfolding keep_available
IsLoop-keep_available evidence [] c l = l
IsLoop-keep_available evidence (key ∷ keys) c l =
    IsLoop-keep_available evidence keys _ (IsLoop-choose evidence key keys c l)

pub IsLoop-stop : (rest : List String) (c : Chosen) → IsLoop rest c → IsLoop [] c
IsLoop-stop [] c l = l
IsLoop-stop (key ∷ rest) c l = IsLoop-stop rest c (record {
  no_repeat = (distinct_middle key c.keys rest l.no_repeat).0;
  chosen = l.chosen;
  to_come = unfold all_pending in ground (arith, l.to_come);
})

pub IsLoop-fill_batch :
    (evidence : String → Evidence) (size : ℕ) (keys : List String) (c : Chosen)
    → IsLoop keys c
    → IsLoop [] (fill_batch evidence size keys c)
unfolding fill_batch
IsLoop-fill_batch evidence size [] c l = l
IsLoop-fill_batch evidence size (key ∷ keys) c l = elim (Bool-cases (leb size (length c.keys))) [
  | inl full ↦ rw full (IsLoop-stop (key ∷ keys) c l)
  | inr room ↦
      rw room (IsLoop-fill_batch evidence size keys _ (IsLoop-choose evidence key keys c l))
]
