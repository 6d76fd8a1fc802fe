-- ===== src/Push/Build/Faithful.antt =====
-- src/push_queue/plan.rs: what the plan of a run keeps of the queue.
use mathlib.Core.List.{Perm, Mem, mem-cons_self, mem-cons_of_mem, perm_middle}
use mathlib.Core.List.Perm
use mathlib.Core.Path.{subst}
use agent_first_mail.Prelude.{
  String, ◌≡◌, sym, true, false, ◌⊎◌, inl, inr, List, [], ◌∷◌, ◌++◌, map, Map, values, All,
  Bool-cases, Result, OnOk, bind-OnOk, ok-OnOk,
}
use agent_first_mail.Push.Item.{PushItem, has_started_effects}
use agent_first_mail.Push.Plan.{item_must_run_before}
use agent_first_mail.Push.Plan.Order.{Respects, OnePlan, order_items_lem}
use agent_first_mail.Push.Labels.{Planner}
use agent_first_mail.Push.Planning.{Planned, plan_item}
use agent_first_mail.Push.Planning.Derived.{Unplanned, Derived}
use agent_first_mail.Push.Planning.Progress.{plan_item-Derived}
use agent_first_mail.Push.Build.{
  item_le, insert_item, sort_items, sorted_items, ResolvedPushPlan, Resolved, with_item, plan_items,
  build_push_plan,
}

abbrev ids : List PushItem → List String
ids items = map (λ item. item.push_id) items

-- The plan runs the item, from the progress that it has.
pub record Resumed (item : PushItem) (items : List PushItem) : Type 0 where
  pub planned : PushItem
  pub there : Mem planned items
  pub same_id : planned.push_id ≡ item.push_id
  pub same_states : planned.step_states ≡ item.step_states
  pub same_stage : planned.local_stage ≡ item.local_stage
  pub same_audit : planned.audit_pending ≡ item.audit_pending

Resumed-later : (item x : PushItem) (xs : List PushItem) → Resumed item xs → Resumed item (x ∷ xs)
Resumed-later item x xs r = record {
  planned = r.planned;
  there = mem-cons_of_mem x r.there;
  same_id = r.same_id;
  same_states = r.same_states;
  same_stage = r.same_stage;
  same_audit = r.same_audit;
}

Resumed-perm :
    (item : PushItem) (xs ys : List PushItem) → Perm xs ys → Resumed item xs → Resumed item ys
Resumed-perm item xs ys p r = record {
  planned = r.planned;
  there = (Perm.mem_iff p).0 r.there;
  same_id = r.same_id;
  same_states = r.same_states;
  same_stage = r.same_stage;
  same_audit = r.same_audit;
}

-- The item has not started, or it is resumed.
abbrev pub Kept : List PushItem → PushItem → Type 0
Kept items item = (has_started_effects item ≡ false) ⊎ Resumed item items

Kept-later :
    (x : PushItem) (xs : List PushItem) (item : PushItem) → Kept xs item → Kept (x ∷ xs) item
Kept-later x xs item (inl idle) = inl idle
Kept-later x xs item (inr r) = inr (Resumed-later item x xs r)

Kept-perm : (xs ys : List PushItem) → Perm xs ys → (item : PushItem) → Kept xs item → Kept ys item
Kept-perm xs ys p item (inl idle) = inl idle
Kept-perm xs ys p item (inr r) = inr (Resumed-perm item xs ys p r)

Kept-planned :
    (item x : PushItem) (xs : List PushItem) → Derived item (true, x) → Kept (x ∷ xs) item
Kept-planned item x xs d = progress d.progress
  where
    progress :
        ((x.step_states ≡ item.step_states) × (x.local_stage ≡ item.local_stage))
          ⊎ (has_started_effects item ≡ false)
        → Kept (x ∷ xs) item
    progress (inr idle) = inl idle
    progress (inl (states, stage)) = inr (record {
      planned = x;
      there = mem-cons_self;
      same_id = d.same_id;
      same_states = states;
      same_stage = stage;
      same_audit = d.same_audit;
    })

Kept-skipped : (item x : PushItem) (xs : List PushItem) → Derived item (false, x) → Kept xs item
Kept-skipped item x xs d = plan d.has_plan
  where
    plan : ((false ≡ true) ⊎ (has_started_effects item ≡ false)) → Kept xs item
    plan (inl e) = absurd (cc)
    plan (inr idle) = inl idle

All-map :
    (P Q : PushItem → Type 0) (xs : List PushItem)
    → ((x : PushItem) → P x → Q x)
    → All P xs
    → All Q xs
All-map P Q [] f h = tt
All-map P Q (x ∷ xs) f h = (f x h.0, All-map P Q xs f h.1)

module _ (P : PushItem → Type 0) where
  All-insert_item :
      (item : PushItem) (items : List PushItem)
      → (P item × All P items → All P (insert_item item items))
        × (All P (insert_item item items) → P item × All P items)
  unfolding insert_item
  All-insert_item item [] = (λ h. h, λ h. h)
  All-insert_item item (other ∷ items) = elim (Bool-cases (item_le item other)) [
    | inl first ↦ rw first (λ h. h, λ h. h)
    | inr later ↦
        let (there, back) = All-insert_item item items in
        rw later (λ h. (h.1.0, there (h.0, h.1.1)), λ h. let (p, q) = back h.1 in (p, (h.0, q)))
  ]

  All-sort_items :
      (items : List PushItem)
      → (All P items → All P (sort_items items)) × (All P (sort_items items) → All P items)
  unfolding sort_items
  All-sort_items [] = (λ h. h, λ h. h)
  All-sort_items (item ∷ items) =
      let (there, back) = All-sort_items items in
      let (enter, leave) = All-insert_item item (sort_items items) in
      (λ h. enter (h.0, there h.1), λ h. let (p, q) = leave h in (p, back q))

insert_item-perm :
    (item : PushItem) (items : List PushItem) → Perm (insert_item item items) (item ∷ items)
unfolding insert_item
insert_item-perm item [] = Perm.refl _
insert_item-perm item (other ∷ items) = elim (Bool-cases (item_le item other)) [
  | inl first ↦ rw first (Perm.refl _)
  | inr later ↦
      rw later
        (Perm.trans (Perm.cons other (insert_item-perm item items)) (Perm.swap item other items))
]

sort_items-perm : (items : List PushItem) → Perm (sort_items items) items
unfolding sort_items
sort_items-perm [] = Perm.refl []
sort_items-perm (item ∷ items) =
    Perm.trans (insert_item-perm item (sort_items items)) (Perm.cons item (sort_items-perm items))

-- What the plan of some items has.
record Covers (items : List PushItem) (resolved : Resolved) : Type 0 where
  at_most_one : All Unplanned items → All OnePlan resolved.planned
  resumes : All (Kept resolved.planned) items
  everyone : Perm (ids resolved.planned ++ ids resolved.skipped) (ids items)

Covers-item :
    (item : PushItem) (items : List PushItem) (planned : Planned) (rest : Resolved)
    → Derived item planned
    → Covers items rest
    → Covers (item ∷ items) (with_item planned rest)
Covers-item item items (true, x) rest d c = record {
  at_most_one = λ u. (d.one_plan u.0, c.at_most_one u.1);
  resumes = (
    Kept-planned item x rest.planned d,
    All-map (Kept rest.planned) (Kept (x ∷ rest.planned)) items (Kept-later x rest.planned)
        c.resumes,
  );
  everyone =
      subst (λ id. Perm (id ∷ ids rest.planned ++ ids rest.skipped) (ids (item ∷ items)))
        (sym d.same_id) (Perm.cons item.push_id c.everyone);
}
Covers-item item items (false, x) rest d c = record {
  at_most_one = λ u. c.at_most_one u.1;
  resumes = (Kept-skipped item x rest.planned d, c.resumes);
  everyone = Perm.trans (perm_middle (ids rest.planned) (ids rest.skipped)) (
      subst (λ id. Perm (id ∷ ids rest.planned ++ ids rest.skipped) (ids (item ∷ items)))
        (sym d.same_id) (Perm.cons item.push_id c.everyone));
}

plan_items-Covers :
    (planner : Planner) (items : List PushItem) → OnOk (Covers items) (plan_items planner items)
unfolding plan_items
plan_items-Covers planner [] =
    ok-OnOk (Covers []) _ (record { at_most_one = λ u. tt; resumes = tt; everyone = Perm.refl [] })
plan_items-Covers planner (item ∷ items) =
    bind-OnOk (Covers (item ∷ items)) (plan_item planner item) _ λ planned e.
      bind-OnOk (Covers (item ∷ items)) (plan_items planner items) _ λ rest g.
        ok-OnOk (Covers (item ∷ items)) _ (
          Covers-item item items planned rest ((plan_item-Derived planner item).at planned e)
            ((plan_items-Covers planner items).at rest g))

-- What a plan of the queue has.
pub record Faithful (queue : Map PushItem) (plan : ResolvedPushPlan) : Type 0 where
  pub everyone : Perm (ids plan.items ++ ids plan.skipped_items) (ids (values queue))
  pub resumes : All (Kept plan.items) (values queue)
  pub ordered : Respects item_must_run_before plan.items

-- If the items of the queue stand there as files do, with no plan, then the plan of a run has each
-- of them once, to run or to remove. An item whose effects have started is among those to run, with
-- its step states, its local stage and its audit event as they were. No item stands before one that
-- must run before it.
pub build_push_plan-Faithful :
    (planner : Planner) (plan_id : Map PushItem → List PushItem → List PushItem → Result String)
    (queue : Map PushItem)
    → All Unplanned (values queue)
    → OnOk (Faithful queue) (build_push_plan planner plan_id queue)
unfolding build_push_plan sorted_items
build_push_plan-Faithful planner plan_id queue unplanned =
    let items = sort_items (values queue) in
    bind-OnOk (Faithful queue) (plan_items planner items) _ λ resolved e.
      bind-OnOk (Faithful queue) (plan_id queue _ resolved.skipped) _ λ id g.
        let covers = (plan_items-Covers planner items).at resolved e in
        let one = covers.at_most_one ((All-sort_items Unplanned (values queue)).0 unplanned) in
        let order = order_items_lem resolved.planned one in
        ok-OnOk (Faithful queue) _ (record {
          everyone =
              Perm.trans (Perm.append_right (ids resolved.skipped) (Perm.map _ order.0))
                (Perm.trans covers.everyone (Perm.map _ (sort_items-perm (values queue))));
          resumes = (All-sort_items (Kept _) (values queue)).1 (
              All-map (Kept resolved.planned) (Kept _) items
                (Kept-perm resolved.planned _ (Perm.symm order.0)) covers.resumes);
          ordered = order.1;
        })
