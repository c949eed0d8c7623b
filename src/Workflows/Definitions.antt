-- ===== src/Workflows/Definitions.antt =====
-- workflows.service.ts: the graphs that its methods store.
use ai_business_operating_sy.Base.{
  Bool, Bool-cases, Exception, Option, Option-cases, String, Table, ap, arith, bind_keeps, create,
  find, find-create, find-modify, inl, inr, is_some, modify, none, not, ok, or_default, or_throw,
  refl, some, subst, such, true, ℕ, ◌&&◌, ◌==◌, ◌||◌, ◌≡◌,
}
use ai_business_operating_sy.Workflows.Graph.{WorkflowGraph}
use ai_business_operating_sy.Workflows.Run.{cancelled}
use ai_business_operating_sy.Workflows.Service.{
  is_final, Workflow, WorkflowRun, WorkflowDto, WorkflowsDb, is_valid, persist_graph,
  create_workflow, checked, update_workflow, activate, pause, archive, run_workflow, cancel_run,
  merge_dto, new_run, new_workflow, is_active, is_archived, active, paused, archived,
}

-- The definition of every workflow, and the snapshot of every run, passes the validation.
pub record Inv (db : WorkflowsDb) : Type 0 where
  pub definitions :
      (id : String) (w : Workflow) → find id db.workflows ≡ some w → is_valid w.definition ≡ true
  pub snapshots :
      (id : String) (r : WorkflowRun) → find id db.runs ≡ some r → is_valid r.snapshot ≡ true

same_rows :
    (db db' : WorkflowsDb) → db'.workflows ≡ db.workflows → db'.runs ≡ db.runs → Inv db → Inv db'
same_rows db db' w r inv = record {
  definitions = λ id v h. inv.definitions id v (subst (λ t. find id t ≡ some v) w h);
  snapshots = λ id v h. inv.snapshots id v (subst (λ t. find id t ≡ some v) r h);
}

-- A table whose rows all have a property keeps it when a row is changed within it.
modify-all {ℓ} :
    {A : Type ℓ} (p : A → Bool) (id : String) (f : A → A) (t : Table A)
    → ((a : A) → p a ≡ true → p (f a) ≡ true)
    → ((j : String) (a : A) → find j t ≡ some a → p a ≡ true)
    → (j : String) (b : A) → find j (modify id f t) ≡ some b
    → p b ≡ true
modify-all p id f t k inv j b h = elim (Bool-cases (id == j)) [
  | inr other ↦ inv j b (ground (arith, find-modify j id f t))
  | inl same ↦ elim (Option-cases (find j t)) [
    | inl missing ↦ absurd (ground (arith, find-modify j id f t))
    | inr (a, e) ↦
        let c : f a ≡ b = ground (arith, find-modify j id f t) in
        subst (λ x. p x ≡ true) c (k a (inv j a e))
  ]
]

create-all {ℓ} :
    {A : Type ℓ} (p : A → Bool) (id : String) (a : A) (t : Table A)
    → p a ≡ true
    → ((j : String) (b : A) → find j t ≡ some b → p b ≡ true)
    → (j : String) (b : A) → find j (create id a t) ≡ some b
    → p b ≡ true
create-all p id a t k inv j b h = elim (Bool-cases (id == j)) [
  | inr other ↦ inv j b (ground (arith, find-create j id a t))
  | inl same ↦ let c : a ≡ b = ground (arith, find-create j id a t) in subst (λ x. p x ≡ true) c k
]

update-Inv :
    (db db' : WorkflowsDb) (id : String) (f : Workflow → Workflow)
    → ((w : Workflow) → is_valid w.definition ≡ true → is_valid (f w).definition ≡ true)
    → db'.workflows ≡ modify id f db.workflows
    → db'.runs ≡ db.runs
    → Inv db
    → Inv db'
update-Inv db db' id f k w r inv = record {
  definitions = λ j v h.
      modify-all (λ x. is_valid x.definition) id f db.workflows k inv.definitions j v
        (subst (λ t. find j t ≡ some v) w h);
  snapshots = λ j v h. inv.snapshots j v (subst (λ t. find j t ≡ some v) r h);
}

persist_graph-rows :
    (id : String) (g : WorkflowGraph) (db : WorkflowsDb)
    → ((persist_graph id g db).1.workflows ≡ db.workflows)
      × ((persist_graph id g db).1.runs ≡ db.runs)
unfolding persist_graph
persist_graph-rows id g db = (ground arith, ground arith)

-- The query of `get`
abbrev seen : String → Workflow → Bool
seen org w = w.organization_id == org && not (is_some w.deleted_at)

or_throw_state :
    {A : Type 0} (o : Option A) (e : Exception) (s : WorkflowsDb) → (or_throw o e s).1 ≡ s
or_throw_state none e s = refl
or_throw_state (some a) e s = refl

such-eq-some : {A : Type 0} (p : A → Bool) (o : Option A) (a : A) → such p o ≡ some a → o ≡ some a
such-eq-some p none a h = absurd (ground arith)
such-eq-some p (some b) a h = ground arith

pub pause-Inv : (org user id : String) (db : WorkflowsDb) → Inv db → Inv (pause org user id db).1
unfolding pause
pause-Inv org user id db inv = elim (Option-cases (such (seen org) (find id db.workflows))) [
  | inl missing ↦ rw missing inv
  | inr (w, found) ↦ elim (Bool-cases (is_archived w.status || is_some w.deleted_at)) [
    | inl gone ↦ rw (found, gone) inv
    | inr there ↦
        rw (found, there)
          (update-Inv db _ id (λ v. record v { status = paused }) (λ v k. k) refl refl inv)
  ]
]

pub activate-Inv :
    (org user id : String) (db : WorkflowsDb) → Inv db → Inv (activate org user id db).1
unfolding activate
activate-Inv org user id db inv = elim (Option-cases (such (seen org) (find id db.workflows))) [
  | inl missing ↦ rw missing inv
  | inr (w, found) ↦ elim (Bool-cases (is_archived w.status || is_some w.deleted_at)) [
    | inl gone ↦ rw (found, gone) inv
    | inr there ↦ elim (Bool-cases (is_valid w.definition)) [
      | inr bad ↦ rw (found, there, bad) inv
      | inl good ↦
          rw (found, there, good)
            (update-Inv db _ id (λ v. record v { status = active }) (λ v k. k) refl refl inv)
    ]
  ]
]

pub archive-Inv :
    (org user id : String) (now : ℕ) (db : WorkflowsDb)
    → Inv db
    → Inv (archive org user id now db).1
unfolding archive
archive-Inv org user id now db inv = elim (Option-cases (such (seen org) (find id db.workflows))) [
  | inl missing ↦ rw missing inv
  | inr (w, found) ↦ rw found (
      update-Inv db _ id (λ v. record v { deleted_at = some now; status = archived }) (λ v k. k)
        refl refl inv)
]

pub run_workflow-Inv :
    (org id run_id trigger_data : String) (db : WorkflowsDb)
    → Inv db
    → Inv (run_workflow org id run_id trigger_data db).1
unfolding run_workflow
run_workflow-Inv org id run_id trigger_data db inv =
    elim (Option-cases (such (seen org) (find id db.workflows))) [
      | inl missing ↦ rw missing inv
      | inr (w, found) ↦ elim (Bool-cases (is_active w.status)) [
        | inr idle ↦ rw (found, idle) inv
        | inl on ↦ elim (Bool-cases (is_some (find run_id db.runs))) [
          | inl taken ↦ rw (found, on, taken) inv
          | inr fresh ↦
              rw (found, on, fresh)
                (record {
                  definitions = inv.definitions;
                  snapshots =
                      create-all (λ r. is_valid r.snapshot) run_id (new_run org id w trigger_data)
                        db.runs
                        (inv.definitions id w
                          (such-eq-some (seen org) (find id db.workflows) w found))
                        inv.snapshots;
                })
        ]
      ]
    ]

pub cancel_run-Inv :
    (org run_id : String) (now : ℕ) (db : WorkflowsDb)
    → Inv db
    → Inv (cancel_run org run_id now db).1
unfolding cancel_run
cancel_run-Inv org run_id now db inv =
    elim (Option-cases (such (λ r. r.organization_id == org) (find run_id db.runs))) [
      | inl missing ↦ rw missing inv
      | inr (r, found) ↦ elim (Bool-cases (is_final r.status)) [
        | inl over ↦ rw (found, over) inv
        | inr live ↦
            rw (found, live)
              (record {
                definitions = inv.definitions;
                snapshots =
                    modify-all (λ v. is_valid v.snapshot) run_id
                      (λ v. record v { status = cancelled; completed_at = some now }) db.runs
                      (λ v k. k) inv.snapshots;
              })
      ]
    ]

checked-Inv :
    (id : String) (o : Option WorkflowGraph) (db : WorkflowsDb) → Inv db → Inv (checked id o db).1
checked-Inv id none db inv = inv
checked-Inv id (some g) db inv = elim (Bool-cases (is_valid g)) [
  | inr bad ↦ rw bad inv
  | inl good ↦
      let (w, r) = persist_graph-rows id g db in
      rw good (same_rows db (persist_graph id g db).1 w r inv)
]

checked-valid :
    (id : String) (o : Option WorkflowGraph) (db s : WorkflowsDb) (d : WorkflowGraph)
    → checked id o db ≡ (ok tt, s)
    → is_valid d ≡ true
    → is_valid (or_default o d) ≡ true
checked-valid id none db s d h k = k
checked-valid id (some g) db s d h k = elim (Bool-cases (is_valid g)) [
  | inl good ↦ good
  | inr bad ↦ absurd (ground arith)
]

pub update_workflow-Inv :
    (org user id : String) (dto : WorkflowDto) (db : WorkflowsDb)
    → Inv db
    → Inv (update_workflow org user id dto db).1
unfolding update_workflow
update_workflow-Inv org user id dto db inv =
    elim (Option-cases (such (seen org) (find id db.workflows))) [
      | inl missing ↦ rw missing inv
      | inr (w, found) ↦ rw found (
          bind_keeps Inv _ (checked id dto.definition db) (checked-Inv id dto.definition db inv)
            (λ u s e kept.
              update-Inv s _ id (merge_dto dto)
                (λ v k. checked-valid id dto.definition db s v.definition e k)
                (ap (λ (d : WorkflowsDb). d.workflows) (or_throw_state _ _ _))
                (ap (λ (d : WorkflowsDb). d.runs) (or_throw_state _ _ _)) kept))
    ]

pub create_workflow-Inv :
    (org user id name trigger trigger_config : String) (description : Option String)
    (definition : WorkflowGraph) (db : WorkflowsDb)
    → Inv db
    → Inv (create_workflow org user id name trigger trigger_config description definition db).1
unfolding create_workflow
create_workflow-Inv org user id name trigger trigger_config description definition db inv =
    elim (Bool-cases (is_valid definition)) [
      | inr bad ↦ rw bad inv
      | inl good ↦ elim (Bool-cases (is_some (find id db.workflows))) [
        | inl taken ↦ rw (good, taken) inv
        | inr fresh ↦
            let made : WorkflowsDb = record db { workflows = create id row db.workflows } in
            let stored : Inv made = record {
              definitions =
                  create-all (λ w. is_valid w.definition) id row db.workflows good inv.definitions;
              snapshots = inv.snapshots;
            } in
            let (w, r) = persist_graph-rows id definition made in
            rw (good, fresh)
              (bind_keeps Inv _ (persist_graph id definition made)
                (same_rows made (persist_graph id definition made).1 w r stored)
                (λ u s e kept.
                  same_rows s _ (ap (λ (d : WorkflowsDb). d.workflows) (or_throw_state _ _ _))
                    (ap (λ (d : WorkflowsDb). d.runs) (or_throw_state _ _ _)) kept))
      ]
    ]
  where
    row : Workflow
    row = new_workflow org user name trigger trigger_config description definition
