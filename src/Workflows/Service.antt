-- ===== src/Workflows/Service.antt =====
-- workflows.service.ts. New ids and the time are arguments. A run is stored as PENDING here; the
-- runner, which the service starts and does not wait for, is in Run.
use ai_business_operating_sy.Base.{keep, map}
use ai_business_operating_sy.Base.{
  Bool, List, M, Option, String, Table, [], bad_request, create, ensure, false, find, get,
  if◌then◌else◌, internal, is_some, map, modify, none, not, not_found, or_default, or_else,
  or_throw, remove_where, return, some, such, true, write, ℕ, ◌&&◌, ◌+◌, ◌==◌, ◌>>=◌, ◌>>◌, ◌||◌,
  ◌∷◌,
}
use ai_business_operating_sy.Workflows.Graph.{WorkflowNode, WorkflowEdge, WorkflowGraph}
use ai_business_operating_sy.Workflows.Validation.{validate_graph}
use ai_business_operating_sy.Workflows.Run.{RunStatus, pending, completed, failed, cancelled}

pub data WorkflowStatus : Type 0 where
  draft active paused archived : WorkflowStatus

abbrev pub is_active : WorkflowStatus → Bool
is_active active = true
is_active _ = false

abbrev pub is_archived : WorkflowStatus → Bool
is_archived archived = true
is_archived _ = false

pub record Workflow : Type 0 where
  pub organization_id : String
  pub created_by : String
  pub name : String
  pub description : Option String
  pub trigger : String
  pub trigger_config : String
  pub definition : WorkflowGraph
  pub version : ℕ
  pub status : WorkflowStatus
  pub deleted_at : Option ℕ

pub record WorkflowRun : Type 0 where
  pub organization_id : String
  pub workflow_id : String
  pub workflow_version : ℕ
  pub status : RunStatus
  pub trigger_data : String
  pub snapshot : WorkflowGraph
  pub completed_at : Option ℕ

pub record AuditEntry : Type 0 where
  pub organization_id : String
  pub user_id : String
  pub action : String
  pub resource_id : String

-- A node or edge is stored with the id of its workflow.
pub record WorkflowsDb : Type 0 where
  pub workflows : Table Workflow
  pub nodes : Table (String × WorkflowNode)
  pub edges : Table (String × WorkflowEdge)
  pub runs : Table WorkflowRun
  pub audits : List AuditEntry

-- The body of a request; for an update, what is missing is not written.
pub record WorkflowDto : Type 0 where
  pub name : Option String
  pub description : Option String
  pub trigger : Option String
  pub trigger_config : Option String
  pub definition : Option WorkflowGraph
  pub status : Option WorkflowStatus

-- `createMany`, which inserts every row or, if a primary key is taken, none
abbrev pub insert_many {ℓ} : {A : Type ℓ} → List (String × A) → Table A → Option (Table A)
insert_many [] t = some t
insert_many ((k, a) ∷ rows) t =
    let rest = insert_many rows (create k a t) in if is_some (find k t) then none else rest

-- `get`
abbrev pub get_workflow : String → String → M WorkflowsDb Workflow
get_workflow org id = do
  db ← get
  or_throw
      (such (λ w. w.organization_id == org && not (is_some w.deleted_at)) (find id db.workflows))
      (not_found "Workflow not found")

abbrev pub is_nil {ℓ} : {A : Type ℓ} → List A → Bool
is_nil [] = true
is_nil (_ ∷ _) = false

-- `validateGraph(g).ok`
unfoldable pub is_valid : WorkflowGraph → Bool
is_valid g = is_nil (validate_graph g)

abbrev pub audit : String → String → String → String → M WorkflowsDb (Unit {0})
audit org user action id = write (λ d. record d {
  audits =
      record { organization_id = org; user_id = user; action = action; resource_id = id }
      ∷ d.audits;
})

-- `persistGraph`
unfoldable pub persist_graph : String → WorkflowGraph → M WorkflowsDb (Unit {0})
persist_graph id g = do
  write (λ d. record d {
    edges = remove_where (λ e. e.0 == id) d.edges;
    nodes = remove_where (λ n. n.0 == id) d.nodes;
  })
  db ← get
  nodes ←
      or_throw (insert_many (map (λ n. (n.id, (id, n))) g.nodes) db.nodes)
        (internal "Unique constraint failed")
  write (λ d. record d { nodes = nodes })
  edges ←
      or_throw (insert_many (map (λ e. (e.id, (id, e))) g.edges) db.edges)
        (internal "Unique constraint failed")
  write (λ d. record d { edges = edges })

abbrev pub update_row : String → (Workflow → Workflow) → M WorkflowsDb (Unit {0})
update_row id f = write (λ d. record d { workflows = modify id f d.workflows })

-- The row that `create` makes: a draft
abbrev pub new_workflow :
    (org user name trigger trigger_config : String)
    → (description : Option String) → (definition : WorkflowGraph) → Workflow
new_workflow org user name trigger trigger_config description definition = record {
  organization_id = org;
  created_by = user;
  name = name;
  description = description;
  trigger = trigger;
  trigger_config = trigger_config;
  definition = definition;
  version = 1;
  status = draft;
  deleted_at = none;
}

-- `create` with `definition`, which the request has or which is made of its nodes and edges
unfoldable pub create_workflow :
    (org user id : String)
    → (name trigger trigger_config : String) → (description : Option String)
    → (definition : WorkflowGraph) → M WorkflowsDb Workflow
create_workflow org user id name trigger trigger_config description definition = do
  ensure (is_valid definition) (bad_request "INVALID_GRAPH")
  db ← get
  ensure (not (is_some (find id db.workflows))) (internal "Unique constraint failed")
  write (λ d. record d {
    workflows =
        create id (new_workflow org user name trigger trigger_config description definition)
          d.workflows;
  })
  persist_graph id definition
  audit org user "workflow.create" id
  get_workflow org id

abbrev pub checked : String → Option WorkflowGraph → M WorkflowsDb (Unit {0})
checked id none = return tt
checked id (some g) = do ensure (is_valid g) (bad_request "INVALID_GRAPH"); persist_graph id g

abbrev pub merge_dto : WorkflowDto → Workflow → Workflow
merge_dto dto w = record w {
  name = or_default dto.name w.name;
  description = or_else dto.description w.description;
  trigger = or_default dto.trigger w.trigger;
  trigger_config = or_default dto.trigger_config w.trigger_config;
  definition = or_default dto.definition w.definition;
  status = or_default dto.status w.status;
  version = if is_some dto.definition then w.version + 1 else w.version;
}

-- `update`
unfoldable pub update_workflow : (org user id : String) → WorkflowDto → M WorkflowsDb Workflow
update_workflow org user id dto = do
  w ← get_workflow org id
  checked id dto.definition
  update_row id (merge_dto dto)
  audit org user "workflow.update" id
  get_workflow org id

-- `activate`
unfoldable pub activate : (org user id : String) → M WorkflowsDb (Unit {0})
activate org user id = do
  w ← get_workflow org id
  ensure (not (is_archived w.status || is_some w.deleted_at)) (bad_request "WORKFLOW_ARCHIVED")
  ensure (is_valid w.definition) (bad_request "INVALID_GRAPH")
  update_row id (λ v. record v { status = active })
  audit org user "workflow.activate" id

-- `pause`
unfoldable pub pause : (org user id : String) → M WorkflowsDb (Unit {0})
pause org user id = do
  w ← get_workflow org id
  ensure (not (is_archived w.status || is_some w.deleted_at)) (bad_request "WORKFLOW_ARCHIVED")
  update_row id (λ v. record v { status = paused })
  audit org user "workflow.pause" id

-- `archive`
unfoldable pub archive : (org user id : String) → (now : ℕ) → M WorkflowsDb (Unit {0})
archive org user id now = do
  w ← get_workflow org id
  update_row id (λ v. record v { deleted_at = some now; status = archived })
  audit org user "workflow.archive" id

-- The row that `runWorkflow` creates
abbrev pub new_run : String → String → Workflow → String → WorkflowRun
new_run org id w trigger_data = record {
  organization_id = org;
  workflow_id = id;
  workflow_version = w.version;
  status = pending;
  trigger_data = trigger_data;
  snapshot = w.definition;
  completed_at = none;
}

-- `runWorkflow`
unfoldable pub run_workflow : (org id run_id trigger_data : String) → M WorkflowsDb WorkflowRun
run_workflow org id run_id trigger_data = do
  w ← get_workflow org id
  ensure (is_active w.status) (bad_request "Workflow must be ACTIVE to run")
  db ← get
  ensure (not (is_some (find run_id db.runs))) (internal "Unique constraint failed")
  write (λ d. record d { runs = create run_id (new_run org id w trigger_data) d.runs })
  return (new_run org id w trigger_data)

abbrev pub is_final : RunStatus → Bool
is_final completed = true
is_final failed = true
is_final cancelled = true
is_final _ = false

-- The update of a run that has not ended
abbrev pub cancel_unless : (final : Bool) → String → ℕ → M WorkflowsDb (Unit {0})
cancel_unless true run_id now = return tt
cancel_unless false run_id now = write (λ d. record d {
  runs = modify run_id (λ v. record v { status = cancelled; completed_at = some now }) d.runs;
})

-- `cancelRun`
unfoldable pub cancel_run : (org run_id : String) → (now : ℕ) → M WorkflowsDb (Unit {0})
cancel_run org run_id now = do
  db ← get
  r ←
      or_throw (such (λ r. r.organization_id == org) (find run_id db.runs))
        (not_found "Run not found")
  cancel_unless (is_final r.status) run_id now

-- `list`, in the order of the table
unfoldable pub list_workflows : (org : String) → M WorkflowsDb (List Workflow)
list_workflows org = do
  db ← get
  return (
      keep (λ w. w.organization_id == org && not (is_some w.deleted_at))
        (map (λ r. r.1) db.workflows))

-- `getRun`
unfoldable pub get_run : (org run_id : String) → M WorkflowsDb WorkflowRun
get_run org run_id = do
  db ← get
  or_throw (such (λ r. r.organization_id == org) (find run_id db.runs)) (not_found "Run not found")
