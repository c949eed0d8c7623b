-- ===== src/Runtime/Tasks.antt =====
-- tasks.service.ts. New ids and the time are arguments; the people that the views join in are left out.
use ai_business_operating_sy.Base.{
  Bool, List, M, Option, String, create, ensure, false, find, get, if◌then◌else◌, internal, is_some,
  keep, map, modify, none, not, not_found, or_default, or_else, or_throw, remove, return, some,
  such, true, write, ℕ, ◌&&◌, ◌==◌, ◌>>=◌, ◌>>◌,
}
use ai_business_operating_sy.Runtime.State.{Task, TaskStatus, TaskPriority, RuntimeDb}

abbrev pub in_org : String → Task → Bool
in_org org t = t.organization_id == org

abbrev pub has_status : Option TaskStatus → TaskStatus → Bool
has_status none s = true
has_status (some TaskStatus.pending) TaskStatus.pending = true
has_status (some TaskStatus.running) TaskStatus.running = true
has_status (some TaskStatus.completed) TaskStatus.completed = true
has_status (some TaskStatus.failed) TaskStatus.failed = true
has_status (some TaskStatus.requires_approval) TaskStatus.requires_approval = true
has_status (some _) _ = false

-- `findAll`, in the order of the table
unfoldable pub find_all_tasks : (org : String) → Option TaskStatus → M RuntimeDb (List Task)
find_all_tasks org status = do
  db ← get
  return (keep (λ t. in_org org t && has_status status t.status) (map (λ r. r.1) db.tasks))

abbrev pub task_or_throw : (org id : String) → M RuntimeDb Task
task_or_throw org id = do
  db ← get
  or_throw (such (in_org org) (find id db.tasks)) (not_found "Task not found")

-- `findOne`
unfoldable pub find_one_task : (org id : String) → M RuntimeDb Task
find_one_task org id = task_or_throw org id

pub record CreateTask : Type 0 where
  pub agent_id : Option String
  pub assigned_to : Option String
  pub title : String
  pub description : Option String
  pub priority : Option TaskPriority
  pub due_date : Option ℕ
  pub source : Option String

abbrev pub insert_task : String → Task → M RuntimeDb Task
insert_task id t = do
  db ← get
  ensure (not (is_some (find id db.tasks))) (internal "Unique constraint failed")
  write (λ d. record d { tasks = create id t d.tasks })
  return t

-- `create`
unfoldable pub create_task : (org : String) → CreateTask → (id : String) → M RuntimeDb Task
create_task org dto id = insert_task id (record {
  organization_id = org;
  agent_id = dto.agent_id;
  assigned_to = dto.assigned_to;
  title = dto.title;
  description = dto.description;
  status = TaskStatus.pending;
  priority = or_default dto.priority TaskPriority.medium;
  due_date = dto.due_date;
  source = some (or_default dto.source "manual");
  source_id = none;
  result = none;
  completed_at = none;
})

pub record UpdateTask : Type 0 where
  pub title : Option String
  pub description : Option String
  pub status : Option TaskStatus
  pub priority : Option TaskPriority
  pub assigned_to : Option String
  pub due_date : Option ℕ
  pub result : Option String

abbrev pub completes : Option TaskStatus → Bool
completes (some TaskStatus.completed) = true
completes _ = false

-- The columns that `update` writes; what the request leaves out stays.
abbrev pub apply_update : UpdateTask → ℕ → Task → Task
apply_update dto now t = record t {
  title = or_default dto.title t.title;
  description = or_else dto.description t.description;
  status = or_default dto.status t.status;
  priority = or_default dto.priority t.priority;
  assigned_to = or_else dto.assigned_to t.assigned_to;
  due_date = or_else dto.due_date t.due_date;
  result = or_else dto.result t.result;
  completed_at = if completes dto.status then some now else t.completed_at;
}

-- `update`
unfoldable pub update_task : (org id : String) → UpdateTask → (now : ℕ) → M RuntimeDb Task
update_task org id dto now = do
  t ← task_or_throw org id
  write (λ d. record d { tasks = modify id (apply_update dto now) d.tasks })
  return (apply_update dto now t)

-- `remove`
unfoldable pub remove_task : (org id : String) → M RuntimeDb (Unit {0})
remove_task org id = do
  _t ← task_or_throw org id
  write (λ d. record d { tasks = remove id d.tasks })

-- The row that `createApprovalTask` makes
abbrev pub approval_task :
    (org : String)
    → (agent conversation : Option String) → (title description payload : String) → Task
approval_task org agent conversation title description payload = record {
  organization_id = org;
  agent_id = agent;
  assigned_to = none;
  title = title;
  description = some description;
  status = TaskStatus.requires_approval;
  priority = TaskPriority.high;
  due_date = none;
  source = some "agent_hitl";
  source_id = conversation;
  result = some payload;
  completed_at = none;
}

-- `createApprovalTask`
unfoldable pub create_approval_task :
    (org : String)
    → (agent conversation : Option String) → (title description payload id : String)
    → M RuntimeDb Task
create_approval_task org agent conversation title description payload id =
    insert_task id (approval_task org agent conversation title description payload)
