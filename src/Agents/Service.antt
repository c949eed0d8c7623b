-- ===== src/Agents/Service.antt =====
-- The methods of agents.service.ts that change agents and their versions. Random ids and the time are
-- arguments; `slug` is the value of `dto.slug ?? generateUniqueSlug(...)`.
use ai_business_operating_sy.Base.{
  any, ◌&&◌, Bool, M, Option, String, bad_request, create, ensure, equals, false, find, get,
  if◌then◌else◌, internal, is_some, modify, none, not, not_found, or_default, or_throw, remove,
  remove_where, return, some, write, ℕ, ◌+◌, ◌==◌, ◌>>=◌, ◌>>◌,
}
use ai_business_operating_sy.Agents.State.{
  draft, active, paused, archived, is_archived, Settings, Snapshot, snapshot_config, merge, Agent,
  AgentVersion, AgentsDb, find_owned, find_in_org, find_version, last_version, version_of,
}

-- `create` of a row; the primary key refuses a second row with the same id.
abbrev pub insert_version : String → AgentVersion → M AgentsDb (Unit {0})
insert_version id v = do
  db ← get
  ensure (not (is_some (find id db.versions))) (internal "Unique constraint failed")
  write (λ d. record d { versions = create id v d.versions })

-- Some agent of the organization, deleted or not, has the slug.
abbrev pub is_taken : (org slug : String) → AgentsDb → Bool
is_taken org slug db = any (λ r. r.1.organization_id == org && r.1.slug == slug) db.agents

-- The same, where the organization and the slug are unique too
abbrev pub insert_agent : String → Agent → M AgentsDb (Unit {0})
insert_agent id a = do
  db ← get
  ensure (not (is_taken a.organization_id a.slug db)) (internal "Unique constraint failed")
  ensure (not (is_some (find id db.agents))) (internal "Unique constraint failed")
  write (λ d. record d { agents = create id a d.agents })

abbrev pub update_agent : String → (Agent → Agent) → M AgentsDb (Unit {0})
update_agent id f = write (λ d. record d { agents = modify id f d.agents })

abbrev pub owned_or_throw : String → String → M AgentsDb Agent
owned_or_throw org id = do db ← get; or_throw (find_owned org id db) (not_found "Agent not found")

abbrev pub truthy_or : Option String → String → String
truthy_or none d = d
truthy_or (some s) d = if s == "" then d else s

-- The body of a create request, `name` apart.
abbrev pub default_settings : String → Snapshot → Settings
default_settings name dto = record {
  name = name;
  description = dto.description;
  role = truthy_or dto.role "assistant";
  objective = dto.objective;
  system_instructions = truthy_or dto.system_instructions "You are a helpful AI assistant.";
  personality = dto.personality;
  tone = truthy_or dto.tone "professional";
  language = truthy_or dto.language "en";
  model_provider = truthy_or dto.model_provider "openai";
  model_name = truthy_or dto.model_name "gpt-4o-mini";
  temperature = or_default dto.temperature (record { mantissa = 7; scale = 1 });
  max_tokens = or_default dto.max_tokens 4096;
  guardrails = dto.guardrails;
  max_tool_calls = or_default dto.max_tool_calls 10;
  timeout_seconds = or_default dto.timeout_seconds 120;
}

abbrev pub first_version : String → Agent → String → String → AgentVersion
first_version id a notes user = record {
  agent_id = id;
  version = 1;
  config = snapshot_config a.settings;
  change_notes = notes;
  created_by = user;
}

-- The row that `create` makes: a draft with nothing deployed.
abbrev pub new_agent : String → String → String → Snapshot → String → Agent
new_agent org user name dto slug = record {
  organization_id = org;
  created_by = user;
  slug = slug;
  settings = default_settings name dto;
  status = draft;
  deployed_version_id = none;
  deleted_at = none;
}

unfoldable pub create_agent :
    String → String → String → Snapshot → (slug id version_id : String) → M AgentsDb Agent
create_agent org user name dto slug id version_id =
    let a = new_agent org user name dto slug in
    do
      insert_agent id a
      insert_version version_id (first_version id a "Initial version" user)
      return a

-- `createVersionInternal`
abbrev pub create_version_internal :
    String → String → String → (version_id : String) → M AgentsDb AgentVersion
create_version_internal agent_id user notes version_id = do
  db ← get
  a ← or_throw (find agent_id db.agents) (not_found "Agent not found")
  let v : AgentVersion = record {
    agent_id = agent_id;
    version = version_of (last_version agent_id db.versions) + 1;
    config = snapshot_config a.settings;
    change_notes = notes;
    created_by = user;
  }
  insert_version version_id v
  return v

unfoldable pub update :
    String
    → String
    → Snapshot
    → String
    → (commit : Bool) → Option String
    → (version_id : String) → M AgentsDb (Unit {0})
update org id dto user commit notes version_id = do
  a ← owned_or_throw org id
  ensure (not (is_some a.deleted_at)) (bad_request "Agent is archived")
  update_agent id (λ a. record a { settings = merge dto a.settings })
  if commit
      then (create_version_internal id user (or_default notes "Update") version_id >>= λ _.
          return tt)
      else return tt

unfoldable pub create_version :
    String → String → String → Option String → (version_id : String) → M AgentsDb AgentVersion
create_version org id user notes version_id = do
  _a ← owned_or_throw org id
  create_version_internal id user (or_default notes "Manual version") version_id

abbrev pub is_truthy : Option String → Bool
is_truthy none = false
is_truthy (some s) = not (s == "")

unfoldable pub deploy_version : String → String → String → M AgentsDb (Unit {0})
deploy_version org id version_id = do
  a ← owned_or_throw org id
  ensure (not (is_some a.deleted_at)) (bad_request "Cannot deploy an archived agent")
  db ← get
  v ← or_throw (find_version id version_id db) (not_found "Version not found")
  ensure (is_truthy v.config.system_instructions)
      (bad_request "This version has no system instructions — cannot deploy")
  update_agent id (λ a. record a {
    status = active;
    deployed_version_id = some version_id;
    settings = merge v.config a.settings;
  })

unfoldable pub undeploy : String → String → M AgentsDb (Unit {0})
undeploy org id = do
  _a ← owned_or_throw org id
  update_agent id (λ a. record a { status = draft; deployed_version_id = none })

unfoldable pub rollback :
    String → String → String → String → (notes new_id : String) → M AgentsDb (Unit {0})
unfolding deploy_version
rollback org id version_id user notes new_id = do
  _a ← owned_or_throw org id
  db ← get
  target ← or_throw (find_version id version_id db) (not_found "Version not found")
  _v ← create_version_internal id user notes new_id
  write (λ d. record d {
    versions = modify new_id (λ v. record v { config = target.config }) d.versions;
  })
  deploy_version org id new_id

unfoldable pub pause : String → String → M AgentsDb (Unit {0})
pause org id = do _a ← owned_or_throw org id; update_agent id (λ a. record a { status = paused })

unfoldable pub resume : String → String → M AgentsDb (Unit {0})
resume org id = do
  a ← owned_or_throw org id
  ensure (is_some a.deployed_version_id)
      (bad_request "No deployed version — deploy a version first")
  update_agent id (λ a. record a { status = active })

unfoldable pub archive : String → String → (now : ℕ) → M AgentsDb (Unit {0})
archive org id now = do
  a ← owned_or_throw org id
  if is_archived a.status
      then return tt
      else update_agent id
          (λ a. record a { status = archived; deleted_at = some now; deployed_version_id = none })

unfoldable pub restore : String → String → M AgentsDb (Unit {0})
restore org id = do
  db ← get
  _a ← or_throw (find_in_org org id db) (not_found "Agent not found")
  update_agent id (λ a. record a { status = draft; deleted_at = none })

-- The transaction of `hardDelete`
abbrev pub erase : String → AgentsDb → AgentsDb
erase id db = record {
  agents = remove id db.agents;
  versions = remove_where (λ v. v.agent_id == id) db.versions;
  agent_tools = remove_where (λ r. r.agent_id == id) db.agent_tools;
  agent_knowledge = remove_where (λ r. r.agent_id == id) db.agent_knowledge;
  workflow_nodes = remove_where (λ r. equals r id) db.workflow_nodes;
  conversations = remove_where (λ r. equals r id) db.conversations;
  usage_records = remove_where (λ r. equals r id) db.usage_records;
  tool_executions = remove_where (λ r. equals r id) db.tool_executions;
  tasks = remove_where (λ r. equals r id) db.tasks;
}

unfoldable pub hard_delete : String → String → M AgentsDb (Unit {0})
hard_delete org id = do
  db ← get
  _a ← or_throw (find_in_org org id db) (not_found "Agent not found")
  write (erase id)
