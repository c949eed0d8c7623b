-- ===== src/Agents/State.antt =====
-- The rows of the tables that agents.service.ts reads and writes, and the settings that a version
-- snapshot holds (`snapshotConfig`). A JSON value is kept as its text.
use ai_business_operating_sy.Base.{
  Bool, Option, String, Table, [], false, find, if◌then◌else◌, is_some, ltb, none, not, or_default,
  or_else, some, such, true, ℕ, ◌&&◌, ◌==◌, ◌∷◌,
}

-- `Float`, written m · 10^(-s); it is stored and copied, never computed with.
pub record Decimal : Type 0 where
  pub mantissa : ℕ
  pub scale : ℕ

pub data AgentStatus : Type 0 where
  draft active paused archived : AgentStatus

abbrev pub is_archived : AgentStatus → Bool
is_archived archived = true
is_archived _ = false

abbrev pub is_active : AgentStatus → Bool
is_active active = true
is_active _ = false

-- The settings of an agent; those that the schema lets be null are options.
pub record Settings : Type 0 where
  pub name : String
  pub description : Option String
  pub role : String
  pub objective : Option String
  pub system_instructions : String
  pub personality : Option String
  pub tone : String
  pub language : String
  pub model_provider : String
  pub model_name : String
  pub temperature : Decimal
  pub max_tokens : ℕ
  pub guardrails : Option String
  pub max_tool_calls : ℕ
  pub timeout_seconds : ℕ

-- The same fields, each of which may be missing: a stored snapshot, or the body of an update.
pub record Snapshot : Type 0 where
  pub name : Option String
  pub description : Option String
  pub role : Option String
  pub objective : Option String
  pub system_instructions : Option String
  pub personality : Option String
  pub tone : Option String
  pub language : Option String
  pub model_provider : Option String
  pub model_name : Option String
  pub temperature : Option Decimal
  pub max_tokens : Option ℕ
  pub guardrails : Option String
  pub max_tool_calls : Option ℕ
  pub timeout_seconds : Option ℕ

-- `snapshotConfig`
unfoldable pub snapshot_config : Settings → Snapshot
snapshot_config s = record {
  name = some s.name;
  description = s.description;
  role = some s.role;
  objective = s.objective;
  system_instructions = some s.system_instructions;
  personality = s.personality;
  tone = some s.tone;
  language = some s.language;
  model_provider = some s.model_provider;
  model_name = some s.model_name;
  temperature = some s.temperature;
  max_tokens = some s.max_tokens;
  guardrails = s.guardrails;
  max_tool_calls = some s.max_tool_calls;
  timeout_seconds = some s.timeout_seconds;
}

-- `cfg.f ?? agent.f` for each field, and the effect of an update, which leaves out what is undefined.
unfoldable pub merge : Snapshot → Settings → Settings
merge c s = record {
  name = or_default c.name s.name;
  description = or_else c.description s.description;
  role = or_default c.role s.role;
  objective = or_else c.objective s.objective;
  system_instructions = or_default c.system_instructions s.system_instructions;
  personality = or_else c.personality s.personality;
  tone = or_default c.tone s.tone;
  language = or_default c.language s.language;
  model_provider = or_default c.model_provider s.model_provider;
  model_name = or_default c.model_name s.model_name;
  temperature = or_default c.temperature s.temperature;
  max_tokens = or_default c.max_tokens s.max_tokens;
  guardrails = or_else c.guardrails s.guardrails;
  max_tool_calls = or_default c.max_tool_calls s.max_tool_calls;
  timeout_seconds = or_default c.timeout_seconds s.timeout_seconds;
}

pub record Agent : Type 0 where
  pub organization_id : String
  pub created_by : String
  pub slug : String
  pub settings : Settings
  pub status : AgentStatus
  pub deployed_version_id : Option String
  pub deleted_at : Option ℕ

pub record AgentVersion : Type 0 where
  pub agent_id : String
  pub version : ℕ
  pub config : Snapshot
  pub change_notes : String
  pub created_by : String

pub record Attachment : Type 0 where
  pub agent_id : String
  pub target_id : String
  pub configuration : Option String
  pub permissions : Option String

-- The other tables with an `agent_id` are kept as that column alone.
pub record AgentsDb : Type 0 where
  pub agents : Table Agent
  pub versions : Table AgentVersion
  pub agent_tools : Table Attachment
  pub agent_knowledge : Table Attachment
  pub workflow_nodes : Table (Option String)
  pub conversations : Table (Option String)
  pub usage_records : Table (Option String)
  pub tool_executions : Table (Option String)
  pub tasks : Table (Option String)

-- `agent.findFirst({ where: { id, organizationId } })`
abbrev pub in_org : String → Agent → Bool
in_org org a = a.organization_id == org

-- `findOwnedAgent`
unfoldable pub find_owned : String → String → AgentsDb → Option Agent
find_owned org id db = such (λ a. in_org org a && not (is_some a.deleted_at)) (find id db.agents)

unfoldable pub find_in_org : String → String → AgentsDb → Option Agent
find_in_org org id db = such (in_org org) (find id db.agents)

-- `agentVersion.findFirst({ where: { id, agentId } })`
unfoldable pub find_version : String → String → AgentsDb → Option AgentVersion
find_version agent id db = such (λ v. v.agent_id == agent) (find id db.versions)

abbrev pub later : AgentVersion → Option AgentVersion → Option AgentVersion
later v none = some v
later v (some w) = if ltb w.version v.version then some v else some w

-- `agentVersion.findFirst({ where: { agentId }, orderBy: { version: 'desc' } })`
unfoldable pub last_version : String → Table AgentVersion → Option AgentVersion
last_version agent [] = none
last_version agent ((k, v) ∷ t) =
    let rest = last_version agent t in if v.agent_id == agent then later v rest else rest

abbrev pub version_of : Option AgentVersion → ℕ
version_of none = 0
version_of (some v) = v.version
