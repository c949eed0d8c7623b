-- ===== src/Runtime/State.antt =====
-- The rows and keys that the agent runtime and the services around it read and write, and the calls
-- that leave the backend. A JSON value is kept as its text. Lists of rows are newest first, but
-- for the messages, which are in the order of their creation.
use ai_business_operating_sy.Base.{Bool, List, M, Option, String, Table, write, ℕ, ◌∷◌}
use ai_business_operating_sy.Agents.State.{Agent, Attachment}

pub data RiskLevel : Type 0 where
  low medium high : RiskLevel

pub data ToolType : Type 0 where
  built_in integration custom webhook : ToolType

-- A row of `tools`; of its configuration the members that the code reads are kept.
pub record Tool : Type 0 where
  pub organization_id : Option String
  pub slug : String
  pub name : String
  pub description : String
  pub type : ToolType
  pub input_schema : Option String
  pub url : Option String
  pub endpoint : Option String
  pub risk_level : RiskLevel
  pub is_active : Bool
  pub is_built_in : Bool

pub data TaskStatus : Type 0 where
  pending running completed failed requires_approval : TaskStatus

pub data TaskPriority : Type 0 where
  low medium high urgent : TaskPriority

pub record Task : Type 0 where
  pub organization_id : String
  pub agent_id : Option String
  pub assigned_to : Option String
  pub title : String
  pub description : Option String
  pub status : TaskStatus
  pub priority : TaskPriority
  pub due_date : Option ℕ
  pub source : Option String
  pub source_id : Option String
  pub result : Option String
  pub completed_at : Option ℕ

pub data ExecutionStatus : Type 0 where
  pending completed failed : ExecutionStatus

-- A row of `tool_executions`
pub record ToolExecution : Type 0 where
  pub tool_id : String
  pub organization_id : String
  pub agent_id : Option String
  pub conversation_id : Option String
  pub input : String
  pub output : Option String
  pub status : ExecutionStatus
  pub error : Option String

pub data AuditResult : Type 0 where
  success failure pending : AuditResult

pub record AuditLog : Type 0 where
  pub organization_id : String
  pub user_id : Option String
  pub action : String
  pub resource_type : String
  pub resource_id : Option String
  pub result : AuditResult

pub data MessageRole : Type 0 where
  system user assistant tool : MessageRole

-- A tool call that a model asks for
pub record UnifiedToolCall : Type 0 where
  pub id : String
  pub name : String
  pub arguments : String

-- An element of `toolCalls` in the result of a run
pub record RecordedCall : Type 0 where
  pub id : String
  pub name : String
  pub arguments : String
  pub succeeded : Bool
  pub error : Option String
  pub requires_approval : Bool
  pub task_id : Option String

-- A row of `messages`
pub record Message : Type 0 where
  pub id : String
  pub conversation_id : String
  pub role : MessageRole
  pub content : String
  pub tool_calls : List RecordedCall
  pub tokens : Option ℕ

-- A message of the history that a model is sent
pub record ChatMessage : Type 0 where
  pub role : MessageRole
  pub content : String
  pub tool_calls : List UnifiedToolCall
  pub tool_call_id : Option String
  pub name : Option String

pub record UsageRecord : Type 0 where
  pub organization_id : String
  pub user_id : String
  pub agent_id : String
  pub conversation_id : String
  pub message_id : Option String
  pub input_tokens : ℕ
  pub output_tokens : ℕ
  pub total_tokens : ℕ
  pub month_bucket : String

pub record QuotaStatus : Type 0 where
  pub used : ℕ
  pub limit : Option ℕ
  pub remaining : Option ℕ

-- A cached value with the time at which Redis drops it
pub record Cached : Type 0 where
  pub status : QuotaStatus
  pub drops_at : ℕ

pub record Remembered : Type 0 where
  pub role : MessageRole
  pub content : String

pub data ConversationStatus : Type 0 where
  active archived : ConversationStatus

pub record Conversation : Type 0 where
  pub organization_id : String
  pub agent_id : String
  pub user_id : String
  pub title : String
  pub status : ConversationStatus
  pub updated_at : ℕ

-- What leaves the backend: a call of a model with the messages it is sent, the body of a tool with its
-- arguments, and a request to the address of a webhook or custom tool.
pub data Effect : Type 0 where
  chats : (messages : List ChatMessage) → Effect
  handles : (name : String) → (args : String) → Effect
  posts : (url : String) → (body : String) → Effect

-- `quota_cache` and `short_term` are the keys `quota:…` and `mem:st:…` of Redis; `limits` are the
-- monthly tokens of the organizations' plans.
pub record RuntimeDb : Type 0 where
  pub agents : Table Agent
  pub agent_tools : Table Attachment
  pub agent_knowledge : Table Attachment
  pub tools : Table Tool
  pub tasks : Table Task
  pub tool_executions : List ToolExecution
  pub audits : List AuditLog
  pub conversations : Table Conversation
  pub messages : List Message
  pub usage_records : List UsageRecord
  pub limits : Table (Option ℕ)
  pub quota_cache : Table Cached
  pub short_term : Table (List Remembered)
  pub effects : List Effect

-- Who a tool runs for
pub record ToolContext : Type 0 where
  pub organization_id : String
  pub user_id : Option String
  pub agent_id : Option String
  pub conversation_id : Option String

-- `audit.log`
abbrev pub log : AuditLog → M RuntimeDb (Unit {0})
log a = write (λ d. record d { audits = a ∷ d.audits })

abbrev pub perform : Effect → M RuntimeDb (Unit {0})
perform e = write (λ d. record d { effects = e ∷ d.effects })
