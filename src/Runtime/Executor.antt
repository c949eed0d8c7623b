-- ===== src/Runtime/Executor.antt =====
-- tool-executor.ts. `JSON.parse` and the schema validator, which may fill in defaults, are parameters;
-- the durations and the timeout of a tool are left out. An approval task gets its id as an argument.
use ai_business_operating_sy.Base.{
  Bool, List, M, Option, String, Table, bad_request, concat, equals, false, first, get,
  if◌then◌else◌, is_some, none, not, or_throw, return, some, true, write, ◌&&◌, ◌==◌, ◌>>=◌, ◌>>◌,
  ◌||◌, ◌∷◌,
}
use ai_business_operating_sy.Runtime.State.{
  UnifiedToolCall, RiskLevel, Tool, ToolContext, ExecutionStatus, AuditLog, AuditResult, success,
  failure, RuntimeDb, log,
}
use ai_business_operating_sy.Runtime.Tasks.{create_approval_task}
use ai_business_operating_sy.Runtime.Registry.{
  Outside, Outcome, returned, raised, Registered, get_registered, execute_tool,
}

pub record ToolExecutionResult : Type 0 where
  pub tool_call_id : String
  pub tool_name : String
  pub succeeded : Bool
  pub output : Option String
  pub error : Option String
  pub requires_approval : Bool
  pub task_id : Option String
  pub block_reason : Option String

-- The schema of a stored tool, or the required properties of a built-in one
pub data Schema : Type 0 where
  stored : Option String → Schema
  required : List String → Schema

pub record Resolved : Type 0 where
  pub id : String
  pub schema : Schema
  pub risk_level : RiskLevel
  pub from_registry : Bool

pub data Validation : Type 0 where
  valid : (args : String) → Validation
  invalid : (errors : String) → Validation

-- `parse_object` gives the text of the object, if the text is that of a JSON object.
pub record Checks : Type 0 where
  pub parse_object : String → Option String
  pub validate : Schema → String → Validation

-- `resolveTool`
abbrev pub resolve_tool : (slug org : String) → Table Tool → Option (String × Tool)
resolve_tool slug org ts =
    first
      (λ r.
        (r.1.slug == slug && (not (is_some r.1.organization_id) || equals r.1.organization_id org))
        && r.1.is_active)
      ts

abbrev pub from_registry : Option Registered → Option Resolved
from_registry none = none
from_registry (some r) = some (record {
  id = concat "builtin:" r.name;
  schema = required r.required;
  risk_level = r.risk_level;
  from_registry = true;
})

abbrev pub resolved : Option (String × Tool) → Option Registered → Option Resolved
resolved (some (id, t)) r = some (record {
  id = id;
  schema = stored t.input_schema;
  risk_level = t.risk_level;
  from_registry = false;
})
resolved none r = from_registry r

-- The stored tool with the name as its slug, or else the registered tool of that name
unfoldable pub resolve : (name org : String) → RuntimeDb → Option Resolved
unfolding get_registered
resolve name org db = resolved (resolve_tool name org db.tools) (get_registered name)

-- `parseArgs`
abbrev pub parse_args : Checks → String → M RuntimeDb String
parse_args c s =
    if s == ""
    then return "{}"
    else or_throw (c.parse_object s) (bad_request "Invalid tool arguments JSON")

abbrev pub audit_log :
    ToolContext → (action : String) → (tool : Option String) → AuditResult → AuditLog
audit_log ctx action tool result = record {
  organization_id = ctx.organization_id;
  user_id = ctx.user_id;
  action = action;
  resource_type = "tool";
  resource_id = tool;
  result = result;
}

abbrev pub failed_result : UnifiedToolCall → String → ToolExecutionResult
failed_result call message = record {
  tool_call_id = call.id;
  tool_name = call.name;
  succeeded = false;
  output = none;
  error = some message;
  requires_approval = false;
  task_id = none;
  block_reason = none;
}

-- `recordFailure`
abbrev pub record_failure :
    UnifiedToolCall → ToolContext → (message action : String) → M RuntimeDb ToolExecutionResult
record_failure call ctx message action = do
  log (audit_log ctx action none failure)
  return (failed_result call message)

-- `recordExecutionRow`
abbrev pub record_execution_row :
    (tool : String)
    → ToolContext
    → (input : String) → (output : Option String) → ExecutionStatus
    → (error : Option String) → M RuntimeDb (Unit {0})
record_execution_row tool ctx input output status error = write (λ d. record d {
  tool_executions =
      record {
        tool_id = tool;
        organization_id = ctx.organization_id;
        agent_id = ctx.agent_id;
        conversation_id = ctx.conversation_id;
        input = input;
        output = output;
        status = status;
        error = error;
      }
      ∷ d.tool_executions;
})

abbrev pub is_high : RiskLevel → Bool
is_high RiskLevel.high = true
is_high _ = false

abbrev pub is_medium : RiskLevel → Bool
is_medium RiskLevel.medium = true
is_medium _ = false

-- The branch of a stored HIGH-risk tool; of the task's description and payload the arguments are kept.
abbrev pub ask_approval :
    UnifiedToolCall
    → ToolContext
    → Resolved
    → (args task_id : String) → M RuntimeDb ToolExecutionResult
ask_approval call ctx tool args task_id = do
  _t ←
      create_approval_task ctx.organization_id ctx.agent_id ctx.conversation_id
        (concat "Approve tool \"" (concat call.name "\"")) args args task_id
  record_execution_row tool.id ctx args none ExecutionStatus.pending
      (some "Awaiting human approval")
  log (audit_log ctx "tool.execution.requires_approval" (some tool.id) AuditResult.pending)
  return (record {
    tool_call_id = call.id;
    tool_name = call.name;
    succeeded = false;
    output = none;
    error = none;
    requires_approval = true;
    task_id = some task_id;
    block_reason = some "High-risk tool requires human approval";
  })

abbrev pub when : Bool → M RuntimeDb (Unit {0}) → M RuntimeDb (Unit {0})
when true m = m
when false m = return tt

-- What is done with the outcome of the run
abbrev pub record_outcome :
    UnifiedToolCall
    → ToolContext
    → Resolved
    → (args : String) → Outcome
    → M RuntimeDb ToolExecutionResult
record_outcome call ctx tool args (returned output) = do
  when (not tool.from_registry)
      (record_execution_row tool.id ctx args (some output) ExecutionStatus.completed none)
  log (
      audit_log ctx
        (if is_medium tool.risk_level then "tool.execution.medium_risk" else "tool.execution")
        (some tool.id) success)
  return (record {
    tool_call_id = call.id;
    tool_name = call.name;
    succeeded = true;
    output = some output;
    error = none;
    requires_approval = false;
    task_id = none;
    block_reason = none;
  })
record_outcome call ctx tool args (raised message) = do
  when (not tool.from_registry)
      (record_execution_row tool.id ctx args none ExecutionStatus.failed (some message))
  log (audit_log ctx "tool.execution.failed" (some tool.id) failure)
  return (failed_result call message)

module _ (out : Outside) (checks : Checks) where
  -- The risk policy and what comes after it
  unfoldable pub run_policy :
      UnifiedToolCall
      → ToolContext
      → Resolved
      → (args task_id : String) → M RuntimeDb ToolExecutionResult
  unfolding create_approval_task execute_tool
  run_policy call ctx tool args task_id =
      if is_high tool.risk_level
      then (if tool.from_registry
          then record_failure call ctx
              "High-risk tool must be a registered (DB) tool to require approval"
              "tool.execution.tool_high_risk_untracked"
          else ask_approval call ctx tool args task_id)
      else (execute_tool out call.name args ctx >>= λ o. record_outcome call ctx tool args o)

  abbrev pub run_valid :
      UnifiedToolCall
      → ToolContext
      → Resolved
      → Validation
      → (task_id : String) → M RuntimeDb ToolExecutionResult
  run_valid call ctx tool (valid args) task_id = run_policy call ctx tool args task_id
  run_valid call ctx tool (invalid errors) task_id =
      record_failure call ctx (concat "Invalid arguments: " errors)
        "tool.execution.tool_invalid_args"

  abbrev pub run_resolved :
      UnifiedToolCall
      → ToolContext
      → Option Resolved
      → (task_id : String) → M RuntimeDb ToolExecutionResult
  run_resolved call ctx none task_id =
      record_failure call ctx "Tool not found in registry" "tool.execution.tool_not_found"
  run_resolved call ctx (some tool) task_id = do
    args ← parse_args checks call.arguments
    run_valid call ctx tool (checks.validate tool.schema args) task_id

  -- `execute`
  unfoldable pub execute :
      UnifiedToolCall → ToolContext → (task_id : String) → M RuntimeDb ToolExecutionResult
  unfolding resolve run_policy
  execute call ctx task_id = do
    db ← get
    run_resolved call ctx (resolve call.name ctx.organization_id db) task_id
