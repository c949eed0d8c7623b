-- ===== src/Runtime/Run.antt =====
-- agent-runtime.service.ts: `run` around its loop: the checks, the prompt, and what is stored. New ids,
-- the time and its month are arguments.
use ai_business_operating_sy.Base.{
  M, String, [], bad_request, concat, ensure, find, get, if◌then◌else◌, internal, is_some, ltb,
  none, not, not_found, or_default, or_throw, return, some, such, write, ℕ, ◌*◌, ◌++◌, ◌+◌, ◌==◌,
  ◌>>=◌, ◌>>◌, ◌||◌, ◌∷◌,
}
use ai_business_operating_sy.Agents.State.{Agent, is_active, is_archived}
use ai_business_operating_sy.Runtime.State.{
  ToolContext, AuditLog, success, failure, MessageRole, Message, UsageRecord, RuntimeDb, log,
}
use ai_business_operating_sy.Runtime.Registry.{Outside}
use ai_business_operating_sy.Runtime.Executor.{Checks, when}
use ai_business_operating_sy.Runtime.Quota.{enforce, record_usage}
use ai_business_operating_sy.Runtime.Memory.{push_short_term}
use ai_business_operating_sy.Runtime.Prompt.{
  build_system_prompt, load_history, build_specs_for_agent,
}
use ai_business_operating_sy.Runtime.Loop.{
  AgentRunContext, AgentRunResult, Gateway, LoopState, max_tool_iterations, plain, tool_loop,
}

module _ (out : Outside) (checks : Checks) (gateway : Gateway) (task_ids : ℕ → String) where
  abbrev pub add_message : Message → M RuntimeDb (Unit {0})
  add_message m = write (λ d. record d { messages = d.messages ++ m ∷ [] })

  abbrev pub build_tool_ctx : AgentRunContext → ToolContext
  build_tool_ctx ctx = record {
    organization_id = ctx.organization_id;
    user_id = some ctx.user_id;
    agent_id = some ctx.agent_id;
    conversation_id = some ctx.conversation_id;
  }

  abbrev pub user_message : AgentRunContext → (id : String) → Message
  user_message ctx id = record {
    id = id;
    conversation_id = ctx.conversation_id;
    role = MessageRole.user;
    content = ctx.message;
    tool_calls = [];
    tokens = none;
  }

  abbrev pub initial : AgentRunContext → Agent → RuntimeDb → LoopState
  initial ctx a db =
      let prompt =
        concat (build_system_prompt a.settings (gateway.guardrails a.settings.guardrails))
          (or_default (gateway.retrieve ctx.organization_id ctx.message) "") in
      record {
        messages =
            plain MessageRole.system prompt
            ∷ (load_history ctx.conversation_id db.messages
                ++ plain MessageRole.user ctx.message ∷ []);
        calls = [];
        total_input = 0;
        total_output = 0;
        content = "";
        error = none;
      }

  -- Steps 1 and 2: the checks before anything is called
  unfoldable pub admit : AgentRunContext → (month : String) → (now : ℕ) → M RuntimeDb Agent
  admit ctx month now = do
    db ← get
    a ←
        or_throw
          (such (λ a. a.organization_id == ctx.organization_id) (find ctx.agent_id db.agents))
          (not_found "Agent not found")
    ensure (not (is_archived a.status || is_some a.deleted_at)) (bad_request "Agent is archived")
    ensure (ctx.dry_run || is_active a.status) (bad_request "Agent is not active. Deploy it first.")
    n ←
        or_throw (gateway.count_tokens a.settings.model_provider ctx.message)
          (internal "AI provider not available")
    allowed ← enforce ctx.organization_id month (n * 4) now
    ensure allowed (bad_request "QUOTA_EXCEEDED")
    return a

  abbrev pub assistant_message : AgentRunContext → (id : String) → LoopState → Message
  assistant_message ctx id s = record {
    id = id;
    conversation_id = ctx.conversation_id;
    role = MessageRole.assistant;
    content = s.content;
    tool_calls = s.calls;
    tokens = some (s.total_input + s.total_output);
  }

  abbrev pub usage_of : AgentRunContext → (month message_id : String) → LoopState → UsageRecord
  usage_of ctx month message_id s = record {
    organization_id = ctx.organization_id;
    user_id = ctx.user_id;
    agent_id = ctx.agent_id;
    conversation_id = ctx.conversation_id;
    message_id = some message_id;
    input_tokens = s.total_input;
    output_tokens = s.total_output;
    total_tokens = s.total_input + s.total_output;
    month_bucket = month;
  }

  -- Steps 8 to 10: what a run that is no dry run stores
  unfoldable pub persist :
      AgentRunContext → (month message_id : String) → LoopState → M RuntimeDb (Unit {0})
  persist ctx month message_id s = do
    add_message (assistant_message ctx message_id s)
    when (ltb 0 (s.total_input + s.total_output))
        (record_usage (usage_of ctx month message_id s) month)
    push_short_term ctx.conversation_id MessageRole.user ctx.message
    push_short_term ctx.conversation_id MessageRole.assistant s.content

  abbrev pub audit_run : AgentRunContext → LoopState → AuditLog
  audit_run ctx s = record {
    organization_id = ctx.organization_id;
    user_id = some ctx.user_id;
    action = "agent.execution";
    resource_type = "agent";
    resource_id = some ctx.agent_id;
    result = if is_some s.error then failure else success;
  }

  abbrev pub result_of : AgentRunContext → (message_id : String) → LoopState → AgentRunResult
  result_of ctx message_id s = record {
    message_id = if ctx.dry_run then none else some message_id;
    content = s.content;
    tool_calls = s.calls;
    input_tokens = s.total_input;
    output_tokens = s.total_output;
    total_tokens = s.total_input + s.total_output;
    error = s.error;
  }

  -- Steps 3 to 11, for an agent that was admitted
  unfoldable pub run_admitted :
      AgentRunContext → (month user_id message_id : String) → Agent → M RuntimeDb AgentRunResult
  run_admitted ctx month user_id message_id a = do
    db ← get
    when (not ctx.dry_run) (add_message (user_message ctx user_id))
    s ←
        tool_loop out checks gateway task_ids max_tool_iterations (build_tool_ctx ctx) a
          (build_specs_for_agent ctx.agent_id db) (initial ctx a db)
    when (not ctx.dry_run) (persist ctx month message_id s)
    log (audit_run ctx s)
    return (result_of ctx message_id s)

  -- `run`
  unfoldable pub run_agent :
      AgentRunContext → (month user_id message_id : String) → (now : ℕ) → M RuntimeDb AgentRunResult
  run_agent ctx month user_id message_id now = do
    a ← admit ctx month now
    run_admitted ctx month user_id message_id a
