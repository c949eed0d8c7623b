-- ===== src/Runtime/Loop.antt =====
-- agent-runtime.service.ts: the loop of `run` in which the model asks for tools. The model, the retrieval,
-- the token count and the JSON texts are parameters; the model may answer by all that was called
-- before. The streamed events, the durations and the costs are left out.
use ai_business_operating_sy.Base.{
  Bool, List, M, Option, String, [], get, length, none, return, some, suc, zero, ℕ, ◌++◌, ◌+◌,
  ◌>>=◌, ◌>>◌, ◌∷◌,
}
use ai_business_operating_sy.Agents.State.{Agent}
use ai_business_operating_sy.Runtime.State.{
  ToolContext, MessageRole, UnifiedToolCall, RecordedCall, ChatMessage, Effect, chats, RuntimeDb,
  perform,
}
use ai_business_operating_sy.Runtime.Registry.{Outside}
use ai_business_operating_sy.Runtime.Executor.{Checks, ToolExecutionResult, execute}
use ai_business_operating_sy.Runtime.Prompt.{ToolSpec}

pub record AgentRunContext : Type 0 where
  pub organization_id : String
  pub user_id : String
  pub agent_id : String
  pub conversation_id : String
  pub message : String
  pub dry_run : Bool

pub record ChatRequest : Type 0 where
  pub provider : String
  pub model : String
  pub messages : List ChatMessage
  pub tools : List ToolSpec

pub data ChatReply : Type 0 where
  answered :
      (content : String)
      → (tool_calls : List UnifiedToolCall) → (input_tokens output_tokens : ℕ) → ChatReply
  provider_error : (code message : String) → ChatReply

-- `chat` is `gateway.chatStream`, with `PROVIDER_…` as the code of an error; `feedback` is the JSON text
-- that tells the model of a tool's result; `retrieve` is the context that the retrieval adds, if it
-- does not fail.
pub record Gateway : Type 0 where
  pub count_tokens : (provider message : String) → Option ℕ
  pub chat : List Effect → ChatRequest → ChatReply
  pub guardrails : Option String → List String
  pub retrieve : (org query : String) → Option String
  pub feedback : ToolExecutionResult → String

-- The variables of the loop
pub record LoopState : Type 0 where
  pub messages : List ChatMessage
  pub calls : List RecordedCall
  pub total_input : ℕ
  pub total_output : ℕ
  pub content : String
  pub error : Option (String × String)

pub record AgentRunResult : Type 0 where
  pub message_id : Option String
  pub content : String
  pub tool_calls : List RecordedCall
  pub input_tokens : ℕ
  pub output_tokens : ℕ
  pub total_tokens : ℕ
  pub error : Option (String × String)

abbrev pub max_tool_iterations : ℕ
max_tool_iterations = 10

abbrev pub plain : MessageRole → String → ChatMessage
plain role content = record {
  role = role;
  content = content;
  tool_calls = [];
  tool_call_id = none;
  name = none;
}

abbrev pub recorded : UnifiedToolCall → ToolExecutionResult → RecordedCall
recorded c r = record {
  id = c.id;
  name = c.name;
  arguments = c.arguments;
  succeeded = r.succeeded;
  error = r.error;
  requires_approval = r.requires_approval;
  task_id = r.task_id;
}

module _ (out : Outside) (checks : Checks) (gateway : Gateway) (task_ids : ℕ → String) where
  -- One call of a tool in the loop, with its result fed back
  abbrev pub after_call : LoopState → UnifiedToolCall → ToolExecutionResult → LoopState
  after_call s c r = record s {
    calls = s.calls ++ recorded c r ∷ [];
    messages =
        s.messages
        ++ record {
          role = MessageRole.tool;
          content = gateway.feedback r;
          tool_calls = [];
          tool_call_id = some c.id;
          name = some c.name;
        }
          ∷ [];
  }

  -- `for (const tc of response.toolCalls)`
  unfoldable pub run_calls : ToolContext → List UnifiedToolCall → LoopState → M RuntimeDb LoopState
  run_calls ctx [] s = return s
  run_calls ctx (c ∷ cs) s = do
    r ← execute out checks c ctx (task_ids (length s.calls))
    run_calls ctx cs (after_call s c r)

  -- The totals, the content and, if there are calls, the assistant's message
  abbrev pub after_answer : LoopState → String → List UnifiedToolCall → ℕ → ℕ → LoopState
  after_answer s content calls input output = record s {
    total_input = s.total_input + input;
    total_output = s.total_output + output;
    content = content;
  }

  abbrev pub with_calls : LoopState → String → List UnifiedToolCall → LoopState
  with_calls s content calls = record s {
    messages =
        s.messages
        ++ record {
          role = MessageRole.assistant;
          content = content;
          tool_calls = calls;
          tool_call_id = none;
          name = none;
        }
          ∷ [];
  }

  -- What comes after a reply, with the rest of the loop given
  abbrev pub after_reply :
      (LoopState → M RuntimeDb LoopState)
      → ToolContext
      → LoopState
      → ChatReply
      → M RuntimeDb LoopState
  after_reply next ctx s (provider_error code message) =
      return (record s { error = some (code, message) })
  after_reply next ctx s (answered content [] input output) =
      return (after_answer s content [] input output)
  after_reply next ctx s (answered content (c ∷ cs) input output) =
      run_calls ctx (c ∷ cs)
        (with_calls (after_answer s content (c ∷ cs) input output) content (c ∷ cs))
      >>= next

  abbrev pub request : Agent → List ToolSpec → LoopState → ChatRequest
  request a tools s = record {
    provider = a.settings.model_provider;
    model = a.settings.model_name;
    messages = s.messages;
    tools = tools;
  }

  -- The tool-calling loop, with the iterations that are left
  unfoldable pub tool_loop :
      ℕ → ToolContext → Agent → List ToolSpec → LoopState → M RuntimeDb LoopState
  tool_loop zero ctx a tools s = return s
  tool_loop (suc n) ctx a tools s = do
    perform (chats s.messages)
    db ← get
    after_reply (tool_loop n ctx a tools) ctx s (gateway.chat db.effects (request a tools s))
