-- ===== src/Runtime/Examples.antt =====
-- An agent of the organization "acme" that looks up an order with a tool and then answers, and a
-- stored tool of HIGH risk.
use ai_business_operating_sy.Base.{
  ◌↔◌, List, Result, String, [], arith, create, err, false, find, none, ok, refl, remove, some, suc,
  true, zero, ℕ, ◌++◌, ◌+◌, ◌∷◌, ◌≡◌, ◌≤◌, ◌⊎◌,
}
use ai_business_operating_sy.Agents.State.{Settings, Agent, AgentStatus}
use ai_business_operating_sy.Runtime.State.{
  RiskLevel, ToolType, Tool, ToolContext, Effect, chats, UnifiedToolCall, Message, MessageRole,
  Conversation, QuotaStatus, RuntimeDb, active,
}
use ai_business_operating_sy.Runtime.Registry.{
  Outside, returned, Session, CreateTool, create_tool, find_one_tool, get_registered, execute_tool,
}
use ai_business_operating_sy.Runtime.Executor.{Checks, valid, resolve, execute, run_policy}
use ai_business_operating_sy.Runtime.Quota.{tokens_used, get_status, enforce, record_usage}
use ai_business_operating_sy.Runtime.Memory.{push_short_term}
use ai_business_operating_sy.Runtime.Prompt.{
  build_system_prompt, load_history, build_specs_for_agent,
}
use ai_business_operating_sy.Runtime.Loop.{
  AgentRunContext, Gateway, ChatRequest, ChatReply, answered, AgentRunResult, max_tool_iterations,
  run_calls, tool_loop,
}
use ai_business_operating_sy.Runtime.Run.{admit, persist, run_admitted, run_agent}
use ai_business_operating_sy.Runtime.Risk.{IsAudited, execute-IsAudited, create_tool-shown_iff}
use ai_business_operating_sy.Runtime.Frame.{chat_count}
use ai_business_operating_sy.Runtime.Admission.{Untouched, IsAdmissible}
use ai_business_operating_sy.Runtime.Limits.{run_agent-chat_count, run_agent-IsAdmissible}
use ai_business_operating_sy.Runtime.Usage.{
  billed, Attempt, run_all, run_agent-tokens_used, run_all-get_status,
}
use ai_business_operating_sy.Runtime.Recall.{load_history-append}
use ai_business_operating_sy.Runtime.Conversations.{MessageIds, send_message}
use ai_business_operating_sy.Runtime.Said.{IsRepeated, send_message-IsRepeated}

abbrev settings : Settings
settings = record {
  name = "Support";
  description = none;
  role = "assistant";
  objective = some "Help with orders.";
  system_instructions = "Be brief.";
  personality = none;
  tone = "friendly";
  language = "en";
  model_provider = "openai";
  model_name = "gpt-4o-mini";
  temperature = record { mantissa = 7; scale = 1 };
  max_tokens = 4096;
  guardrails = none;
  max_tool_calls = 10;
  timeout_seconds = 120;
}

abbrev agent : Agent
agent = record {
  organization_id = "acme";
  created_by = "ada";
  slug = "support";
  settings = settings;
  status = AgentStatus.active;
  deployed_version_id = some "v1";
  deleted_at = none;
}

abbrev refund : Tool
refund = record {
  organization_id = some "acme";
  slug = "refund";
  name = "refund";
  description = "Refunds an order";
  type = ToolType.webhook;
  input_schema = none;
  url = some "https://acme.example/refund";
  endpoint = none;
  risk_level = RiskLevel.high;
  is_active = true;
  is_built_in = false;
}

abbrev conversation : Conversation
conversation = record {
  organization_id = "acme";
  agent_id = "a1";
  user_id = "ada";
  title = "Orders";
  status = active;
  updated_at = 1;
}

abbrev runtime : RuntimeDb
runtime = record {
  agents = ("a1", agent) ∷ [];
  agent_tools = [];
  agent_knowledge = [];
  tools = ("t1", refund) ∷ [];
  tasks = [];
  tool_executions = [];
  audits = [];
  conversations = ("c1", conversation) ∷ [];
  messages = [];
  usage_records = [];
  limits = ("acme", some 1000) ∷ [];
  quota_cache = [];
  short_term = [];
  effects = [];
}

abbrev outside : Outside
outside = record { handle = λ name args ctx. returned "shipped"; post = λ url body. returned "{}" }

abbrev checks : Checks
checks = record { parse_object = λ s. some s; validate = λ s args. valid args }

-- The first answer asks for a tool, the second is the last.
abbrev chat : List Effect → ChatRequest → ChatReply
chat (chats ms ∷ []) r =
    answered "" (record { id = "k1"; name = "getOrderStatus"; arguments = "{\"orderId\":7}" } ∷ [])
      30 5
chat _ r = answered "It has shipped." [] 40 10

abbrev gateway : Gateway
gateway = record {
  count_tokens = λ provider message. some 12;
  chat = chat;
  guardrails = λ g. [];
  retrieve = λ org query. none;
  feedback = λ r. "{}";
}

abbrev task_ids : ℕ → String
task_ids n = "k"

abbrev context : AgentRunContext
context = record {
  organization_id = "acme";
  user_id = "ada";
  agent_id = "a1";
  conversation_id = "c1";
  message = "Where is order 7?";
  dry_run = false;
}

abbrev tool_context : ToolContext
tool_context = record {
  organization_id = "acme";
  user_id = some "ada";
  agent_id = some "a1";
  conversation_id = some "c1";
}

abbrev refund_call : UnifiedToolCall
refund_call = record { id = "k2"; name = "refund"; arguments = "{}" }

execute-IsAudited_example :
    IsAudited outside checks tool_context runtime
      (execute outside checks refund_call tool_context "k" runtime)
execute-IsAudited_example = execute-IsAudited outside checks refund_call tool_context "k" runtime

abbrev lookup : CreateTool
lookup = record {
  name = "lookup";
  description = "Looks a customer up";
  input_schema = none;
  url = none;
  endpoint = some "https://acme.example/lookup";
  risk_level = none;
}

abbrev created_tool : Tool
created_tool = record {
  organization_id = some "acme";
  slug = "lookup";
  name = "lookup";
  description = "Looks a customer up";
  type = ToolType.custom;
  input_schema = none;
  url = none;
  endpoint = some "https://acme.example/lookup";
  risk_level = RiskLevel.low;
  is_active = true;
  is_built_in = true;
}

abbrev with_lookup : RuntimeDb
with_lookup = record runtime { tools = ("t2", created_tool) ∷ ("t1", refund) ∷ [] }

abbrev session : (org : String) → Session
session org = record { is_exempt = false; is_service = false; current_org = some org }

created :
    create_tool (session "acme") "acme" lookup "lookup" "t2" runtime
    ≡ (ok created_tool, with_lookup)
unfolding create_tool create find
created = refl

create_tool-shown_iff_example :
    (find_one_tool (session "globex") "acme" "t2" with_lookup ≡ (ok created_tool, with_lookup))
    ↔ (false ≡ true)
create_tool-shown_iff_example =
    create_tool-shown_iff (session "acme") (session "globex") "acme" "acme" "lookup" "t2" lookup
      created_tool runtime with_lookup created

run_agent-chat_count_example :
    chat_count
      (run_agent outside checks gateway task_ids context "2026-11" "m1" "m2" 5 runtime).1.effects
    ≤ max_tool_iterations + chat_count runtime.effects
run_agent-chat_count_example =
    run_agent-chat_count outside checks gateway task_ids context "2026-11" "m1" "m2" 5 runtime

run_agent-IsAdmissible_example :
    Untouched runtime
      (run_agent outside checks gateway task_ids context "2026-11" "m1" "m2" 5 runtime).1
    ⊎ ((a : Agent) × IsAdmissible outside checks gateway task_ids context "2026-11" 5 runtime a)
run_agent-IsAdmissible_example =
    run_agent-IsAdmissible outside checks gateway task_ids context "2026-11" "m1" "m2" 5 runtime

run_agent-tokens_used_example :
    let r = run_agent outside checks gateway task_ids context "2026-11" "m1" "m2" 5 runtime in
    tokens_used "acme" "2026-11" r.1.usage_records
    ≡ billed outside checks gateway task_ids false r.0 + tokens_used "acme" "2026-11" []
run_agent-tokens_used_example =
    run_agent-tokens_used outside checks gateway task_ids context "2026-11" "m1" "m2" 5 runtime

abbrev attempts : List Attempt
attempts =
    record { ctx = context; user_id = "m1"; message_id = "m2"; now = 5 }
    ∷ record { ctx = context; user_id = "m3"; message_id = "m4"; now = 6 }
    ∷ []

run_all-get_status_example :
    (s : QuotaStatus) × ((get_status "acme" "2026-11" 7
        (run_all outside checks gateway task_ids "2026-11" attempts runtime)).0
      ≡ ok s)
    × (s.used
        ≡ tokens_used "acme" "2026-11"
            (run_all outside checks gateway task_ids "2026-11" attempts runtime).usage_records)
run_all-get_status_example =
    run_all-get_status outside checks gateway task_ids "acme" "2026-11" attempts 7 runtime refl
      (refl, (refl, tt))

abbrev message_ids : MessageIds
message_ids = record { sent_id = "m0"; user_id = "m1"; assistant_id = "m2" }

send_message-IsRepeated_example :
    IsRepeated outside checks gateway task_ids "acme" "c1" "ada" "Where is order 7?" message_ids
      runtime
      (send_message outside checks gateway task_ids "acme" "c1" "ada" "Where is order 7?"
        message_ids "2026-11" 5 runtime)
send_message-IsRepeated_example =
    send_message-IsRepeated outside checks gateway task_ids "acme" "c1" "ada" "Where is order 7?"
      message_ids "2026-11" 5 runtime

abbrev said : String → Message
said text = record {
  id = "m";
  conversation_id = "c1";
  role = MessageRole.user;
  content = text;
  tool_calls = [];
  tokens = none;
}

abbrev repeat : ℕ → List Message
repeat zero = []
repeat (suc n) = said "old" ∷ repeat n

load_history-append_example :
    load_history "c1" (repeat 50 ++ said "new" ∷ []) ≡ load_history "c1" (repeat 50)
load_history-append_example = load_history-append "c1" (repeat 50) (said "new" ∷ []) (omega arith)

abbrev answer_of : Result AgentRunResult → String × ℕ
answer_of (ok r) = (r.content, r.total_tokens)
answer_of (err e) = ("", 0)

run_agent_answers :
    answer_of (run_agent outside checks gateway task_ids context "2026-11" "m1" "m2" 5 runtime).0
    ≡ ("It has shipped.", 85)
unfolding run_agent admit enforce get_status run_admitted build_system_prompt load_history
    build_specs_for_agent tool_loop run_calls execute resolve get_registered run_policy execute_tool
    persist record_usage push_short_term tokens_used find create remove
run_agent_answers = refl
