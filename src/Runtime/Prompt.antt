-- ===== src/Runtime/Prompt.antt =====
-- agent-runtime.service.ts: `buildSystemPrompt`, `loadHistory` and the tools offered to the model
-- (`buildSpecsForAgent` of tool-executor.ts). Guardrails that are no JSON, on which `JSON.parse` throws,
-- are left out.
use ai_business_operating_sy.Base.{
  Bool, List, Option, String, Table, [], concat, false, find, if◌then◌else◌, keep, map, none, not,
  or_default, some, take, ◌==◌, ◌∷◌,
}
use ai_business_operating_sy.Agents.State.{Settings, Attachment}
use ai_business_operating_sy.Runtime.State.{
  Tool, Message, ChatMessage, RecordedCall, UnifiedToolCall, RuntimeDb,
}

abbrev pub is_set : Option String → Bool
is_set none = false
is_set (some s) = not (s == "")

-- `if (s) prompt += heading + s + end`
abbrev pub section : (heading : String) → Option String → (end : String) → String → String
section heading s end prompt =
    if is_set s then concat prompt (concat heading (concat (or_default s "") end)) else prompt

abbrev pub bullets : List String → String
bullets [] = ""
bullets (g ∷ []) = concat "- " g
bullets (g ∷ h ∷ gs) = concat "- " (concat g (concat "\n" (bullets (h ∷ gs))))

abbrev pub guarded : List String → String → String
guarded [] prompt = prompt
guarded (g ∷ gs) prompt = concat prompt (concat "\n\n## Guardrails\n" (bullets (g ∷ gs)))

abbrev pub or_text : String → String → String
or_text s d = if s == "" then d else s

-- `buildSystemPrompt`; `guardrails` are the texts of the JSON array, if it is one.
unfoldable pub build_system_prompt : Settings → (guardrails : List String) → String
build_system_prompt a guardrails =
    let start = or_text a.system_instructions "You are a helpful AI assistant." in
    let objective = section "\n\n## Objective\n" a.objective "" start in
    let personality = section "\n\n## Personality\n" a.personality "" objective in
    let tone = section "\n\n## Tone\nRespond in a " (some a.tone) " manner." personality in
    concat (guarded guardrails tone)
      (concat "\n\n## Language\nRespond in " (concat (or_text a.language "English") "."))

abbrev pub as_call : RecordedCall → UnifiedToolCall
as_call c = record { id = c.id; name = c.name; arguments = c.arguments }

-- What a row is in the history; the call that a TOOL row answers is in metadata that nothing writes.
abbrev pub as_chat : Message → ChatMessage
as_chat m = record {
  role = m.role;
  content = m.content;
  tool_calls = map as_call m.tool_calls;
  tool_call_id = none;
  name = none;
}

abbrev pub messages_of : (conversation : String) → List Message → List Message
messages_of conversation ms = keep (λ m. m.conversation_id == conversation) ms

-- `loadHistory`: the query orders by the time of creation and takes fifty rows.
unfoldable pub load_history : (conversation : String) → List Message → List ChatMessage
load_history conversation ms = map as_chat (take 50 (messages_of conversation ms))

pub record ToolSpec : Type 0 where
  pub name : String
  pub description : String
  pub input_schema : Option String

-- `tool` of an attachment, if it is active
abbrev pub spec_of : Option Tool → List ToolSpec → List ToolSpec
spec_of none rest = rest
spec_of (some t) rest =
    if t.is_active
    then record { name = t.slug; description = t.description; input_schema = t.input_schema } ∷ rest
    else rest

abbrev pub specs : (agent : String) → Table Tool → Table Attachment → List ToolSpec
specs agent tools [] = []
specs agent tools ((_, r) ∷ t) =
    let rest = specs agent tools t in
    if r.agent_id == agent then spec_of (find r.target_id tools) rest else rest

-- `buildSpecsForAgent`
unfoldable pub build_specs_for_agent : (agent : String) → RuntimeDb → List ToolSpec
build_specs_for_agent agent db = specs agent db.tools db.agent_tools
