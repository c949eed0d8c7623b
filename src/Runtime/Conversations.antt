-- ===== src/Runtime/Conversations.antt =====
-- modules/conversations/conversations.service.ts, but for the list that `findAll` reads. Prisma sets
-- `updatedAt` on every update, and the deletion of a conversation cascades to its messages.
use ai_business_operating_sy.Base.{
  Bool, List, M, Option, String, [], create, ensure, false, find, get, if◌then◌else◌, internal,
  is_some, keep, modify, none, not, not_found, or_throw, remove, return, some, such, write, ℕ, ◌&&◌,
  ◌++◌, ◌==◌, ◌>>=◌, ◌>>◌, ◌∷◌,
}
use ai_business_operating_sy.Runtime.State.{
  Conversation, active, archived, Message, MessageRole, RecordedCall, RuntimeDb,
}
use ai_business_operating_sy.Runtime.Registry.{Outside}
use ai_business_operating_sy.Runtime.Executor.{Checks}
use ai_business_operating_sy.Runtime.Prompt.{messages_of}
use ai_business_operating_sy.Runtime.Loop.{AgentRunContext, Gateway, AgentRunResult}
use ai_business_operating_sy.Runtime.Run.{run_agent}

-- The condition of `findFirst({ where: { id, organizationId, userId } })`
abbrev pub is_own : (org user : String) → Conversation → Bool
is_own org user c = c.organization_id == org && c.user_id == user

abbrev pub find_own : (org conversation user : String) → M RuntimeDb Conversation
find_own org conversation user = do
  db ← get
  or_throw (such (is_own org user) (find conversation db.conversations))
      (not_found "Conversation not found")

-- `findOne`, with the messages
unfoldable pub find_one :
    (org conversation user : String) → M RuntimeDb (Conversation × List Message)
find_one org conversation user = do
  db ← get
  c ← find_own org conversation user
  return (c, messages_of conversation db.messages)

-- `dto.title || 'New Conversation'`
abbrev pub title_or : Option String → String
title_or none = "New Conversation"
title_or (some t) = if t == "" then "New Conversation" else t

abbrev pub insert_conversation : (id : String) → Conversation → M RuntimeDb (Unit {0})
insert_conversation id c = do
  db ← get
  ensure (not (is_some (find id db.conversations))) (internal "P2002")
  write (λ d. record d { conversations = create id c d.conversations })

-- `create`
unfoldable pub create_conversation :
    (org user agent : String)
    → (title : Option String) → (id : String) → (now : ℕ) → M RuntimeDb Conversation
create_conversation org user agent title id now = do
  db ← get
  _a ←
      or_throw (such (λ a. a.organization_id == org) (find agent db.agents))
        (not_found "Agent not found")
  let c : Conversation = record {
    organization_id = org;
    agent_id = agent;
    user_id = user;
    title = title_or title;
    status = active;
    updated_at = now;
  }
  insert_conversation id c
  return c

-- `conversation.update`, which throws if the row is gone
abbrev pub update_conversation :
    (id : String) → (Conversation → Conversation) → M RuntimeDb (Unit {0})
update_conversation id f = do
  db ← get
  ensure (is_some (find id db.conversations)) (internal "P2025")
  write (λ d. record d { conversations = modify id f d.conversations })

-- `archive`
unfoldable pub archive : (org conversation user : String) → (now : ℕ) → M RuntimeDb (Unit {0})
archive org conversation user now = do
  _c ← find_own org conversation user
  update_conversation conversation (λ c. record c { status = archived; updated_at = now })

-- `remove`
unfoldable pub remove_conversation : (org conversation user : String) → M RuntimeDb String
remove_conversation org conversation user = do
  _c ← find_own org conversation user
  write (λ d. record d {
    conversations = remove conversation d.conversations;
    messages = keep (λ m. not (m.conversation_id == conversation)) d.messages;
  })
  return "Conversation deleted successfully"

-- The answer of `sendMessage`
pub record Sent : Type 0 where
  pub message_id : Option String
  pub content : String
  pub tool_calls : List RecordedCall
  pub total_tokens : ℕ

-- The ids of the rows that a message makes: its own, and those of the run
pub record MessageIds : Type 0 where
  pub sent_id : String
  pub user_id : String
  pub assistant_id : String

abbrev pub context_of : (org conversation user message : String) → Conversation → AgentRunContext
context_of org conversation user message c = record {
  organization_id = org;
  user_id = user;
  agent_id = c.agent_id;
  conversation_id = conversation;
  message = message;
  dry_run = false;
}

abbrev pub sent_message : (conversation message id : String) → Message
sent_message conversation message id = record {
  id = id;
  conversation_id = conversation;
  role = MessageRole.user;
  content = message;
  tool_calls = [];
  tokens = none;
}

abbrev pub sent_of : AgentRunResult → Sent
sent_of r = record {
  message_id = r.message_id;
  content = r.content;
  tool_calls = r.tool_calls;
  total_tokens = r.total_tokens;
}

module _ (out : Outside) (checks : Checks) (gateway : Gateway) (task_ids : ℕ → String) where
  -- `sendMessage`
  unfoldable pub send_message :
      (org conversation user message : String)
      → MessageIds
      → (month : String) → (now : ℕ) → M RuntimeDb Sent
  send_message org conversation user message ids month now = do
    c ← find_own org conversation user
    write (λ d. record d {
      messages = d.messages ++ sent_message conversation message ids.sent_id ∷ [];
    })
    r ←
        run_agent out checks gateway task_ids (context_of org conversation user message c) month
          ids.user_id ids.assistant_id now
    update_conversation conversation (λ c. record c { updated_at = now })
    return (sent_of r)
