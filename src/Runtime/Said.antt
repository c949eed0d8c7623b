-- ===== src/Runtime/Said.antt =====
-- The messages that a run of agent-runtime.service.ts and `sendMessage` of
-- conversations.service.ts store.
use ai_business_operating_sy.Base.{
  Bool-cases, List, Option-cases, Result, String, [], ap, bind_result, err, false, find, inl, inr,
  is_some, none, ok, refl, return, some, such, such-eq-some, true, ℕ, ◌++◌, ◌>>◌, ◌∙◌, ◌∷◌, ◌≡◌,
}
use mathlib.Core.List.{append_assoc}
use ai_business_operating_sy.Runtime.State.{
  Conversation, Message, MessageRole, RecordedCall, RuntimeDb,
}
use ai_business_operating_sy.Runtime.Registry.{Outside}
use ai_business_operating_sy.Runtime.Executor.{Checks}
use ai_business_operating_sy.Runtime.Loop.{AgentRunContext, Gateway, AgentRunResult}
use ai_business_operating_sy.Runtime.Run.{user_message, assistant_message, run_agent}
use ai_business_operating_sy.Runtime.Cases.{
  started-messages, run_agent_cases, run_admitted_cases, finish_cases,
}
use ai_business_operating_sy.Runtime.Conversations.{
  is_own, Sent, MessageIds, context_of, sent_message, sent_of, update_conversation, send_message,
}

-- The message of the user and its answer
abbrev pub exchange :
    AgentRunContext
    → (user_id message_id : String) → (content : String) → (tool_calls : List RecordedCall)
    → (total_tokens : ℕ) → List Message
exchange ctx user_id message_id content tool_calls total_tokens =
    record {
      id = user_id;
      conversation_id = ctx.conversation_id;
      role = MessageRole.user;
      content = ctx.message;
      tool_calls = [];
      tokens = none;
    }
    ∷ record {
      id = message_id;
      conversation_id = ctx.conversation_id;
      role = MessageRole.assistant;
      content = content;
      tool_calls = tool_calls;
      tokens = some total_tokens;
    }
    ∷ []

module _ (out : Outside) (checks : Checks) (gateway : Gateway) (task_ids : ℕ → String) where
  -- What a run that is no dry run leaves of messages, if it returns
  abbrev pub Answers :
      AgentRunContext
      → (user_id message_id : String) → RuntimeDb
      → Result AgentRunResult × RuntimeDb
      → Type 0
  Answers ctx user_id message_id db (err e, d) = Unit
  Answers ctx user_id message_id db (ok r, d) =
      d.messages
      ≡ db.messages ++ exchange ctx user_id message_id r.content r.tool_calls r.total_tokens

  -- A run that returns, and is no dry run, adds the user's message and its answer to the messages, and
  -- nothing else.
  pub run_agent-Answers :
      (ctx : AgentRunContext) (month user_id message_id : String) (now : ℕ) (db : RuntimeDb)
      → ctx.dry_run ≡ false
      → Answers ctx user_id message_id db
          (run_agent out checks gateway task_ids ctx month user_id message_id now db)
  run_agent-Answers ctx month user_id message_id now db wet =
      run_agent_cases out checks gateway task_ids (Answers ctx user_id message_id db) ctx month
        user_id message_id now db (λ e d asked. tt)
        (λ a d asked admissible.
          run_admitted_cases out checks gateway task_ids (Answers ctx user_id message_id db) ctx
            month user_id message_id a d (λ e d' f. tt)
            (λ s d' f.
              finish_cases out checks gateway task_ids (Answers ctx user_id message_id db) ctx month
                message_id s d' (λ dry. cc)
                (λ e h stored.
                  stored.messages
                  ∙ ap
                      (λ ms.
                        ms ++ assistant_message out checks gateway task_ids ctx message_id s ∷ [])
                      (f.messages
                        ∙ started-messages out checks gateway task_ids ctx.dry_run
                            (user_message out checks gateway task_ids ctx user_id) d wet
                        ∙ ap (λ ms. ms ++ user_message out checks gateway task_ids ctx user_id ∷ [])
                            asked.0.messages)
                  ∙ append_assoc db.messages
                      (user_message out checks gateway task_ids ctx user_id ∷ []) _)))

  -- What `sendMessage` leaves, if it returns
  abbrev pub IsRepeated :
      (org conversation user message : String)
      → MessageIds
      → RuntimeDb
      → Result Sent × RuntimeDb
      → Type 0
  IsRepeated org conversation user message ids db (err e, d) = Unit
  IsRepeated org conversation user message ids db (ok r, d) =
      (c : Conversation) × (find conversation db.conversations ≡ some c)
      × (is_own org user c ≡ true)
      × (d.messages
          ≡ db.messages
            ++ sent_message conversation message ids.sent_id
              ∷ exchange (context_of org conversation user message c) ids.user_id ids.assistant_id
                  r.content r.tool_calls r.total_tokens)

  updated-IsRepeated :
      (org conversation user message : String) (ids : MessageIds) (now : ℕ) (db : RuntimeDb)
      (c : Conversation) (r : Result AgentRunResult × RuntimeDb)
      → find conversation db.conversations ≡ some c
      → is_own org user c ≡ true
      → Answers
          (context_of org conversation user message c)
          ids.user_id
          ids.assistant_id
          (record db {
            messages = db.messages ++ sent_message conversation message ids.sent_id ∷ [];
          })
          r
      → IsRepeated org conversation user message ids db (
          bind_result r (λ r.
            update_conversation conversation (λ c. record c { updated_at = now })
            >> return (sent_of r)))
  updated-IsRepeated org conversation user message ids now db c (err e, d) found own h = tt
  updated-IsRepeated org conversation user message ids now db c (ok r, d) found own h =
      elim (Bool-cases (is_some (find conversation d.conversations))) [
        | inr gone ↦ rw gone tt
        | inl there ↦ rw there (
          c,
          found,
          own,
          h ∙ append_assoc db.messages (sent_message conversation message ids.sent_id ∷ []) _,
        )
      ]

  -- A message that is answered was sent by the user to a conversation of theirs in the organization,
  -- and is stored twice, once by `sendMessage` and once by the run, before the answer.
  pub send_message-IsRepeated :
      (org conversation user message : String) (ids : MessageIds) (month : String) (now : ℕ)
      (db : RuntimeDb)
      → IsRepeated org conversation user message ids db
          (send_message out checks gateway task_ids org conversation user message ids month now db)
  unfolding send_message
  send_message-IsRepeated org conversation user message ids month now db =
      elim (Option-cases (such (is_own org user) (find conversation db.conversations))) [
        | inl missing ↦ rw missing tt
        | inr (c, e) ↦
            let (found, own) =
              such-eq-some (is_own org user) (find conversation db.conversations) c e in
            rw e (
              updated-IsRepeated org conversation user message ids now db c _ found own (
                run_agent-Answers (context_of org conversation user message c) month ids.user_id
                  ids.assistant_id now
                  (record db {
                    messages = db.messages ++ sent_message conversation message ids.sent_id ∷ [];
                  })
                  refl))
      ]
