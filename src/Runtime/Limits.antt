-- ===== src/Runtime/Limits.antt =====
-- Bounds on what a run of agent-runtime.service.ts calls and stores.
use ai_business_operating_sy.Base.{
  Bool, List, Result, String, ap, arith, false, inl, inr, refl, subst, true, ℕ, ◌+◌, ◌∙◌, ◌≡◌, ◌≤◌,
  ◌⊎◌,
}
use ai_business_operating_sy.Agents.State.{Agent}
use ai_business_operating_sy.Runtime.State.{Effect, Message, AuditLog, RuntimeDb}
use ai_business_operating_sy.Runtime.Registry.{Outside}
use ai_business_operating_sy.Runtime.Executor.{Checks}
use ai_business_operating_sy.Runtime.Loop.{
  AgentRunContext, Gateway, AgentRunResult, max_tool_iterations,
}
use ai_business_operating_sy.Runtime.Run.{user_message, run_agent}
use ai_business_operating_sy.Runtime.Frame.{chat_count, Frame}
use ai_business_operating_sy.Runtime.Admission.{Untouched, IsAdmissible}
use ai_business_operating_sy.Runtime.Cases.{
  started, begun, started-effects, run_admitted_cases, run_agent_cases, finish_cases,
}

module _ (out : Outside) (checks : Checks) (gateway : Gateway) (task_ids : ℕ → String) where
  -- A run that calls anything, or changes a message, the usage or the memory, was admitted: its agent
  -- is one of the organization, neither archived nor deleted, and deployed unless it is a dry run, and
  -- the tokens that the message may take are within the quota.
  pub run_agent-IsAdmissible :
      (ctx : AgentRunContext) (month user_id message_id : String) (now : ℕ) (db : RuntimeDb)
      → Untouched db (run_agent out checks gateway task_ids ctx month user_id message_id now db).1
        ⊎ ((a : Agent) × IsAdmissible out checks gateway task_ids ctx month now db a)
  run_agent-IsAdmissible ctx month user_id message_id now db =
      run_agent_cases out checks gateway task_ids
        (λ r.
          Untouched db r.1
          ⊎ ((a : Agent) × IsAdmissible out checks gateway task_ids ctx month now db a))
        ctx month user_id message_id now db (λ e d asked. inl asked.0)
        (λ a d asked admissible. inr (a, admissible))

  at_most :
      (n : ℕ) (a c d : List Effect)
      → a ≡ c
      → chat_count d ≤ n + chat_count a
      → chat_count d ≤ n + chat_count c
  at_most n a c d p h = subst (λ x. chat_count d ≤ n + chat_count x) p h

  -- Whatever the model answers and the tools do, a run calls the model at most ten times.
  pub run_agent-chat_count :
      (ctx : AgentRunContext) (month user_id message_id : String) (now : ℕ) (db : RuntimeDb)
      → chat_count
          (run_agent out checks gateway task_ids ctx month user_id message_id now db).1.effects
        ≤ max_tool_iterations + chat_count db.effects
  run_agent-chat_count ctx month user_id message_id now db =
      run_agent_cases out checks gateway task_ids Few ctx month user_id message_id now db
        (λ e d asked. at_most 10 d.effects db.effects d.effects asked.0.effects (omega arith))
        (λ a d asked admissible.
          let m = user_message out checks gateway task_ids ctx user_id in
          let same =
            started-effects out checks gateway task_ids ctx.dry_run m d ∙ asked.0.effects in
          run_admitted_cases out checks gateway task_ids Few ctx month user_id message_id a d
            (λ e d' f. at_most 10 _ db.effects d'.effects same f.calls)
            (λ s d' f.
              let few = at_most 10 _ db.effects d'.effects same f.calls in
              finish_cases out checks gateway task_ids Few ctx month message_id s d' (λ dry. few)
                (λ e wet stored. rw stored.effects few)))
    where
      Few : Result AgentRunResult × RuntimeDb → Type 0
      Few r = chat_count r.1.effects ≤ 10 + chat_count db.effects

  started-dry :
      (b : Bool) (m : Message) (db : RuntimeDb)
      → b ≡ true
      → started out checks gateway task_ids b m db ≡ db
  started-dry true m db h = refl
  started-dry false m db h = cc

  -- What a dry run leaves as it was: the messages, the usage and the short-term memory.
  pub record IsDry (db d : RuntimeDb) : Type 0 where
    pub messages : d.messages ≡ db.messages
    pub usage_records : d.usage_records ≡ db.usage_records
    pub short_term : d.short_term ≡ db.short_term

  -- A dry run stores no message, records no usage and remembers nothing, whatever comes of it.
  pub run_agent-IsDry :
      (ctx : AgentRunContext) (month user_id message_id : String) (now : ℕ) (db : RuntimeDb)
      → ctx.dry_run ≡ true
      → IsDry db (run_agent out checks gateway task_ids ctx month user_id message_id now db).1
  run_agent-IsDry ctx month user_id message_id now db dry =
      run_agent_cases out checks gateway task_ids (λ r. IsDry db r.1) ctx month user_id message_id
        now db (λ e d asked. asked_dry d asked.0)
        (λ a d asked admissible.
          run_admitted_cases out checks gateway task_ids (λ r. IsDry db r.1) ctx month user_id
            message_id a d (λ e d' f. framed d d' asked.0 f)
            (λ s d' f.
              finish_cases out checks gateway task_ids (λ r. IsDry db r.1) ctx month message_id s d'
                (λ h. keep_dry d' _ (framed d d' asked.0 f)) (λ e wet stored. cc)))
    where
      asked_dry : (d : RuntimeDb) → Untouched db d → IsDry db d
      asked_dry d u = record {
        messages = u.messages;
        usage_records = u.usage_records;
        short_term = u.short_term;
      }

      keep_dry :
          (d : RuntimeDb) (l : List AuditLog) → IsDry db d → IsDry db (record d { audits = l })
      keep_dry d l u = record {
        messages = u.messages;
        usage_records = u.usage_records;
        short_term = u.short_term;
      }

      framed :
          (d d' : RuntimeDb)
          → Untouched db d
          → Frame 10 (begun out checks gateway task_ids ctx user_id d) d'
          → IsDry db d'
      framed d d' u f =
          let start =
            started-dry ctx.dry_run (user_message out checks gateway task_ids ctx user_id) d dry in
          record {
            messages = f.messages ∙ ap (λ b. b.messages) start ∙ u.messages;
            usage_records = f.usage_records ∙ ap (λ b. b.usage_records) start ∙ u.usage_records;
            short_term = f.short_term ∙ ap (λ b. b.short_term) start ∙ u.short_term;
          }
