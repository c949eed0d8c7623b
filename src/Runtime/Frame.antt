-- ===== src/Runtime/Frame.antt =====
-- What the tools and the loop of a run leave as it is, and how often they call a model.
use ai_business_operating_sy.Base.{
  Bool-cases, List, M, Option, Option-cases, Result, String, [], arith, bind_keeps, bind_result,
  err, find, inl, inr, length, none, ok, refl, some, suc, zero, ℕ, ◌+◌, ◌∙◌, ◌∷◌, ◌≡◌, ◌≤◌,
}
use ai_business_operating_sy.Agents.State.{Agent}
use ai_business_operating_sy.Runtime.State.{
  Tool, ToolType, ToolContext, Effect, chats, handles, posts, UnifiedToolCall, RuntimeDb, perform,
}
use ai_business_operating_sy.Runtime.Tasks.{create_approval_task}
use ai_business_operating_sy.Runtime.Registry.{
  Outside, Outcome, returned, raised, Registered, get_registered, execute_tool, find_by_name,
  address, post_to, execute_typed, execute_found,
}
use ai_business_operating_sy.Runtime.Executor.{
  Resolved, Validation, valid, invalid, Checks, resolve, is_high, run_policy, run_valid, execute,
  record_outcome,
}
use ai_business_operating_sy.Runtime.Risk.{parse_cases}
use ai_business_operating_sy.Runtime.Prompt.{ToolSpec}
use ai_business_operating_sy.Runtime.Loop.{
  Gateway, ChatReply, answered, provider_error, LoopState, run_calls, after_call, after_reply,
  after_answer, with_calls, tool_loop, request,
}

-- The calls of a model among the effects
unfoldable pub chat_count : List Effect → ℕ
chat_count [] = 0
chat_count (chats ms ∷ es) = suc (chat_count es)
chat_count (handles name args ∷ es) = chat_count es
chat_count (posts url body ∷ es) = chat_count es

-- At most `n` calls of a model, and nothing else of the conversation or of the usage has changed.
pub record Frame (n : ℕ) (db d : RuntimeDb) : Type 0 where
  pub messages : d.messages ≡ db.messages
  pub usage_records : d.usage_records ≡ db.usage_records
  pub quota_cache : d.quota_cache ≡ db.quota_cache
  pub short_term : d.short_term ≡ db.short_term
  pub calls : chat_count d.effects ≤ n + chat_count db.effects

pub Frame-refl : (db : RuntimeDb) → Frame 0 db db
Frame-refl db = record {
  messages = refl;
  usage_records = refl;
  quota_cache = refl;
  short_term = refl;
  calls = omega arith;
}

pub Frame-trans :
    (m n k : ℕ) (a b c : RuntimeDb) → k ≡ m + n → Frame m a b → Frame n b c → Frame k a c
Frame-trans m n k a b c e f g = record {
  messages = g.messages ∙ f.messages;
  usage_records = g.usage_records ∙ f.usage_records;
  quota_cache = g.quota_cache ∙ f.quota_cache;
  short_term = g.short_term ∙ f.short_term;
  calls =
      calls_le (chat_count a.effects) (chat_count b.effects) (chat_count c.effects) f.calls g.calls;
}
  where
    calls_le : (x y z : ℕ) → y ≤ m + x → z ≤ n + y → z ≤ k + x
    calls_le x y z p q = omega arith

-- A step that performs at most these effects and stores rows of tools, tasks and audits alone.
pub Frame-quiet :
    (db d : RuntimeDb)
    → d.messages ≡ db.messages
    → d.usage_records ≡ db.usage_records
    → d.quota_cache ≡ db.quota_cache
    → d.short_term ≡ db.short_term
    → chat_count d.effects ≡ chat_count db.effects
    → Frame 0 db d
Frame-quiet db d m u q s e = record {
  messages = m;
  usage_records = u;
  quota_cache = q;
  short_term = s;
  calls = le_of (chat_count d.effects) (chat_count db.effects) e;
}
  where
    le_of : (x y : ℕ) → x ≡ y → x ≤ 0 + y
    le_of x y p = omega arith

module _ (out : Outside) (checks : Checks) where
  -- The run of a tool gives an outcome and calls no model.
  abbrev Ran : M RuntimeDb Outcome → RuntimeDb → Type 0
  Ran m db = (o : Outcome) × (d : RuntimeDb) × (m db ≡ (ok o, d)) × Frame 0 db d

  post_to-Ran :
      (u : Option String) (o : Outcome) (body : String) (db : RuntimeDb)
      → Ran (post_to out u o body) db
  unfolding chat_count
  post_to-Ran none o body db = (o, db, refl, Frame-refl db)
  post_to-Ran (some url) o body db =
      (out.post url body, _, refl, Frame-quiet db _ refl refl refl refl refl)

  execute_typed-Ran :
      (k : ToolType) (t : Tool) (args : String) (db : RuntimeDb)
      → Ran (execute_typed out k t args) db
  execute_typed-Ran ToolType.webhook t args db = post_to-Ran (address t.url) _ args db
  execute_typed-Ran ToolType.custom t args db = post_to-Ran (address t.endpoint) _ args db
  execute_typed-Ran ToolType.built_in t args db = (_, db, refl, Frame-refl db)
  execute_typed-Ran ToolType.integration t args db = (_, db, refl, Frame-refl db)

  execute_found-Ran :
      (r : Option Registered) (t : Option Tool) (name args : String) (ctx : ToolContext)
      (db : RuntimeDb)
      → Ran (execute_found out r t name args ctx) db
  unfolding chat_count
  execute_found-Ran (some r) t name args ctx db =
      (out.handle name args ctx, _, refl, Frame-quiet db _ refl refl refl refl refl)
  execute_found-Ran none (some t) name args ctx db = execute_typed-Ran t.type t args db
  execute_found-Ran none none name args ctx db = (_, db, refl, Frame-refl db)

  record_outcome-Frame :
      (call : UnifiedToolCall) (ctx : ToolContext) (tool : Resolved) (args : String) (o : Outcome)
      (db d : RuntimeDb)
      → Frame 0 db d
      → Frame 0 db (record_outcome call ctx tool args o d).1
  record_outcome-Frame call ctx tool args (returned output) db d f =
      elim (Bool-cases tool.from_registry) [
        | inl built_in ↦
            rw built_in (Frame-trans 0 0 0 db d _ refl f (Frame-quiet d _ refl refl refl refl refl))
        | inr stored ↦
            rw stored (Frame-trans 0 0 0 db d _ refl f (Frame-quiet d _ refl refl refl refl refl))
      ]
  record_outcome-Frame call ctx tool args (raised message) db d f =
      elim (Bool-cases tool.from_registry) [
        | inl built_in ↦
            rw built_in (Frame-trans 0 0 0 db d _ refl f (Frame-quiet d _ refl refl refl refl refl))
        | inr stored ↦
            rw stored (Frame-trans 0 0 0 db d _ refl f (Frame-quiet d _ refl refl refl refl refl))
      ]

  run_policy-Frame :
      (call : UnifiedToolCall) (ctx : ToolContext) (tool : Resolved) (args task_id : String)
      (db : RuntimeDb)
      → Frame 0 db (run_policy out checks call ctx tool args task_id db).1
  unfolding run_policy create_approval_task execute_tool
  run_policy-Frame call ctx tool args task_id db = elim (Bool-cases (is_high tool.risk_level)) [
    | inr low ↦
        let (o, d, e, f) =
          execute_found-Ran (get_registered call.name)
            (find_by_name call.name ctx.organization_id db.tools) call.name args ctx db in
        rw (low, e) (record_outcome-Frame call ctx tool args o db d f)
    | inl high ↦ elim (Bool-cases tool.from_registry) [
      | inl built_in ↦ rw (high, built_in) (Frame-quiet db _ refl refl refl refl refl)
      | inr stored ↦ elim (Option-cases (find task_id db.tasks)) [
        | inl fresh ↦ rw (high, stored, fresh) (Frame-quiet db _ refl refl refl refl refl)
        | inr (t, taken) ↦ rw (high, stored, taken) (Frame-quiet db _ refl refl refl refl refl)
      ]
    ]
  ]

  run_valid-Frame :
      (call : UnifiedToolCall) (ctx : ToolContext) (tool : Resolved) (v : Validation)
      (task_id : String) (db : RuntimeDb)
      → Frame 0 db (run_valid out checks call ctx tool v task_id db).1
  run_valid-Frame call ctx tool (valid args) task_id db =
      run_policy-Frame call ctx tool args task_id db
  run_valid-Frame call ctx tool (invalid errors) task_id db =
      Frame-quiet db _ refl refl refl refl refl

  pub execute-Frame :
      (call : UnifiedToolCall) (ctx : ToolContext) (task_id : String) (db : RuntimeDb)
      → Frame 0 db (execute out checks call ctx task_id db).1
  unfolding execute
  execute-Frame call ctx task_id db =
      elim (Option-cases (resolve call.name ctx.organization_id db)) [
        | inl missing ↦ rw missing (Frame-quiet db _ refl refl refl refl refl)
        | inr (tool, found) ↦ rw found (
            parse_cases checks (λ r. Frame 0 db r.1)
              (λ args.
                run_valid out checks call ctx tool (checks.validate tool.schema args) task_id)
              call.arguments db (Frame-refl db)
              (λ args. run_valid-Frame call ctx tool (checks.validate tool.schema args) task_id db))
      ]

  module _ (gateway : Gateway) (task_ids : ℕ → String) where
    pub run_calls-Frame :
        (ctx : ToolContext) (cs : List UnifiedToolCall) (s : LoopState) (db : RuntimeDb)
        → Frame 0 db (run_calls out checks gateway task_ids ctx cs s db).1
    unfolding run_calls
    run_calls-Frame ctx [] s db = Frame-refl db
    run_calls-Frame ctx (c ∷ cs) s db =
        bind_keeps (Frame 0 db)
          (λ r.
            run_calls out checks gateway task_ids ctx cs
              (after_call out checks gateway task_ids s c r))
          (execute out checks c ctx (task_ids (length s.calls)) db)
          (execute-Frame c ctx (task_ids (length s.calls)) db)
          (λ r d e f.
            Frame-trans 0 0 0 db d _ refl f
              (run_calls-Frame ctx cs (after_call out checks gateway task_ids s c r) d))

    widen : (n : ℕ) (db : RuntimeDb) → Frame n db db
    widen n db = record {
      messages = refl;
      usage_records = refl;
      quota_cache = refl;
      short_term = refl;
      calls = omega arith;
    }

    -- With `n` calls of a model at most after it, a reply leads to `n` more at most.
    after_reply-Frame :
        (n : ℕ) (next : LoopState → M RuntimeDb LoopState) (ctx : ToolContext) (s : LoopState)
        (reply : ChatReply) (db : RuntimeDb)
        → ((t : LoopState) (d : RuntimeDb) → Frame n d (next t d).1)
        → Frame n db (after_reply out checks gateway task_ids next ctx s reply db).1
    after_reply-Frame n next ctx s (provider_error code message) db f = widen n db
    after_reply-Frame n next ctx s (answered content [] input output) db f = widen n db
    after_reply-Frame n next ctx s (answered content (c ∷ cs) input output) db f =
        let ran =
          run_calls out checks gateway task_ids ctx (c ∷ cs)
            (with_calls out checks gateway task_ids
              (after_answer out checks gateway task_ids s content (c ∷ cs) input output) content
              (c ∷ cs))
            db in
        follow ran (run_calls-Frame ctx (c ∷ cs) _ db)
      where
        follow :
            (r : Result LoopState × RuntimeDb) → Frame 0 db r.1 → Frame n db (bind_result r next).1
        follow (ok t, d) g = Frame-trans 0 n n db d _ (omega arith) g (f t d)
        follow (err e, d) g = Frame-trans 0 n n db d d (omega arith) g (widen n d)

    called : (s : LoopState) (db : RuntimeDb) → Frame 1 db (perform (chats s.messages) db).1
    unfolding chat_count
    called s db = record {
      messages = refl;
      usage_records = refl;
      quota_cache = refl;
      short_term = refl;
      calls = omega arith;
    }

    -- The loop calls a model at most as often as it has iterations left.
    pub tool_loop-Frame :
        (n : ℕ) (ctx : ToolContext) (a : Agent) (tools : List ToolSpec) (s : LoopState)
        (db : RuntimeDb)
        → Frame n db (tool_loop out checks gateway task_ids n ctx a tools s db).1
    unfolding tool_loop
    tool_loop-Frame zero ctx a tools s db = Frame-refl db
    tool_loop-Frame (suc n) ctx a tools s db =
        let d : RuntimeDb = (perform (chats s.messages) db).1 in
        Frame-trans 1 n (suc n) db d _ (omega arith) (called s db) (
          after_reply-Frame n (tool_loop out checks gateway task_ids n ctx a tools) ctx s
            (gateway.chat d.effects (request out checks gateway task_ids a tools s)) d
            (λ t e. tool_loop-Frame n ctx a tools t e))
