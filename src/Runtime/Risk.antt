-- ===== src/Runtime/Risk.antt =====
-- The audit trail of tool-executor.ts, and who sees a custom tool.
use ai_business_operating_sy.Base.{
  ◌↔◌, ◌||◌, Bool, Bool-cases, List, M, Option, Option-cases, Result, String, [], arith,
  bad_request, create, eq_refl, err, false, find, inl, inr, none, ok, refl, some, true, ◌==◌, ◌>>=◌,
  ◌∷◌, ◌≡◌,
}
use ai_business_operating_sy.Runtime.State.{
  UnifiedToolCall, ToolType, Tool, ToolContext, AuditLog, AuditResult, success, RuntimeDb,
}
use ai_business_operating_sy.Runtime.Tasks.{create_approval_task}
use ai_business_operating_sy.Runtime.Registry.{
  Outside, Outcome, returned, raised, Registered, get_registered, execute_tool, find_by_name,
  Session, is_current, CreateTool, create_tool, find_one_tool, address, post_to, execute_typed,
  execute_found,
}
use ai_business_operating_sy.Runtime.Executor.{
  ToolExecutionResult, Resolved, Validation, valid, invalid, Checks, resolve, is_high, parse_args,
  run_policy, run_valid, execute, record_outcome,
}

abbrev pub is_success : AuditResult → Bool
is_success success = true
is_success _ = false

-- The audit log has one more entry, of the organization, which says SUCCESS if and only if `done`.
abbrev pub OneMore : ToolContext → (done : Bool) → List AuditLog → List AuditLog → Type 0
OneMore ctx done [] old = false ≡ true
OneMore ctx done (a ∷ ls) old =
    (ls ≡ old) × (a.organization_id ≡ ctx.organization_id) × (is_success a.result ≡ done)

pub parse_cases {ℓ} :
    {A : Type 0} (checks : Checks) (P : Result A × RuntimeDb → Type ℓ) (f : String → M RuntimeDb A)
    (s : String) (db : RuntimeDb)
    → P (err (bad_request "Invalid tool arguments JSON"), db)
    → ((args : String) → P (f args db))
    → P ((parse_args checks s >>= f) db)
parse_cases checks P f s db bad good = elim (Bool-cases (s == "")) [
  | inl empty ↦ rw empty (good "{}")
  | inr full ↦ elim (Option-cases (checks.parse_object s)) [
    | inl broken ↦ rw (full, broken) bad
    | inr (args, parsed) ↦ rw (full, parsed) (good args)
  ]
]

module _ (out : Outside) (checks : Checks) where
  -- What a call leaves when it returns: one more audit entry of the organization, which says SUCCESS
  -- exactly when the result does.
  abbrev pub IsAudited : ToolContext → RuntimeDb → Result ToolExecutionResult × RuntimeDb → Type 0
  IsAudited ctx db (err e, d) = Unit
  IsAudited ctx db (ok r, d) = OneMore ctx r.succeeded d.audits db.audits

  -- The run of a tool gives an outcome and writes no audit entry.
  abbrev Quiet : M RuntimeDb Outcome → RuntimeDb → Type 0
  Quiet m db = (o : Outcome) × (d : RuntimeDb) × (m db ≡ (ok o, d)) × (d.audits ≡ db.audits)

  post_to-Quiet :
      (u : Option String) (o : Outcome) (body : String) (db : RuntimeDb)
      → Quiet (post_to out u o body) db
  post_to-Quiet none o body db = (o, db, refl, refl)
  post_to-Quiet (some url) o body db = (out.post url body, _, refl, refl)

  execute_typed-Quiet :
      (k : ToolType) (t : Tool) (args : String) (db : RuntimeDb)
      → Quiet (execute_typed out k t args) db
  execute_typed-Quiet ToolType.webhook t args db = post_to-Quiet (address t.url) _ args db
  execute_typed-Quiet ToolType.custom t args db = post_to-Quiet (address t.endpoint) _ args db
  execute_typed-Quiet ToolType.built_in t args db = (_, db, refl, refl)
  execute_typed-Quiet ToolType.integration t args db = (_, db, refl, refl)

  execute_found-Quiet :
      (r : Option Registered) (t : Option Tool) (name args : String) (ctx : ToolContext)
      (db : RuntimeDb)
      → Quiet (execute_found out r t name args ctx) db
  execute_found-Quiet (some r) t name args ctx db = (out.handle name args ctx, _, refl, refl)
  execute_found-Quiet none (some t) name args ctx db = execute_typed-Quiet t.type t args db
  execute_found-Quiet none none name args ctx db = (_, db, refl, refl)

  record_outcome-IsAudited :
      (call : UnifiedToolCall) (ctx : ToolContext) (tool : Resolved) (args : String) (o : Outcome)
      (db d : RuntimeDb)
      → d.audits ≡ db.audits
      → IsAudited ctx db (record_outcome call ctx tool args o d)
  record_outcome-IsAudited call ctx tool args (returned output) db d e =
      elim (Bool-cases tool.from_registry) [
        | inl built_in ↦ rw built_in (e, refl, refl)
        | inr stored ↦ rw stored (e, refl, refl)
      ]
  record_outcome-IsAudited call ctx tool args (raised message) db d e =
      elim (Bool-cases tool.from_registry) [
        | inl built_in ↦ rw built_in (e, refl, refl)
        | inr stored ↦ rw stored (e, refl, refl)
      ]

  run_policy-IsAudited :
      (call : UnifiedToolCall) (ctx : ToolContext) (tool : Resolved) (args task_id : String)
      (db : RuntimeDb)
      → IsAudited ctx db (run_policy out checks call ctx tool args task_id db)
  unfolding run_policy create_approval_task execute_tool
  run_policy-IsAudited call ctx tool args task_id db = elim (Bool-cases (is_high tool.risk_level)) [
    | inr low ↦
        let (o, d, e, same) =
          execute_found-Quiet (get_registered call.name)
            (find_by_name call.name ctx.organization_id db.tools) call.name args ctx db in
        rw (low, e) (record_outcome-IsAudited call ctx tool args o db d same)
    | inl high ↦ elim (Bool-cases tool.from_registry) [
      | inl built_in ↦ rw (high, built_in) (refl, refl, refl)
      | inr stored ↦ elim (Option-cases (find task_id db.tasks)) [
        | inl fresh ↦ rw (high, stored, fresh) (refl, refl, refl)
        | inr (t, taken) ↦ rw (high, stored, taken) tt
      ]
    ]
  ]

  run_valid-IsAudited :
      (call : UnifiedToolCall) (ctx : ToolContext) (tool : Resolved) (v : Validation)
      (task_id : String) (db : RuntimeDb)
      → IsAudited ctx db (run_valid out checks call ctx tool v task_id db)
  run_valid-IsAudited call ctx tool (valid args) task_id db =
      run_policy-IsAudited call ctx tool args task_id db
  run_valid-IsAudited call ctx tool (invalid errors) task_id db = (refl, refl, refl)

  -- Every call of a tool that returns, with whatever result, adds one entry to the audit log, of the
  -- organization, which says SUCCESS exactly when the result does.
  pub execute-IsAudited :
      (call : UnifiedToolCall) (ctx : ToolContext) (task_id : String) (db : RuntimeDb)
      → IsAudited ctx db (execute out checks call ctx task_id db)
  unfolding execute
  execute-IsAudited call ctx task_id db =
      elim (Option-cases (resolve call.name ctx.organization_id db)) [
        | inl missing ↦ rw missing (refl, refl, refl)
        | inr (tool, found) ↦ rw found (
            parse_cases checks (IsAudited ctx db)
              (λ args.
                run_valid out checks call ctx tool (checks.validate tool.schema args) task_id)
              call.arguments db tt
              (λ args.
                run_valid-IsAudited call ctx tool (checks.validate tool.schema args) task_id db))
      ]

-- A custom tool that one organization has created is returned by `findOne` to whatever organization asks
-- for it, exactly if the connection is exempt from the row-level security of `tools`, is a service's, or
-- has the tool's own organization as its current one.
pub create_tool-shown_iff :
    (s reader : Session) (org other slug id : String) (dto : CreateTool) (t : Tool)
    (db db' : RuntimeDb)
    → create_tool s org dto slug id db ≡ (ok t, db')
    → (find_one_tool reader other id db' ≡ (ok t, db'))
      ↔ ((reader.is_exempt || (reader.is_service || is_current reader org)) ≡ true)
unfolding create_tool find_one_tool create find
create_tool-shown_iff s reader org other slug id dto t db db' h =
    (λ found. ground (arith, eq_refl id), λ seen. ground (arith, eq_refl id))
