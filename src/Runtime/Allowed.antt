-- ===== src/Runtime/Allowed.antt =====
-- What a call of tool-executor.ts lets run.
use ai_business_operating_sy.Base.{M, String, false, ok, some, ◌∷◌, ◌≡◌, ◌⊎◌}
use ai_business_operating_sy.Runtime.State.{
  UnifiedToolCall, ToolContext, Effect, handles, posts, RuntimeDb,
}
use ai_business_operating_sy.Runtime.Registry.{Outside, Outcome}
use ai_business_operating_sy.Runtime.Executor.{Resolved, valid, Checks, resolve, is_high}

-- The body of the registered tool of the name, or a request, with these arguments
abbrev pub IsRun : (name args : String) → Effect → Type 0
IsRun name args e = (e ≡ handles name args) ⊎ ((url : String) × (e ≡ posts url args))

-- Nothing has been run, or once the tool of the name.
abbrev pub RunsOnce : (name args : String) → (db d : RuntimeDb) → Type 0
RunsOnce name args db d =
    (d.effects ≡ db.effects) ⊎ ((e : Effect) × IsRun name args e × (d.effects ≡ e ∷ db.effects))

-- Nothing has been run, or once the tool of the name, whose slug resolves to a record that is not of
-- HIGH risk, with arguments that the schema of this record admits.
abbrev pub IsAllowed : Checks → UnifiedToolCall → ToolContext → (db d : RuntimeDb) → Type 0
IsAllowed checks call ctx db d =
    (d.effects ≡ db.effects)
    ⊎ ((tool : Resolved) × (given : String) × (args : String) × (e : Effect) × (resolve call.name
            ctx.organization_id db
          ≡ some tool)
        × (is_high tool.risk_level ≡ false)
        × (checks.validate tool.schema given ≡ valid args)
        × IsRun call.name args e
        × (d.effects ≡ e ∷ db.effects))

module _ (out : Outside) (checks : Checks) where
  abbrev Ends : (name args : String) → M RuntimeDb Outcome → RuntimeDb → Type 0
  Ends name args m db =
      (o : Outcome) × (d : RuntimeDb) × (m db ≡ (ok o, d)) × RunsOnce name args db d
