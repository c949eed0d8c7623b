-- ===== src/Workflows/Examples.antt =====
-- A workflow of three nodes, and the theorems of this folder on it.
use ai_business_operating_sy.Base.{
  All, Bool, List, Option, String, [], arith, create, every, find, modify, none, refl, remove_where,
  some, true, ℕ, ◌∷◌, ◌≡◌, ◌≢◌, ◌≤◌,
}
use ai_business_operating_sy.Workflows.Run.{pending}
use ai_business_operating_sy.Workflows.Service.{
  WorkflowRun, WorkflowsDb, create_workflow, activate, run_workflow, persist_graph, is_valid,
}
use ai_business_operating_sy.Workflows.Validation.{validate_graph}
use ai_business_operating_sy.Workflows.Definitions.{Inv}
use ai_business_operating_sy.Workflows.History.{
  Call, creates, activates, runs_it, history, history-Inv, history-IsOver,
}
use ai_business_operating_sy.Base.{
  All, Bool, Option, String, [], arith, every, none, refl, some, true, ℕ, ◌∷◌, ◌≡◌, ◌≢◌, ◌≤◌,
}
use ai_business_operating_sy.Workflows.Graph.{
  NodeType, WorkflowNode, WorkflowEdge, EdgeCondition, WorkflowGraph, trigger, action, end,
}
use ai_business_operating_sy.Workflows.Validation.{
  validate_graph, dfs, search_fuel, white, SearchState,
}
use ai_business_operating_sy.Workflows.Total.{search_total}
use ai_business_operating_sy.Workflows.Valid.{
  validate_graph-IsDag, validate_graph-IsWired, IsDag, IsWired, node_ids,
}
use ai_business_operating_sy.Workflows.Termination.{IsOver, run-IsOver}
use ai_business_operating_sy.Workflows.Run.{run, RunState, NodeExecutionResult, Vars}

abbrev node : String → NodeType → WorkflowNode
node id t = record { id = id; type = some t; name = id; agent_id = none; configuration = none }

abbrev edge : String → String → String → WorkflowEdge
edge id from to = record { id = id; source = from; target = to; condition = none }

abbrev start : WorkflowNode
start = node "start" trigger

abbrev approve : WorkflowGraph
approve = record {
  nodes = start ∷ node "check" action ∷ node "stop" end ∷ [];
  edges = edge "a" "start" "check" ∷ edge "b" "check" "stop" ∷ [];
}

abbrev looping : WorkflowGraph
looping = record approve { edges = edge "c" "check" "start" ∷ approve.edges }

approve_valid : validate_graph approve ≡ []
unfolding validate_graph
approve_valid = refl

looping_invalid : validate_graph looping ≢ []
unfolding validate_graph
looping_invalid h = ground arith

search_total_example :
    (t : SearchState) × (dfs looping (search_fuel looping) "start" white ≡ some t)
search_total_example = search_total looping "start"

validate_graph-IsDag_example : (t : WorkflowNode) × (start ∷ [] ≡ t ∷ []) × IsDag approve t.id
validate_graph-IsDag_example = validate_graph-IsDag approve approve_valid

validate_graph-IsWired_example : All (IsWired (node_ids approve.nodes)) approve.edges
validate_graph-IsWired_example = validate_graph-IsWired approve approve_valid

run-IsOver_example :
    (n : ℕ) × ((execute : WorkflowNode → RunState → NodeExecutionResult)
        (evaluate : Option EdgeCondition → Vars → Bool) (fuel : ℕ) (s : RunState)
      → n ≤ fuel
      → every (λ l. l.good) s.logs ≡ true
      → IsOver (run execute evaluate approve fuel s))
run-IsOver_example = run-IsOver approve approve_valid

abbrev no_rows : WorkflowsDb
no_rows = record { workflows = []; nodes = []; edges = []; runs = []; audits = [] }

no_rows-Inv : Inv no_rows
unfolding find
no_rows-Inv = record {
  definitions = λ id w h. absurd (ground arith);
  snapshots = λ id r h. absurd (ground arith);
}

abbrev calls : List (String × String × String × Call)
calls =
    ("o", "u", "w", creates "Approve" "MANUAL" "{}" none approve)
    ∷ ("o", "u", "w", activates)
    ∷ ("o", "u", "w", runs_it "r" "{}")
    ∷ []

abbrev stored_run : WorkflowRun
stored_run = record {
  organization_id = "o";
  workflow_id = "w";
  workflow_version = 1;
  status = pending;
  trigger_data = "{}";
  snapshot = approve;
  completed_at = none;
}

calls-store : find "r" (history calls no_rows).runs ≡ some stored_run
unfolding find history run_workflow activate create_workflow is_valid validate_graph persist_graph
    remove_where create modify
calls-store = refl

history-Inv_example : Inv (history calls no_rows)
history-Inv_example = history-Inv calls no_rows no_rows-Inv

history-IsOver_example :
    (n : ℕ) × ((execute : WorkflowNode → RunState → NodeExecutionResult)
        (evaluate : Option EdgeCondition → Vars → Bool) (fuel : ℕ) (s : RunState)
      → n ≤ fuel
      → every (λ l. l.good) s.logs ≡ true
      → IsOver (run execute evaluate approve fuel s))
history-IsOver_example = history-IsOver calls no_rows no_rows-Inv "r" stored_run calls-store
