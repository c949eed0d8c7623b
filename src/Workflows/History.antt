-- ===== src/Workflows/History.antt =====
-- Histories of calls of the workflow service, and the runs that they store.
use ai_business_operating_sy.Base.{
  Bool, List, Option, String, [], arith, find, refl, some, true, ℕ, ◌∷◌, ◌≡◌, ◌≤◌,
}
use ai_business_operating_sy.Workflows.Graph.{WorkflowNode, EdgeCondition, WorkflowGraph}
use ai_business_operating_sy.Workflows.Validation.{GraphError, validate_graph}
use ai_business_operating_sy.Workflows.Run.{RunState, NodeExecutionResult, Vars, run}
use ai_business_operating_sy.Workflows.Outcome.{all_good}
use ai_business_operating_sy.Workflows.Termination.{IsOver, run-IsOver}
use ai_business_operating_sy.Workflows.Service.{
  WorkflowRun, WorkflowDto, WorkflowsDb, is_valid, is_nil, create_workflow, update_workflow,
  activate, pause, archive, run_workflow, cancel_run,
}
use ai_business_operating_sy.Workflows.Definitions.{
  Inv, create_workflow-Inv, update_workflow-Inv, activate-Inv, pause-Inv, archive-Inv,
  run_workflow-Inv, cancel_run-Inv,
}

-- A call of a method by a user of an organization on a workflow.
pub data Call : Type 0 where
  creates : (name trigger trigger_config : String) → Option String → WorkflowGraph → Call
  updates : WorkflowDto → Call
  activates pauses : Call
  archives : ℕ → Call
  runs_it : (run_id trigger_data : String) → Call
  cancels : (run_id : String) → ℕ → Call

pub step : (org user id : String) → Call → WorkflowsDb → WorkflowsDb
step org user id (creates name trigger config description g) db =
    (create_workflow org user id name trigger config description g db).1
step org user id (updates dto) db = (update_workflow org user id dto db).1
step org user id activates db = (activate org user id db).1
step org user id pauses db = (pause org user id db).1
step org user id (archives now) db = (archive org user id now db).1
step org user id (runs_it run_id trigger_data) db = (run_workflow org id run_id trigger_data db).1
step org user id (cancels run_id now) db = (cancel_run org run_id now db).1

-- A call that throws leaves what it had written.
unfoldable pub history : List (String × String × String × Call) → WorkflowsDb → WorkflowsDb
unfolding step
history [] db = db
history ((org, user, id, c) ∷ cs) db = history cs (step org user id c db)

step-Inv :
    (org user id : String) (c : Call) (db : WorkflowsDb) → Inv db → Inv (step org user id c db)
unfolding step
step-Inv org user id (creates name trigger config description g) db =
    create_workflow-Inv org user id name trigger config description g db
step-Inv org user id (updates dto) db = update_workflow-Inv org user id dto db
step-Inv org user id activates db = activate-Inv org user id db
step-Inv org user id pauses db = pause-Inv org user id db
step-Inv org user id (archives now) db = archive-Inv org user id now db
step-Inv org user id (runs_it run_id trigger_data) db =
    run_workflow-Inv org id run_id trigger_data db
step-Inv org user id (cancels run_id now) db = cancel_run-Inv org run_id now db

-- Whatever calls are made, whether they succeed or throw, the definition of every stored workflow and
-- the snapshot of every stored run passes the validation.
pub history-Inv :
    (cs : List (String × String × String × Call)) (db : WorkflowsDb) → Inv db → Inv (history cs db)
unfolding history
history-Inv [] db inv = inv
history-Inv ((org, user, id, c) ∷ cs) db inv =
    history-Inv cs (step org user id c db) (step-Inv org user id c db inv)

is_nil-eq : (es : List GraphError) → is_nil es ≡ true → es ≡ []
is_nil-eq [] h = refl
is_nil-eq (e ∷ es) h = absurd (ground arith)

valid_graph : (g : WorkflowGraph) → is_valid g ≡ true → validate_graph g ≡ []
unfolding is_valid
valid_graph g h = is_nil-eq (validate_graph g) h

-- For every run that a history of calls has stored there is an amount of fuel with which, and with any
-- more, the runner ends on the run's snapshot: as COMPLETED with no failed node, or as FAILED.
pub history-IsOver :
    (cs : List (String × String × String × Call)) (db : WorkflowsDb)
    → Inv db
    → (id : String) (r : WorkflowRun) → find id (history cs db).runs ≡ some r
    → (n : ℕ) × ((execute : WorkflowNode → RunState → NodeExecutionResult)
          (evaluate : Option EdgeCondition → Vars → Bool) (fuel : ℕ) (s : RunState)
        → n ≤ fuel
        → all_good s.logs ≡ true
        → IsOver (run execute evaluate r.snapshot fuel s))
history-IsOver cs db inv id r h =
    run-IsOver r.snapshot (valid_graph r.snapshot ((history-Inv cs db inv).snapshots id r h))
