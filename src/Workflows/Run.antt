-- ===== src/Workflows/Run.antt =====
-- workflow-runner.ts: `run`, `walk`, `complete` and `fail`. The handlers and the evaluation of edge
-- conditions are parameters here: a handler is an asynchronous call whose result the walk receives.
use ai_business_operating_sy.Base.{
  Text, take, codes, concat, is_some, ◌==◌, Bool, List, Option, String, [], false, first,
  if◌then◌else◌, keep, none, not, some, suc, true, zero, ℕ, ◌&&◌, ◌++◌, ◌+◌, ◌∷◌, ◌≢◌,
}
use ai_business_operating_sy.Workflows.Graph.{
  WorkflowNode, WorkflowEdge, EdgeCondition, WorkflowGraph, is_trigger, type_is_end,
  type_is_parallel, get_outgoing_edges, get_node,
}

pub data RunStatus : Type 0 where
  pending running completed failed cancelled : RunStatus

-- A variable of the run context with the text of its JSON value.
abbrev pub Vars : Type 0
Vars = List (String × String)

-- `ok` is false only where the handler says so or throws.
pub record NodeExecutionResult : Type 0 where
  pub set_vars : Vars
  pub good : Bool
  pub error : Option String

pub record RunLog : Type 0 where
  pub node_id : String
  pub good : Bool

-- The row of the run with its log, and the `ctx` of the walk.
pub record RunState : Type 0 where
  pub status : RunStatus
  pub current_node : Option String
  pub error : Option Text
  pub saved_vars : Vars
  pub logs : List RunLog
  pub vars : Vars
  pub step : ℕ

-- How a walk ends: it returns, it throws with a message, or the fuel of the model runs out.
pub data WalkEnd : Type 0 where
  returned out_of_fuel : WalkEnd
  threw : String → WalkEnd

-- `Object.assign(ctx.vars, setVars)`: later entries shadow earlier ones.
abbrev assign : Vars → Vars → Vars
assign new old = new ++ old

abbrev pub IsDone : WalkEnd → Type 0
IsDone e = e ≢ out_of_fuel

module _ (execute : WorkflowNode → RunState → NodeExecutionResult)
    (evaluate_edge_condition : Option EdgeCondition → Vars → Bool) where
  -- The part of `walk` before the edges: the handler, its variables, and the log row.
  abbrev pub visit : WorkflowNode → RunState → NodeExecutionResult × RunState
  visit node s =
      let entered : RunState = record s { step = s.step + 1 } in
      let r = execute node entered in
      let vars = assign r.set_vars s.vars in
      (
        r,
        record entered {
          vars = vars;
          current_node = some node.id;
          saved_vars = vars;
          logs = s.logs ++ record { node_id = node.id; good = r.good } ∷ [];
        },
      )

  abbrev pub matching_edges : WorkflowGraph → WorkflowNode → RunState → List WorkflowEdge
  matching_edges g node s =
      keep (λ e. evaluate_edge_condition e.condition s.vars) (get_outgoing_edges g node.id)

  -- The rest of a loop after one branch: a throw ends the sequential loop, while `Promise.all` lets
  -- the other branches run and then throws.
  abbrev pub after_branch :
      (parallel : Bool) → WalkEnd → (WalkEnd × RunState) → RunState → WalkEnd × RunState
  after_branch together returned rest t = rest
  after_branch together out_of_fuel rest t = (out_of_fuel, t)
  after_branch false (threw m) rest t = (threw m, t)
  after_branch true (threw m) (returned, u) t = (threw m, u)
  after_branch true (threw m) (out_of_fuel, u) t = (out_of_fuel, u)
  after_branch true (threw m) (threw n, u) t = (threw m, u)

  -- The loop over the matching edges, with the call of `walk` given. A target that is no node is
  -- skipped. Branches of a PARALLEL node are run in the schedule in which each one ends before the
  -- next one starts.
  unfoldable pub walk_edges :
      (WorkflowNode → RunState → WalkEnd × RunState)
      → WorkflowGraph
      → Bool
      → List WorkflowEdge
      → RunState
      → WalkEnd × RunState
  walk_edges walk g together [] s = (returned, s)
  walk_edges walk g together (e ∷ es) s =
      let skip = walk_edges walk g together es s in
      elim (get_node g e.target) [
        | none ↦ skip
        | some next ↦
            let (end, t) = walk next s in
            after_branch together end (walk_edges walk g together es t) t
      ]

  -- `result.error || …`
  abbrev pub failure : WorkflowNode → NodeExecutionResult → String
  failure node r = elim r.error [
    | none ↦ concat "Node " (concat node.name " failed")
    | some m ↦ if m == "" then concat "Node " (concat node.name " failed") else m
  ]

  abbrev pub more_than_one : List WorkflowEdge → Bool
  more_than_one (_ ∷ _ ∷ _) = true
  more_than_one _ = false

  -- `walk`; the fuel bounds the depth of the recursion. Each type of the enum has a handler, and a node
  -- without one of these types has none.
  unfoldable pub walk : WorkflowGraph → ℕ → WorkflowNode → RunState → WalkEnd × RunState
  walk g zero node s = (out_of_fuel, s)
  walk g (suc fuel) node s =
      let (r, t) = visit node s in
      let edges = matching_edges g node t in
      let rest =
        walk_edges (walk g fuel) g (type_is_parallel node.type && more_than_one edges) edges t in
      if not (is_some node.type)
      then (threw "No handler for node type", record s { step = s.step + 1 })
      else if not r.good
      then (threw (failure node r), t)
      else if type_is_end node.type
      then (returned, t)
      else rest

  abbrev pub fail : String → RunState → RunState
  fail m s = record s { status = failed; error = some (take 1000 (codes m)) }

  -- `complete` and `fail`, by the end of the walk
  abbrev pub finish : WalkEnd × RunState → RunState
  finish (returned, s) = record s { status = completed; current_node = none; saved_vars = s.vars }
  finish (threw m, s) = fail m s
  finish (out_of_fuel, s) = s

  -- The new `ctx` of `run`, whose variables are the row's context, and the first update of the row
  abbrev pub started : RunState → RunState
  started s = record s { status = running; vars = s.saved_vars; step = 0 }

  -- `run` of a row that is there and has a snapshot
  unfoldable pub run : WorkflowGraph → ℕ → RunState → RunState
  unfolding walk walk_edges
  run g fuel s = elim (first is_trigger g.nodes) [
    | none ↦ fail "No TRIGGER node found" s
    | some t ↦ finish (walk g fuel t (started s))
  ]
