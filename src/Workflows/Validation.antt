-- ===== src/Workflows/Validation.antt =====
-- `validateGraph` of graph.validation.ts.
use mathlib.Core.Option
use ai_business_operating_sy.Base.{
  Bool, List, Option, String, [], any, false, if◌then◌else◌, is_some, keep, length, none, not, some,
  suc, true, zero, ℕ, ◌&&◌, ◌++◌, ◌+◌, ◌==◌, ◌||◌, ◌∷◌,
}
use ai_business_operating_sy.Workflows.Graph.{
  WorkflowNode, WorkflowEdge, WorkflowGraph, is_trigger, is_end, get_outgoing_edges, get_node,
}

pub data GraphError : Type 0 where
  node_missing_id node_missing_type no_trigger many_triggers edge_missing_id no_end : GraphError
  duplicate_node_id source_not_found target_not_found self_loop cycle_at : String → GraphError

abbrev pub has_id : String → List String → Bool
has_id x xs = any (λ y. y == x) xs

abbrev pub report : Bool → GraphError → List GraphError → List GraphError
report true e es = e ∷ es
report false e es = es

-- The set of node ids so far, and the errors of the loop over the nodes.
unfoldable pub check_nodes : List String → List WorkflowNode → List String × List GraphError
check_nodes ids [] = (ids, [])
check_nodes ids (n ∷ ns) =
    let fresh = not (n.id == "") && not (has_id n.id ids) in
    let (ids', es) = check_nodes (if fresh then n.id ∷ ids else ids) ns in
    (
      ids',
      report (n.id == "") node_missing_id (
          report (not (n.id == "") && has_id n.id ids) (duplicate_node_id n.id)
            (report (not (is_some n.type)) node_missing_type es)),
    )

unfoldable pub check_edges : List String → List WorkflowEdge → List GraphError
check_edges ids [] = []
check_edges ids (e ∷ es) = report (e.id == "") edge_missing_id (
    report (not (has_id e.source ids)) (source_not_found e.source) (
      report (not (has_id e.target ids)) (target_not_found e.target)
        (report (e.source == e.target) (self_loop e.source) (check_edges ids es))))

unfoldable pub check_triggers : List WorkflowNode → List GraphError
check_triggers [] = no_trigger ∷ []
check_triggers (t ∷ []) = []
check_triggers (t ∷ _ ∷ _) = many_triggers ∷ []

-- The variables that the depth-first search closes over: the gray and the black ids (all other ids
-- are white), whether an END was seen, and the errors.
pub record SearchState : Type 0 where
  pub gray : List String
  pub black : List String
  pub has_end : Bool
  pub errors : List GraphError

-- `for (const e of …) dfs(e.targetNodeId)`, with the call given
unfoldable pub search_edges :
    (String → SearchState → Option SearchState)
    → List WorkflowEdge
    → SearchState
    → Option SearchState
search_edges visit [] s = some s
search_edges visit (e ∷ es) s = elim (visit e.target s) [
  | none ↦ none
  | some s' ↦ search_edges visit es s'
]

abbrev pub ends_here : Option WorkflowNode → Bool
ends_here none = false
ends_here (some n) = is_end n

abbrev pub enter : WorkflowGraph → String → SearchState → SearchState
enter g id s = record s { gray = id ∷ s.gray; has_end = s.has_end || ends_here (get_node g id) }

-- `color.set(id, BLACK)`: the id is gray no longer.
abbrev pub leave : String → SearchState → SearchState
leave id s = record s { gray = keep (λ y. not (y == id)) s.gray; black = id ∷ s.black }

-- `dfs`; the fuel bounds the depth of the recursion.
unfoldable pub dfs : WorkflowGraph → ℕ → String → SearchState → Option SearchState
dfs g zero id s = none
dfs g (suc fuel) id s =
    let inner = search_edges (dfs g fuel) (get_outgoing_edges g id) (enter g id s) in
    if has_id id s.gray
    then some (record s { errors = cycle_at id ∷ s.errors })
    else if has_id id s.black
    then some s
    else Option.map (leave id) inner

abbrev pub white : SearchState
white = record { gray = []; black = []; has_end = false; errors = [] }

-- Every call that goes deeper colours an id that was white: the trigger's or a target's.
abbrev pub search_fuel : WorkflowGraph → ℕ
search_fuel g = length g.edges + 2

abbrev pub search_errors : Option SearchState → List GraphError
search_errors none = []
search_errors (some s) = report (not s.has_end) no_end s.errors

abbrev pub check_reachability : WorkflowGraph → List WorkflowNode → List GraphError
check_reachability g (t ∷ []) = search_errors (dfs g (search_fuel g) t.id white)
check_reachability g _ = []

-- The errors in the order in which the source collects them, but for those of the search, which are
-- kept newest first.
unfoldable pub validate_graph : WorkflowGraph → List GraphError
unfolding check_nodes check_edges check_triggers dfs search_edges
validate_graph g =
    let triggers = keep is_trigger g.nodes in
    let (ids, node_errors) = check_nodes [] g.nodes in
    node_errors
    ++ (check_triggers triggers ++ (check_edges ids g.edges ++ check_reachability g triggers))
