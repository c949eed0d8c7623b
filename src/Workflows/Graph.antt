-- ===== src/Workflows/Graph.antt =====
-- graph.types.ts and the queries of graph.validation.ts. An empty text is a missing id, as in the
-- source's `!n.id`; the JSON of a configuration or condition is kept as its text.
use ai_business_operating_sy.Base.{Bool, List, Option, String, false, first, keep, some, true, ◌==◌}

pub data NodeType : Type 0 where
  trigger condition agent action wait parallel end : NodeType

pub record WorkflowNode : Type 0 where
  pub id : String
  pub type : Option NodeType
  pub name : String
  pub agent_id : Option String
  pub configuration : Option String

pub data EdgeCondition : Type 0 where
  always : EdgeCondition
  expression : String → EdgeCondition
  jsonpath : (path : String) → (equals : Option String) → (exists : Option Bool) → EdgeCondition

pub record WorkflowEdge : Type 0 where
  pub id : String
  pub source : String
  pub target : String
  pub condition : Option EdgeCondition

pub record WorkflowGraph : Type 0 where
  pub nodes : List WorkflowNode
  pub edges : List WorkflowEdge

abbrev pub type_is_trigger : Option NodeType → Bool
type_is_trigger (some trigger) = true
type_is_trigger _ = false

abbrev pub type_is_end : Option NodeType → Bool
type_is_end (some end) = true
type_is_end _ = false

abbrev pub type_is_parallel : Option NodeType → Bool
type_is_parallel (some parallel) = true
type_is_parallel _ = false

abbrev pub is_trigger : WorkflowNode → Bool
is_trigger n = type_is_trigger n.type

abbrev pub is_end : WorkflowNode → Bool
is_end n = type_is_end n.type

-- `getOutgoingEdges`, which is also the adjacency list of the validation
abbrev pub get_outgoing_edges : WorkflowGraph → String → List WorkflowEdge
get_outgoing_edges g id = keep (λ e. e.source == id) g.edges

-- `getNode`
abbrev pub get_node : WorkflowGraph → String → Option WorkflowNode
get_node g id = first (λ n. n.id == id) g.nodes
