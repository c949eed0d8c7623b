-- ===== src/Workflows/Valid.antt =====
-- What a graph without validation errors is: the meaning of `validateGraph(graph).ok`.
use ai_business_operating_sy.Base.{
  All, All-mono, Bool-cases, List, String, [], ap, arith, eq_iff, inl, inr, keep, map, not, refl,
  some, subst, sym, true, ◌&&◌, ◌++◌, ◌==◌, ◌∙◌, ◌∷◌, ◌≡◌, ◌≢◌, ◌⊎◌,
}
use ai_business_operating_sy.Workflows.Graph.{
  WorkflowNode, WorkflowEdge, WorkflowGraph, is_trigger, get_outgoing_edges,
}
use ai_business_operating_sy.Workflows.Validation.{
  has_id, check_nodes, check_edges, check_triggers, search_errors, check_reachability,
  validate_graph, dfs, search_fuel, white,
}
use ai_business_operating_sy.Workflows.Search.{IsOrdered, dfs_sound}
use ai_business_operating_sy.Workflows.Walks.{
  Among, Walk, EndFrom, ordered_acyclic, Walk-closed, dfs-EndFrom,
}
use ai_business_operating_sy.Workflows.Total.{search_total}

append-eq-nil {ℓ} : {A : Type ℓ} (xs ys : List A) → xs ++ ys ≡ [] → (xs ≡ []) × (ys ≡ [])
append-eq-nil [] ys h = (refl, h)
append-eq-nil (x ∷ xs) ys h = absurd (ground arith)

-- From one id: an END is reached, and no walk from it comes to a cycle.
pub record IsDag (g : WorkflowGraph) (start : String) : Type 0 where
  pub reaches_end : EndFrom g start
  pub acyclic :
      (u v : String) (e : WorkflowEdge)
      → Walk g start u
      → Walk g u v
      → Among e (get_outgoing_edges g v)
      → e.target ≢ u

-- The search without an error leaves an ordered list of ids with the first id in it.
search-IsOrdered :
    (g : WorkflowGraph) (id : String)
    → search_errors (dfs g (search_fuel g) id white) ≡ []
    → (xs : List String) × IsOrdered g xs × (has_id id xs ≡ true)
search-IsOrdered g id h =
    let (t, e) = search_total g id in
    let clean : search_errors (some t) ≡ [] = ap search_errors (sym e) ∙ h in
    let (sound, black) = dfs_sound g (search_fuel g) id white t e (ground arith) in
    (t.black, sound.ordered tt, black)

search-IsDag :
    (g : WorkflowGraph) (id : String)
    → search_errors (dfs g (search_fuel g) id white) ≡ []
    → IsDag g id
search-IsDag g id h =
    let (t, e) = search_total g id in
    let clean : search_errors (some t) ≡ [] = ap search_errors (sym e) ∙ h in
    let (xs, ordered, inside) = search-IsOrdered g id h in
    record {
      reaches_end = elim (dfs-EndFrom g (search_fuel g) id white t e (ground arith)) [
        | inl never ↦ absurd (ground arith)
        | inr found ↦ found
      ];
      acyclic = λ u v d w x m.
          ordered_acyclic g xs u v d ordered (Walk-closed g xs id ordered inside w) x m;
    }

one_trigger : (ts : List WorkflowNode) → check_triggers ts ≡ [] → (t : WorkflowNode) × (ts ≡ t ∷ [])
unfolding check_triggers
one_trigger [] h = absurd (ground arith)
one_trigger (t ∷ []) h = (t, refl)
one_trigger (t ∷ u ∷ ts) h = absurd (ground arith)

validate_graph-search :
    (g : WorkflowGraph)
    → validate_graph g ≡ []
    → (t : WorkflowNode) × (keep is_trigger g.nodes ≡ t ∷ [])
      × (search_errors (dfs g (search_fuel g) t.id white) ≡ [])
unfolding validate_graph
validate_graph-search g h =
    let ids = (check_nodes [] g.nodes).0 in
    let triggers = keep is_trigger g.nodes in
    let (_, h1) = append-eq-nil (check_nodes [] g.nodes).1 _ h in
    let (ht, h2) = append-eq-nil (check_triggers triggers) _ h1 in
    let (_, hr) = append-eq-nil (check_edges ids g.edges) _ h2 in
    let (t, e) = one_trigger triggers ht in (t, e, subst (λ ts. check_reachability g ts ≡ []) e hr)

-- The ids that a run of a valid graph can come to, each before those that its edges lead to.
pub validate_graph-IsOrdered :
    (g : WorkflowGraph)
    → validate_graph g ≡ []
    → (t : WorkflowNode) × (keep is_trigger g.nodes ≡ t ∷ [])
      × ((xs : List String) × IsOrdered g xs × (has_id t.id xs ≡ true))
validate_graph-IsOrdered g h =
    let (t, e, clean) = validate_graph-search g h in (t, e, search-IsOrdered g t.id clean)

-- A graph that passes the validation has exactly one TRIGGER; from it an END is reached by a walk, and
-- no walk from it comes to a cycle.
pub validate_graph-IsDag :
    (g : WorkflowGraph)
    → validate_graph g ≡ []
    → (t : WorkflowNode) × (keep is_trigger g.nodes ≡ t ∷ []) × IsDag g t.id
validate_graph-IsDag g h =
    let (t, e, clean) = validate_graph-search g h in (t, e, search-IsDag g t.id clean)

-- The endpoints that the validation demands of an edge.
pub record IsWired (ids : List String) (e : WorkflowEdge) : Type 0 where
  pub named : e.id ≢ ""
  pub from_node : has_id e.source ids ≡ true
  pub to_node : has_id e.target ids ≡ true
  pub no_loop : e.source ≢ e.target

check_edges-IsWired :
    (ids : List String) (es : List WorkflowEdge) → check_edges ids es ≡ [] → All (IsWired ids) es
unfolding check_edges
check_edges-IsWired ids [] h = tt
check_edges-IsWired ids (e ∷ es) h = (
  record {
    named = ground (arith, eq_iff e.id "");
    from_node = ground arith;
    to_node = ground arith;
    no_loop = ground (arith, eq_iff e.source e.target);
  },
  check_edges-IsWired ids es (ground arith),
)

abbrev pub node_ids : List WorkflowNode → List String
node_ids ns = map (λ n. n.id) ns

-- The ids that the loop over the nodes collects are those of nodes.
check_nodes-ids :
    (x : String) (ids : List String) (ns : List WorkflowNode)
    → has_id x (check_nodes ids ns).0 ≡ true
    → (has_id x ids ≡ true) ⊎ (has_id x (node_ids ns) ≡ true)
unfolding check_nodes
check_nodes-ids x ids [] h = inl h
check_nodes-ids x ids (n ∷ ns) h = elim (Bool-cases (not (n.id == "") && not (has_id n.id ids))) [
  | inl fresh ↦ elim (check_nodes-ids x (n.id ∷ ids) ns (ground arith)) [
    | inl old ↦ ground arith
    | inr new ↦ inr (ground arith)
  ]
  | inr stale ↦ elim (check_nodes-ids x ids ns (ground arith)) [
    | inl old ↦ inl old
    | inr new ↦ inr (ground arith)
  ]
]

-- A graph that passes the validation has edges with ids, no self-loop, and both endpoints of every
-- edge among the ids of its nodes.
pub validate_graph-IsWired :
    (g : WorkflowGraph) → validate_graph g ≡ [] → All (IsWired (node_ids g.nodes)) g.edges
unfolding validate_graph
validate_graph-IsWired g h =
    let ids = (check_nodes [] g.nodes).0 in
    let (_, h1) = append-eq-nil (check_nodes [] g.nodes).1 _ h in
    let (_, h2) = append-eq-nil (check_triggers (keep is_trigger g.nodes)) _ h1 in
    let (he, _) = append-eq-nil (check_edges ids g.edges) _ h2 in
    All-mono
      (λ e w. record {
        named = w.named;
        from_node = known e.source w.from_node;
        to_node = known e.target w.to_node;
        no_loop = w.no_loop;
      })
      g.edges (check_edges-IsWired ids g.edges he)
  where
    known :
        (x : String)
        → has_id x (check_nodes [] g.nodes).0 ≡ true
        → has_id x (node_ids g.nodes) ≡ true
    known x k = elim (check_nodes-ids x [] g.nodes k) [
      | inl none_yet ↦ absurd (ground arith)
      | inr here ↦ here
    ]
