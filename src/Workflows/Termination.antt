-- ===== src/Workflows/Termination.antt =====
-- How a run of a validated graph ends: `walk` and `run` of workflow-runner.ts.
use ai_business_operating_sy.Base.{
  ◌+◌, All, Bool, Bool-cases, List, Option, Option-cases, String, [], arith, eq_iff, false, first,
  if◌then◌else◌, inl, inr, is_some, keep, length, none, not, refl, some, subst, suc, sym, true,
  zero, ℕ, ◌==◌, ◌∷◌, ◌≡◌, ◌≤◌, ◌⊎◌,
}
use ai_business_operating_sy.Workflows.Graph.{
  WorkflowNode, WorkflowEdge, EdgeCondition, WorkflowGraph, is_trigger, get_outgoing_edges,
  get_node, type_is_end,
}
use ai_business_operating_sy.Workflows.Validation.{has_id, validate_graph}
use ai_business_operating_sy.Workflows.Valid.{validate_graph-IsOrdered}
use ai_business_operating_sy.Workflows.Search.{IsOrdered}
use ai_business_operating_sy.Workflows.Outcome.{all_good, Clean, walk-Clean}
use ai_business_operating_sy.Workflows.Run.{
  RunState, completed, failed, NodeExecutionResult, Vars, WalkEnd, returned, out_of_fuel, threw,
  IsDone, visit, matching_edges, walk_edges, walk, after_branch, failure, run, finish, started,
}

get_node-id :
    (id : String) (ns : List WorkflowNode) (n : WorkflowNode)
    → first (λ m. m.id == id) ns ≡ some n
    → n.id ≡ id
get_node-id id [] n h = absurd (ground arith)
get_node-id id (m ∷ ns) n h = ground (arith, eq_iff m.id id, get_node-id id ns n)

module _ (execute : WorkflowNode → RunState → NodeExecutionResult)
    (evaluate : Option EdgeCondition → Vars → Bool) (g : WorkflowGraph) where
  after_branch-IsDone :
      (together : Bool) (end : WalkEnd) (rest : WalkEnd × RunState) (t : RunState)
      → IsDone end
      → IsDone rest.0
      → IsDone (after_branch execute evaluate together end rest t).0
  after_branch-IsDone together returned rest t h k = k
  after_branch-IsDone together out_of_fuel rest t h k = h
  after_branch-IsDone false (threw m) rest t h k = λ e. cc
  after_branch-IsDone true (threw m) (returned, u) t h k = λ e. cc
  after_branch-IsDone true (threw m) (out_of_fuel, u) t h k = k
  after_branch-IsDone true (threw m) (threw n, u) t h k = λ e. cc

  walk_edges-IsDone :
      (step : WorkflowNode → RunState → WalkEnd × RunState) (xs : List String)
      → ((n : WorkflowNode) (s : RunState) → has_id n.id xs ≡ true → IsDone (step n s).0)
      → (together : Bool) (es : List WorkflowEdge) → All (λ e. has_id e.target xs ≡ true) es
      → (s : RunState) → IsDone (walk_edges execute evaluate step g together es s).0
  unfolding walk_edges
  walk_edges-IsDone step xs done together [] a s = λ e. cc
  walk_edges-IsDone step xs done together (e ∷ es) a s = elim (Option-cases (get_node g e.target)) [
    | inl n ↦ rw (n, walk_edges) (walk_edges-IsDone step xs done together es a.1 s)
    | inr (next, n) ↦
        rw (n, walk_edges)
          (after_branch-IsDone together (step next s).0 _ (step next s).1
            (done next s
              (subst (λ x. has_id x xs ≡ true) (sym (get_node-id e.target g.nodes next n)) a.0))
            (walk_edges-IsDone step xs done together es a.1 (step next s).1))
  ]

  All-keep {ℓ} :
      (P : WorkflowEdge → Type ℓ) (p : WorkflowEdge → Bool) (xs : List WorkflowEdge)
      → All P xs
      → All P (keep p xs)
  All-keep P p [] h = tt
  All-keep P p (x ∷ xs) h = elim (Bool-cases (p x)) [
    | inl e ↦ rw e (h.0, All-keep P p xs h.1)
    | inr e ↦ rw e (All-keep P p xs h.1)
  ]

  after_visit :
      (n : WorkflowNode) (s : RunState) (rest : WalkEnd × RunState)
      → IsDone rest.0
      → IsDone
          (if not (is_some n.type)
            then (threw "No handler for node type", record s { step = s.step + 1 })
            else if not (visit execute evaluate n s).0.good
            then (
              threw (failure execute evaluate n (visit execute evaluate n s).0),
              (visit execute evaluate n s).1,
            )
            else if type_is_end n.type
            then (returned, (visit execute evaluate n s).1)
            else rest).0
  after_visit n s rest k = elim (Bool-cases (is_some n.type)) [
    | inr unknown ↦ rw unknown (λ e. cc)
    | inl known ↦ elim (Bool-cases (visit execute evaluate n s).0.good) [
      | inr bad ↦ rw (known, bad) (λ e. cc)
      | inl good ↦ elim (Bool-cases (type_is_end n.type)) [
        | inl over ↦ rw (known, good, over) (λ e. cc)
        | inr more ↦ rw (known, good, more) k
      ]
    ]
  ]

  -- From a node of an ordered list the walk goes no deeper than the list is long.
  walk-IsDone :
      (xs : List String) (fuel : ℕ) (n : WorkflowNode) (s : RunState)
      → IsOrdered g xs
      → length xs ≤ fuel
      → has_id n.id xs ≡ true
      → IsDone (walk execute evaluate g fuel n s).0
  unfolding walk
  walk-IsDone [] fuel n s o h k = absurd (ground arith)
  walk-IsDone (x ∷ xs) zero n s o h k = absurd (omega arith)
  walk-IsDone (x ∷ xs) (suc fuel) n s o h k = elim (Bool-cases (x == n.id)) [
    | inr other ↦ walk-IsDone xs (suc fuel) n s o.1 (omega arith) (ground arith)
    | inl same ↦ after_visit n s _ (
        walk_edges-IsDone (walk execute evaluate g fuel) xs
          (λ m t k'. walk-IsDone xs fuel m t o.1 (omega arith) k') _
          (matching_edges execute evaluate g n (visit execute evaluate n s).1)
          (All-keep _ _ (get_outgoing_edges g n.id) (
            subst (λ i. All (λ e. has_id e.target xs ≡ true) (get_outgoing_edges g i))
              (ground (arith, eq_iff x n.id)) o.0))
          (visit execute evaluate n s).1)
  ]

keep-first :
    (ns : List WorkflowNode) (t : WorkflowNode)
    → keep is_trigger ns ≡ t ∷ []
    → first is_trigger ns ≡ some t
keep-first [] t h = absurd (ground arith)
keep-first (n ∷ ns) t h = elim (Bool-cases (is_trigger n)) [
  | inl e ↦ ground arith
  | inr e ↦ ground (arith, keep-first ns t)
]

-- A run that has ended: COMPLETED with no failed node in its log, or FAILED with a message.
abbrev pub IsOver : RunState → Type 0
IsOver s =
    ((s.status ≡ completed) × (s.current_node ≡ none) × (all_good s.logs ≡ true))
    ⊎ ((s.status ≡ failed) × (is_some s.error ≡ true))

module _ (execute : WorkflowNode → RunState → NodeExecutionResult)
    (evaluate : Option EdgeCondition → Vars → Bool) where
  finish-IsOver :
      (s : RunState) (r : WalkEnd × RunState)
      → all_good s.logs ≡ true
      → IsDone r.0
      → Clean s r
      → IsOver (finish execute evaluate r)
  finish-IsOver s (returned, t) a h c = inl (refl, refl, c a refl)
  finish-IsOver s (threw m, t) a h c = inr (refl, refl)
  finish-IsOver s (out_of_fuel, t) a h c = absurd (h refl)

-- For a graph that passes the validation there is an amount of fuel with which, and with any more,
-- every run of a row without a failed log ends, whatever the handlers return and the conditions say:
-- as COMPLETED at no node with no failed node in its log, or as FAILED with a message.
pub run-IsOver :
    (g : WorkflowGraph)
    → validate_graph g ≡ []
    → (n : ℕ) × ((execute : WorkflowNode → RunState → NodeExecutionResult)
          (evaluate : Option EdgeCondition → Vars → Bool) (fuel : ℕ) (s : RunState)
        → n ≤ fuel
        → all_good s.logs ≡ true
        → IsOver (run execute evaluate g fuel s))
unfolding run
run-IsOver g h =
    let (t, e, (xs, ordered, inside)) = validate_graph-IsOrdered g h in
    (
      length xs,
      λ execute evaluate fuel s enough a.
          rw (run, keep-first g.nodes t e)
            (finish-IsOver execute evaluate (started execute evaluate s) _ a
              (walk-IsDone execute evaluate g xs fuel t (started execute evaluate s) ordered enough
                inside)
              (walk-Clean execute evaluate g fuel t (started execute evaluate s))),
    )
