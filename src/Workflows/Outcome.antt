-- ===== src/Workflows/Outcome.antt =====
-- What the status of a run tells of its log.
use ai_business_operating_sy.Base.{
  is_some, ◌+◌, Bool, List, Option, Option-cases, String, [], arith, every, false, if◌then◌else◌,
  inl, inr, not, refl, suc, true, zero, ℕ, ◌&&◌, ◌++◌, ◌∷◌, ◌≡◌,
}
use ai_business_operating_sy.Workflows.Graph.{
  WorkflowNode, WorkflowEdge, EdgeCondition, WorkflowGraph, get_node, type_is_end,
}
use ai_business_operating_sy.Workflows.Run.{
  RunState, RunLog, NodeExecutionResult, Vars, WalkEnd, returned, out_of_fuel, threw, visit,
  walk_edges, walk, after_branch, failure,
}

abbrev pub all_good : List RunLog → Bool
all_good ls = every (λ l. l.good) ls

every-append {ℓ} :
    {A : Type ℓ} (p : A → Bool) (xs ys : List A) → every p (xs ++ ys) ≡ (every p xs && every p ys)
every-append p [] ys = refl
every-append p (x ∷ xs) ys = ground (arith, every-append p xs ys)

-- A part of a walk that returns has logged no failure.
abbrev pub Clean : RunState → WalkEnd × RunState → Type 0
Clean s r = all_good s.logs ≡ true → r.0 ≡ returned → all_good r.1.logs ≡ true

module _ (execute : WorkflowNode → RunState → NodeExecutionResult)
    (evaluate : Option EdgeCondition → Vars → Bool) (g : WorkflowGraph) where
  after_branch-Clean :
      (together : Bool) (s : RunState) (end : WalkEnd) (t : RunState) (rest : WalkEnd × RunState)
      → Clean s (end, t)
      → Clean t rest
      → Clean s (after_branch execute evaluate together end rest t)
  after_branch-Clean together s returned t rest h k a e = k (h a refl) e
  after_branch-Clean together s out_of_fuel t rest h k a e = absurd (ground arith)
  after_branch-Clean false s (threw m) t rest h k a e = absurd (ground arith)
  after_branch-Clean true s (threw m) t (returned, u) h k a e = absurd (ground arith)
  after_branch-Clean true s (threw m) t (out_of_fuel, u) h k a e = absurd (ground arith)
  after_branch-Clean true s (threw m) t (threw n, u) h k a e = absurd (ground arith)

  walk_edges-Clean :
      (step : WorkflowNode → RunState → WalkEnd × RunState)
      → ((n : WorkflowNode) (s : RunState) → Clean s (step n s))
      → (together : Bool) (es : List WorkflowEdge) (s : RunState)
      → Clean s (walk_edges execute evaluate step g together es s)
  unfolding walk_edges
  walk_edges-Clean step clean together [] s = λ a e. a
  walk_edges-Clean step clean together (d ∷ es) s = elim (Option-cases (get_node g d.target)) [
    | inl n ↦ rw (n, walk_edges) (walk_edges-Clean step clean together es s)
    | inr (next, n) ↦
        rw (n, walk_edges)
          (after_branch-Clean together s (step next s).0 (step next s).1 _ (clean next s)
            (walk_edges-Clean step clean together es (step next s).1))
  ]

  visit-Clean :
      (n : WorkflowNode) (s : RunState)
      → (visit execute evaluate n s).0.good ≡ true
      → all_good s.logs ≡ true
      → all_good (visit execute evaluate n s).1.logs ≡ true
  visit-Clean n s good a =
      let r = (visit execute evaluate n s).0 in
      let split =
        every-append (λ l. l.good) s.logs (record { node_id = n.id; good = r.good } ∷ []) in
      ground arith

  branches-Clean :
      (known good over : Bool) (s t u : RunState) (m l : String) (rest : WalkEnd × RunState)
      → (good ≡ true → all_good s.logs ≡ true → all_good t.logs ≡ true)
      → Clean t rest
      → Clean s (
          if not known
          then (threw l, u)
          else if not good
          then (threw m, t)
          else if over
          then (returned, t)
          else rest)
  branches-Clean false good over s t u m l rest h k = λ a e. absurd (ground arith)
  branches-Clean true false over s t u m l rest h k = λ a e. absurd (ground arith)
  branches-Clean true true true s t u m l rest h k = λ a e. h refl a
  branches-Clean true true false s t u m l rest h k = λ a e. k (h refl a) e

  pub walk-Clean :
      (fuel : ℕ) (n : WorkflowNode) (s : RunState) → Clean s (walk execute evaluate g fuel n s)
  unfolding walk
  walk-Clean zero n s = λ a e. absurd (ground arith)
  walk-Clean (suc fuel) n s =
      let (r, t) = visit execute evaluate n s in
      branches-Clean (is_some n.type) r.good (type_is_end n.type) s t
        (record s { step = s.step + 1 }) (failure execute evaluate n r) "No handler for node type" _
        (visit-Clean n s) (walk_edges-Clean (walk execute evaluate g fuel) (walk-Clean fuel) _ _ t)
