-- ===== src/Workflows/Search.antt =====
-- The order of the black ids of the depth-first search in graph.validation.ts.
use ai_business_operating_sy.Base.{
  All, Bool-cases, List, Option, Option-cases, String, [], arith, eq_refl, inl, inr, some, subst,
  suc, sym, true, zero, ℕ, ◌∷◌, ◌≡◌,
}
use ai_business_operating_sy.Workflows.Graph.{WorkflowEdge, WorkflowGraph, get_outgoing_edges}
use ai_business_operating_sy.Workflows.Validation.{
  SearchState, has_id, search_edges, dfs, enter, leave,
}

-- Every edge of an id leads to an id that stands after it in the list.
abbrev pub IsOrdered : WorkflowGraph → List String → Type 0
IsOrdered g [] = Unit
IsOrdered g (x ∷ xs) =
    All (λ e. has_id e.target xs ≡ true) (get_outgoing_edges g x) × IsOrdered g xs

abbrev pub Grows : SearchState → SearchState → Type 0
Grows s t = (x : String) → has_id x s.black ≡ true → has_id x t.black ≡ true

pub record Sound (g : WorkflowGraph) (s t : SearchState) : Type 0 where
  pub clean : s.errors ≡ []
  pub ordered : IsOrdered g s.black → IsOrdered g t.black
  pub grows : Grows s t

unchanged : (g : WorkflowGraph) (s t : SearchState) → s ≡ t → t.errors ≡ [] → Sound g s t
unchanged g s t e clean = record {
  clean = ground arith;
  ordered = subst (λ x. IsOrdered g s.black → IsOrdered g x.black) e (λ o. o);
  grows = subst (λ x. Grows s x) e (λ x k. k);
}

-- The claim on a call, and on a loop over edges.
abbrev pub DfsSound : WorkflowGraph → (String → SearchState → Option SearchState) → Type 0
DfsSound g visit =
    (id : String) (s t : SearchState)
    → visit id s ≡ some t
    → t.errors ≡ []
    → Sound g s t × (has_id id t.black ≡ true)

search_edges-Sound :
    (g : WorkflowGraph) (visit : String → SearchState → Option SearchState)
    → DfsSound g visit
    → (es : List WorkflowEdge) (s t : SearchState) → search_edges visit es s ≡ some t
    → t.errors ≡ []
    → Sound g s t × All (λ e. has_id e.target t.black ≡ true) es
unfolding search_edges
search_edges-Sound g visit sound [] s t h clean = (unchanged g s t (ground arith) clean, tt)
search_edges-Sound g visit sound (e ∷ es) s t h clean = elim (Option-cases (visit e.target s)) [
  | inl n ↦ absurd (ground arith)
  | inr (m, n) ↦
      let (later, rest) = search_edges-Sound g visit sound es m t (ground arith) clean in
      let (now, here) = sound e.target s m n later.clean in
      (
        record {
          clean = now.clean;
          ordered = λ o. later.ordered (now.ordered o);
          grows = λ x k. later.grows x (now.grows x k);
        },
        (later.grows e.target here, rest),
      )
]

pub dfs_sound : (g : WorkflowGraph) (fuel : ℕ) → DfsSound g (dfs g fuel)
unfolding dfs
dfs_sound g zero id s t h clean = absurd (ground arith)
dfs_sound g (suc fuel) id s t h clean = elim (Bool-cases (has_id id s.gray)) [
  | inl is_gray ↦ absurd (ground arith)
  | inr not_gray ↦ elim (Bool-cases (has_id id s.black)) [
    | inl is_black ↦ (unchanged g s t (ground arith) clean, ground arith)
    | inr not_black ↦
        elim (Option-cases (search_edges (dfs g fuel) (get_outgoing_edges g id) (enter g id s))) [
          | inl n ↦ absurd (ground arith)
          | inr (m, n) ↦
              let (inner, targets) =
                search_edges-Sound g (dfs g fuel) (dfs_sound g fuel) (get_outgoing_edges g id)
                  (enter g id s) m n (ground arith) in
              let e : t ≡ leave id m = ground arith in
              subst (λ x. Sound g s x × (has_id id x.black ≡ true)) (sym e)
                (
                  record {
                    clean = inner.clean;
                    ordered = λ o. (targets, inner.ordered o);
                    grows = λ x k. ground (arith, inner.grows x k);
                  },
                  ground (arith, eq_refl id),
                )
        ]
  ]
]
