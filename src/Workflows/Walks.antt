-- ===== src/Workflows/Walks.antt =====
-- Walks along the edges of a graph of graph.types.ts, as the search in graph.validation.ts makes them.
use ai_business_operating_sy.Base.{
  All, All-mono, Bool-cases, List, Option, Option-cases, String, [], arith, eq_iff, inl, inr, refl,
  some, subst, suc, sym, true, zero, ℕ, ◌==◌, ◌∷◌, ◌≡◌, ◌≢◌, ◌⊎◌,
}
use ai_business_operating_sy.Workflows.Graph.{
  WorkflowEdge, WorkflowGraph, get_outgoing_edges, get_node,
}
use ai_business_operating_sy.Workflows.Validation.{
  SearchState, has_id, search_edges, dfs, enter, ends_here,
}
use ai_business_operating_sy.Workflows.Search.{IsOrdered}

pub data Among {ℓ} {A : Type ℓ} (a : A) : List A → Type ℓ where
  here : {xs : List A} → Among a (a ∷ xs)
  there : {x : A} {xs : List A} → Among a xs → Among a (x ∷ xs)

pub data Walk (g : WorkflowGraph) (u : String) : String → Type 0 where
  stay : Walk g u u
  along :
      {v w : String}
      → Walk g u v
      → (e : WorkflowEdge) → Among e (get_outgoing_edges g v)
      → e.target ≡ w
      → Walk g u w

All-Among {ℓ κ} : {A : Type ℓ} (P : A → Type κ) {a : A} {xs : List A} → Among a xs → All P xs → P a
All-Among P here h = h.0
All-Among P (there m) h = All-Among P m h.1

step_closed :
    (g : WorkflowGraph) (xs : List String) (v : String) (e : WorkflowEdge)
    → IsOrdered g xs
    → has_id v xs ≡ true
    → Among e (get_outgoing_edges g v)
    → has_id e.target xs ≡ true
step_closed g [] v e o h m = absurd (ground arith)
step_closed g (x ∷ xs) v e o h m = elim (Bool-cases (x == v)) [
  | inl same ↦
      let t =
        All-Among (λ d. has_id d.target xs ≡ true)
          (subst (λ y. Among e (get_outgoing_edges g y)) (sym ((eq_iff x v).0 same)) m) o.0 in
      ground arith
  | inr other ↦ ground (arith, step_closed g xs v e o.1 (ground arith) m)
]

Walk-in_tail :
    (g : WorkflowGraph) (x : String) (xs : List String) {v : String}
    → IsOrdered g (x ∷ xs)
    → Walk g x v
    → (v ≡ x) ⊎ (has_id v xs ≡ true)
Walk-in_tail g x xs o stay = inl refl
Walk-in_tail g x xs o (along {v = v} w e m same) = elim (Walk-in_tail g x xs o w) [
  | inl back ↦
      let t =
        All-Among (λ d. has_id d.target xs ≡ true)
          (subst (λ y. Among e (get_outgoing_edges g y)) back m) o.0 in
      inr (subst (λ y. has_id y xs ≡ true) same t)
  | inr inside ↦ inr (subst (λ y. has_id y xs ≡ true) same (step_closed g xs v e o.1 inside m))
]

-- No edge closes a cycle at an id of an ordered list.
pub ordered_acyclic :
    (g : WorkflowGraph) (xs : List String) (u v : String) (e : WorkflowEdge)
    → IsOrdered g xs
    → has_id u xs ≡ true
    → Walk g u v
    → Among e (get_outgoing_edges g v)
    → e.target ≢ u
ordered_acyclic g [] u v e o h w m back = absurd (ground arith)
ordered_acyclic g (x ∷ xs) u v e o h w m back = elim (Bool-cases (x == u)) [
  | inr other ↦ ordered_acyclic g xs u v e o.1 (ground arith) w m back
  | inl same ↦
      let p = (eq_iff x u).0 same in
      let inside : has_id u xs ≡ true =
        elim (Walk-in_tail g x xs o (subst (λ y. Walk g y v) (sym p) w)) [
          | inl at ↦
              subst (λ y. has_id y xs ≡ true) back
                (All-Among (λ d. has_id d.target xs ≡ true)
                  (subst (λ y. Among e (get_outgoing_edges g y)) at m) o.0)
          | inr later ↦ subst (λ y. has_id y xs ≡ true) back (step_closed g xs v e o.1 later m)
        ] in
      ordered_acyclic g xs u v e o.1 inside w m back
]

pub Walk-closed :
    (g : WorkflowGraph) (xs : List String) (u : String) {v : String}
    → IsOrdered g xs
    → has_id u xs ≡ true
    → Walk g u v
    → has_id v xs ≡ true
Walk-closed g xs u o h stay = h
Walk-closed g xs u o h (along {v = v} w e m same) =
    subst (λ y. has_id y xs ≡ true) same (step_closed g xs v e o (Walk-closed g xs u o h w) m)

prepend :
    (g : WorkflowGraph) (u : String) (e : WorkflowEdge) {w : String}
    → Among e (get_outgoing_edges g u)
    → Walk g e.target w
    → Walk g u w
prepend g u e m stay = along stay e m refl
prepend g u e m (along w d n same) = along (prepend g u e m w) d n same

-- A walk from u reaches an END node.
abbrev pub EndFrom : WorkflowGraph → String → Type 0
EndFrom g u = (v : String) × Walk g u v × (ends_here (get_node g v) ≡ true)

abbrev EndSound : WorkflowGraph → (String → SearchState → Option SearchState) → Type 0
EndSound g visit =
    (id : String) (s t : SearchState)
    → visit id s ≡ some t
    → t.has_end ≡ true
    → (s.has_end ≡ true) ⊎ EndFrom g id

search_edges-EndFrom :
    (g : WorkflowGraph) (visit : String → SearchState → Option SearchState) (u : String)
    → EndSound g visit
    → (es : List WorkflowEdge) (s t : SearchState) → All (λ e. Among e (get_outgoing_edges g u)) es
    → search_edges visit es s ≡ some t
    → t.has_end ≡ true
    → (s.has_end ≡ true) ⊎ EndFrom g u
unfolding search_edges
search_edges-EndFrom g visit u sound [] s t a h k = inl (ground arith)
search_edges-EndFrom g visit u sound (e ∷ es) s t a h k = elim (Option-cases (visit e.target s)) [
  | inl n ↦ absurd (ground arith)
  | inr (m, n) ↦ elim (search_edges-EndFrom g visit u sound es m t a.1 (ground arith) k) [
    | inr found ↦ inr found
    | inl before ↦ elim (sound e.target s m n before) [
      | inl earlier ↦ inl earlier
      | inr (v, w, q) ↦ inr (v, prepend g u e a.0 w, q)
    ]
  ]
]

All-Among_self {ℓ} : {A : Type ℓ} (xs : List A) → All (λ x. Among x xs) xs
All-Among_self [] = tt
All-Among_self (x ∷ xs) = (here, All-mono (λ y m. there m) xs (All-Among_self xs))

pub dfs-EndFrom : (g : WorkflowGraph) (fuel : ℕ) → EndSound g (dfs g fuel)
unfolding dfs
dfs-EndFrom g zero id s t h k = absurd (ground arith)
dfs-EndFrom g (suc fuel) id s t h k = elim (Bool-cases (has_id id s.gray)) [
  | inl is_gray ↦ inl (ground arith)
  | inr not_gray ↦ elim (Bool-cases (has_id id s.black)) [
    | inl is_black ↦ inl (ground arith)
    | inr not_black ↦
        elim (Option-cases (search_edges (dfs g fuel) (get_outgoing_edges g id) (enter g id s))) [
          | inl n ↦ absurd (ground arith)
          | inr (m, n) ↦
              elim (search_edges-EndFrom g (dfs g fuel) id (dfs-EndFrom g fuel)
                (get_outgoing_edges g id) (enter g id s) m
                (All-Among_self (get_outgoing_edges g id)) n (ground arith)) [
                  | inr found ↦ inr found
                  | inl entered ↦ elim (Bool-cases s.has_end) [
                    | inl before ↦ inl before
                    | inr not_before ↦ inr (id, stay, ground arith)
                  ]
                ]
        ]
  ]
]
