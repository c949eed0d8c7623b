-- ===== src/Workflows/Total.antt =====
-- The depth of the recursion of the search in graph.validation.ts.
use ai_business_operating_sy.Base.{
  All, All-mono, Bool, Bool-cases, List, Option, String, [], arith, eq_iff, eq_refl, false,
  if◌then◌else◌, inl, inr, keep, length, not, refl, some, subst, suc, true, zero, ℕ, ◌+◌, ◌<◌, ◌==◌,
  ◌||◌, ◌∷◌, ◌≡◌, ◌≤◌,
}
use ai_business_operating_sy.Workflows.Graph.{WorkflowEdge, WorkflowGraph, get_outgoing_edges}
use ai_business_operating_sy.Workflows.Validation.{
  SearchState, has_id, search_edges, dfs, enter, leave, search_fuel, white, cycle_at,
}
use ai_business_operating_sy.Workflows.Walks.{Among, here, there}

abbrev visited : SearchState → String → Bool
visited s x = has_id x s.gray || has_id x s.black

abbrev Keeps : SearchState → SearchState → Type 0
Keeps s t = (x : String) → visited s x ≡ true → visited t x ≡ true

-- The number of edges whose target is still white.
unvisited : SearchState → List WorkflowEdge → ℕ
unvisited s [] = 0
unvisited s (e ∷ es) = (if visited s e.target then 0 else 1) + unvisited s es

unvisited_mono :
    (s t : SearchState) (es : List WorkflowEdge) → Keeps s t → unvisited t es ≤ unvisited s es
unfolding unvisited
unvisited_mono s t [] k = omega arith
unvisited_mono s t (e ∷ es) k = ground (arith, k e.target, unvisited_mono s t es k)

unvisited-drop :
    (s t : SearchState) (e : WorkflowEdge) {es : List WorkflowEdge}
    → Keeps s t
    → visited s e.target ≡ false
    → visited t e.target ≡ true
    → Among e es
    → unvisited t es < unvisited s es
unfolding unvisited
unvisited-drop s t e k old new (here {xs = es}) = ground (arith, unvisited_mono s t es k)
unvisited-drop s t e k old new (there {x = d} {xs = es} m) =
    ground (arith, k d.target, unvisited-drop s t e {es = es} k old new m)

unvisited-le-length : (s : SearchState) (es : List WorkflowEdge) → unvisited s es ≤ length es
unfolding unvisited
unvisited-le-length s [] = omega arith
unvisited-le-length s (e ∷ es) = ground (arith, unvisited-le-length s es)

has_id-keep :
    (x id : String) (ys : List String)
    → (x == id) ≡ false
    → has_id x (keep (λ y. not (y == id)) ys) ≡ has_id x ys
has_id-keep x id [] ne = refl
has_id-keep x id (y ∷ ys) ne =
    ground (arith, has_id-keep x id ys ne, eq_iff y x, eq_iff y id, eq_iff x id)

leave-Keeps : (id : String) (s : SearchState) → Keeps s (leave id s)
leave-Keeps id s x h = ground (arith, has_id-keep x id s.gray, eq_iff x id, eq_iff id x)

enter-Keeps : (g : WorkflowGraph) (id : String) (s : SearchState) → Keeps s (enter g id s)
enter-Keeps g id s x h = ground arith

abbrev Ends : (String → SearchState → Option SearchState) → String → SearchState → Type 0
Ends visit id s = (t : SearchState) × (visit id s ≡ some t) × Keeps s t

search_edges-total :
    (g : WorkflowGraph) (visit : String → SearchState → Option SearchState) (n : ℕ)
    → ((e : WorkflowEdge)
        → Among e g.edges
        → (s : SearchState) → unvisited s g.edges < n
        → Ends visit e.target s)
    → (es : List WorkflowEdge) → All (λ e. Among e g.edges) es
    → (s : SearchState) → unvisited s g.edges < n
    → (t : SearchState) × (search_edges visit es s ≡ some t) × Keeps s t
unfolding search_edges
search_edges-total g visit n total [] a s h = (s, refl, λ x k. k)
search_edges-total g visit n total (e ∷ es) a s h =
    let (m, now, kept) = total e a.0 s h in
    let (t, later, kept') =
      search_edges-total g visit n total es a.1 m
        (omega (arith, unvisited_mono s m g.edges kept)) in
    (t, rw (now, search_edges) later, λ x k. kept' x (kept x k))

All-keep {ℓ κ} :
    {A : Type ℓ} (P : A → Type κ) (p : A → Bool) (xs : List A) → All P xs → All P (keep p xs)
All-keep P p [] h = tt
All-keep P p (x ∷ xs) h = elim (Bool-cases (p x)) [
  | inl e ↦ rw e (h.0, All-keep P p xs h.1)
  | inr e ↦ rw e (All-keep P p xs h.1)
]

All-Among {ℓ} : {A : Type ℓ} (xs : List A) → All (λ x. Among x xs) xs
All-Among [] = tt
All-Among (x ∷ xs) = (here, All-mono (λ y m. there m) xs (All-Among xs))

outgoing-Among :
    (g : WorkflowGraph) (id : String) → All (λ e. Among e g.edges) (get_outgoing_edges g id)
outgoing-Among g id =
    All-keep (λ e. Among e g.edges) (λ e. e.source == id) g.edges (All-Among g.edges)

-- A call whose fuel exceeds the edges left once the id is entered.
dfs_entered :
    (g : WorkflowGraph) (fuel : ℕ) (id : String) (s : SearchState)
    → ((e : WorkflowEdge)
        → Among e g.edges
        → (s : SearchState) → unvisited s g.edges < fuel
        → Ends (dfs g fuel) e.target s)
    → (visited s id ≡ false → unvisited (enter g id s) g.edges < fuel)
    → Ends (dfs g (suc fuel)) id s
unfolding dfs
dfs_entered g fuel id s total room = elim (Bool-cases (has_id id s.gray)) [
  | inl e ↦ (record s { errors = cycle_at id ∷ s.errors }, ground arith, λ x k. k)
  | inr not_gray ↦ elim (Bool-cases (has_id id s.black)) [
    | inl e ↦ (s, ground arith, λ x k. k)
    | inr not_black ↦
        let (m, done, kept) =
          search_edges-total g (dfs g fuel) fuel total (get_outgoing_edges g id)
            (outgoing-Among g id) (enter g id s) (room (ground arith)) in
        (leave id m, ground arith, λ x k. leave-Keeps id m x (kept x (enter-Keeps g id s x k)))
  ]
]

dfs-total :
    (g : WorkflowGraph) (fuel : ℕ) (e : WorkflowEdge)
    → Among e g.edges
    → (s : SearchState) → unvisited s g.edges < fuel
    → Ends (dfs g fuel) e.target s
dfs-total g zero e m s h = absurd (omega arith)
dfs-total g (suc fuel) e m s h = dfs_entered g fuel e.target s (dfs-total g fuel) (λ fresh.
    let entered : visited (enter g e.target s) e.target ≡ true = ground (arith, eq_refl e.target) in
    omega
      (arith, unvisited-drop s (enter g e.target s) e (enter-Keeps g e.target s) fresh entered m))

-- The search that the validation starts at the trigger always ends within its fuel.
pub search_total :
    (g : WorkflowGraph) (id : String)
    → (t : SearchState) × (dfs g (search_fuel g) id white ≡ some t)
search_total g id =
    let fuel : ℕ = length g.edges + 1 in
    let (t, e, _) =
      dfs_entered g fuel id white (dfs-total g fuel)
        (λ fresh. omega (arith, unvisited-le-length (enter g id white) g.edges)) in
    (t, subst (λ n. dfs g n id white ≡ some t) (omega arith) e)
