-- ===== src/Graph/Navigation/Final.antt =====
-- The final navigation gate of a valid graph.
use fomo_demo.Prelude.{
  String, true, ◌≡◌, refl, ap, ok, some, List, [], ◌∷◌, contains, subset, arith, eq_iff, All,
  is_empty, Distinct→unique,
}
use fomo_demo.Graph.{
  GoalDraft, GoalGraph, NavigationRoute, schema_version, suite_version, drafts, goal_ids, false,
}
use fomo_demo.Graph.Dependencies.Acyclic.{find_goal-mem}
use fomo_demo.Graph.Routes.{route_paths}
use fomo_demo.Graph.Routes.Accepted.{OwnerIsVisible, validate_route_manifest-IsRouted}
use fomo_demo.Graph.Navigation.{
  final_full, make_suite, owned_by, graph_goal_ids, check_mode, suite_for,
  derive_navigation_verification_suite, unique,
}
use fomo_demo.Graph.Model.{validate_goal_graph}
use fomo_demo.Graph.Model.Parts.{validate_goal_graph-Parts, current_parts}

subset_cons : (xs ys : List String) (y : String) → subset xs ys ≡ true → subset xs (y ∷ ys) ≡ true
subset_cons [] ys y h = refl
subset_cons (x ∷ xs) ys y h = ground (arith, subset_cons xs ys y)

subset_refl : (xs : List String) → subset xs xs ≡ true
subset_refl [] = refl
subset_refl (x ∷ xs) = ground (arith, eq_iff x x, subset_cons xs xs x (subset_refl xs))

All-owned :
    (goals : List GoalDraft) (routes : List NavigationRoute)
    → All (OwnerIsVisible goals) routes
    → owned_by (goal_ids goals) routes ≡ routes
All-owned goals [] h = refl
All-owned goals (r ∷ rs) h =
    let (g, found, seen) = h.0 in
    rw (find_goal-mem goals r.owning_goal_id g found) (ap (◌∷◌ r) (All-owned goals rs h.1))

some_goal :
    (goals : List GoalDraft) (x : String)
    → contains (goal_ids goals) x ≡ true
    → is_empty (goal_ids goals) ≡ false
some_goal [] x h = cc
some_goal (g ∷ gs) x h = refl

some_route :
    (goals : List GoalDraft) (routes : List NavigationRoute)
    → contains (route_paths routes) "/" ≡ true
    → All (OwnerIsVisible goals) routes
    → is_empty (goal_ids goals) ≡ false
some_route goals [] m h = cc
some_route goals (r ∷ rs) m h =
    let (g, found, seen) = h.0 in
    some_goal goals r.owning_goal_id (find_goal-mem goals r.owning_goal_id g found)

full_suite :
    (graph : GoalGraph) (routes : List NavigationRoute)
    → graph.routes ≡ routes
    → graph.navigation_suite_version ≡ some suite_version
    → unique (route_paths routes) ≡ true
    → is_empty routes ≡ false
    → suite_for graph (graph_goal_ids graph) final_full routes
      ≡ ok (some (record { version = suite_version; routes = routes; mode = final_full }))
unfolding suite_for check_mode make_suite
full_suite graph [] e v u n = cc
full_suite graph (r ∷ rs) e v u n = rw (e, v, u, subset_refl (graph_goal_ids graph)) (ground arith)

nonempty :
    (routes : List NavigationRoute)
    → contains (route_paths routes) "/" ≡ true
    → is_empty routes ≡ false
nonempty [] h = cc
nonempty (r ∷ rs) h = refl

-- On a valid graph of the current schema the final gate never raises, and its suite is all routes.
pub final_gate_total :
    (casefold : String → String) (graph : GoalGraph)
    → validate_goal_graph casefold graph ≡ ok tt
    → graph.schema_version ≡ schema_version
    → derive_navigation_verification_suite graph (graph_goal_ids graph) final_full
      ≡ ok (some (record { version = suite_version; routes = graph.routes; mode = final_full }))
unfolding derive_navigation_verification_suite
final_gate_total casefold graph valid e =
    let p = validate_goal_graph-Parts casefold graph valid in
    let (manifest, version) = current_parts casefold graph e p in
    let routed =
      validate_route_manifest-IsRouted casefold (drafts graph.goals) graph.routes manifest in
    rw
      (
        e,
        some_route (drafts graph.goals) graph.routes routed.root_declared routed.owners_visible,
        subset_refl (graph_goal_ids graph),
        All-owned (drafts graph.goals) graph.routes routed.owners_visible,
      )
      (full_suite graph graph.routes refl version
        (Distinct→unique (route_paths graph.routes) routed.paths_distinct)
        (nonempty graph.routes routed.root_declared))
