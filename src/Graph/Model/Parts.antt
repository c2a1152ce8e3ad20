-- ===== src/Graph/Model/Parts.antt =====
-- `GoalGraph.fixed_server_contract`, taken apart.
use fomo_demo.Prelude.{
  ℕ, String, true, ◌≡◌, refl, ok, err, Option, none, some, Result, >>=-eq-ok, guard-eq-ok, arith,
  >>-eq-ok, ◌||◌,
}
use fomo_demo.Graph.{
  GoalGraph, NavigationMode, single_surface, multi_route, schema_version, suite_version, drafts,
  legacy_goal_in_routed_graph, quality_bar_fixed, navigation_mode_fixed, suite_version_fixed,
  legacy_schema_version, Goal,
}
use fomo_demo.Graph.Topology.{validate_goal_topology}
use fomo_demo.Graph.Routes.{validate_route_manifest}
use fomo_demo.Graph.Navigation.{navigation_mode}
use fomo_demo.Graph.Model.{
  same_gates, quality_gates, routing_contract, check_suite_version, validate_goal_graph, same_mode,
  is_suite_version, eqb, not, any,
}

pub unit_ok : {E : Type 0} (m : Result E (Unit {0})) {u : Unit {0}} → m ≡ ok u → m ≡ ok tt
unit_ok (ok u) h = refl
unit_ok (err e) h = cc

pub same_mode_refl : (m : NavigationMode) → same_mode m m ≡ true
unfolding same_mode
same_mode_refl single_surface = refl
same_mode_refl multi_route = refl

same_mode→eq : (m n : NavigationMode) → same_mode m n ≡ true → m ≡ n
unfolding same_mode
same_mode→eq single_surface single_surface h = refl
same_mode→eq multi_route multi_route h = refl
same_mode→eq single_surface multi_route h = cc
same_mode→eq multi_route single_surface h = cc

suite_version_is : (v : Option ℕ) → is_suite_version v ≡ true → v ≡ some suite_version
unfolding is_suite_version
suite_version_is none h = cc
suite_version_is (some v) h = ground arith

module _ (casefold : String → String) (graph : GoalGraph) where
  pub record Parts : Type 0 where
    pub topology : validate_goal_topology (drafts graph.goals) ≡ ok tt
    pub routing :
        routing_contract casefold graph.schema_version graph.routes (drafts graph.goals) ≡ ok tt
    pub suite : check_suite_version graph.schema_version graph.navigation_suite_version ≡ ok tt
    pub mode : graph.navigation_mode ≡ navigation_mode graph.schema_version graph.routes

  pub validate_goal_graph-Parts : validate_goal_graph casefold graph ≡ ok tt → Parts
  unfolding validate_goal_graph
  validate_goal_graph-Parts h =
      let (_, h1) =
        >>-eq-ok
          (eqb graph.schema_version legacy_schema_version
            || not (any (λ (g : Goal). g.legacy) graph.goals))
          legacy_goal_in_routed_graph _ h in
      let (u2, top, h2) = >>=-eq-ok (validate_goal_topology (drafts graph.goals)) _ h1 in
      let (u3, rt, h3) =
        >>=-eq-ok (routing_contract casefold graph.schema_version graph.routes (drafts graph.goals))
          _ h2 in
      let (u4, su, h4) =
        >>=-eq-ok (check_suite_version graph.schema_version graph.navigation_suite_version) _ h3 in
      let (_, h5) =
        >>-eq-ok (same_gates graph.quality_bar.gates quality_gates) quality_bar_fixed _ h4 in
      record {
        topology = unit_ok _ top;
        routing = unit_ok _ rt;
        suite = unit_ok _ su;
        mode =
            same_mode→eq _ (navigation_mode graph.schema_version graph.routes)
              (guard-eq-ok _ navigation_mode_fixed h5);
      }

  -- In the current schema the routing contract is the manifest check, and the suite is versioned.
  pub current_parts :
      graph.schema_version ≡ schema_version
      → Parts
      → (validate_route_manifest casefold schema_version graph.routes (drafts graph.goals) ≡ ok tt)
        × (graph.navigation_suite_version ≡ some suite_version)
  unfolding routing_contract check_suite_version
  current_parts e p =
      (rw e at p.routing, suite_version_is _ (guard-eq-ok _ suite_version_fixed (rw e at p.suite)))
