-- ===== src/Graph.antt =====
-- The data of direct_pi/goalgraph.py: goals, routes, statuses and the graph projection.
pub mod Status
pub mod Topology
pub mod Dependencies
pub mod Routes
pub mod Evidence
pub mod Navigation
pub mod Model
pub mod Keys
use fomo_demo.Prelude.{ℕ, String, Bool, true, false, ◌&&◌, Option, List, [], ◌∷◌, map}
use fomo_demo.Contracts.{AcceptanceContract}

pub data GraphStatus : Type 0 where
  active verified failed cancelled superseded : GraphStatus

pub data GoalStatus : Type 0 where
  pending active claimed verified failed superseded : GoalStatus

pub data NavigationMode : Type 0 where
  single_surface multi_route : NavigationMode

pub record NavigationRoute : Type 0 where
  pub path : String
  pub title : String
  pub owning_goal_id : String
  pub deep_linkable : Bool

pub record GoalDraft : Type 0 where
  pub goal_id : String
  pub title : String
  pub product_outcome : String
  pub user_visible : Bool
  pub depends_on : List String
  pub acceptance : AcceptanceContract

-- `Goal`, and `LegacyGoal` where the flag is set.
pub record Goal : Type 0 where
  pub draft : GoalDraft
  pub open draft use *
  pub status : GoalStatus
  pub legacy : Bool

pub data QualityGate : Type 0 where
  deps typecheck build harness_smoke per_goal_acceptance preview_health : QualityGate

-- The other two fields of the source's record have one value each.
pub record QualityBar : Type 0 where
  pub gates : List QualityGate

pub record GoalGraph : Type 0 where
  pub schema_version : ℕ
  pub product_outcome : String
  pub routes : List NavigationRoute
  pub quality_bar : QualityBar
  pub navigation_mode : NavigationMode
  pub navigation_suite_version : Option ℕ
  pub goals : List Goal
  pub status : GraphStatus

abbrev pub legacy_schema_version : ℕ
legacy_schema_version = 1

abbrev pub legacy_route_schema_version : ℕ
legacy_route_schema_version = 2

abbrev pub schema_version : ℕ
schema_version = 3

abbrev pub suite_version : ℕ
suite_version = 1

-- One line of the list that `_validate_route_manifest` and the v2 check raise together.
pub data Violation : Type 0 where
  missing_root duplicate_paths duplicate_titles : Violation
  unknown_owners : List String → Violation
  owner_not_visible owner_not_below_root : String → String → Violation
  undeclared_route future_route : String → String → String → Violation
  no_direct_test no_link_test : String → String → Violation

-- The exceptions of the module: its `ValueError`s, `InvalidStatusTransition` and `KeyError`.
pub data GraphError : Type 0 where
  duplicate_dependencies self_dependency : String → GraphError
  duplicate_goal_ids : GraphError
  dependencies_not_earlier : String → List String → GraphError
  legacy_declares_routes no_routes : GraphError
  route_violations : List Violation → GraphError
  legacy_goal_in_routed_graph suite_version_fixed historical_suite_version : GraphError
  quality_bar_fixed navigation_mode_fixed : GraphError
  unsafe_goto unsafe_url : GraphError
  scope_invalid final_gate_incomplete ready_suite_without_root : GraphError
  unsafe_identifier unsupported_suite suite_without_routes duplicate_suite_routes : GraphError
  duplicate_test_ids : GraphError
  illegal_goal_transition : GoalStatus → GoalStatus → GraphError
  illegal_graph_transition : GraphStatus → GraphStatus → GraphError
  key_error : String → GraphError

abbrev pub goal_ids : List GoalDraft → List String
goal_ids = map (λ (g : GoalDraft). g.goal_id)

abbrev pub drafts : List Goal → List GoalDraft
drafts = map (λ (g : Goal). g.draft)
