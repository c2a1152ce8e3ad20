-- ===== src/Manager/Plan.antt =====
-- The evidence and the plan of direct_pi/goal_manager.py: `VerifiedGoalEvidence`,
-- `GoalExecutionPlan` and `plan_goal_execution`.
pub mod Covered
use Prim.Native.Char.{code}
use Prim.Native.String.{count}
use fomo_demo.Prelude.{
  ℕ, String, Bool, true, false, not, ◌&&◌, ◌||◌, Option, none, some, List, [], ◌∷◌, map, ◌==◌,
  Result, ok, err, guard, ◌>>=◌, ◌>>◌, unique, subset, all, is_empty, if◌then◌else◌, leb, ltb, eqb,
  length, gather,
}
use fomo_demo.Contracts.{AcceptanceItem, criterion_ids}
use fomo_demo.Contracts.Syntax.{is_alnum, is_word, all_chars}
use fomo_demo.Failures.Payload.{is_safe_identifier}
use fomo_demo.Graph.{
  Goal, GoalGraph, GoalStatus, NavigationRoute, NavigationMode, single_surface, multi_route,
  legacy_schema_version, legacy_route_schema_version, schema_version, suite_version,
}
use fomo_demo.Graph.Model.{same_mode}
use fomo_demo.Manager.{
  ManagerError, is_verified, verified_ids, assert_single_current_goal, expect, activate_next_goal,
  must_be_retried, duplicate_evidence, evidence_not_exact, evidence_incomplete, invalid_revision,
  unsupported_schema, plan_navigation, plan_suite_version, plan_without_active_goal,
  invalid_evidence,
}
use fomo_demo.Graph.Status.{same_goal_status}

pub record VerifiedGoalEvidence : Type 0 where
  pub goal_id : String
  pub passed_acceptance_ids : List String
  pub evidence_refs : List String

-- ^[A-Za-z0-9][A-Za-z0-9:_./-]{0,255}$
is_safe_reference : String → Bool
unfolding is_alnum is_word all_chars
is_safe_reference String.[] = false
is_safe_reference (String.◌∷◌ c s) =
    is_alnum (code c)
    && all_chars (λ d. is_word d || eqb d b':' || eqb d b'.' || eqb d b'/') s
    && leb (count s) 255

-- `__post_init__` of the evidence
unfoldable pub check_evidence : VerifiedGoalEvidence → Result ManagerError (Unit {0})
unfolding is_safe_reference
check_evidence e = do
  guard (is_safe_identifier e.goal_id) invalid_evidence
  guard (not (is_empty e.passed_acceptance_ids)) invalid_evidence
  guard (unique e.passed_acceptance_ids) invalid_evidence
  guard (all is_safe_identifier e.passed_acceptance_ids) invalid_evidence
  guard (unique e.evidence_refs) invalid_evidence
  guard (all is_safe_reference e.evidence_refs) invalid_evidence

pub record GoalExecutionPlan : Type 0 where
  pub graph_revision : ℕ
  pub graph_schema_version : ℕ
  pub navigation_mode : NavigationMode
  pub routes : List NavigationRoute
  pub navigation_suite_version : Option ℕ
  pub active_goal : Goal
  pub verified_evidence : List VerifiedGoalEvidence

abbrev pub expected_mode : ℕ → List NavigationRoute → NavigationMode
expected_mode version routes =
    if (eqb version legacy_route_schema_version || eqb version schema_version)
      && leb 2 (length routes)
    then multi_route
    else single_surface

-- `navigation_suite_version != expected_suite_version`, negated
abbrev pub expected_suite_version : ℕ → Option ℕ → Bool
expected_suite_version version none = not (eqb version schema_version)
expected_suite_version version (some v) = eqb version schema_version && eqb v suite_version

-- `__post_init__` of the plan
pub make_plan : GoalExecutionPlan → Result ManagerError GoalExecutionPlan
make_plan p = do
  guard (leb 1 p.graph_revision) invalid_revision
  guard
      (eqb p.graph_schema_version legacy_schema_version
        || eqb p.graph_schema_version legacy_route_schema_version
        || eqb p.graph_schema_version schema_version)
      unsupported_schema
  guard (same_mode p.navigation_mode (expected_mode p.graph_schema_version p.routes))
      plan_navigation
  guard (expected_suite_version p.graph_schema_version p.navigation_suite_version)
      plan_suite_version
  guard (same_goal_status p.active_goal.status GoalStatus.active) plan_without_active_goal
  ok p

abbrev pub evidence_ids : List VerifiedGoalEvidence → List String
evidence_ids = map (λ (e : VerifiedGoalEvidence). e.goal_id)

-- `==` of sets of texts
abbrev pub same_set : List String → List String → Bool
same_set xs ys = subset xs ys && subset ys xs

-- `summary_by_goal_id.get(id)`, for distinct ids
pub find_evidence : List VerifiedGoalEvidence → String → Option VerifiedGoalEvidence
find_evidence [] id = none
find_evidence (e ∷ es) id = if e.goal_id == id then some e else find_evidence es id

abbrev pub passed_all : Option VerifiedGoalEvidence → Goal → Bool
passed_all none g = false
passed_all (some e) g = same_set e.passed_acceptance_ids (criterion_ids g.acceptance)

-- the loop over the goals
pub check_goals : List VerifiedGoalEvidence → List Goal → Result ManagerError (Unit {0})
check_goals summaries [] = ok tt
check_goals summaries (g ∷ gs) = do
  guard (not (is_verified g.status) || passed_all (find_evidence summaries g.goal_id) g)
      (evidence_incomplete g.goal_id)
  check_goals summaries gs

abbrev to_list {ℓ} : {A : Type ℓ} → Option A → List A
to_list none = []
to_list (some a) = a ∷ []

-- `ordered`
abbrev pub order_evidence : List VerifiedGoalEvidence → List Goal → List VerifiedGoalEvidence
order_evidence summaries = gather (λ (g : Goal). to_list (find_evidence summaries g.goal_id))

-- the part after the activation
pub plan_active :
    GoalGraph → ℕ → List VerifiedGoalEvidence → Goal → Result ManagerError GoalExecutionPlan
unfolding make_plan check_goals find_evidence
plan_active activated revision summaries current = do
  guard (unique (evidence_ids summaries)) duplicate_evidence
  guard (same_set (evidence_ids summaries) (verified_ids activated.goals)) evidence_not_exact
  check_goals summaries activated.goals
  make_plan (record {
    graph_revision = revision;
    graph_schema_version = activated.schema_version;
    navigation_mode = activated.navigation_mode;
    routes = activated.routes;
    navigation_suite_version = activated.navigation_suite_version;
    active_goal = current;
    verified_evidence = order_evidence summaries activated.goals;
  })

module _ (casefold : String → String) where
  unfoldable pub plan_goal_execution :
      GoalGraph
      → ℕ
      → List VerifiedGoalEvidence
      → Result ManagerError (GoalGraph × GoalExecutionPlan)
  unfolding plan_active expect
  plan_goal_execution graph revision summaries = do
    activated ← activate_next_goal casefold graph
    current ← assert_single_current_goal activated
    goal ← expect GoalStatus.active must_be_retried current
    plan ← plan_active activated revision summaries goal
    ok (activated, plan)
