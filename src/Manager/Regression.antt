-- ===== src/Manager/Regression.antt =====
-- The regression suite of direct_pi/goal_manager.py: which goals a claimed candidate is verified
-- against.
pub mod Complete
use fomo_demo.Prelude.{
  ℕ, String, Bool, true, false, not, ◌&&◌, ◌||◌, Option, none, some, List, [], ◌∷◌, map, ◌==◌,
  Result, ok, err, guard, ◌>>=◌, ◌>>◌, unique, keep, if◌then◌else◌,
}
use fomo_demo.Contracts.{same_texts}
use fomo_demo.Graph.{Goal, GoalGraph, GoalStatus}
use fomo_demo.Graph.Keys.{ScopedAcceptanceContract, scope_acceptance_contract}
use fomo_demo.Graph.Navigation.{
  SuiteMode, NavigationVerificationSuite, derive_navigation_verification_suite,
}
use fomo_demo.Manager.{
  ManagerError, lift, is_verified, assert_single_current_goal, require_active_graph, expect,
  is_last, no_claimed_goal, invalid_full_reason, suite_end, suite_contracts, suite_ids,
  focused_scope, focused_reason, full_reason,
}

pub data RuntimeValidationMode : Type 0 where
  focused full : RuntimeValidationMode

pub data RuntimeValidationReason : Type 0 where
  p0_release goal_focused final_goal project_config_changed : RuntimeValidationReason
  prior_goal_file_changed legacy_checkpoint_unknown_paths : RuntimeValidationReason
  verified_graph_recovery : RuntimeValidationReason

pub record RegressionSuite : Type 0 where
  pub claimed_goal_id : String
  pub goal_ids : List String
  pub contracts : List ScopedAcceptanceContract
  pub mode : RuntimeValidationMode
  pub reason : RuntimeValidationReason
  pub navigation_suite : Option NavigationVerificationSuite

-- `goal_ids and goal_ids[-1] == claimed`
pub ends_with_goal : String → List String → Bool
ends_with_goal claimed [] = false
ends_with_goal claimed (x ∷ []) = x == claimed
ends_with_goal claimed (x ∷ y ∷ ys) = ends_with_goal claimed (y ∷ ys)

abbrev is_goal_focused : RuntimeValidationReason → Bool
is_goal_focused RuntimeValidationReason.goal_focused = true
is_goal_focused _ = false

-- the checks on the mode
pub check_reason :
    RuntimeValidationMode
    → String
    → List String
    → RuntimeValidationReason
    → Result ManagerError (Unit {0})
check_reason RuntimeValidationMode.focused claimed goal_ids reason = do
  guard (same_texts goal_ids (claimed ∷ [])) focused_scope
  guard (is_goal_focused reason) focused_reason
check_reason RuntimeValidationMode.full claimed goal_ids reason =
    guard (not (is_goal_focused reason)) full_reason

-- `__post_init__`
pub make_regression_suite : RegressionSuite → Result ManagerError RegressionSuite
unfolding ends_with_goal check_reason
make_regression_suite s = do
  guard (ends_with_goal s.claimed_goal_id s.goal_ids) suite_end
  guard (same_texts s.goal_ids (map (λ (c : ScopedAcceptanceContract). c.goal_id) s.contracts))
      suite_contracts
  guard (unique s.goal_ids) suite_ids
  check_reason s.mode s.claimed_goal_id s.goal_ids s.reason
  ok s

abbrev is_early_reason : RuntimeValidationReason → Bool
is_early_reason RuntimeValidationReason.project_config_changed = true
is_early_reason RuntimeValidationReason.prior_goal_file_changed = true
is_early_reason RuntimeValidationReason.legacy_checkpoint_unknown_paths = true
is_early_reason _ = false

-- mode and reason, from whether the claimed goal is the last one
pub choose_breadth :
    Bool
    → Option RuntimeValidationReason
    → Result ManagerError (RuntimeValidationMode × RuntimeValidationReason)
choose_breadth true reason = ok (RuntimeValidationMode.full, RuntimeValidationReason.final_goal)
choose_breadth false none = ok (RuntimeValidationMode.focused, RuntimeValidationReason.goal_focused)
choose_breadth false (some reason) = do
  guard (is_early_reason reason) invalid_full_reason
  ok (RuntimeValidationMode.full, reason)

-- `selected`
abbrev pub select_goals : RuntimeValidationMode → Goal → List Goal → List Goal
select_goals RuntimeValidationMode.focused current goals = current ∷ []
select_goals RuntimeValidationMode.full current goals =
    keep (λ (g : Goal). is_verified g.status || g.goal_id == current.goal_id) goals

abbrev pub navigation_breadth : Bool → RuntimeValidationMode → SuiteMode
navigation_breadth true mode = SuiteMode.final_full
navigation_breadth false RuntimeValidationMode.full = SuiteMode.ready_full
navigation_breadth false RuntimeValidationMode.focused = SuiteMode.focused

abbrev pub selected_ids : List Goal → List String
selected_ids = map (λ (g : Goal). g.goal_id)

module _ (strip : String → String) where
  pub scope_all : List Goal → Result ManagerError (List ScopedAcceptanceContract)
  scope_all [] = ok []
  scope_all (g ∷ gs) = do
    contract ← lift (scope_acceptance_contract strip g.draft)
    rest ← scope_all gs
    ok (contract ∷ rest)

  -- the part after mode and reason are chosen
  pub suite_of :
      GoalGraph
      → Goal
      → RuntimeValidationMode
      → RuntimeValidationReason
      → Result ManagerError RegressionSuite
  unfolding make_regression_suite scope_all
  suite_of graph current mode reason = do
    contracts ← scope_all (select_goals mode current graph.goals)
    navigation ← lift (
        derive_navigation_verification_suite graph
          (selected_ids (select_goals mode current graph.goals))
          (navigation_breadth (is_last graph.goals current) mode))
    make_regression_suite (record {
      claimed_goal_id = current.goal_id;
      goal_ids = selected_ids (select_goals mode current graph.goals);
      contracts = contracts;
      mode = mode;
      reason = reason;
      navigation_suite = navigation;
    })

  unfoldable pub build_regression_suite :
      GoalGraph → Option RuntimeValidationReason → Result ManagerError RegressionSuite
  unfolding choose_breadth suite_of expect
  build_regression_suite graph reason = do
    require_active_graph graph
    current ← assert_single_current_goal graph
    goal ← expect GoalStatus.claimed no_claimed_goal current
    breadth ← choose_breadth (is_last graph.goals goal) reason
    suite_of graph goal breadth.0 breadth.1
