-- ===== src/Manager.antt =====
-- direct_pi/goal_manager.py: the decisions on a frozen goal graph. Every operation returns a new
-- graph that has passed the validators of `GoalGraph` again.
pub mod Goals
pub mod Invariant
pub mod Operations
pub mod Run
pub mod Progress
pub mod Regression
pub mod Escalation
pub mod Plan
use fomo_demo.Prelude.{
  ℕ, String, Bool, true, false, not, ◌&&◌, ◌||◌, Option, none, some, List, [], ◌∷◌, map, ◌==◌,
  Result, ok, err, guard, ◌>>=◌, ◌>>◌, contains, subset, unique, keep, first, all, is_empty,
  if◌then◌else◌, length,
}
use fomo_demo.Graph.{Goal, GoalGraph, GoalStatus, GraphStatus, GraphError}
use fomo_demo.Graph.Status.{
  same_goal_status, same_graph_status, transition_goal_status, transition_graph_status,
}
use fomo_demo.Graph.Model.{validate_goal_graph}

pub data ManagerError : Type 0 where
  graph_error : GraphError → ManagerError
  many_current_goals : List String → ManagerError
  unverified_dependencies : String → ManagerError
  graph_not_active : GraphStatus → ManagerError
  unknown_goal : String → ManagerError
  pending_blocked : List String → ManagerError
  no_executable_goal no_active_goal no_claimed_goal : ManagerError
  invalid_full_reason : ManagerError
  suite_end suite_contracts suite_ids focused_scope focused_reason full_reason : ManagerError
  must_be_retried duplicate_evidence evidence_not_exact : ManagerError
  evidence_incomplete : String → ManagerError
  invalid_revision unsupported_schema plan_navigation plan_suite_version : ManagerError
  plan_without_active_goal invalid_evidence : ManagerError

-- An exception of the graph module passes through.
abbrev pub lift : {A : Type 0} → Result GraphError A → Result ManagerError A
lift (ok a) = ok a
lift (err e) = err (graph_error e)

abbrev pub is_current : GoalStatus → Bool
is_current GoalStatus.active = true
is_current GoalStatus.claimed = true
is_current _ = false

abbrev pub is_verified : GoalStatus → Bool
is_verified GoalStatus.verified = true
is_verified _ = false

abbrev pub is_pending : GoalStatus → Bool
is_pending GoalStatus.pending = true
is_pending _ = false

abbrev pub current_goals : List Goal → List Goal
current_goals = keep (λ (g : Goal). is_current g.status)

abbrev pub verified_ids : List Goal → List String
verified_ids goals = map (λ (g : Goal). g.goal_id) (keep (λ (g : Goal). is_verified g.status) goals)

-- the goal of a list of current goals
pub sole : List Goal → Result ManagerError (Option Goal)
sole [] = ok none
sole (g ∷ []) = ok (some g)
sole (g ∷ h ∷ gs) = err (many_current_goals (map (λ (x : Goal). x.goal_id) (g ∷ h ∷ gs)))

unfoldable pub assert_single_current_goal : GoalGraph → Result ManagerError (Option Goal)
unfolding sole
assert_single_current_goal graph = sole (current_goals graph.goals)

unfoldable pub require_active_graph : GoalGraph → Result ManagerError (Unit {0})
require_active_graph graph =
    guard (same_graph_status graph.status GraphStatus.active) (graph_not_active graph.status)

only : String → List Goal → Result ManagerError Goal
only id (g ∷ []) = ok g
only id _ = err (unknown_goal id)

goal_by_id : GoalGraph → String → Result ManagerError Goal
unfolding only
goal_by_id graph id = only id (keep (λ (g : Goal). g.goal_id == id) graph.goals)

-- the loop over `payload["goals"]`, which stops at the first goal with the id
unfoldable pub set_status : String → GoalStatus → List Goal → List Goal
set_status id target [] = []
set_status id target (g ∷ gs) =
    if g.goal_id == id then record g { status = target } ∷ gs else g ∷ set_status id target gs

abbrev or_status : Option GraphStatus → GraphStatus → GraphStatus
or_status none s = s
or_status (some t) s = t

abbrev pub with_status : GoalGraph → String → GoalStatus → Option GraphStatus → GoalGraph
with_status graph id target graph_status = record graph {
  goals = set_status id target graph.goals;
  status = or_status graph_status graph.status;
}

pub is_runnable : List Goal → Goal → Bool
is_runnable goals g = is_pending g.status && subset g.depends_on (verified_ids goals)

-- the sole current goal, or the first pending goal whose dependencies are verified
pub choose : List Goal → Option Goal → Result ManagerError (Option Goal)
unfolding is_runnable
choose goals none = ok (first (is_runnable goals) goals)
choose goals (some g) =
    if same_goal_status g.status GoalStatus.active && not (subset g.depends_on (verified_ids goals))
    then err (unverified_dependencies g.goal_id)
    else ok (some g)

pub select_executable_goal : GoalGraph → Result ManagerError (Option Goal)
unfolding choose assert_single_current_goal
select_executable_goal graph =
    if not (same_graph_status graph.status GraphStatus.active)
    then ok none
    else (do current ← assert_single_current_goal graph; choose graph.goals current)

abbrev pending_ids : List Goal → List String
pending_ids goals = map (λ (g : Goal). g.goal_id) (keep (λ (g : Goal). is_pending g.status) goals)

-- the exception of `activate_next_goal` where nothing was selected
pub blocked : List String → ManagerError
blocked [] = no_executable_goal
blocked (p ∷ ps) = pending_blocked (p ∷ ps)

-- the current goal, if it has the status
pub expect : GoalStatus → ManagerError → Option Goal → Result ManagerError Goal
expect wanted e none = err e
expect wanted e (some g) = if same_goal_status g.status wanted then ok g else err e

abbrev pub is_last : List Goal → Goal → Bool
is_last goals current =
    all (λ (g : Goal). g.goal_id == current.goal_id || is_verified g.status) goals

-- `graph_status` of `verify_claimed_goal`
pub last_status : GoalGraph → Goal → Result ManagerError (Option GraphStatus)
unfolding transition_graph_status
last_status graph current =
    if is_last graph.goals current
    then (do s ← lift (transition_graph_status graph.status GraphStatus.verified); ok (some s))
    else ok none

module _ (casefold : String → String) where
  pub replace_goal_status :
      GoalGraph → String → GoalStatus → Option GraphStatus → Result ManagerError GoalGraph
  unfolding goal_by_id
  replace_goal_status graph id target graph_status = do
    goal ← goal_by_id graph id
    moved ← lift (transition_goal_status goal.status target)
    lift (validate_goal_graph casefold (with_status graph id target graph_status))
    current ← assert_single_current_goal (with_status graph id target graph_status)
    ok (with_status graph id target graph_status)

  pub activate_selected : GoalGraph → Option Goal → Result ManagerError GoalGraph
  unfolding blocked replace_goal_status
  activate_selected graph none = err (blocked (pending_ids graph.goals))
  activate_selected graph (some g) =
      if is_current g.status
      then ok graph
      else replace_goal_status graph g.goal_id GoalStatus.active none

  unfoldable pub activate_next_goal : GoalGraph → Result ManagerError GoalGraph
  unfolding activate_selected select_executable_goal
  activate_next_goal graph = do
    selected ← select_executable_goal graph
    activate_selected graph selected

  unfoldable pub claim_active_goal : GoalGraph → Result ManagerError GoalGraph
  unfolding expect replace_goal_status require_active_graph assert_single_current_goal
  claim_active_goal graph = do
    require_active_graph graph
    current ← assert_single_current_goal graph
    goal ← expect GoalStatus.active no_active_goal current
    replace_goal_status graph goal.goal_id GoalStatus.claimed none

  unfoldable pub retry_claimed_goal : GoalGraph → Result ManagerError GoalGraph
  unfolding expect replace_goal_status require_active_graph assert_single_current_goal
  retry_claimed_goal graph = do
    require_active_graph graph
    current ← assert_single_current_goal graph
    goal ← expect GoalStatus.claimed no_claimed_goal current
    replace_goal_status graph goal.goal_id GoalStatus.active none

  unfoldable pub verify_claimed_goal : GoalGraph → Result ManagerError GoalGraph
  unfolding expect last_status replace_goal_status require_active_graph assert_single_current_goal
  verify_claimed_goal graph = do
    require_active_graph graph
    current ← assert_single_current_goal graph
    goal ← expect GoalStatus.claimed no_claimed_goal current
    graph_status ← last_status graph goal
    replace_goal_status graph goal.goal_id GoalStatus.verified graph_status
