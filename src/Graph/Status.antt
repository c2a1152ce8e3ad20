-- ===== src/Graph/Status.antt =====
-- The status transitions of direct_pi/goalgraph.py.
pub mod History
use fomo_demo.Prelude.{Bool, true, false, ◌||◌, List, [], ◌∷◌, any, Result, ok, err, if◌then◌else◌}
use fomo_demo.Graph.{
  GraphStatus, GoalStatus, GraphError, illegal_goal_transition, illegal_graph_transition,
}

abbrev pub same_goal_status : GoalStatus → GoalStatus → Bool
same_goal_status GoalStatus.pending GoalStatus.pending = true
same_goal_status GoalStatus.active GoalStatus.active = true
same_goal_status GoalStatus.claimed GoalStatus.claimed = true
same_goal_status GoalStatus.verified GoalStatus.verified = true
same_goal_status GoalStatus.failed GoalStatus.failed = true
same_goal_status GoalStatus.superseded GoalStatus.superseded = true
same_goal_status _ _ = false

abbrev pub same_graph_status : GraphStatus → GraphStatus → Bool
same_graph_status GraphStatus.active GraphStatus.active = true
same_graph_status GraphStatus.verified GraphStatus.verified = true
same_graph_status GraphStatus.failed GraphStatus.failed = true
same_graph_status GraphStatus.cancelled GraphStatus.cancelled = true
same_graph_status GraphStatus.superseded GraphStatus.superseded = true
same_graph_status _ _ = false

goal_status_transitions : GoalStatus → List GoalStatus
goal_status_transitions GoalStatus.pending = GoalStatus.active ∷ GoalStatus.superseded ∷ []
goal_status_transitions GoalStatus.active =
    GoalStatus.claimed ∷ GoalStatus.failed ∷ GoalStatus.superseded ∷ []
goal_status_transitions GoalStatus.claimed =
    GoalStatus.active ∷ GoalStatus.verified ∷ GoalStatus.failed ∷ GoalStatus.superseded ∷ []
goal_status_transitions GoalStatus.verified = []
goal_status_transitions GoalStatus.failed = []
goal_status_transitions GoalStatus.superseded = []

graph_status_transitions : GraphStatus → List GraphStatus
graph_status_transitions GraphStatus.active =
    GraphStatus.verified ∷ GraphStatus.failed ∷ GraphStatus.cancelled ∷ GraphStatus.superseded ∷ []
graph_status_transitions GraphStatus.verified = []
graph_status_transitions GraphStatus.failed = []
graph_status_transitions GraphStatus.cancelled = []
graph_status_transitions GraphStatus.superseded = []

can_transition_goal_status : GoalStatus → GoalStatus → Bool
unfolding goal_status_transitions
can_transition_goal_status current target =
    any (same_goal_status target) (goal_status_transitions current)

can_transition_graph_status : GraphStatus → GraphStatus → Bool
unfolding graph_status_transitions
can_transition_graph_status current target =
    any (same_graph_status target) (graph_status_transitions current)

unfoldable pub transition_goal_status : GoalStatus → GoalStatus → Result GraphError GoalStatus
unfolding can_transition_goal_status
transition_goal_status current target =
    if can_transition_goal_status current target
    then ok target
    else err (illegal_goal_transition current target)

unfoldable pub transition_graph_status : GraphStatus → GraphStatus → Result GraphError GraphStatus
unfolding can_transition_graph_status
transition_graph_status current target =
    if can_transition_graph_status current target
    then ok target
    else err (illegal_graph_transition current target)
