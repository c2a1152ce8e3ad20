-- ===== src/Graph/Topology.antt =====
-- The dependency checks of direct_pi/goalgraph.py: `GoalDraft.unique_dependencies` and
-- `_validate_goal_topology`.
pub mod Order
use fomo_demo.Prelude.{
  String, Bool, true, false, not, List, [], ◌∷◌, Result, ok, err, guard, ◌>>◌, contains, unique,
  keep, is_empty, if◌then◌else◌,
}
use fomo_demo.Graph.{
  GoalDraft, GraphError, duplicate_dependencies, self_dependency, duplicate_goal_ids,
  dependencies_not_earlier, goal_ids,
}

unfoldable pub unique_dependencies : GoalDraft → Result GraphError (Unit {0})
unique_dependencies g = do
  guard (unique g.depends_on) (duplicate_dependencies g.goal_id)
  guard (not (contains g.depends_on g.goal_id)) (self_dependency g.goal_id)

-- the dependencies that no earlier goal has for its id
abbrev pub unavailable : List String → GoalDraft → List String
unavailable seen g = keep (λ d. not (contains seen d)) g.depends_on

-- the loop, with `seen` as it stands before the goal
pub topology_from : List String → List GoalDraft → Result GraphError (Unit {0})
topology_from seen [] = ok tt
topology_from seen (g ∷ gs) =
    if is_empty (unavailable seen g)
    then topology_from (g.goal_id ∷ seen) gs
    else err (dependencies_not_earlier g.goal_id (unavailable seen g))

unfoldable pub validate_goal_topology : List GoalDraft → Result GraphError (Unit {0})
unfolding topology_from
validate_goal_topology goals = do
  guard (unique (goal_ids goals)) duplicate_goal_ids
  topology_from [] goals
