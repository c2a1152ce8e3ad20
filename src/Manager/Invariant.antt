-- ===== src/Manager/Invariant.antt =====
-- The invariant of a managed graph, and the one operation by which the manager changes it.
use fomo_demo.Prelude.{
  ◌+◌, ◌≤◌, String, Bool, true, false, ◌≡◌, refl, ◌∙◌, Option, none, some, List, [], ◌∷◌, ok,
  Distinct, length, subset, All, arith, All-map, In,
}
use fomo_demo.Graph.{Goal, GoalGraph, GoalStatus, GraphStatus, drafts}
use fomo_demo.Graph.Status.{transition_goal_status}
use fomo_demo.Graph.Topology.Order.{validate_goal_topology_iff}
use fomo_demo.Graph.Model.{validate_goal_graph}
use fomo_demo.Graph.Model.Parts.{validate_goal_graph-Parts}
use fomo_demo.Manager.{
  is_verified, current_goals, verified_ids, sole, assert_single_current_goal, with_status,
  replace_goal_status,
}
use fomo_demo.Manager.Goals.{
  ids, keep_by_id, current-set_status, verified-set_status, All-set_status, subset_mono,
  drafts-set_status, legacy-set_status, weight,
}

abbrev pub is_started : GoalStatus → Bool
is_started GoalStatus.active = true
is_started GoalStatus.claimed = true
is_started GoalStatus.verified = true
is_started _ = false

-- A goal that was started has its dependencies among the texts.
abbrev pub IsReady : List String → Goal → Type 0
IsReady verified g = is_started g.status ≡ true → subset g.depends_on verified ≡ true

-- The validators accept the graph, at most one goal is current, and a goal that was started has
-- verified dependencies.
pub record IsManaged (casefold : String → String) (graph : GoalGraph) : Type 0 where
  pub valid : validate_goal_graph casefold graph ≡ ok tt
  pub single : length (current_goals graph.goals) ≤ 1
  pub ready : All (IsReady (verified_ids graph.goals)) graph.goals

pub Distinct-ids :
    (casefold : String → String) (graph : GoalGraph)
    → validate_goal_graph casefold graph ≡ ok tt
    → Distinct (ids graph.goals)
Distinct-ids casefold graph v =
    let parts = validate_goal_graph-Parts casefold graph v in
    ((validate_goal_topology_iff (drafts graph.goals)).0 parts.topology).0

-- The validators do not read statuses.
validate-with_status :
    (casefold : String → String) (graph : GoalGraph) (id : String) (t : GoalStatus)
    (s : Option GraphStatus)
    → validate_goal_graph casefold (with_status graph id t s) ≡ validate_goal_graph casefold graph
unfolding validate_goal_graph
validate-with_status casefold graph id t s =
    rw (drafts-set_status id t graph.goals, legacy-set_status id t graph.goals)

sole_ok : (gs : List Goal) → length gs ≤ 1 → (o : Option Goal) × (sole gs ≡ ok o)
unfolding sole
sole_ok [] h = (none, refl)
sole_ok (g ∷ []) h = (some g, refl)
sole_ok (g ∷ k ∷ gs) h = absurd (omega arith)

module _ (casefold : String → String) (graph : GoalGraph) (managed : IsManaged casefold graph)
    (g : Goal) (member : In g graph.goals) (t : GoalStatus) (s : Option GraphStatus)
    (moves : transition_goal_status g.status t ≡ ok t) (unverified : is_verified g.status ≡ false)
    (room : length (current_goals graph.goals) + weight t ≤ 1 + weight g.status)
    (deps : is_started t ≡ true → subset g.depends_on (verified_ids graph.goals) ≡ true) where
  abbrev next : GoalGraph
  next = with_status graph g.goal_id t s

  still-IsReady :
      (x : Goal) → IsReady (verified_ids graph.goals) x → IsReady (verified_ids next.goals) x
  still-IsReady x r started =
      subset_mono x.depends_on (verified_ids graph.goals) (verified_ids next.goals)
        (λ y.
          verified-set_status g t graph.goals y (Distinct-ids casefold graph managed.valid) member
            unverified)
        (r started)

  next-IsManaged : IsManaged casefold next
  next-IsManaged =
      let distinct = Distinct-ids casefold graph managed.valid in
      record {
        valid = validate-with_status casefold graph g.goal_id t s ∙ managed.valid;
        single = omega (arith, current-set_status g t graph.goals distinct member);
        ready =
            All-set_status (IsReady (verified_ids next.goals)) g t graph.goals distinct member
              (still-IsReady (record g { status = t }) deps)
              (All-map graph.goals still-IsReady managed.ready);
      }

  -- Such a change raises nothing and keeps the invariant.
  pub replace_goal_status_total :
      (replace_goal_status casefold graph g.goal_id t s ≡ ok next) × IsManaged casefold next
  unfolding replace_goal_status assert_single_current_goal
  replace_goal_status_total =
      let (o, sole_next) = sole_ok (current_goals next.goals) next-IsManaged.single in
      (
        rw (
          keep_by_id g graph.goals (Distinct-ids casefold graph managed.valid) member,
          moves,
          next-IsManaged.valid,
          sole_next,
        ),
        next-IsManaged,
      )
