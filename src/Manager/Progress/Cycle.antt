-- ===== src/Manager/Progress/Cycle.antt =====
-- One goal after the other: activation, claim and verification always succeed in this order.
use fomo_demo.Prelude.{
  ◌≤◌, String, Bool, true, false, ◌≡◌, refl, sym, Option, none, some, List, [], ◌∷◌, ◌++◌, ok,
  length, arith, subset, Distinct, is_empty, if◌then◌else◌, In,
}
use fomo_demo.Graph.{GoalDraft, GoalGraph, GoalStatus, GraphStatus, drafts, goal_ids}
use fomo_demo.Graph.Status.{transition_goal_status, transition_graph_status, same_graph_status}
use fomo_demo.Graph.Topology.Order.{IsOrdered, validate_goal_topology_iff}
use fomo_demo.Graph.Model.Parts.{validate_goal_graph-Parts}
use fomo_demo.Manager.{
  is_current, is_verified, current_goals, verified_ids, with_status, replace_goal_status,
  activate_next_goal, claim_active_goal, verify_claimed_goal, select_executable_goal,
  assert_single_current_goal, sole, choose, activate_selected, require_active_graph, expect,
  last_status, is_last,
}
use fomo_demo.Manager.Goals.{weight}
use fomo_demo.Manager.Invariant.{IsManaged, replace_goal_status_total, Distinct-ids}
use fomo_demo.Manager.Progress.{
  mk, mid, mid-In, current-mid, drafts-mid, set-mid, last-mid, first-mid, deps_verified,
}

is_active :
    (graph : GoalGraph)
    → graph.status ≡ GraphStatus.active
    → same_graph_status graph.status GraphStatus.active ≡ true
is_active graph h = rw h refl

weight_small : (s : GoalStatus) → weight s ≤ 1
weight_small GoalStatus.pending = omega arith
weight_small _ = omega arith

module _ (casefold : String → String) (b : Bool) where
  -- The graph is managed and active; the goals before `g` are verified, those after it pending.
  pub record IsAt (graph : GoalGraph) (pre : List GoalDraft) (s : GoalStatus) (g : GoalDraft)
      (post : List GoalDraft) : Type 0 where
    pub managed : IsManaged casefold graph
    pub running : graph.status ≡ GraphStatus.active
    pub goals : graph.goals ≡ mid b pre s g post

  module _ (graph : GoalGraph) (pre : List GoalDraft) (s : GoalStatus) (g : GoalDraft)
      (post : List GoalDraft) (now : IsAt graph pre s g post) where
    distinct : Distinct (goal_ids (pre ++ g ∷ post))
    distinct =
        rw (now.goals, drafts-mid b pre s g post) at (Distinct-ids casefold graph now.managed.valid)

    ordered : IsOrdered [] (pre ++ g ∷ post)
    ordered =
        let parts = validate_goal_graph-Parts casefold graph now.managed.valid in
        rw (now.goals, drafts-mid b pre s g post) at
          ((validate_goal_topology_iff (drafts graph.goals)).0 parts.topology).1

    deps : subset g.depends_on (verified_ids graph.goals) ≡ true
    deps = rw now.goals (deps_verified b pre s g post ordered)

    current : current_goals graph.goals ≡ (if is_current s then mk b s g ∷ [] else [])
    current = rw now.goals (current-mid b pre s g post)

    weighs : length (current_goals graph.goals) ≡ weight s
    weighs = rw current (ground arith)

    -- the change of the status of `g`
    moved :
        (t : GoalStatus) (o : Option GraphStatus)
        → transition_goal_status s t ≡ ok t
        → is_verified s ≡ false
        → (replace_goal_status casefold graph g.goal_id t o ≡ ok (with_status graph g.goal_id t o))
          × IsManaged casefold (with_status graph g.goal_id t o)
          × ((with_status graph g.goal_id t o).goals ≡ mid b pre t g post)
    moved t o moves unverified =
        let member : In (mk b s g) graph.goals = rw now.goals (mid-In b pre s g post) in
        let (total, keeps) =
          replace_goal_status_total casefold graph now.managed (mk b s g) member t o moves
            unverified (omega (arith, weighs, weight_small t)) (λ _. deps) in
        (total, keeps, rw now.goals (set-mid b pre s t g post distinct))

  pub activate-IsAt :
      (graph : GoalGraph) (pre : List GoalDraft) (g : GoalDraft) (post : List GoalDraft)
      → IsAt graph pre GoalStatus.pending g post
      → (graph' : GoalGraph) × (activate_next_goal casefold graph ≡ ok graph')
        × IsAt graph' pre GoalStatus.active g post
  unfolding activate_next_goal select_executable_goal choose activate_selected
      assert_single_current_goal sole transition_goal_status
  activate-IsAt graph pre g post now =
      let (total, keeps, goals') =
        moved graph pre GoalStatus.pending g post now GoalStatus.active none refl refl in
      let runnable =
        rw (sym now.goals) at
          (first-mid b graph.goals pre g post (deps graph pre GoalStatus.pending g post now)) in
      (
        with_status graph g.goal_id GoalStatus.active none,
        rw (is_active graph now.running, current graph pre GoalStatus.pending g post now, runnable)
            total,
        record { managed = keeps; running = now.running; goals = goals' },
      )

  pub claim-IsAt :
      (graph : GoalGraph) (pre : List GoalDraft) (g : GoalDraft) (post : List GoalDraft)
      → IsAt graph pre GoalStatus.active g post
      → (graph' : GoalGraph) × (claim_active_goal casefold graph ≡ ok graph')
        × IsAt graph' pre GoalStatus.claimed g post
  unfolding claim_active_goal assert_single_current_goal sole expect require_active_graph
      transition_goal_status
  claim-IsAt graph pre g post now =
      let (total, keeps, goals') =
        moved graph pre GoalStatus.active g post now GoalStatus.claimed none refl refl in
      (
        with_status graph g.goal_id GoalStatus.claimed none,
        rw (is_active graph now.running, current graph pre GoalStatus.active g post now) total,
        record { managed = keeps; running = now.running; goals = goals' },
      )

  -- the status of the graph once the goal is verified
  abbrev status_after : List GoalDraft → GraphStatus
  status_after post = if is_empty post then GraphStatus.verified else GraphStatus.active

  pub verify-IsAt :
      (graph : GoalGraph) (pre : List GoalDraft) (g : GoalDraft) (post : List GoalDraft)
      → IsAt graph pre GoalStatus.claimed g post
      → (graph' : GoalGraph) × (verify_claimed_goal casefold graph ≡ ok graph')
        × IsManaged casefold graph'
        × (graph'.status ≡ status_after post)
        × (graph'.goals ≡ mid b pre GoalStatus.verified g post)
  unfolding verify_claimed_goal assert_single_current_goal sole expect require_active_graph
      last_status transition_goal_status transition_graph_status
  verify-IsAt graph pre g [] now =
      let (total, keeps, goals') =
        moved graph pre GoalStatus.claimed g [] now GoalStatus.verified (some GraphStatus.verified)
          refl refl in
      let last : is_last graph.goals (mk b GoalStatus.claimed g) ≡ true =
        rw now.goals (
          last-mid b pre GoalStatus.claimed g []
            (distinct graph pre GoalStatus.claimed g [] now)) in
      (
        with_status graph g.goal_id GoalStatus.verified (some GraphStatus.verified),
        rw (now.running, current graph pre GoalStatus.claimed g [] now, last) total,
        keeps,
        refl,
        goals',
      )
  verify-IsAt graph pre g (h ∷ post) now =
      let (total, keeps, goals') =
        moved graph pre GoalStatus.claimed g (h ∷ post) now GoalStatus.verified none refl refl in
      let more : is_last graph.goals (mk b GoalStatus.claimed g) ≡ false = rw now.goals (
        last-mid b pre GoalStatus.claimed g (h ∷ post)
          (distinct graph pre GoalStatus.claimed g (h ∷ post) now)) in
      (
        with_status graph g.goal_id GoalStatus.verified none,
        rw
            (
              is_active graph now.running,
              current graph pre GoalStatus.claimed g (h ∷ post) now,
              more,
            )
            total,
        keeps,
        now.running,
        goals',
      )
