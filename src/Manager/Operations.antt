-- ===== src/Manager/Operations.antt =====
-- What each operation of the goal manager does to a managed graph.
use fomo_demo.Prelude.{
  String, true, false, not, ◌&&◌, ◌≡◌, ◌≢◌, refl, ap, sym, ◌∙◌, inl, inr, Option, none, some, List,
  [], ◌∷◌, ok, length, subset, arith, >>=-eq-ok, Bool-cases, Option-cases, ok_inj, and_left,
  and_right, first, ◌⊎◌, ◌≤◌, In, keep-In, first-In,
}
use fomo_demo.Graph.{Goal, GoalGraph, GoalStatus, GraphStatus}
use fomo_demo.Graph.Status.{same_goal_status, same_graph_status, transition_goal_status}
use fomo_demo.Manager.{
  ManagerError, is_current, is_pending, is_verified, current_goals, verified_ids, sole,
  assert_single_current_goal, require_active_graph, is_runnable, choose, select_executable_goal,
  expect, with_status, replace_goal_status, activate_selected, activate_next_goal,
  claim_active_goal, retry_claimed_goal, verify_claimed_goal, no_active_goal, no_claimed_goal,
  last_status,
}
use fomo_demo.Manager.Goals.{All-In, weight}
use fomo_demo.Manager.Invariant.{IsManaged, IsReady, is_started, replace_goal_status_total}

same_goal_status→eq : (s t : GoalStatus) → same_goal_status s t ≡ true → s ≡ t
same_goal_status→eq GoalStatus.pending t h = ground arith
same_goal_status→eq _ t h = ground arith

pending_eq : (s : GoalStatus) → is_pending s ≡ true → s ≡ GoalStatus.pending
pending_eq GoalStatus.pending h = refl
pending_eq _ h = cc

sole-none : (gs : List Goal) → sole gs ≡ ok none → gs ≡ []
unfolding sole
sole-none [] h = refl
sole-none (g ∷ []) h = cc
sole-none (g ∷ k ∷ gs) h = cc

sole-some : (gs : List Goal) (g : Goal) → sole gs ≡ ok (some g) → gs ≡ g ∷ []
unfolding sole
sole-some [] g h = cc
sole-some (k ∷ []) g h = cc
sole-some (k ∷ l ∷ gs) g h = cc

expect_ok :
    (w : GoalStatus) (e : ManagerError) (o : Option Goal) (g : Goal)
    → expect w e o ≡ ok g
    → (o ≡ some g) × (g.status ≡ w)
unfolding expect
expect_ok w e none g h = cc
expect_ok w e (some k) g h = elim (Bool-cases (same_goal_status k.status w)) [
  | inr n ↦ cc (rw n at h)
  | inl y ↦
      let same : k ≡ g = ok_inj (rw y at h) in
      (ap some same, rw same at (same_goal_status→eq k.status w y))
]

of_only : (g : Goal) (xs : List Goal) → xs ≡ g ∷ [] → In g xs
of_only g [] h = cc
of_only g (x ∷ xs) h = inl cc

weight_le : (s : GoalStatus) → weight s ≤ 1
weight_le GoalStatus.pending = omega arith
weight_le _ = omega arith

-- The goal of the graph whose status an operation sets, and the graph that it returns.
pub record Sets (casefold : String → String) (graph : GoalGraph) (from to : GoalStatus)
    (graph' : GoalGraph) : Type 0 where
  pub goal : Goal
  pub member : In goal graph.goals
  pub had : goal.status ≡ from
  pub graph_status : Option GraphStatus
  pub result : graph' ≡ with_status graph goal.goal_id to graph_status
  pub managed : IsManaged casefold graph'

module _ (casefold : String → String) (graph : GoalGraph) (managed : IsManaged casefold graph) where
  -- a change of the sole current goal
  sets :
      (g : Goal) (from to : GoalStatus) (s : Option GraphStatus) (graph' : GoalGraph)
      → current_goals graph.goals ≡ g ∷ []
      → g.status ≡ from
      → transition_goal_status from to ≡ ok to
      → is_verified from ≡ false
      → is_started from ≡ true
      → weight from ≡ 1
      → replace_goal_status casefold graph g.goal_id to s ≡ ok graph'
      → Sets casefold graph from to graph'
  sets g from to s graph' only had moves unverified started one h =
      let (member, _) =
        keep-In (λ (k : Goal). is_current k.status) g graph.goals
          (of_only g (current_goals graph.goals) only) in
      let weighs : weight g.status ≡ 1 = rw had one in
      let (total, keeps) =
        replace_goal_status_total casefold graph managed g member to s (rw had moves)
          (rw had unverified) (omega (arith, ap length only, weight_le to, weighs))
          (λ _.
            All-In (IsReady (verified_ids graph.goals)) g graph.goals member managed.ready
              (rw had started)) in
      let same = ok_inj (sym total ∙ h) in
      record {
        goal = g;
        member = member;
        had = had;
        graph_status = s;
        result = sym same;
        managed = rw same at keeps;
      }

  -- On a managed graph a claim that succeeds sets the sole current goal, which was active, to
  -- claimed, and keeps the invariant.
  pub claim_active_goal-Sets :
      (graph' : GoalGraph)
      → claim_active_goal casefold graph ≡ ok graph'
      → Sets casefold graph GoalStatus.active GoalStatus.claimed graph'
  unfolding claim_active_goal transition_goal_status
  claim_active_goal-Sets graph' h =
      let (u, is_active, h1) = >>=-eq-ok (require_active_graph graph) _ h in
      let (o, single, h2) = >>=-eq-ok (assert_single_current_goal graph) _ h1 in
      let (g, expected, h3) = >>=-eq-ok (expect GoalStatus.active no_active_goal o) _ h2 in
      let (is_g, had) = expect_ok GoalStatus.active no_active_goal o g expected in
      sets g GoalStatus.active GoalStatus.claimed none graph'
        (sole-some (current_goals graph.goals) g (rw is_g at single)) had refl refl refl refl h3

  -- On a managed graph a retry that succeeds sets the sole current goal, which was claimed, back to
  -- active, and keeps the invariant.
  pub retry_claimed_goal-Sets :
      (graph' : GoalGraph)
      → retry_claimed_goal casefold graph ≡ ok graph'
      → Sets casefold graph GoalStatus.claimed GoalStatus.active graph'
  unfolding retry_claimed_goal transition_goal_status
  retry_claimed_goal-Sets graph' h =
      let (u, is_active, h1) = >>=-eq-ok (require_active_graph graph) _ h in
      let (o, single, h2) = >>=-eq-ok (assert_single_current_goal graph) _ h1 in
      let (g, expected, h3) = >>=-eq-ok (expect GoalStatus.claimed no_claimed_goal o) _ h2 in
      let (is_g, had) = expect_ok GoalStatus.claimed no_claimed_goal o g expected in
      sets g GoalStatus.claimed GoalStatus.active none graph'
        (sole-some (current_goals graph.goals) g (rw is_g at single)) had refl refl refl refl h3

  -- On a managed graph a verification that succeeds sets the sole current goal, which was claimed,
  -- to verified, and keeps the invariant.
  pub verify_claimed_goal-Sets :
      (graph' : GoalGraph)
      → verify_claimed_goal casefold graph ≡ ok graph'
      → Sets casefold graph GoalStatus.claimed GoalStatus.verified graph'
  unfolding verify_claimed_goal transition_goal_status
  verify_claimed_goal-Sets graph' h =
      let (u, is_active, h1) = >>=-eq-ok (require_active_graph graph) _ h in
      let (o, single, h2) = >>=-eq-ok (assert_single_current_goal graph) _ h1 in
      let (g, expected, h3) = >>=-eq-ok (expect GoalStatus.claimed no_claimed_goal o) _ h2 in
      let (is_g, had) = expect_ok GoalStatus.claimed no_claimed_goal o g expected in
      let (s, decided, h4) = >>=-eq-ok (last_status graph g) _ h3 in
      sets g GoalStatus.claimed GoalStatus.verified s graph'
        (sole-some (current_goals graph.goals) g (rw is_g at single)) had refl refl refl refl h4

  -- the first runnable goal, set to active
  Sets-first :
      (g : Goal) (graph' : GoalGraph)
      → current_goals graph.goals ≡ []
      → first (is_runnable graph.goals) graph.goals ≡ some g
      → replace_goal_status casefold graph g.goal_id GoalStatus.active none ≡ ok graph'
      → Sets casefold graph GoalStatus.pending GoalStatus.active graph'
  unfolding transition_goal_status is_runnable
  Sets-first g graph' idle found h =
      let (member, runs) = first-In (is_runnable graph.goals) g graph.goals found in
      let had = pending_eq g.status (and_left (is_pending g.status) _ runs) in
      let deps =
        and_right (is_pending g.status) (subset g.depends_on (verified_ids graph.goals)) runs in
      let weighs : weight g.status ≡ 0 = rw had refl in
      let (total, keeps) =
        replace_goal_status_total casefold graph managed g member GoalStatus.active none
          (rw had refl) (rw had refl) (omega (arith, ap length idle, weighs)) (λ _. deps) in
      let same = ok_inj (sym total ∙ h) in
      record {
        goal = g;
        member = member;
        had = had;
        graph_status = none;
        result = sym same;
        managed = rw same at keeps;
      }

  chosen_is_current :
      (k g : Goal)
      → current_goals graph.goals ≡ k ∷ []
      → choose graph.goals (some k) ≡ ok (some g)
      → is_current g.status ≡ true
  unfolding choose
  chosen_is_current k g only h =
      let (_, cur) =
        keep-In (λ (x : Goal). is_current x.status) k graph.goals
          (of_only k (current_goals graph.goals) only) in
      let test =
        same_goal_status k.status GoalStatus.active
        && not (subset k.depends_on (verified_ids graph.goals)) in
      elim (Bool-cases test) [
        | inl e ↦ cc (rw e at h)
        | inr e ↦ let same : k ≡ g = cc (rw e at h) in rw same at cur
      ]

  Sets-selected :
      (o : Option Goal) (selected : Option Goal) (graph' : GoalGraph)
      → assert_single_current_goal graph ≡ ok o
      → choose graph.goals o ≡ ok selected
      → activate_selected casefold graph selected ≡ ok graph'
      → (graph' ≡ graph) ⊎ Sets casefold graph GoalStatus.pending GoalStatus.active graph'
  unfolding activate_selected assert_single_current_goal
  Sets-selected o none graph' single chose h = cc
  Sets-selected o (some g) graph' single chose h = elim (Bool-cases (is_current g.status)) [
    | inl cur ↦ inl (sym (ok_inj (rw cur at h)))
    | inr idle ↦ elim (Option-cases o) [
      | inl e ↦ inr (
          Sets-first g graph' (sole-none _ (rw e at single))
            (unfold choose in ok_inj (rw e at chose)) (rw idle at h))
      | inr (k, e) ↦ cc (
        idle,
        chosen_is_current k g (sole-some (current_goals graph.goals) k (rw e at single))
            (rw e at chose),
      )
    ]
  ]

  nothing_selected : (graph' : GoalGraph) → activate_selected casefold graph none ≢ ok graph'
  unfolding activate_selected
  nothing_selected graph' h = cc

  -- On a managed graph an activation that succeeds leaves the graph as it is, or sets a pending goal
  -- to active and keeps the invariant.
  pub activate_next_goal-Sets :
      (graph' : GoalGraph)
      → activate_next_goal casefold graph ≡ ok graph'
      → (graph' ≡ graph) ⊎ Sets casefold graph GoalStatus.pending GoalStatus.active graph'
  unfolding activate_next_goal select_executable_goal
  activate_next_goal-Sets graph' h =
      let (selected, selects, h1) = >>=-eq-ok (select_executable_goal graph) _ h in
      elim (Bool-cases (same_graph_status graph.status GraphStatus.active)) [
        | inr off ↦
            let nothing : selected ≡ none = sym (ok_inj (rw off at selects)) in
            absurd (nothing_selected graph' (rw nothing at h1))
        | inl on ↦
            let (o, single, chose) =
              >>=-eq-ok (assert_single_current_goal graph) _ (rw on at selects) in
            Sets-selected o selected graph' single chose h1
      ]
