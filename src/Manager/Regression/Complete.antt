-- ===== src/Manager/Regression/Complete.antt =====
-- What the last verification of a graph covers.
use fomo_demo.Prelude.{
  String, Bool, true, false, ◌||◌, ◌≡◌, refl, ap, sym, ◌∙◌, Option, none, some, List, [], ◌∷◌, map,
  ◌==◌, ok, keep, all, arith, >>=-eq-ok, >>-eq-ok, ok_inj, unique,
}
use fomo_demo.Contracts.{same_texts}
use fomo_demo.Graph.{Goal, GoalGraph, GoalStatus}
use fomo_demo.Graph.Keys.{ScopedAcceptanceContract}
use fomo_demo.Graph.Navigation.{derive_navigation_verification_suite}
use fomo_demo.Manager.{
  lift, is_verified, assert_single_current_goal, require_active_graph, expect, is_last,
  no_claimed_goal, suite_end, suite_contracts, suite_ids,
}
use fomo_demo.Manager.Regression.{
  RuntimeValidationMode, full, RuntimeValidationReason, final_goal, RegressionSuite, ends_with_goal,
  check_reason, make_regression_suite, choose_breadth, select_goals, navigation_breadth,
  selected_ids, scope_all, suite_of, build_regression_suite,
}

make_regression_suite-eq-ok :
    (s s' : RegressionSuite)
    → make_regression_suite s ≡ ok s'
    → (s ≡ s') × (ends_with_goal s'.claimed_goal_id s'.goal_ids ≡ true)
unfolding make_regression_suite
make_regression_suite-eq-ok s s' h =
    let (e, h1) = >>-eq-ok (ends_with_goal s.claimed_goal_id s.goal_ids) suite_end _ h in
    let (_, h2) =
      >>-eq-ok
        (same_texts s.goal_ids (map (λ (c : ScopedAcceptanceContract). c.goal_id) s.contracts))
        suite_contracts _ h1 in
    let (_, h3) = >>-eq-ok (unique s.goal_ids) suite_ids _ h2 in
    let (_, _, h4) = >>=-eq-ok (check_reason s.mode s.claimed_goal_id s.goal_ids s.reason) _ h3 in
    (
      ok_inj h4,
      ap (λ (x : RegressionSuite). ends_with_goal x.claimed_goal_id x.goal_ids) (sym (ok_inj h4))
          ∙ e,
    )

-- the final reason is chosen for the last goal only
final_breadth :
    (last : Bool) (reason : Option RuntimeValidationReason)
    (breadth : RuntimeValidationMode × RuntimeValidationReason)
    → choose_breadth last reason ≡ ok breadth
    → breadth.1 ≡ final_goal
    → (last ≡ true) × (full ≡ breadth.0)
unfolding choose_breadth
final_breadth true reason x h f =
    (refl, ap (λ (y : RuntimeValidationMode × RuntimeValidationReason). y.0) (ok_inj h))
final_breadth false none x h f =
    let chosen = ap (λ (y : RuntimeValidationMode × RuntimeValidationReason). y.1) (ok_inj h) in cc
final_breadth false (some r) x h f = early r x h f
  where
    early :
        (r : RuntimeValidationReason) (x : RuntimeValidationMode × RuntimeValidationReason)
        → choose_breadth false (some r) ≡ ok x
        → x.1 ≡ final_goal
        → (false ≡ true) × (full ≡ x.0)
    early RuntimeValidationReason.project_config_changed x h f =
        let chosen = ap (λ (y : RuntimeValidationMode × RuntimeValidationReason). y.1) (ok_inj h) in
        cc
    early RuntimeValidationReason.prior_goal_file_changed x h f =
        let chosen = ap (λ (y : RuntimeValidationMode × RuntimeValidationReason). y.1) (ok_inj h) in
        cc
    early RuntimeValidationReason.legacy_checkpoint_unknown_paths x h f =
        let chosen = ap (λ (y : RuntimeValidationMode × RuntimeValidationReason). y.1) (ok_inj h) in
        cc
    early _ x h f = cc

keep-all :
    (p q : Goal → Bool) (goals : List Goal)
    → ((g : Goal) → p g ≡ true → q g ≡ true)
    → all p goals ≡ true
    → keep q goals ≡ goals
keep-all p q [] f h = refl
keep-all p q (g ∷ goals) f h =
    rw (f g (ground arith)) (ap (◌∷◌ g) (keep-all p q goals f (ground arith)))

-- the last goal is verified against all goals
select_all :
    (current : Goal) (goals : List Goal)
    → is_last goals current ≡ true
    → select_goals full current goals ≡ goals
select_all current goals h =
    keep-all (λ (g : Goal). g.goal_id == current.goal_id || is_verified g.status)
      (λ (g : Goal). is_verified g.status || g.goal_id == current.goal_id) goals
      (λ g t. ground arith) h

-- what `suite_of` returns on the goals that the mode selects
suite_of-eq-ok :
    (strip : String → String) (graph : GoalGraph) (goal : Goal) (m : RuntimeValidationMode)
    (r : RuntimeValidationReason) (s : RegressionSuite)
    → suite_of strip graph goal m r ≡ ok s
    → (s.mode ≡ m)
      × (s.reason ≡ r)
      × (s.goal_ids ≡ selected_ids (select_goals m goal graph.goals))
      × (ends_with_goal s.claimed_goal_id s.goal_ids ≡ true)
unfolding suite_of
suite_of-eq-ok strip graph goal m r s h =
    let (_, _, h1) = >>=-eq-ok (scope_all strip (select_goals m goal graph.goals)) _ h in
    let suite =
      derive_navigation_verification_suite graph (selected_ids (select_goals m goal graph.goals))
        (navigation_breadth (is_last graph.goals goal) m) in
    let (_, _, h2) = >>=-eq-ok (lift suite) _ h1 in
    let (same, ends) = make_regression_suite-eq-ok _ s h2 in
    (
      sym (ap (λ (x : RegressionSuite). x.mode) same),
      sym (ap (λ (x : RegressionSuite). x.reason) same),
      sym (ap (λ (x : RegressionSuite). x.goal_ids) same),
      ends,
    )

-- A suite whose reason is that the goal is the last one covers every goal of the graph, in order,
-- and the claimed goal is the last of them.
pub build_regression_suite-final :
    (strip : String → String) (graph : GoalGraph) (reason : Option RuntimeValidationReason)
    (s : RegressionSuite)
    → build_regression_suite strip graph reason ≡ ok s
    → s.reason ≡ final_goal
    → (s.goal_ids ≡ selected_ids graph.goals)
      × (s.mode ≡ full)
      × (ends_with_goal s.claimed_goal_id (selected_ids graph.goals) ≡ true)
unfolding build_regression_suite
build_regression_suite-final strip graph reason s h final =
    let (_, _, h1) = >>=-eq-ok (require_active_graph graph) _ h in
    let (o, _, h2) = >>=-eq-ok (assert_single_current_goal graph) _ h1 in
    let (goal, _, h3) = >>=-eq-ok (expect GoalStatus.claimed no_claimed_goal o) _ h2 in
    let (breadth, chosen, h4) = >>=-eq-ok (choose_breadth (is_last graph.goals goal) reason) _ h3 in
    covers goal breadth chosen (suite_of-eq-ok strip graph goal breadth.0 breadth.1 s h4)
  where
    covers :
        (goal : Goal) (breadth : RuntimeValidationMode × RuntimeValidationReason)
        → choose_breadth (is_last graph.goals goal) reason ≡ ok breadth
        → (s.mode ≡ breadth.0)
          × (s.reason ≡ breadth.1)
          × (s.goal_ids ≡ selected_ids (select_goals breadth.0 goal graph.goals))
          × (ends_with_goal s.claimed_goal_id s.goal_ids ≡ true)
        → (s.goal_ids ≡ selected_ids graph.goals)
          × (s.mode ≡ full)
          × (ends_with_goal s.claimed_goal_id (selected_ids graph.goals) ≡ true)
    covers goal breadth chosen (m, r, ids, ends) =
        let (last, is_full) =
          final_breadth (is_last graph.goals goal) reason breadth chosen (sym r ∙ final) in
        let all_ids : s.goal_ids ≡ selected_ids graph.goals =
          rw (sym is_full, select_all goal graph.goals last) at ids in
        (all_ids, m ∙ sym is_full, rw all_ids at ends)
