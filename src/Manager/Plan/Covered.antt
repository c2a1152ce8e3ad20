-- ===== src/Manager/Plan/Covered.antt =====
-- A plan carries the evidence of exactly the verified goals.
use fomo_demo.Prelude.{
  Bool, Option, ℕ, String, true, false, not, ◌||◌, ◌≡◌, refl, ap, sym, ◌∙◌, inl, inr, none, some,
  List, [], ◌∷◌, ◌==◌, ok, guard, arith, Bool-cases, >>=-eq-ok, >>-eq-ok, ok_inj, unique, contains,
  subset→mem, Distinct, eq_iff, All, eq_refl, leb, eqb, In,
}
use fomo_demo.Contracts.{criterion_ids}
use fomo_demo.Graph.{
  Goal, GoalGraph, GoalStatus, legacy_schema_version, legacy_route_schema_version, schema_version,
}
use fomo_demo.Graph.Status.{same_goal_status}
use fomo_demo.Manager.{
  is_verified, verified_ids, assert_single_current_goal, expect, activate_next_goal,
  must_be_retried, duplicate_evidence, evidence_not_exact, evidence_incomplete, invalid_revision,
  unsupported_schema, plan_navigation, plan_suite_version, plan_without_active_goal,
}
use fomo_demo.Manager.Invariant.{IsManaged, Distinct-ids}
use fomo_demo.Manager.Operations.{activate_next_goal-Sets}
use fomo_demo.Graph.Model.{same_mode}
use fomo_demo.Manager.Plan.{
  expected_mode, expected_suite_version, VerifiedGoalEvidence, GoalExecutionPlan, make_plan,
  evidence_ids, same_set, find_evidence, passed_all, check_goals, order_evidence, plan_active,
  plan_goal_execution,
}
use fomo_demo.Manager.Goals.{ids, apart}

verified_not_there :
    (gs : List Goal) (x : String)
    → contains (ids gs) x ≡ false
    → contains (verified_ids gs) x ≡ false
verified_not_there [] x h = refl
verified_not_there (g ∷ gs) x h = ground (arith, verified_not_there gs x)

verified_first :
    (g : Goal) (gs : List Goal)
    → contains (ids gs) g.goal_id ≡ false
    → contains (verified_ids (g ∷ gs)) g.goal_id ≡ is_verified g.status
verified_first g gs d = ground (arith, eq_refl g.goal_id, verified_not_there gs g.goal_id d)

-- With distinct ids, the verified ids tell which goal is verified.
verified_mem :
    (g : Goal) (gs : List Goal)
    → Distinct (ids gs)
    → In g gs
    → contains (verified_ids gs) g.goal_id ≡ is_verified g.status
verified_mem g [] d m = absurd m
verified_mem g (h ∷ gs) d (inl e) = rw e (verified_first g gs (rw e at d.0))
verified_mem g (h ∷ gs) d (inr m) = ground (arith, apart g h gs d.0 m, verified_mem g gs d.1 m)

found_id :
    (es : List VerifiedGoalEvidence) (id : String) (e : VerifiedGoalEvidence)
    → find_evidence es id ≡ some e
    → e.goal_id ≡ id
unfolding find_evidence
found_id [] id e h = cc
found_id (x ∷ es) id e h = elim (Bool-cases (x.goal_id == id)) [
  | inl y ↦
      let same : x ≡ e = cc (rw y at h) in
      ap (λ (v : VerifiedGoalEvidence). v.goal_id) (sym same) ∙ (eq_iff x.goal_id id).0 y
  | inr n ↦ found_id es id e (rw n at h)
]

found_iff :
    (es : List VerifiedGoalEvidence) (id : String)
    → contains (evidence_ids es) id ≡ true
    → (e : VerifiedGoalEvidence) × (find_evidence es id ≡ some e)
unfolding find_evidence
found_iff [] id h = cc
found_iff (x ∷ es) id h = elim (Bool-cases (x.goal_id == id)) [
  | inl y ↦ (x, rw y refl)
  | inr n ↦ let (e, f) = found_iff es id (rw n at h) in (e, rw n f)
]

not_found :
    (es : List VerifiedGoalEvidence) (id : String)
    → contains (evidence_ids es) id ≡ false
    → find_evidence es id ≡ none
unfolding find_evidence
not_found [] id h = refl
not_found (x ∷ es) id h = ground (arith, not_found es id)

-- the evidence in the order of goals of which it is known which are verified
ordered_ids :
    (es : List VerifiedGoalEvidence) (gs : List Goal)
    → ((g : Goal) → In g gs → contains (evidence_ids es) g.goal_id ≡ is_verified g.status)
    → evidence_ids (order_evidence es gs) ≡ verified_ids gs
ordered_ids es [] f = refl
ordered_ids es (g ∷ gs) f =
    let rest = ordered_ids es gs (λ h m. f h (inr m)) in
    elim (Bool-cases (is_verified g.status)) [
      | inl v ↦
          let (e, found) = found_iff es g.goal_id (f g (inl refl) ∙ v) in
          rw (found, v, found_id es g.goal_id e found) (ap (◌∷◌ g.goal_id) rest)
      | inr n ↦ rw (not_found es g.goal_id (f g (inl refl) ∙ n), n) rest
    ]

same_set-mem :
    (xs ys : List String) (x : String) → same_set xs ys ≡ true → contains xs x ≡ contains ys x
same_set-mem xs ys x h = ground (arith, subset→mem xs ys x, subset→mem ys xs x)

make_plan-eq-ok :
    (p p' : GoalExecutionPlan)
    → make_plan p ≡ ok p'
    → (p ≡ p') × (same_goal_status p'.active_goal.status GoalStatus.active ≡ true)
unfolding make_plan
make_plan-eq-ok p p' h =
    let (_, _, h1) = >>=-eq-ok (guard (leb 1 p.graph_revision) invalid_revision) _ h in
    let (_, _, h2) =
      >>=-eq-ok
        (guard
          (eqb p.graph_schema_version legacy_schema_version
            || eqb p.graph_schema_version legacy_route_schema_version
            || eqb p.graph_schema_version schema_version)
          unsupported_schema)
        _ h1 in
    let (_, _, h3) =
      >>=-eq-ok
        (guard (same_mode p.navigation_mode (expected_mode p.graph_schema_version p.routes))
          plan_navigation)
        _ h2 in
    let (_, _, h4) =
      >>=-eq-ok
        (guard (expected_suite_version p.graph_schema_version p.navigation_suite_version)
          plan_suite_version)
        _ h3 in
    let (on, h5) =
      >>-eq-ok (same_goal_status p.active_goal.status GoalStatus.active) plan_without_active_goal _
        h4 in
    let same = ok_inj h5 in
    (
      same,
      ap (λ (x : GoalExecutionPlan). same_goal_status x.active_goal.status GoalStatus.active)
            (sym same)
          ∙ on,
    )

passed-All :
    (es : List VerifiedGoalEvidence) (gs : List Goal)
    → check_goals es gs ≡ ok tt
    → All
        (λ (g : Goal).
          (not (is_verified g.status) || passed_all (find_evidence es g.goal_id) g) ≡ true)
        gs
unfolding check_goals
passed-All es [] h = tt
passed-All es (g ∷ gs) h =
    let (now, rest) =
      >>-eq-ok (not (is_verified g.status) || passed_all (find_evidence es g.goal_id) g)
        (evidence_incomplete g.goal_id) _ h in
    (now, passed-All es gs rest)

-- The record is of a verified goal and names exactly the goal's criteria.
abbrev pub IsEvidenceIn : List Goal → VerifiedGoalEvidence → Type 0
IsEvidenceIn goals e =
    (g : Goal) × In g goals
    × (is_verified g.status ≡ true)
    × (e.goal_id ≡ g.goal_id)
    × ((x : String) → contains e.passed_acceptance_ids x ≡ contains (criterion_ids g.acceptance) x)

checked_goal :
    (v : Bool) (o : Option VerifiedGoalEvidence) (e : VerifiedGoalEvidence) (g : Goal)
    → (not v || passed_all o g) ≡ true
    → v ≡ true
    → o ≡ some e
    → same_set e.passed_acceptance_ids (criterion_ids g.acceptance) ≡ true
checked_goal v o e g h k f = rw (k, f) at h

order_evidence-IsEvidenceIn :
    (es : List VerifiedGoalEvidence) (gs goals : List Goal)
    → ((g : Goal) → In g gs → In g goals)
    → ((g : Goal) → In g gs → contains (evidence_ids es) g.goal_id ≡ is_verified g.status)
    → All
        (λ (g : Goal).
          (not (is_verified g.status) || passed_all (find_evidence es g.goal_id) g) ≡ true)
        gs
    → All (IsEvidenceIn goals) (order_evidence es gs)
order_evidence-IsEvidenceIn es [] goals i f c = tt
order_evidence-IsEvidenceIn es (g ∷ gs) goals i f c =
    let rest =
      order_evidence-IsEvidenceIn es gs goals (λ h m. i h (inr m)) (λ h m. f h (inr m)) c.1 in
    elim (Bool-cases (is_verified g.status)) [
      | inl v ↦
          let (e, found) = found_iff es g.goal_id (f g (inl refl) ∙ v) in
          let exact = checked_goal (is_verified g.status) _ e g c.0 v found in
          rw found (
            (
              g,
              i g (inl refl),
              v,
              found_id es g.goal_id e found,
              λ x. same_set-mem e.passed_acceptance_ids (criterion_ids g.acceptance) x exact,
            ),
            rest,
          )
      | inr n ↦ rw (not_found es g.goal_id (f g (inl refl) ∙ n)) rest
    ]

-- The plan has an active goal and the evidence of the verified goals, in their order, each record with
-- the criteria of its goal.
abbrev pub IsCovered : GoalGraph → GoalExecutionPlan → Type 0
IsCovered graph p =
    (same_goal_status p.active_goal.status GoalStatus.active ≡ true)
    × (evidence_ids p.verified_evidence ≡ verified_ids graph.goals)
    × All (IsEvidenceIn graph.goals) p.verified_evidence

plan_active-IsCovered :
    (graph : GoalGraph) (revision : ℕ) (es : List VerifiedGoalEvidence) (goal : Goal)
    (p : GoalExecutionPlan)
    → Distinct (ids graph.goals)
    → plan_active graph revision es goal ≡ ok p
    → IsCovered graph p
unfolding plan_active
plan_active-IsCovered graph revision es goal p d h =
    let (_, h1) = >>-eq-ok (unique (evidence_ids es)) duplicate_evidence _ h in
    let (exact, h2) =
      >>-eq-ok (same_set (evidence_ids es) (verified_ids graph.goals)) evidence_not_exact _ h1 in
    let (_, passed, h3) = >>=-eq-ok (check_goals es graph.goals) _ h2 in
    let wanted : GoalExecutionPlan = record {
      graph_revision = revision;
      graph_schema_version = graph.schema_version;
      navigation_mode = graph.navigation_mode;
      routes = graph.routes;
      navigation_suite_version = graph.navigation_suite_version;
      active_goal = goal;
      verified_evidence = order_evidence es graph.goals;
    } in
    let (same, active) = make_plan-eq-ok wanted p h3 in
    let known = λ (g : Goal) (m : In g graph.goals).
      same_set-mem (evidence_ids es) (verified_ids graph.goals) g.goal_id exact
      ∙ verified_mem g graph.goals d m in
    (
      active,
      ap (λ (x : GoalExecutionPlan). evidence_ids x.verified_evidence) (sym same)
          ∙ ordered_ids es graph.goals known,
      rw (sym same) (
          order_evidence-IsEvidenceIn es graph.goals graph.goals (λ g m. m) known
            (passed-All es graph.goals passed)),
    )

-- On a managed graph, a plan that is made has an active goal and carries one evidence record for each
-- verified goal of the activated graph, in the order of the goals; and each record names exactly the
-- criteria of a verified goal with its id.
pub plan_goal_execution-IsCovered :
    (casefold : String → String) (graph : GoalGraph) (managed : IsManaged casefold graph)
    (revision : ℕ) (es : List VerifiedGoalEvidence) (activated : GoalGraph) (p : GoalExecutionPlan)
    → plan_goal_execution casefold graph revision es ≡ ok (activated, p)
    → IsCovered activated p
unfolding plan_goal_execution
plan_goal_execution-IsCovered casefold graph managed revision es activated p h =
    let (a, activates, h1) = >>=-eq-ok (activate_next_goal casefold graph) _ h in
    let (o, _, h2) = >>=-eq-ok (assert_single_current_goal a) _ h1 in
    let (goal, _, h3) = >>=-eq-ok (expect GoalStatus.active must_be_retried o) _ h2 in
    let (plan, planned, h4) = >>=-eq-ok (plan_active a revision es goal) _ h3 in
    conclude a goal plan activates planned (ok_inj h4)
  where
    conclude :
        (a : GoalGraph) (goal : Goal) (plan : GoalExecutionPlan)
        → activate_next_goal casefold graph ≡ ok a
        → plan_active a revision es goal ≡ ok plan
        → ◌≡◌ {A = GoalGraph × GoalExecutionPlan} (a, plan) (activated, p)
        → IsCovered activated p
    conclude a goal plan activates planned both =
        let same_graph : a ≡ activated = ap (λ (x : GoalGraph × GoalExecutionPlan). x.0) both in
        let same_plan : plan ≡ p = ap (λ (x : GoalGraph × GoalExecutionPlan). x.1) both in
        let still : IsManaged casefold a =
          elim (activate_next_goal-Sets casefold graph managed a activates) [
            | inl e ↦ rw e managed
            | inr s ↦ s.managed
          ] in
        let covered =
          plan_active-IsCovered a revision es goal plan (Distinct-ids casefold a still.valid)
            planned in
        rw (same_graph, same_plan) at covered
