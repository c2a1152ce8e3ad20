-- ===== src/Manager/Run.antt =====
-- Any run of the goal manager from a materialized draft.
use fomo_demo.Graph.Model.Parts.{unit_ok}
use fomo_demo.Prelude.{
  ok_inj, String, Bool, ◌≡◌, refl, ap, sym, ◌∙◌, inl, inr, List, [], ◌∷◌, ok, All, arith, >>=-eq-ok,
  Result, ◌>>=◌, map,
}
use fomo_demo.Graph.{GoalDraft, GoalGraph, GoalStatus, drafts}
use fomo_demo.Graph.Model.{
  GraphDraft, validate_draft, initial_graph, materialize_goal_graph, is_legacy_draft, draft_goals,
  validate_goal_graph,
}
use fomo_demo.Graph.Model.Materialize.{materialize_goal_graph_total, fresh, drafts-fresh}
use fomo_demo.Manager.{
  ManagerError, activate_next_goal, claim_active_goal, retry_claimed_goal, verify_claimed_goal,
  current_goals,
}
use fomo_demo.Manager.Goals.{drafts-set_status}
use fomo_demo.Manager.Invariant.{IsManaged, IsReady}
use fomo_demo.Manager.Operations.{
  Sets, activate_next_goal-Sets, claim_active_goal-Sets, retry_claimed_goal-Sets,
  verify_claimed_goal-Sets,
}

-- A call of the manager, and a sequence of calls that each get the graph of the one before.
pub data Call : Type 0 where
  activate claim retry verify : Call

module _ (casefold : String → String) where
  unfoldable pub perform : Call → GoalGraph → Result ManagerError GoalGraph
  perform activate graph = activate_next_goal casefold graph
  perform claim graph = claim_active_goal casefold graph
  perform retry graph = retry_claimed_goal casefold graph
  perform verify graph = verify_claimed_goal casefold graph

  unfoldable pub run : List Call → GoalGraph → Result ManagerError GoalGraph
  unfolding perform
  run [] graph = ok graph
  run (call ∷ calls) graph = perform call graph >>= run calls

module _ (casefold : String → String) where
  frozen :
      {graph graph' : GoalGraph} {from to : GoalStatus}
      → Sets casefold graph from to graph'
      → IsManaged casefold graph' × (drafts graph'.goals ≡ drafts graph.goals)
  frozen {graph} {graph'} {from} {to} s = (
    s.managed,
    ap (λ (x : GoalGraph). drafts x.goals) s.result
        ∙ drafts-set_status s.goal.goal_id to graph.goals,
  )

  perform-IsManaged :
      (call : Call) (graph graph' : GoalGraph)
      → IsManaged casefold graph
      → perform casefold call graph ≡ ok graph'
      → IsManaged casefold graph' × (drafts graph'.goals ≡ drafts graph.goals)
  unfolding perform
  perform-IsManaged activate graph graph' m h =
      elim (activate_next_goal-Sets casefold graph m graph' h) [
        | inl e ↦ (rw e m, ap (λ (x : GoalGraph). drafts x.goals) e)
        | inr s ↦ frozen s
      ]
  perform-IsManaged claim graph graph' m h =
      frozen (claim_active_goal-Sets casefold graph m graph' h)
  perform-IsManaged retry graph graph' m h =
      frozen (retry_claimed_goal-Sets casefold graph m graph' h)
  perform-IsManaged verify graph graph' m h =
      frozen (verify_claimed_goal-Sets casefold graph m graph' h)

  run-IsManaged :
      (calls : List Call) (graph graph' : GoalGraph)
      → IsManaged casefold graph
      → run casefold calls graph ≡ ok graph'
      → IsManaged casefold graph' × (drafts graph'.goals ≡ drafts graph.goals)
  unfolding run
  run-IsManaged [] graph graph' m h =
      let same = ok_inj h in (rw same at m, ap (λ (x : GoalGraph). drafts x.goals) (sym same))
  run-IsManaged (call ∷ calls) graph graph' m h =
      let (graph1, now, later) = >>=-eq-ok (perform casefold call graph) _ h in
      let (m1, e1) = perform-IsManaged call graph graph1 m now in
      let (m2, e2) = run-IsManaged calls graph1 graph' m1 later in (m2, e2 ∙ e1)

none_current : (b : Bool) (gs : List GoalDraft) → current_goals (map (fresh b) gs) ≡ []
none_current b [] = refl
none_current b (g ∷ gs) = none_current b gs

none_started :
    (b : Bool) (verified : List String) (gs : List GoalDraft)
    → All (IsReady verified) (map (fresh b) gs)
none_started b verified [] = tt
none_started b verified (g ∷ gs) = ((λ h. cc), none_started b verified gs)

module _ (casefold : String → String) where
  pub initial_graph-IsManaged :
      (d : GraphDraft) → validate_draft casefold d ≡ ok tt → IsManaged casefold (initial_graph d)
  unfolding initial_graph materialize_goal_graph
  initial_graph-IsManaged d h =
      let (u, valid, _) =
        >>=-eq-ok (validate_goal_graph casefold (initial_graph d)) _
          (materialize_goal_graph_total casefold d h) in
      record {
        valid = unit_ok _ valid;
        single = rw (none_current (is_legacy_draft d) (draft_goals d)) (omega arith);
        ready = none_started (is_legacy_draft d) _ (draft_goals d);
      }

  -- Whatever calls of the manager are made, in whatever order, on the graph of an accepted draft: as
  -- long as none raises, the graph still passes every validator, has one current goal at most, and
  -- no goal was started before its dependencies were verified; and the goals are those of the draft,
  -- in their order.
  pub run_from_draft :
      (d : GraphDraft) (calls : List Call) (graph : GoalGraph)
      → validate_draft casefold d ≡ ok tt
      → run casefold calls (initial_graph d) ≡ ok graph
      → IsManaged casefold graph × (drafts graph.goals ≡ draft_goals d)
  unfolding initial_graph
  run_from_draft d calls graph h r =
      let (managed, same) =
        run-IsManaged casefold calls (initial_graph d) graph (initial_graph-IsManaged d h) r in
      (managed, same ∙ drafts-fresh (is_legacy_draft d) (draft_goals d))
