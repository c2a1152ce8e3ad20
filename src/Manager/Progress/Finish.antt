-- ===== src/Manager/Progress/Finish.antt =====
-- A plan can always be finished.
use fomo_demo.Prelude.{
  String, Bool, true, false, ◌≡◌, refl, ◌∙◌, List, [], ◌∷◌, ◌++◌, ok, is_empty, all,
}
use fomo_demo.Graph.{Goal, GoalDraft, GoalGraph, GoalStatus, GraphStatus}
use fomo_demo.Graph.Model.{GraphDraft, validate_draft, initial_graph, draft_goals, is_legacy_draft}
use fomo_demo.Manager.{is_verified}
use fomo_demo.Manager.Run.{Call, activate, claim, verify, perform, run, initial_graph-IsManaged}
use fomo_demo.Manager.Progress.{mid, between_pending, between_verified, all_verified}
use fomo_demo.Manager.Progress.Cycle.{IsAt, activate-IsAt, claim-IsAt, verify-IsAt}

-- Each goal is activated, claimed and verified, in the order of the list.
abbrev pub cycles : List GoalDraft → List Call
cycles [] = []
cycles (g ∷ gs) = activate ∷ claim ∷ verify ∷ cycles gs

uncons :
    (gs : List GoalDraft)
    → is_empty gs ≡ false
    → (g : GoalDraft) × (hs : List GoalDraft) × (gs ≡ g ∷ hs)
uncons [] h = cc
uncons (g ∷ gs) h = (g, gs, refl)

module _ (casefold : String → String) (b : Bool) where
  run-cycles :
      (post : List GoalDraft) (pre : List GoalDraft) (g : GoalDraft) (graph : GoalGraph)
      → IsAt casefold b graph pre GoalStatus.pending g post
      → (graph' : GoalGraph) × (run casefold (cycles (g ∷ post)) graph ≡ ok graph')
        × (graph'.status ≡ GraphStatus.verified)
        × (all (λ (x : Goal). is_verified x.status) graph'.goals ≡ true)
  unfolding run perform
  run-cycles [] pre g graph now =
      let (graph1, e1, now1) = activate-IsAt casefold b graph pre g [] now in
      let (graph2, e2, now2) = claim-IsAt casefold b graph1 pre g [] now1 in
      let (graph3, e3, managed, status, goals) = verify-IsAt casefold b graph2 pre g [] now2 in
      let over = goals ∙ between_verified b pre g [] in
      (graph3, rw (e1, e2, e3) refl, status, rw over (all_verified b (pre ++ g ∷ [])))
  run-cycles (h ∷ post) pre g graph now =
      let (graph1, e1, now1) = activate-IsAt casefold b graph pre g (h ∷ post) now in
      let (graph2, e2, now2) = claim-IsAt casefold b graph1 pre g (h ∷ post) now1 in
      let (graph3, e3, managed, status, goals) =
        verify-IsAt casefold b graph2 pre g (h ∷ post) now2 in
      let next : IsAt casefold b graph3 (pre ++ g ∷ []) GoalStatus.pending h post = record {
        managed = managed;
        running = status;
        goals =
            goals ∙ between_verified b pre g (h ∷ post) ∙ between_pending b (pre ++ g ∷ []) h post;
      } in
      let (graph', e', done, verified) = run-cycles post (pre ++ g ∷ []) h graph3 next in
      (graph', rw (e1, e2, e3) e', done, verified)

start :
    (casefold : String → String) (d : GraphDraft) (g : GoalDraft) (gs : List GoalDraft)
    → validate_draft casefold d ≡ ok tt
    → draft_goals d ≡ g ∷ gs
    → IsAt casefold (is_legacy_draft d) (initial_graph d) [] GoalStatus.pending g gs
unfolding initial_graph mid
start casefold d g gs h e = record {
  managed = initial_graph-IsManaged casefold d h;
  running = refl;
  goals = rw e refl;
}

-- The plan of every accepted draft can be finished: from its initial graph, activating, claiming and
-- verifying goal after goal in the order of the draft never raises, and ends with a verified graph
-- whose goals are all verified. The draft has a goal.
pub run_to_completion :
    (casefold : String → String) (d : GraphDraft)
    → validate_draft casefold d ≡ ok tt
    → is_empty (draft_goals d) ≡ false
    → (graph : GoalGraph) × (run casefold (cycles (draft_goals d)) (initial_graph d) ≡ ok graph)
      × (graph.status ≡ GraphStatus.verified)
      × (all (λ (x : Goal). is_verified x.status) graph.goals ≡ true)
run_to_completion casefold d h nonempty =
    let (g, gs, e) = uncons (draft_goals d) nonempty in
    let result =
      run-cycles casefold (is_legacy_draft d) gs [] g (initial_graph d)
        (start casefold d g gs h e) in
    rw e result
