-- ===== src/Graph/Model/Materialize.antt =====
-- Materializing an accepted draft.
use fomo_demo.Prelude.{
  String, Bool, true, false, ◌≡◌, refl, ap, ok, List, [], ◌∷◌, map, any, >>=-eq-ok,
}
use fomo_demo.Graph.{
  Goal, GoalDraft, GoalStatus, drafts, schema_version, legacy_route_schema_version,
}
use fomo_demo.Graph.Navigation.{navigation_mode}
use fomo_demo.Graph.Model.{
  GraphDraft, legacy, legacy_route, current, validate_draft, initial_graph, materialize_goal_graph,
  validate_goal_graph,
}
use fomo_demo.Graph.Routes.{validate_route_manifest}
use fomo_demo.Graph.Topology.{validate_goal_topology}
use fomo_demo.Graph.Model.Parts.{same_mode_refl}

abbrev pub fresh : Bool → GoalDraft → Goal
fresh b g = record { draft = g; status = GoalStatus.pending; legacy = b }

pub drafts-fresh : (b : Bool) (gs : List GoalDraft) → drafts (map (fresh b) gs) ≡ gs
drafts-fresh b [] = refl
drafts-fresh b (g ∷ gs) = ap (◌∷◌ g) (drafts-fresh b gs)

none_legacy : (gs : List GoalDraft) → any (λ (g : Goal). g.legacy) (map (fresh false) gs) ≡ false
none_legacy [] = refl
none_legacy (g ∷ gs) = none_legacy gs

-- An accepted draft, of whatever schema version, materializes: the validators of the persisted
-- projection accept the initial graph, so its creation never raises.
pub materialize_goal_graph_total :
    (casefold : String → String) (d : GraphDraft)
    → validate_draft casefold d ≡ ok tt
    → materialize_goal_graph casefold d ≡ ok (initial_graph d)
unfolding materialize_goal_graph validate_draft validate_goal_graph navigation_mode
    validate_route_manifest
materialize_goal_graph_total casefold (legacy o gs) h =
    rw (drafts-fresh true gs, h, same_mode_refl (navigation_mode 1 []))
materialize_goal_graph_total casefold (legacy_route o rs gs) h =
    let (u, top, h1) = >>=-eq-ok (validate_goal_topology gs) _ h in
    rw (
      none_legacy gs,
      drafts-fresh false gs,
      top,
      h1,
      same_mode_refl (navigation_mode legacy_route_schema_version rs),
    )
materialize_goal_graph_total casefold (current o rs gs) h =
    let (u, top, h1) = >>=-eq-ok (validate_goal_topology gs) _ h in
    rw (
      none_legacy gs,
      drafts-fresh false gs,
      top,
      h1,
      same_mode_refl (navigation_mode schema_version rs),
    )
