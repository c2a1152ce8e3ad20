-- ===== src/Graph/Evidence.antt =====
-- The v2 navigation evidence of direct_pi/goalgraph.py: which tests count as a direct load of a
-- route or as a link to it, and the check that every route has both.
use mathlib.Core.List.{reverse}
use fomo_demo.Prelude.{
  String, Bool, true, false, not, ◌&&◌, Option, none, some, List, [], ◌∷◌, ◌++◌, ◌==◌, Result, ok,
  ◌>>=◌, ◌>>◌, contains, keep, any, is_empty, if◌then◌else◌, ltb, length, first,
}
use fomo_demo.Contracts.{
  Action, Assertion, AcceptanceTest, Locator, role, goto, click, reload, back, forward,
  history_roundtrip, url, visible,
}
use fomo_demo.Graph.{
  GoalDraft, NavigationRoute, Violation, GraphError, no_direct_test, no_link_test,
  legacy_route_schema_version,
}
use fomo_demo.Graph.Dependencies.{find_goal, transitive_dependencies}
use fomo_demo.Graph.Routes.{find_route, when, collect, no_violations, validate_route_manifest}

named : Option String → String → Bool
named none title = false
named (some n) title = n == title

-- a role locator with this role and this accessible name
is_role : Locator → String → String → Bool
unfolding named
is_role l wanted title = elim l.by [ role ↦ l.value == wanted && named l.name title | _ ↦ false ]

is_url_of : NavigationRoute → Assertion → Bool
is_url_of route (url path) = path == route.path
is_url_of route _ = false

is_heading_of : NavigationRoute → Assertion → Bool
unfolding is_role
is_heading_of route (visible target) = is_role target "heading" route.title
is_heading_of route _ = false

asserts_route_identity : AcceptanceTest → NavigationRoute → Bool
unfolding is_url_of is_heading_of
asserts_route_identity test route =
    any (is_url_of route) test.assertions && any (is_heading_of route) test.assertions

-- The actions are read from the last one backwards.
ends_with_goto : String → List Action → Bool
ends_with_goto path (goto p ∷ before) = p == path
ends_with_goto path _ = false

ends_with_reload : String → List Action → Bool
unfolding ends_with_goto
ends_with_reload path (reload ∷ before) = ends_with_goto path before
ends_with_reload path _ = false

has_terminal_direct_load : NavigationRoute → List Action → Bool
unfolding ends_with_goto ends_with_reload
has_terminal_direct_load route actions =
    if route.deep_linkable
    then ends_with_reload route.path (reverse actions)
    else ends_with_goto route.path (reverse actions)

route_direct_evidence_tests : NavigationRoute → GoalDraft → List AcceptanceTest
unfolding has_terminal_direct_load asserts_route_identity
route_direct_evidence_tests route owner =
    keep (λ t. has_terminal_direct_load route t.actions && asserts_route_identity t route)
      owner.acceptance.tests

is_link_to : NavigationRoute → Action → Bool
unfolding is_role
is_link_to route (click target) = is_role target "link" route.title
is_link_to route _ = false

-- any link, whatever its name
is_link : Locator → Bool
is_link l = elim l.by [ role ↦ l.value == "link" | _ ↦ false ]

obscures : Action → Bool
unfolding is_link
obscures (goto p) = true
obscures back = true
obscures forward = true
obscures (history_roundtrip b f) = true
obscures (click target) = is_link target
obscures _ = false

-- The path of the last `goto`, unless an action after it obscures where the browser is.
source_path : List Action → Option String
unfolding obscures
source_path [] = none
source_path (goto p ∷ before) = some p
source_path (a ∷ before) = let found = source_path before in if obscures a then none else found

is_source : List NavigationRoute → NavigationRoute → List String → Option String → Bool
is_source routes route allowed none = false
is_source routes route allowed (some path) = elim (find_route routes path) [
  | none ↦ false
  | some source ↦ not (source.path == route.path) && contains allowed source.owning_goal_id
]

links_back : List NavigationRoute → NavigationRoute → List String → List Action → Bool
unfolding is_link_to source_path is_source
links_back routes route allowed [] = false
links_back routes route allowed (link ∷ before) =
    is_link_to route link && is_source routes route allowed (source_path before)

route_link_evidence_tests_of :
    List NavigationRoute
    → List GoalDraft
    → NavigationRoute
    → GoalDraft
    → Result GraphError (List AcceptanceTest)
unfolding links_back asserts_route_identity
route_link_evidence_tests_of routes goals route owner = do
  ds ← transitive_dependencies goals route.owning_goal_id
  ok (
      keep
        (λ t.
          asserts_route_identity t route
          && links_back routes route (route.owning_goal_id ∷ ds) (reverse t.actions))
        owner.acceptance.tests)

-- `route_link_evidence_tests`, the public one, on the fields of a graph
unfoldable pub route_link_evidence_tests :
    List NavigationRoute → List GoalDraft → String → Result GraphError (List AcceptanceTest)
unfolding route_link_evidence_tests_of
route_link_evidence_tests routes goals target_path =
    elim (first (λ (r : NavigationRoute). r.path == target_path) routes) [
      | none ↦ ok []
      | some route ↦ elim (find_goal goals route.owning_goal_id) [
        | none ↦ ok []
        | some owner ↦ route_link_evidence_tests_of routes goals route owner
      ]
    ]

missing_link :
    List NavigationRoute
    → List GoalDraft
    → NavigationRoute
    → GoalDraft
    → Result GraphError (List Violation)
unfolding route_link_evidence_tests_of
missing_link routes goals route owner =
    if ltb 1 (length routes) && not (route.path == "/")
    then (do
      tests ← route_link_evidence_tests_of routes goals route owner
      ok (when (is_empty tests) (no_link_test route.path route.owning_goal_id)))
    else ok []

evidence_violations :
    List NavigationRoute
    → List GoalDraft
    → NavigationRoute
    → Option GoalDraft
    → Result GraphError (List Violation)
unfolding missing_link route_direct_evidence_tests
evidence_violations routes goals route none = ok []
evidence_violations routes goals route (some owner) = do
  links ← missing_link routes goals route owner
  ok (
      when (is_empty (route_direct_evidence_tests route owner))
        (no_direct_test route.path route.owning_goal_id)
      ++ links)

module _ (casefold : String → String) where
  unfoldable pub validate_legacy_v2_routing_contract :
      List NavigationRoute → List GoalDraft → Result GraphError (Unit {0})
  unfolding evidence_violations
  validate_legacy_v2_routing_contract routes goals = do
    validate_route_manifest casefold legacy_route_schema_version routes goals
    vs ←
        collect
          (λ (r : NavigationRoute).
            evidence_violations routes goals r (find_goal goals r.owning_goal_id))
          routes
    no_violations vs
