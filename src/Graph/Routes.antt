-- ===== src/Graph/Routes.antt =====
-- `_validate_route_manifest` of direct_pi/goalgraph.py. `casefold` is Python's `str.casefold`.
pub mod Accepted
use fomo_demo.Prelude.{
  ℕ, String, Bool, true, false, not, Option, none, some, List, [], ◌∷◌, ◌++◌, map, ◌==◌, Result, ok,
  err, guard, ◌>>=◌, contains, unique, keep, first, gather, is_empty, is_some, eqb, if◌then◌else◌,
  ◌≡◌,
}
use fomo_demo.Contracts.{Action, Assertion, AcceptanceTest, goto, history_roundtrip, url}
use fomo_demo.Contracts.Order.{sorted_set}
use fomo_demo.Graph.{
  GoalDraft, NavigationRoute, Violation, GraphError, missing_root, duplicate_paths,
  duplicate_titles, unknown_owners, owner_not_visible, owner_not_below_root, undeclared_route,
  future_route, route_violations, legacy_declares_routes, no_routes, legacy_schema_version,
  schema_version,
}
use fomo_demo.Graph.Dependencies.{find_goal, transitive_dependencies}

-- `{route.path: route for route in routes}.get(path)`
pub find_route : List NavigationRoute → String → Option NavigationRoute
find_route [] path = none
find_route (r ∷ rs) path = elim (find_route rs path) [
  | none ↦ if r.path == path then some r else none
  | some later ↦ some later
]

-- `next((route for route in routes if route.path == "/"), None)`
abbrev pub find_root : List NavigationRoute → Option NavigationRoute
find_root = first (λ (r : NavigationRoute). r.path == "/")

abbrev pub route_paths : List NavigationRoute → List String
route_paths = map (λ (r : NavigationRoute). r.path)

abbrev goto_path : Action → List String
goto_path (goto path) = path ∷ []
goto_path _ = []

abbrev history_paths : Action → List String
history_paths (history_roundtrip back_path forward_path) = back_path ∷ forward_path ∷ []
history_paths _ = []

abbrev url_path : Assertion → List String
url_path (url path) = path ∷ []
url_path _ = []

abbrev pub referenced_paths : AcceptanceTest → List String
referenced_paths t =
    gather goto_path t.actions ++ (gather history_paths t.actions ++ gather url_path t.assertions)

-- `if test: violations.append(v)`
abbrev pub when : Bool → Violation → List Violation
when true v = v ∷ []
when false v = []

-- the owners that no goal has for its id
abbrev pub unowned : List GoalDraft → List NavigationRoute → List String
unowned goals routes =
    keep (λ o. not (is_some (find_goal goals o)))
      (map (λ (r : NavigationRoute). r.owning_goal_id) routes)

module _ (casefold : String → String) where
  unfoldable pub basic_violations : List NavigationRoute → List GoalDraft → List Violation
  basic_violations routes goals =
      let titles = map (λ (r : NavigationRoute). casefold r.title) routes in
      when (not (contains (route_paths routes) "/")) missing_root
      ++ (when (not (unique (route_paths routes))) duplicate_paths
          ++ (when (not (unique titles)) duplicate_titles
              ++ when (not (is_empty (unowned goals routes)))
                  (unknown_owners (sorted_set (unowned goals routes)))))

pub below_root :
    List GoalDraft
    → Option NavigationRoute
    → NavigationRoute
    → GoalDraft
    → Result GraphError (List Violation)
below_root goals none route owner = ok []
below_root goals (some root) route owner = if route.path == "/" then ok [] else do
  ds ← transitive_dependencies goals owner.goal_id
  ok (
      when (not (contains (owner.goal_id ∷ ds) root.owning_goal_id))
        (owner_not_below_root route.path owner.goal_id))

unfoldable pub owner_violations :
    List GoalDraft
    → Option NavigationRoute
    → NavigationRoute
    → Option GoalDraft
    → Result GraphError (List Violation)
unfolding below_root
owner_violations goals root route none = ok []
owner_violations goals root route (some owner) = do
  below ← below_root goals root route owner
  ok (when (not owner.user_visible) (owner_not_visible route.path owner.goal_id) ++ below)

unfoldable pub path_violations :
    List NavigationRoute → GoalDraft → AcceptanceTest → List String → String → List Violation
unfolding find_route
path_violations routes goal test allowed path = elim (find_route routes path) [
  | none ↦ undeclared_route goal.goal_id test.id path ∷ []
  | some r ↦ when (not (contains allowed r.owning_goal_id)) (future_route goal.goal_id test.id path)
]

abbrev pub test_violations :
    List NavigationRoute → GoalDraft → List String → AcceptanceTest → List Violation
test_violations routes goal allowed test =
    gather (path_violations routes goal test allowed) (sorted_set (referenced_paths test))

unfoldable pub goal_violations :
    List NavigationRoute → List GoalDraft → GoalDraft → Result GraphError (List Violation)
goal_violations routes goals goal = do
  ds ← transitive_dependencies goals goal.goal_id
  ok (gather (test_violations routes goal (goal.goal_id ∷ ds)) goal.acceptance.tests)

-- a `for` loop that appends to `violations` and may raise
pub collect {ℓ} :
    {A : Type ℓ}
    → (A → Result GraphError (List Violation))
    → List A
    → Result GraphError (List Violation)
collect f [] = ok []
collect f (x ∷ xs) = do vs ← f x; rest ← collect f xs; ok (vs ++ rest)

unfoldable pub current_violations :
    List NavigationRoute → List GoalDraft → Result GraphError (List Violation)
unfolding collect
current_violations routes goals = do
  owners ←
      collect
        (λ (r : NavigationRoute).
          owner_violations goals (find_root routes) r (find_goal goals r.owning_goal_id))
        routes
  references ← collect (goal_violations routes goals) goals
  ok (owners ++ references)

pub no_violations : List Violation → Result GraphError (Unit {0})
no_violations [] = ok tt
no_violations (v ∷ vs) = err (route_violations (v ∷ vs))

module _ (casefold : String → String) where
  unfoldable pub validate_route_manifest :
      ℕ → List NavigationRoute → List GoalDraft → Result GraphError (Unit {0})
  unfolding no_violations
  validate_route_manifest version routes goals =
      if eqb version legacy_schema_version
      then guard (is_empty routes) legacy_declares_routes
      else if is_empty routes
      then err no_routes
      else (do
        current ← (if eqb version schema_version then current_violations routes goals else ok [])
        no_violations (basic_violations casefold routes goals ++ current))
