-- ===== src/Graph/Keys.antt =====
-- The durable keys and test paths of direct_pi/goalgraph.py. `strip` is Python's `str.strip`, which
-- the `Identifier` adapter applies before it matches.
pub mod Injective
use Prim.Native.String.{◌++◌}
use fomo_demo.Prelude.{
  String, List, [], ◌∷◌, map, Result, ok, err, guard, ◌>>=◌, ◌>>◌, unique, eqb, if◌then◌else◌, ℕ,
}
use fomo_demo.Contracts.{AcceptanceContract, AcceptanceTest, AcceptanceItem, test_ids}
use fomo_demo.Contracts.Syntax.{is_identifier}
use fomo_demo.Graph.{
  GoalDraft, GraphError, unsafe_identifier, unsupported_suite, duplicate_test_ids, suite_version,
}

-- `ScopedAcceptanceContract`; its dictionaries are lists of pairs.
pub record ScopedAcceptanceContract : Type 0 where
  pub goal_id : String
  pub contract : AcceptanceContract
  pub acceptance_key_by_id : List (String × String)
  pub test_path_by_test_id : List (String × String)

module _ (strip : String → String) where
  -- `_identifier`
  pub safe_identifier : String → Result GraphError String
  safe_identifier value =
      if is_identifier (strip value) then ok (strip value) else err unsafe_identifier

  unfoldable pub acceptance_persistence_key : String → String → Result GraphError String
  unfolding safe_identifier
  acceptance_persistence_key goal_id acceptance_id = do
    safe_goal_id ← safe_identifier goal_id
    safe_acceptance_id ← safe_identifier acceptance_id
    ok (safe_goal_id ++ ":" ++ safe_acceptance_id)

  unfoldable pub acceptance_test_path : String → String → Result GraphError String
  unfolding safe_identifier
  acceptance_test_path goal_id test_id = do
    safe_goal_id ← safe_identifier goal_id
    safe_test_id ← safe_identifier test_id
    ok ("tests/fomo-acceptance" ++ "/" ++ safe_goal_id ++ "/" ++ safe_test_id ++ ".smoke.spec.ts")

  unfoldable pub navigation_evidence_key : ℕ → String → Result GraphError String
  unfolding safe_identifier
  navigation_evidence_key version test_id = do
    guard (eqb version suite_version) unsupported_suite
    safe_id ← safe_identifier test_id
    ok ("__fomo_navigation_v1" ++ ":" ++ safe_id)

  paths_of : String → List AcceptanceTest → Result GraphError (List (String × String))
  paths_of goal_id [] = ok []
  paths_of goal_id (t ∷ ts) = do
    path ← acceptance_test_path goal_id t.id
    rest ← paths_of goal_id ts
    ok ((t.id, path) ∷ rest)

  acceptance_test_paths : String → List AcceptanceTest → Result GraphError (List (String × String))
  unfolding paths_of
  acceptance_test_paths goal_id tests = do
    paths ← paths_of goal_id tests
    guard (unique (map (λ (t : AcceptanceTest). t.id) tests)) duplicate_test_ids
    ok paths

  keys_of : String → List AcceptanceItem → Result GraphError (List (String × String))
  keys_of goal_id [] = ok []
  keys_of goal_id (i ∷ is) = do
    key ← acceptance_persistence_key goal_id i.id
    rest ← keys_of goal_id is
    ok ((i.id, key) ∷ rest)

  -- `scope_acceptance_contract` of a goal
  unfoldable pub scope_acceptance_contract : GoalDraft → Result GraphError ScopedAcceptanceContract
  unfolding keys_of acceptance_test_paths
  scope_acceptance_contract goal = do
    keys ← keys_of goal.goal_id goal.acceptance.criteria
    paths ← acceptance_test_paths goal.goal_id goal.acceptance.tests
    ok (record {
      goal_id = goal.goal_id;
      contract = goal.acceptance;
      acceptance_key_by_id = keys;
      test_path_by_test_id = paths;
    })
