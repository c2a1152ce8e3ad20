-- ===== src/Contracts.antt =====
-- The acceptance DSL of direct_pi/contracts.py: its data, and the validators of its models.
pub mod Syntax
pub mod Order
pub mod Validity
pub mod Paths
use Order.{sorted}
use Syntax.{allowed_roles}
use fomo_demo.Prelude.{
  ℕ, String, Bool, true, false, not, ◌&&◌, ◌||◌, Option, none, some, List, [], ◌∷◌, map, ◌==◌,
  Result, ok, err, guard, ◌>>◌, unique, contains, is_some, is_blank,
}

pub data LocatorBy : Type 0 where
  role label text : LocatorBy

pub record Locator : Type 0 where
  pub by : LocatorBy
  pub value : String
  pub name : Option String

pub data Action : Type 0 where
  goto : String → Action
  click : Locator → Action
  fill : Locator → String → Action
  select : Locator → String → Action
  reload back forward : Action
  set_viewport : ℕ → ℕ → Action
  history_roundtrip : String → String → Action

-- `VisibleAssertion` has two kinds.
pub data Assertion : Type 0 where
  visible not_visible : Locator → Assertion
  value : Locator → String → Assertion
  url : String → Assertion

pub data Priority : Type 0 where
  must should : Priority

pub record AcceptanceItem : Type 0 where
  pub id : String
  pub title : String
  pub priority : Priority
  pub given_text : String
  pub when_text : String
  pub then_text : String

pub record AcceptanceTest : Type 0 where
  pub id : String
  pub acceptance_id : String
  pub title : String
  pub actions : List Action
  pub assertions : List Assertion

pub record AcceptanceContract : Type 0 where
  pub criteria : List AcceptanceItem
  pub tests : List AcceptanceTest

pub data ContractError : Type 0 where
  role_requires_name only_role_has_name history_not_distinct : ContractError
  duplicate_criteria duplicate_tests not_one_test_each : ContractError

-- `not self.name`: absent or empty
has_name : Option String → Bool
has_name none = false
has_name (some n) = not (is_blank n)

unfoldable pub valid_locator : Locator → Result ContractError (Unit {0})
unfolding has_name
valid_locator l = elim l.by [
  | role ↦ guard (contains allowed_roles l.value && has_name l.name) role_requires_name
  | _ ↦ guard (not (is_some l.name)) only_role_has_name
]

distinct_history_locations : String → String → Result ContractError (Unit {0})
distinct_history_locations back_path forward_path =
    guard (not (back_path == forward_path)) history_not_distinct

abbrev pub criterion_ids : AcceptanceContract → List String
criterion_ids c = map (λ (i : AcceptanceItem). i.id) c.criteria

abbrev pub test_ids : AcceptanceContract → List String
test_ids c = map (λ (t : AcceptanceTest). t.id) c.tests

abbrev pub tested_ids : AcceptanceContract → List String
tested_ids c = map (λ (t : AcceptanceTest). t.acceptance_id) c.tests

-- `==` of lists of texts
abbrev pub same_texts : List String → List String → Bool
same_texts [] [] = true
same_texts (x ∷ xs) (y ∷ ys) = x == y && same_texts xs ys
same_texts _ _ = false

unfoldable pub exact_test_per_criterion : AcceptanceContract → Result ContractError (Unit {0})
exact_test_per_criterion c = do
  guard (unique (criterion_ids c)) duplicate_criteria
  guard (unique (test_ids c)) duplicate_tests
  guard (same_texts (sorted (criterion_ids c)) (sorted (tested_ids c))) not_one_test_each
