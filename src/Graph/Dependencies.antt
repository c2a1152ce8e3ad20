-- ===== src/Graph/Dependencies.antt =====
-- `_transitive_dependencies` of direct_pi/goalgraph.py: a worklist over the goals by id.
pub mod Fuel
pub mod Closure
pub mod Acyclic
use fomo_demo.Prelude.{
  ℕ, zero, suc, ◌+◌, String, Bool, true, false, ◌≡◌, Option, none, some, List, [], ◌∷◌, Result, ok,
  err, contains, ◌∈◌, length, if◌then◌else◌, ◌==◌,
}
use fomo_demo.Graph.{GoalDraft, GraphError, key_error}

-- `{goal.goal_id: goal for goal in goals}.get(id)`: of two goals with one id the later is kept.
unfoldable pub find_goal : List GoalDraft → String → Option GoalDraft
find_goal [] x = none
find_goal (g ∷ gs) x = elim (find_goal gs x) [
  | none ↦ if g.goal_id == x then some g else none
  | some later ↦ some later
]

-- The head of `pending` is the end of the Python list, from which `pop` takes.
pub record Search : Type 0 where
  pub discovered : List String
  pub pending : List String

-- `pending.extend(ds)`
pub extend : List String → List String → List String
extend [] pending = pending
extend (d ∷ ds) pending = extend ds (d ∷ pending)

pub ancestors_of : Option GoalDraft → List String → List String
unfolding extend
ancestors_of none pending = pending
ancestors_of (some ancestor) pending = extend ancestor.depends_on pending

-- one round, after `dependency` was popped
pub visit : List GoalDraft → Search → String → List String → Search
unfolding find_goal ancestors_of
visit goals s dependency rest =
    if contains s.discovered dependency
    then record { discovered = s.discovered; pending = rest }
    else record {
      discovered = dependency ∷ s.discovered;
      pending = ancestors_of (find_goal goals dependency) rest;
    }

pub explore : List GoalDraft → ℕ → Search → Search
unfolding visit
explore goals zero s = s
explore goals (suc fuel) s = elim s.pending [
  | [] ↦ s
  | dependency ∷ rest ↦ explore goals fuel (visit goals s dependency rest)
]

abbrev pub dependency_total : List GoalDraft → ℕ
dependency_total [] = 0
dependency_total (g ∷ gs) = length g.depends_on + dependency_total gs

abbrev pub begin : List String → Search
begin ds = record { discovered = []; pending = extend ds [] }

-- as many rounds as dependencies can be pushed
abbrev pub search_from : List GoalDraft → GoalDraft → Search
search_from goals g =
    explore goals (length g.depends_on + dependency_total goals) (begin g.depends_on)

closure_of : List GoalDraft → String → Option GoalDraft → Result GraphError (List String)
closure_of goals id none = err (key_error id)
closure_of goals id (some g) = ok (search_from goals g).discovered

unfoldable pub transitive_dependencies : List GoalDraft → String → Result GraphError (List String)
unfolding closure_of explore
transitive_dependencies goals id = closure_of goals id (find_goal goals id)

-- The goal with the one id names the other as a dependency; and the transitive closure of that.
abbrev pub Edge : List GoalDraft → String → String → Type 0
Edge goals a b = (g : GoalDraft) × (find_goal goals a ≡ some g) × (b ∈ g.depends_on)

pub data Reaches (goals : List GoalDraft) (a : String) : String → Type 0 where
  direct : {b : String} → Edge goals a b → Reaches goals a b
  through : {b c : String} → Reaches goals a b → Edge goals b c → Reaches goals a c
