-- ===== src/Graph/Dependencies/Fuel.antt =====
-- The worklist empties within the rounds that it is given.
use fomo_demo.Prelude.{
  ℕ, zero, suc, ◌+◌, ◌≤◌, String, false, ◌≡◌, refl, ap, Option, none, some, List, [], ◌∷◌, contains,
  length, if◌then◌else◌, arith, eq_iff, Bool-cases, inl, inr, ◌⊎◌,
}
use fomo_demo.Graph.{GoalDraft}
use fomo_demo.Graph.Dependencies.{
  find_goal, Search, extend, ancestors_of, visit, explore, dependency_total, begin, search_from,
}

length-extend : (ds pending : List String) → length (extend ds pending) ≡ length ds + length pending
unfolding extend
length-extend [] pending = omega arith
length-extend (d ∷ ds) pending = omega (arith, length-extend ds (d ∷ pending))

-- the dependencies of the goals that are not discovered
unexplored : List String → List GoalDraft → ℕ
unexplored found [] = 0
unexplored found (g ∷ gs) =
    (if contains found g.goal_id then 0 else length g.depends_on) + unexplored found gs

size_of : Option GoalDraft → ℕ
size_of none = 0
size_of (some g) = length g.depends_on

unexplored_mono :
    (found : List String) (d : String) (goals : List GoalDraft)
    → unexplored (d ∷ found) goals ≤ unexplored found goals
unfolding unexplored
unexplored_mono found d [] = omega arith
unexplored_mono found d (g ∷ gs) = ground (arith, unexplored_mono found d gs)

unexplored-visit :
    (found : List String) (d : String) (goals : List GoalDraft)
    → contains found d ≡ false
    → unexplored (d ∷ found) goals + size_of (find_goal goals d) ≤ unexplored found goals
unfolding unexplored size_of find_goal
unexplored-visit found d [] h = omega arith
unexplored-visit found d (g ∷ gs) h = ground (
  arith,
  unexplored-visit found d gs h,
  unexplored_mono found d gs,
  eq_iff g.goal_id d,
  eq_iff d g.goal_id,
)

unexplored-total : (goals : List GoalDraft) → unexplored [] goals ≤ dependency_total goals
unfolding unexplored
unexplored-total [] = omega arith
unexplored-total (g ∷ gs) = omega (arith, unexplored-total gs)

work : List GoalDraft → Search → ℕ
work goals s = length s.pending + unexplored s.discovered goals

length-ancestors_of :
    (o : Option GoalDraft) (rest : List String)
    → length (ancestors_of o rest) ≡ size_of o + length rest
unfolding ancestors_of size_of
length-ancestors_of none rest = omega arith
length-ancestors_of (some g) rest = length-extend g.depends_on rest

visit-work :
    (goals : List GoalDraft) (s : Search) (d : String) (rest : List String)
    → s.pending ≡ d ∷ rest
    → suc (work goals (visit goals s d rest)) ≤ work goals s
unfolding work visit
visit-work goals s d rest e = elim (Bool-cases (contains s.discovered d)) [
  | inl old ↦ rw old (omega (arith, ap length e))
  | inr new ↦ rw new (
      omega (
        arith,
        ap length e,
        length-ancestors_of (find_goal goals d) rest,
        unexplored-visit s.discovered d goals new,
      ))
]

pub pending_cases :
    (xs : List String) → (xs ≡ []) ⊎ ((x : String) × (rest : List String) × (xs ≡ x ∷ rest))
pending_cases [] = inl refl
pending_cases (x ∷ xs) = inr (x, xs, refl)

explore_ends :
    (goals : List GoalDraft) (fuel : ℕ) (s : Search)
    → work goals s ≤ fuel
    → (explore goals fuel s).pending ≡ []
unfolding explore work
explore_ends goals zero s h = ground arith
explore_ends goals (suc fuel) s h = elim (pending_cases s.pending) [
  | inl e ↦ rw (e, explore) e
  | inr (d, rest, e) ↦
      rw (e, explore)
        (explore_ends goals fuel (visit goals s d rest)
          (omega (arith, visit-work goals s d rest e)))
]

-- With the rounds that `search_from` gives it, the worklist empties.
pub search_from_ends : (goals : List GoalDraft) (g : GoalDraft) → (search_from goals g).pending ≡ []
unfolding work
search_from_ends goals g =
    explore_ends goals _ (begin g.depends_on)
      (omega (arith, length-extend g.depends_on [], unexplored-total goals))
