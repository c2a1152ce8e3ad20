-- ===== src/Graph/Dependencies/Acyclic.antt =====
-- A topological order has no dependency cycle.
use fomo_demo.Prelude.{
  ℕ, suc, ◌<◌, String, false, ◌≡◌, ◌⊎◌, inl, inr, some, List, [], ◌∷◌, ◌∈◌, arith, eq_iff, ok,
  Distinct, ◌==◌, if◌then◌else◌, Option-cases,
}
use fomo_demo.Graph.{GoalDraft, goal_ids}
use fomo_demo.Graph.Topology.{validate_goal_topology}
use fomo_demo.Graph.Topology.Order.{IsOrdered, validate_goal_topology_iff}
use fomo_demo.Graph.Dependencies.{find_goal, Edge, Reaches, direct, through}

-- the place of an id in the list
rank : List GoalDraft → String → ℕ
rank [] x = 0
rank (g ∷ gs) x = if g.goal_id == x then 0 else suc (rank gs x)

pub find_goal-mem :
    (goals : List GoalDraft) (x : String) (g : GoalDraft)
    → find_goal goals x ≡ some g
    → x ∈ goal_ids goals
unfolding find_goal
find_goal-mem [] x g h = cc
find_goal-mem (k ∷ gs) x g h = elim (Option-cases (find_goal gs x)) [
  | inl e ↦ ground (arith, eq_iff k.goal_id x)
  | inr (j, e) ↦ ground (arith, find_goal-mem gs x j e)
]

pub find_goal-id :
    (goals : List GoalDraft) (x : String) (g : GoalDraft)
    → find_goal goals x ≡ some g
    → g.goal_id ≡ x
unfolding find_goal
find_goal-id [] x g h = cc
find_goal-id (k ∷ gs) x g h = elim (Option-cases (find_goal gs x)) [
  | inl e ↦ ground (arith, eq_iff k.goal_id x)
  | inr (j, e) ↦ find_goal-id gs x g (ground arith)
]

earlier :
    (seen : List String) (goals : List GoalDraft)
    → IsOrdered seen goals
    → Distinct (goal_ids goals)
    → (a b : String) → Edge goals a b
    → (b ∈ seen) ⊎ (rank goals b < rank goals a)
unfolding find_goal rank
earlier seen [] o d a b (g, f, m) = cc
earlier seen (k ∷ gs) o d a b (g, f, m) = elim (Option-cases (find_goal gs a)) [
  | inl e ↦ let same : k ≡ g = ground (arith, eq_iff k.goal_id a) in inl (o.0 b (rw (← same) at m))
  | inr (j, e) ↦
      let later = find_goal-mem gs a j e in
      let apart : (k.goal_id == a) ≡ false = ground (arith, eq_iff k.goal_id a) in
      ground
        (arith, eq_iff k.goal_id b, earlier (k.goal_id ∷ seen) gs o.1 d.1 a b (j, e, ground arith))
]

module _ (goals : List GoalDraft) (valid : validate_goal_topology goals ≡ ok tt) where
  Edge-falls : (a b : String) → Edge goals a b → rank goals b < rank goals a
  Edge-falls a b edge =
      let (distinct, ordered) = (validate_goal_topology_iff goals).0 valid in
      elim (earlier [] goals ordered distinct a b edge) [ inl m ↦ cc | inr h ↦ h ]

  reach_falls : {a b : String} → Reaches goals a b → rank goals b < rank goals a
  reach_falls {a} (direct {b} e) = Edge-falls a b e
  reach_falls (through {b} {c} r e) = omega (arith, reach_falls r, Edge-falls b c e)

  -- In an accepted list no goal depends on itself, over however many dependencies.
  pub acyclic : (id : String) → ¬ Reaches goals id id
  acyclic id r = omega (arith, reach_falls r)
