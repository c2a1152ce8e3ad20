-- ===== src/Graph/Topology/Order.antt =====
-- An accepted list of goals is a topological order of its dependency relation.
use fomo_demo.Prelude.{
  String, true, not, ◌≡◌, refl, ◌↔◌, inl, inr, List, [], ◌∷◌, ok, contains, keep, is_empty, ◌∈◌,
  Distinct, unique, unique→Distinct, Distinct→unique, >>-eq-ok, arith, Bool-cases, eq_iff,
}
use fomo_demo.Graph.{GoalDraft, goal_ids, duplicate_goal_ids}
use fomo_demo.Graph.Topology.{topology_from, validate_goal_topology, unavailable}

-- Each goal's dependencies are among `seen` and the goals before it.
abbrev pub IsOrdered : List String → List GoalDraft → Type 0
IsOrdered seen [] = Unit
IsOrdered seen (g ∷ gs) =
    ((d : String) → d ∈ g.depends_on → d ∈ seen) × IsOrdered (g.goal_id ∷ seen) gs

none_missing :
    (seen ds : List String)
    → is_empty (keep (λ d. not (contains seen d)) ds) ≡ true
    → (d : String) → d ∈ ds
    → d ∈ seen
none_missing seen [] h d m = cc
none_missing seen (x ∷ ds) h d m = elim (Bool-cases (contains seen x)) [
  | inl have ↦ ground (arith, eq_iff x d, none_missing seen ds (ground arith) d)
  | inr miss ↦ ground arith
]

all_there :
    (seen ds : List String)
    → ((d : String) → d ∈ ds → d ∈ seen)
    → is_empty (keep (λ d. not (contains seen d)) ds) ≡ true
all_there seen [] h = refl
all_there seen (x ∷ ds) h =
    ground (arith, eq_iff x x, h x, all_there seen ds (λ d m. h d (ground arith)))

topology_from→IsOrdered :
    (seen : List String) (goals : List GoalDraft)
    → topology_from seen goals ≡ ok tt
    → IsOrdered seen goals
unfolding topology_from
topology_from→IsOrdered seen [] h = tt
topology_from→IsOrdered seen (g ∷ gs) h = elim (Bool-cases (is_empty (unavailable seen g))) [
  | inl e ↦
      (none_missing seen g.depends_on e, topology_from→IsOrdered (g.goal_id ∷ seen) gs (rw e at h))
  | inr e ↦ absurd (cc (rw e at h))
]

IsOrdered→topology_from :
    (seen : List String) (goals : List GoalDraft)
    → IsOrdered seen goals
    → topology_from seen goals ≡ ok tt
unfolding topology_from
IsOrdered→topology_from seen [] h = refl
IsOrdered→topology_from seen (g ∷ gs) h =
    rw (all_there seen g.depends_on h.0) (IsOrdered→topology_from (g.goal_id ∷ seen) gs h.1)

-- The check accepts exactly the lists with distinct ids in which every dependency of a goal is the
-- id of a goal that stands before it.
pub validate_goal_topology_iff :
    (goals : List GoalDraft)
    → (validate_goal_topology goals ≡ ok tt) ↔ (Distinct (goal_ids goals) × IsOrdered [] goals)
unfolding validate_goal_topology
validate_goal_topology_iff goals = (
  λ h.
      let (u, t) = >>-eq-ok (unique (goal_ids goals)) duplicate_goal_ids _ h in
      (unique→Distinct _ u, topology_from→IsOrdered [] goals t),
  λ h. rw (Distinct→unique (goal_ids goals) h.0) (IsOrdered→topology_from [] goals h.1),
)
