-- ===== src/Graph/Dependencies/Closure.antt =====
-- `_transitive_dependencies` returns exactly the goals that can be reached over dependencies.
use fomo_demo.Prelude.{
  ℕ, zero, suc, String, ◌≡◌, refl, ap, ◌↔◌, ◌⊎◌, inl, inr, Option, none, some, List, [], ◌∷◌, ◌||◌,
  contains, ◌∈◌, arith, eq_iff, Option-cases, Bool-cases, ok,
}
use fomo_demo.Graph.{GoalDraft}
use fomo_demo.Graph.Dependencies.{
  find_goal, Search, extend, ancestors_of, visit, explore, begin, search_from, closure_of,
  transitive_dependencies, Edge, Reaches, direct, through,
}
use fomo_demo.Graph.Dependencies.Fuel.{pending_cases, search_from_ends}

mem-extend :
    (ds pending : List String) (x : String)
    → contains (extend ds pending) x ≡ (contains ds x || contains pending x)
unfolding extend
mem-extend [] pending x = refl
mem-extend (d ∷ ds) pending x = ground (arith, mem-extend ds (d ∷ pending) x)

mem-ancestors :
    (goals : List GoalDraft) (d : String) (rest : List String) (x : String)
    → x ∈ ancestors_of (find_goal goals d) rest
    → (x ∈ rest) ⊎ Edge goals d x
mem-ancestors goals d rest x m = go (find_goal goals d) refl m
  where
    go :
        (o : Option GoalDraft)
        → find_goal goals d ≡ o
        → x ∈ ancestors_of o rest
        → (x ∈ rest) ⊎ Edge goals d x
    go none e h = inl (unfold ancestors_of in h)
    go (some g) e h = elim (Bool-cases (contains g.depends_on x)) [
      | inl dep ↦ inr (g, e, dep)
      | inr not_dep ↦ inl (unfold ancestors_of in ground (arith, mem-extend g.depends_on rest x))
    ]

ancestors-mem :
    (goals : List GoalDraft) (d : String) (rest : List String) (x : String)
    → (x ∈ rest) ⊎ Edge goals d x
    → x ∈ ancestors_of (find_goal goals d) rest
unfolding ancestors_of
ancestors-mem goals d rest x (inr (g, e, dep)) =
    rw (e, ancestors_of) (ground (arith, mem-extend g.depends_on rest x))
ancestors-mem goals d rest x (inl m) = go (find_goal goals d)
  where
    go : (o : Option GoalDraft) → x ∈ ancestors_of o rest
    go none = m
    go (some g) = ground (arith, mem-extend g.depends_on rest x)

module _ (goals : List GoalDraft) (id : String) (g : GoalDraft)
    (found : find_goal goals id ≡ some g) where
  record Inv (s : Search) : Type 0 where
    sound_found : (x : String) → x ∈ s.discovered → Reaches goals id x
    sound_pending : (x : String) → x ∈ s.pending → Reaches goals id x
    start : (x : String) → x ∈ g.depends_on → (x ∈ s.discovered) ⊎ (x ∈ s.pending)
    closed :
        (u v : String) → u ∈ s.discovered → Edge goals u v → (v ∈ s.discovered) ⊎ (v ∈ s.pending)

  Inv-begin : Inv (begin g.depends_on)
  Inv-begin = record {
    sound_found = λ x m. cc;
    sound_pending = λ x m. direct (g, found, ground (arith, mem-extend g.depends_on [] x));
    start = λ x m. inr (ground (arith, mem-extend g.depends_on [] x));
    closed = λ u v m e. cc;
  }

  Inv-visit :
      (s : Search) (d : String) (rest : List String)
      → s.pending ≡ d ∷ rest
      → Inv s
      → Inv (visit goals s d rest)
  unfolding visit
  Inv-visit s d rest e h = elim (Bool-cases (contains s.discovered d)) [
    | inl old ↦ rw old (record {
      sound_found = h.sound_found;
      sound_pending = λ x m. h.sound_pending x (ground arith);
      start = λ x m. ground (arith, h.start x, eq_iff d x);
      closed = λ u v m edge. ground (arith, h.closed u v m edge, eq_iff d v);
    })
    | inr new ↦ rw new (record {
      sound_found = λ x m. reach_found x m;
      sound_pending = λ x m. reach_pending x m;
      start = λ x m. move x (h.start x m);
      closed = λ u v m edge. close u v m edge;
    })
  ]
    where
      reach_d : Reaches goals id d
      reach_d = h.sound_pending d (ground (arith, eq_iff d d))

      reach_found : (x : String) → x ∈ d ∷ s.discovered → Reaches goals id x
      reach_found x m = elim (Bool-cases (contains s.discovered x)) [
        | inl old ↦ h.sound_found x old
        | inr fresh ↦ let is_d : d ≡ x = ground (arith, eq_iff d x) in rw is_d at reach_d
      ]

      reach_pending : (x : String) → x ∈ ancestors_of (find_goal goals d) rest → Reaches goals id x
      reach_pending x m = elim (mem-ancestors goals d rest x m) [
        | inl r ↦ h.sound_pending x (ground arith)
        | inr edge ↦ through reach_d edge
      ]

      move :
          (x : String)
          → (x ∈ s.discovered) ⊎ (x ∈ s.pending)
          → (x ∈ d ∷ s.discovered) ⊎ (x ∈ ancestors_of (find_goal goals d) rest)
      move x (inl m) = inl (ground arith)
      move x (inr m) = elim (Bool-cases (contains rest x)) [
        | inl r ↦ inr (ancestors-mem goals d rest x (inl r))
        | inr r ↦ inl (ground (arith, eq_iff d x))
      ]

      close :
          (u v : String)
          → u ∈ d ∷ s.discovered
          → Edge goals u v
          → (v ∈ d ∷ s.discovered) ⊎ (v ∈ ancestors_of (find_goal goals d) rest)
      close u v m edge = elim (Bool-cases (contains s.discovered u)) [
        | inl old ↦ move v (h.closed u v old edge)
        | inr fresh ↦
            let is_d : d ≡ u = ground (arith, eq_iff d u) in
            inr (ancestors-mem goals d rest v (inr (rw is_d edge)))
      ]

  Inv-explore : (fuel : ℕ) (s : Search) → Inv s → Inv (explore goals fuel s)
  unfolding explore
  Inv-explore zero s h = h
  Inv-explore (suc fuel) s h = elim (pending_cases s.pending) [
    | inl e ↦ rw (e, explore) h
    | inr (d, rest, e) ↦
        rw (e, explore) (Inv-explore fuel (visit goals s d rest) (Inv-visit s d rest e h))
  ]

  settle :
      (s : Search) (x : String)
      → s.pending ≡ []
      → (x ∈ s.discovered) ⊎ (x ∈ s.pending)
      → x ∈ s.discovered
  settle s x e (inl m) = m
  settle s x e (inr m) = cc (ap (λ p. contains p x) e)

  complete :
      (s : Search) → Inv s → s.pending ≡ [] → {x : String} → Reaches goals id x → x ∈ s.discovered
  complete s h e (direct {b = x} (g', f, m)) =
      let same : g' ≡ g = cc in settle s x e (h.start x (rw same at m))
  complete s h e (through {b = u} {c = x} r edge) =
      settle s x e (h.closed u x (complete s h e r) edge)

  search_decides : (x : String) → (x ∈ (search_from goals g).discovered) ↔ Reaches goals id x
  search_decides x =
      let h = Inv-explore _ (begin g.depends_on) Inv-begin in
      (h.sound_found x, complete (search_from goals g) h (search_from_ends goals g))

-- For the id of a goal the call returns, and what it returns are exactly the ids that the goal
-- reaches over one dependency or more.
pub transitive_dependencies_decides :
    (goals : List GoalDraft) (id : String) (g : GoalDraft)
    → find_goal goals id ≡ some g
    → (ds : List String) × (transitive_dependencies goals id ≡ ok ds)
      × ((x : String) → (x ∈ ds) ↔ Reaches goals id x)
unfolding transitive_dependencies closure_of
transitive_dependencies_decides goals id g found =
    ((search_from goals g).discovered, rw (found, closure_of), search_decides goals id g found)

-- Whatever the call returns, it is the closure; it raises only for an id that no goal has.
pub transitive_dependencies-eq-ok :
    (goals : List GoalDraft) (id : String) (ds : List String)
    → transitive_dependencies goals id ≡ ok ds
    → (x : String) → (x ∈ ds) ↔ Reaches goals id x
unfolding transitive_dependencies closure_of
transitive_dependencies-eq-ok goals id ds h = elim (Option-cases (find_goal goals id)) [
  | inl e ↦ cc (rw (e, closure_of) at h)
  | inr (g, e) ↦
      let (ds', returns, decides) = transitive_dependencies_decides goals id g e in
      let same : ds' ≡ ds = cc in rw same at decides
]
