-- ===== src/Manager/Progress.antt =====
-- The manager can always finish: goal by goal, in the order of the draft.
pub mod Cycle
pub mod Finish
use fomo_demo.Prelude.{
  ℕ, zero, suc, String, Bool, true, false, ◌≡◌, refl, ap, sym, ◌∙◌, ◌⊎◌, inl, inr, Option, none,
  Bool-cases, some, List, [], ◌∷◌, ◌++◌, ok, length, All, arith, map, contains, ◌∈◌, subset,
  Distinct, first, is_empty, eq_refl, if◌then◌else◌, ◌>>=◌, Result, eq_iff, all, ◌==◌, In,
}
use fomo_demo.Graph.{Goal, GoalDraft, GoalGraph, GoalStatus, GraphStatus, drafts, goal_ids}
use fomo_demo.Graph.Topology.Order.{IsOrdered}
use fomo_demo.Manager.{
  is_current, is_pending, current_goals, verified_ids, set_status, is_runnable, is_last,
  is_verified,
}

abbrev pub mk : Bool → GoalStatus → GoalDraft → Goal
mk b s g = record { draft = g; status = s; legacy = b }

module _ (b : Bool) where
  -- The goals before `g` are verified and those after it pending; `g` has the status.
  pub mid : List GoalDraft → GoalStatus → GoalDraft → List GoalDraft → List Goal
  mid [] s g post = mk b s g ∷ map (mk b GoalStatus.pending) post
  mid (p ∷ pre) s g post = mk b GoalStatus.verified p ∷ mid pre s g post

  -- no goal in between
  pub between : List GoalDraft → List GoalDraft → List Goal
  between [] post = map (mk b GoalStatus.pending) post
  between (p ∷ pre) post = mk b GoalStatus.verified p ∷ between pre post

  pub between_pending :
      (pre : List GoalDraft) (g : GoalDraft) (post : List GoalDraft)
      → between pre (g ∷ post) ≡ mid pre GoalStatus.pending g post
  unfolding between mid
  between_pending [] g post = refl
  between_pending (p ∷ pre) g post =
      ap (◌∷◌ (mk b GoalStatus.verified p)) (between_pending pre g post)

  pub between_verified :
      (pre : List GoalDraft) (g : GoalDraft) (post : List GoalDraft)
      → mid pre GoalStatus.verified g post ≡ between (pre ++ g ∷ []) post
  unfolding between mid
  between_verified [] g post = refl
  between_verified (p ∷ pre) g post =
      ap (◌∷◌ (mk b GoalStatus.verified p)) (between_verified pre g post)

  pub mid-In :
      (pre : List GoalDraft) (s : GoalStatus) (g : GoalDraft) (post : List GoalDraft)
      → In (mk b s g) (mid pre s g post)
  unfolding mid
  mid-In [] s g post = inl refl
  mid-In (p ∷ pre) s g post = inr (mid-In pre s g post)

  no_current_pending : (gs : List GoalDraft) → current_goals (map (mk b GoalStatus.pending) gs) ≡ []
  no_current_pending [] = refl
  no_current_pending (g ∷ gs) = no_current_pending gs

  pub current-mid :
      (pre : List GoalDraft) (s : GoalStatus) (g : GoalDraft) (post : List GoalDraft)
      → current_goals (mid pre s g post) ≡ (if is_current s then mk b s g ∷ [] else [])
  unfolding mid
  current-mid [] s g post = rw no_current_pending
  current-mid (p ∷ pre) s g post = current-mid pre s g post

  pub drafts-mid :
      (pre : List GoalDraft) (s : GoalStatus) (g : GoalDraft) (post : List GoalDraft)
      → drafts (mid pre s g post) ≡ pre ++ g ∷ post
  unfolding mid
  drafts-mid [] s g post = ap (◌∷◌ g) (drafts-pending post)
    where
      drafts-pending : (gs : List GoalDraft) → drafts (map (mk b GoalStatus.pending) gs) ≡ gs
      drafts-pending [] = refl
      drafts-pending (h ∷ gs) = ap (◌∷◌ h) (drafts-pending gs)
  drafts-mid (p ∷ pre) s g post = ap (◌∷◌ p) (drafts-mid pre s g post)

  not_before :
      (p : GoalDraft) (pre : List GoalDraft) (g : GoalDraft) (post : List GoalDraft)
      → contains (goal_ids (pre ++ g ∷ post)) p.goal_id ≡ false
      → (p.goal_id == g.goal_id) ≡ false
  not_before p [] g post h = ground (arith, eq_iff g.goal_id p.goal_id, eq_iff p.goal_id g.goal_id)
  not_before p (q ∷ pre) g post h = not_before p pre g post (ground arith)

  pub set-mid :
      (pre : List GoalDraft) (s t : GoalStatus) (g : GoalDraft) (post : List GoalDraft)
      → Distinct (goal_ids (pre ++ g ∷ post))
      → set_status g.goal_id t (mid pre s g post) ≡ mid pre t g post
  unfolding mid set_status
  set-mid [] s t g post d = rw (eq_refl g.goal_id)
  set-mid (p ∷ pre) s t g post d =
      rw (not_before p pre g post d.0)
        (ap (◌∷◌ (mk b GoalStatus.verified p)) (set-mid pre s t g post d.1))

  pending_not_last :
      (g h : GoalDraft) (gs : List GoalDraft) (s : GoalStatus)
      → contains (goal_ids (h ∷ gs)) g.goal_id ≡ false
      → is_last (map (mk b GoalStatus.pending) (h ∷ gs)) (mk b s g) ≡ false
  pending_not_last g h gs s d = ground arith

  -- `g` is the last goal to verify exactly if none comes after it.
  pub last-mid :
      (pre : List GoalDraft) (s : GoalStatus) (g : GoalDraft) (post : List GoalDraft)
      → Distinct (goal_ids (pre ++ g ∷ post))
      → is_last (mid pre s g post) (mk b s g) ≡ is_empty post
  unfolding mid
  last-mid [] s g [] d = rw (eq_refl g.goal_id)
  last-mid [] s g (h ∷ post) d = rw (eq_refl g.goal_id) (pending_not_last g h post s d.0)
  last-mid (p ∷ pre) s g post d = ground (arith, last-mid pre s g post d.1)

  pub first-mid :
      (all_goals : List Goal) (pre : List GoalDraft) (g : GoalDraft) (post : List GoalDraft)
      → subset g.depends_on (verified_ids all_goals) ≡ true
      → first (is_runnable all_goals) (mid pre GoalStatus.pending g post)
        ≡ some (mk b GoalStatus.pending g)
  unfolding mid is_runnable
  first-mid all_goals [] g post h = rw h refl
  first-mid all_goals (p ∷ pre) g post h = first-mid all_goals pre g post h

  verified-mid :
      (pre : List GoalDraft) (s : GoalStatus) (g : GoalDraft) (post : List GoalDraft) (x : String)
      → x ∈ goal_ids pre
      → x ∈ verified_ids (mid pre s g post)
  unfolding mid
  verified-mid [] s g post x m = cc
  verified-mid (p ∷ pre) s g post x m = ground (arith, verified-mid pre s g post x)

  pub all_verified :
      (pre : List GoalDraft) → all (λ (g : Goal). is_verified g.status) (between pre []) ≡ true
  unfolding between
  all_verified [] = refl
  all_verified (p ∷ pre) = all_verified pre

-- The dependencies of a goal of an ordered list stand before it.
deps_before :
    (seen : List String) (pre : List GoalDraft) (g : GoalDraft) (post : List GoalDraft) (d : String)
    → IsOrdered seen (pre ++ g ∷ post)
    → d ∈ g.depends_on
    → (d ∈ seen) ⊎ (d ∈ goal_ids pre)
deps_before seen [] g post d o m = inl (o.0 d m)
deps_before seen (p ∷ pre) g post d o m = elim (deps_before (p.goal_id ∷ seen) pre g post d o.1 m) [
  | inr later ↦ inr (ground arith)
  | inl now ↦ elim (Bool-cases (p.goal_id == d)) [
    | inl e ↦ inr (ground arith)
    | inr e ↦ inl (ground arith)
  ]
]

subset_all : (ds ys : List String) → ((d : String) → d ∈ ds → d ∈ ys) → subset ds ys ≡ true
subset_all [] ys h = refl
subset_all (x ∷ ds) ys h =
    ground (arith, h x, eq_refl x, subset_all ds ys (λ d m. h d (ground arith)))

-- If the goals before it are verified, so are the dependencies of the goal.
pub deps_verified :
    (b : Bool) (pre : List GoalDraft) (s : GoalStatus) (g : GoalDraft) (post : List GoalDraft)
    → IsOrdered [] (pre ++ g ∷ post)
    → subset g.depends_on (verified_ids (mid b pre s g post)) ≡ true
deps_verified b pre s g post o = subset_all g.depends_on _ (λ d m.
    elim (deps_before [] pre g post d o m) [ inl e ↦ cc | inr e ↦ verified-mid b pre s g post d e ])
