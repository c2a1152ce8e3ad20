-- ===== src/Manager/Goals.antt =====
-- Changing the status of one goal of a list.
use fomo_demo.Prelude.{
  ℕ, ◌+◌, String, true, false, ◌≡◌, refl, inl, inr, List, [], ◌∷◌, contains, ◌∈◌, Distinct, keep,
  length, arith, eq_iff, if◌then◌else◌, ◌==◌, any, All, subset, eq_refl, In,
}
use fomo_demo.Graph.{Goal, GoalStatus, drafts, goal_ids}
use fomo_demo.Manager.{is_current, is_verified, current_goals, verified_ids, set_status}

abbrev pub ids : List Goal → List String
ids goals = goal_ids (drafts goals)

In-mem : (g : Goal) (gs : List Goal) → In g gs → g.goal_id ∈ ids gs
In-mem g [] m = absurd m
In-mem g (h ∷ gs) (inl e) = ground (arith, eq_iff h.goal_id g.goal_id)
In-mem g (h ∷ gs) (inr m) = ground (arith, In-mem g gs m)

pub apart :
    (g h : Goal) (gs : List Goal)
    → contains (ids gs) h.goal_id ≡ false
    → In g gs
    → (h.goal_id == g.goal_id) ≡ false
apart g h gs d m = ground (arith, In-mem g gs m, eq_iff h.goal_id g.goal_id)

pub drafts-set_status :
    (id : String) (t : GoalStatus) (gs : List Goal) → drafts (set_status id t gs) ≡ drafts gs
unfolding set_status
drafts-set_status id t [] = refl
drafts-set_status id t (g ∷ gs) = ground (arith, drafts-set_status id t gs)

pub legacy-set_status :
    (id : String) (t : GoalStatus) (gs : List Goal)
    → any (λ (g : Goal). g.legacy) (set_status id t gs) ≡ any (λ (g : Goal). g.legacy) gs
unfolding set_status
legacy-set_status id t [] = refl
legacy-set_status id t (g ∷ gs) = ground (arith, legacy-set_status id t gs)

no_match :
    (x : String) (gs : List Goal)
    → contains (ids gs) x ≡ false
    → keep (λ (h : Goal). h.goal_id == x) gs ≡ []
no_match x [] h = refl
no_match x (g ∷ gs) h = ground (arith, no_match x gs)

keep_head :
    (g : Goal) (gs : List Goal)
    → contains (ids gs) g.goal_id ≡ false
    → keep (λ (h : Goal). h.goal_id == g.goal_id) (g ∷ gs) ≡ g ∷ []
keep_head g gs d = rw (eq_refl g.goal_id, no_match g.goal_id gs d)

-- With distinct ids a goal of the list is the only one with its id.
pub keep_by_id :
    (g : Goal) (gs : List Goal)
    → Distinct (ids gs)
    → In g gs
    → keep (λ (h : Goal). h.goal_id == g.goal_id) gs ≡ g ∷ []
keep_by_id g [] d m = absurd m
keep_by_id g (h ∷ gs) d (inl e) = rw e (keep_head g gs (rw e at d.0))
keep_by_id g (h ∷ gs) d (inr m) = rw (apart g h gs d.0 m) (keep_by_id g gs d.1 m)

abbrev pub weight : GoalStatus → ℕ
weight s = if is_current s then 1 else 0

current_head :
    (g : Goal) (t : GoalStatus) (gs : List Goal)
    → length (current_goals (set_status g.goal_id t (g ∷ gs))) + weight g.status
      ≡ length (current_goals (g ∷ gs)) + weight t
unfolding set_status
current_head g t gs = rw (eq_refl g.goal_id) (ground arith)

-- The number of current goals changes by the status that is replaced and the one that is set.
pub current-set_status :
    (g : Goal) (t : GoalStatus) (gs : List Goal)
    → Distinct (ids gs)
    → In g gs
    → length (current_goals (set_status g.goal_id t gs)) + weight g.status
      ≡ length (current_goals gs) + weight t
unfolding set_status
current-set_status g t [] d m = absurd m
current-set_status g t (h ∷ gs) d (inl e) = rw e (current_head g t gs)
current-set_status g t (h ∷ gs) d (inr m) =
    rw (apart g h gs d.0 m) (ground (arith, current-set_status g t gs d.1 m))

verified_head :
    (g : Goal) (t : GoalStatus) (gs : List Goal) (x : String)
    → is_verified g.status ≡ false
    → x ∈ verified_ids (g ∷ gs)
    → x ∈ verified_ids (set_status g.goal_id t (g ∷ gs))
unfolding set_status
verified_head g t gs x n m = rw (eq_refl g.goal_id) (ground arith)

-- What is verified stays verified when another goal's status changes.
pub verified-set_status :
    (g : Goal) (t : GoalStatus) (gs : List Goal) (x : String)
    → Distinct (ids gs)
    → In g gs
    → is_verified g.status ≡ false
    → x ∈ verified_ids gs
    → x ∈ verified_ids (set_status g.goal_id t gs)
unfolding set_status
verified-set_status g t [] x d m n v = absurd m
verified-set_status g t (h ∷ gs) x d (inl e) n v = rw e (verified_head g t gs x n (rw e at v))
verified-set_status g t (h ∷ gs) x d (inr m) n v =
    rw (apart g h gs d.0 m) (ground (arith, verified-set_status g t gs x d.1 m n))

pub All-set_status :
    (P : Goal → Type 0) (g : Goal) (t : GoalStatus) (gs : List Goal)
    → Distinct (ids gs)
    → In g gs
    → P (record g { status = t })
    → All P gs
    → All P (set_status g.goal_id t gs)
unfolding set_status
All-set_status P g t [] d m h a = absurd m
All-set_status P g t (k ∷ gs) d (inl e) h a = rw e (rw (eq_refl g.goal_id) (h, a.1))
All-set_status P g t (k ∷ gs) d (inr m) h a =
    rw (apart g k gs d.0 m) (a.0, All-set_status P g t gs d.1 m h a.1)

pub All-In : (P : Goal → Type 0) (g : Goal) (gs : List Goal) → In g gs → All P gs → P g
All-In P g [] m a = absurd m
All-In P g (h ∷ gs) (inl e) a = rw e at a.0
All-In P g (h ∷ gs) (inr m) a = All-In P g gs m a.1

pub subset_mono :
    (xs ys zs : List String)
    → ((x : String) → x ∈ ys → x ∈ zs)
    → subset xs ys ≡ true
    → subset xs zs ≡ true
subset_mono [] ys zs h s = refl
subset_mono (x ∷ xs) ys zs h s = ground (arith, h x, subset_mono xs ys zs h)
