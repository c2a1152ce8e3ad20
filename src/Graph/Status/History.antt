-- ===== src/Graph/Status/History.antt =====
-- Which statuses a goal can pass through.
use fomo_demo.Prelude.{◌≡◌, ◌≢◌, refl, ok, ◌⊎◌, inl, inr}
use fomo_demo.Graph.{GoalStatus}
use fomo_demo.Graph.Status.{transition_goal_status}

-- One accepted call of `transition_goal_status`, and a run of such calls.
pub data Steps : GoalStatus → GoalStatus → Type 0 where
  here : (s : GoalStatus) → Steps s s
  step : {s t u : GoalStatus} → transition_goal_status s t ≡ ok t → Steps t u → Steps s u

-- A run goes through the status.
abbrev pub Visits : GoalStatus → {s t : GoalStatus} → Steps s t → Type 0
Visits x (here s) = s ≡ x
Visits x (step {s} e r) = (s ≡ x) ⊎ Visits x r

abbrev pub IsFinal : GoalStatus → Type 0
IsFinal GoalStatus.verified = Unit
IsFinal GoalStatus.failed = Unit
IsFinal GoalStatus.superseded = Unit
IsFinal _ = ⊥

final_step : (s t : GoalStatus) → IsFinal s → transition_goal_status s t ≢ ok t
unfolding transition_goal_status
final_step GoalStatus.pending t h e = absurd h
final_step GoalStatus.active t h e = absurd h
final_step GoalStatus.claimed t h e = absurd h
final_step _ t h e = cc

into_verified :
    (s : GoalStatus)
    → transition_goal_status s GoalStatus.verified ≡ ok GoalStatus.verified
    → s ≡ GoalStatus.claimed
unfolding transition_goal_status
into_verified GoalStatus.claimed e = refl
into_verified _ e = cc

into_claimed :
    (s : GoalStatus)
    → transition_goal_status s GoalStatus.claimed ≡ ok GoalStatus.claimed
    → s ≡ GoalStatus.active
unfolding transition_goal_status
into_claimed GoalStatus.active e = refl
into_claimed _ e = cc

-- A goal that has a final status keeps it.
pub Steps-final : {s t : GoalStatus} → IsFinal s → Steps s t → t ≡ s
Steps-final f (here s) = refl
Steps-final f (step {s} {t} e r) = absurd (final_step s t f e)

verified_cases : (s : GoalStatus) → (s ≡ GoalStatus.verified) ⊎ (s ≢ GoalStatus.verified)
verified_cases GoalStatus.verified = inl refl
verified_cases GoalStatus.pending = inr (λ e. cc)
verified_cases _ = inr (λ e. cc)

Visits-start : (x : GoalStatus) {s t : GoalStatus} (r : Steps s t) → s ≡ x → Visits x r
Visits-start x (here s) e = e
Visits-start x (step a r) e = inl e

Visits-claimed :
    {s t : GoalStatus} (r : Steps s t)
    → s ≢ GoalStatus.verified
    → t ≡ GoalStatus.verified
    → Visits GoalStatus.claimed r
Visits-claimed (here s) n e = absurd (n e)
Visits-claimed (step {s} {t} a r) n e = elim (verified_cases t) [
  | inl v ↦ inl (into_verified s (rw v at a))
  | inr m ↦ inr (Visits-claimed r m e)
]

from_pending :
    (t : GoalStatus)
    → transition_goal_status GoalStatus.pending t ≡ ok t
    → (t ≡ GoalStatus.active) ⊎ (t ≡ GoalStatus.superseded)
unfolding transition_goal_status
from_pending GoalStatus.active e = inl refl
from_pending GoalStatus.superseded e = inr refl
from_pending _ e = cc

Visits-active :
    {s t : GoalStatus} (r : Steps s t)
    → s ≡ GoalStatus.pending
    → t ≡ GoalStatus.verified
    → Visits GoalStatus.active r
Visits-active (here s) p e = cc
Visits-active (step {s} {t} {u} a r) p e = elim (from_pending t (rw p at a)) [
  | inl m ↦ inr (Visits-start GoalStatus.active r m)
  | inr m ↦ absurd (cc (Steps-final (rw m tt) r))
]

-- A goal that went from pending to verified was active and was claimed on the way.
pub pending_to_verified :
    (r : Steps GoalStatus.pending GoalStatus.verified)
    → Visits GoalStatus.active r × Visits GoalStatus.claimed r
pending_to_verified r = (Visits-active r refl refl, Visits-claimed r (λ e. cc) refl)
