-- ===== src/Failures/Classify/Closed.antt =====
-- Whatever is classified or persisted, browsers get an entry of the public table.
use fomo_demo.Prelude.{
  ℕ, zero, suc, String, ◌≡◌, refl, inl, inr, Option, none, some, List, [], ◌∷◌, arith, Bool-cases,
  All, ◌==◌,
}
use fomo_demo.Failures.{PublicRunFailure}
use fomo_demo.Failures.Table.{
  public_failures, coding_agent_failed, bridge_failures, session_failures, orchestration_failures,
}
use fomo_demo.Failures.Classify.{
  ErrorClass, Store, or_else, get_or, next_error, was_seen, walk, classify_object, classify_one,
  classify_direct_pi_failure, public_bridge_failure, public_failure_for_code, by_code, lookup,
  lookup_optional, single_string_argument, Argument,
}

-- The public failure comes back from its code, as it does when a browser reads a persisted run.
abbrev pub IsCanonical : PublicRunFailure → Type 0
IsCanonical f = public_failure_for_code (some f.code) ≡ f

abbrev OptionIsCanonical : Option PublicRunFailure → Type 0
OptionIsCanonical none = Unit
OptionIsCanonical (some f) = IsCanonical f

All-IsCanonical : All IsCanonical public_failures
unfolding public_failure_for_code
All-IsCanonical = ground arith

bridge-IsCanonical : All (λ (r : String × PublicRunFailure). IsCanonical r.1) bridge_failures
unfolding public_failure_for_code
bridge-IsCanonical = ground arith

session-IsCanonical : All (λ (r : String × PublicRunFailure). IsCanonical r.1) session_failures
unfolding public_failure_for_code
session-IsCanonical = ground arith

orchestration-IsCanonical :
    All (λ (r : String × PublicRunFailure). IsCanonical r.1) orchestration_failures
unfolding public_failure_for_code
orchestration-IsCanonical = ground arith

lookup-IsCanonical :
    (table : List (String × PublicRunFailure)) (key : String)
    → All (λ (r : String × PublicRunFailure). IsCanonical r.1) table
    → OptionIsCanonical (lookup table key)
unfolding lookup
lookup-IsCanonical [] key a = tt
lookup-IsCanonical (r ∷ table) key a = elim (Bool-cases (r.0 == key)) [
  | inl e ↦ rw e a.0
  | inr e ↦ rw e (lookup-IsCanonical table key a.1)
]

lookup_optional-IsCanonical :
    (table : List (String × PublicRunFailure)) (key : Option String)
    → All (λ (r : String × PublicRunFailure). IsCanonical r.1) table
    → OptionIsCanonical (lookup_optional table key)
unfolding lookup_optional
lookup_optional-IsCanonical table none a = tt
lookup_optional-IsCanonical table (some key) a = lookup-IsCanonical table key a

by_code-IsCanonical :
    (table : List PublicRunFailure) (key : String)
    → All IsCanonical table
    → OptionIsCanonical (by_code table key)
unfolding by_code
by_code-IsCanonical [] key a = tt
by_code-IsCanonical (f ∷ table) key a = elim (Bool-cases (f.code == key)) [
  | inl e ↦ rw e a.0
  | inr e ↦ rw e (by_code-IsCanonical table key a.1)
]

or_else-IsCanonical :
    (a b : Option PublicRunFailure)
    → OptionIsCanonical a
    → OptionIsCanonical b
    → OptionIsCanonical (or_else a b)
or_else-IsCanonical none b x y = y
or_else-IsCanonical (some f) b x y = x

get_or-IsCanonical :
    (o : Option PublicRunFailure) → OptionIsCanonical o → IsCanonical (get_or o coding_agent_failed)
unfolding public_failure_for_code
get_or-IsCanonical none c = refl
get_or-IsCanonical (some f) c = c

classify_one-IsCanonical :
    (class : ErrorClass) (args : List Argument) → OptionIsCanonical (classify_one class args)
unfolding classify_one public_failure_for_code
classify_one-IsCanonical ErrorClass.inference_gateway args = refl
classify_one-IsCanonical (ErrorClass.workspace_contract repair) args = refl
classify_one-IsCanonical ErrorClass.planning_contract args = refl
classify_one-IsCanonical ErrorClass.capability_unavailable args = refl
classify_one-IsCanonical ErrorClass.no_effect args = refl
classify_one-IsCanonical ErrorClass.bridge_protocol args = refl
classify_one-IsCanonical (ErrorClass.bridge_failed code) args =
    lookup_optional-IsCanonical bridge_failures code bridge-IsCanonical
classify_one-IsCanonical ErrorClass.session args =
    lookup_optional-IsCanonical session_failures (single_string_argument args) session-IsCanonical
classify_one-IsCanonical ErrorClass.orchestration args =
    lookup_optional-IsCanonical orchestration_failures (single_string_argument args)
      orchestration-IsCanonical
classify_one-IsCanonical ErrorClass.other_error args = tt

walk-IsCanonical :
    (store : Store) (n : ℕ) (seen : List ℕ) (current : Option ℕ)
    → OptionIsCanonical (walk classify_object store n seen current)
unfolding walk
walk-IsCanonical store zero seen current = tt
walk-IsCanonical store (suc n) seen none = tt
walk-IsCanonical store (suc n) seen (some i) = elim (Bool-cases (was_seen seen i)) [
  | inl e ↦ rw e tt
  | inr e ↦ rw e (
      or_else-IsCanonical (classify_object (store i)) _
        (classify_one-IsCanonical (store i).class (store i).args)
        (walk-IsCanonical store n (i ∷ seen) (next_error (store i))))
]

-- Whatever exception is classified, in whatever chain of causes, and whatever code a bridge reports:
-- the failure that comes out is the one that its own code stands for when the run is read back, so
-- nothing of an exception's text and no unknown code reaches a browser.
pub classify-IsCanonical :
    (store : Store) (error : ℕ) (code : Option String)
    → IsCanonical (classify_direct_pi_failure store error)
      × IsCanonical (public_bridge_failure code)
unfolding classify_direct_pi_failure public_bridge_failure
classify-IsCanonical store error none =
    (get_or-IsCanonical _ (walk-IsCanonical store 8 [] (some error)), get_or-IsCanonical none tt)
classify-IsCanonical store error (some code) = (
  get_or-IsCanonical _ (walk-IsCanonical store 8 [] (some error)),
  get_or-IsCanonical _ (
      or_else-IsCanonical (by_code public_failures code) (lookup bridge_failures code)
        (by_code-IsCanonical public_failures code All-IsCanonical)
        (lookup-IsCanonical bridge_failures code bridge-IsCanonical)),
)
