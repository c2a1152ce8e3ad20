-- ===== src/Failures/Classify/Chain.antt =====
-- The bounded walk over a chain of causes: the set of seen objects never changes its result.
use fomo_demo.Prelude.{
  ℕ, zero, suc, true, ◌≡◌, refl, ap, sym, ◌⊎◌, inl, inr, Option, none, some, List, [], ◌∷◌, arith,
  Bool-cases, Option-cases, eqb,
}
use fomo_demo.Failures.{PublicRunFailure}
use fomo_demo.Failures.Table.{coding_agent_failed}
use fomo_demo.Failures.Classify.{
  ErrorObject, Store, or_else, get_or, next_error, was_seen, walk, classify_object,
  classify_direct_pi_failure,
}

module _ {A : Type 0} (f : ErrorObject → Option A) (store : Store) where
  -- The value at the first of `n` errors of the chain that has one; an error may come up twice.
  abbrev pub first_of_chain : ℕ → Option ℕ → Option A
  first_of_chain zero current = none
  first_of_chain (suc n) none = none
  first_of_chain (suc n) (some i) = or_else (f (store i)) (first_of_chain n (next_error (store i)))

  -- Every object of the set was passed over, and leads to the current one or into the set.
  abbrev Passed : List ℕ → Option ℕ → Type 0
  Passed seen current =
      (i : ℕ)
      → was_seen seen i ≡ true
      → (f (store i) ≡ none)
        × ((next_error (store i) ≡ current)
            ⊎ ((j : ℕ) × (next_error (store i) ≡ some j) × (was_seen seen j ≡ true)))

  -- A chain that has come back to the set stays in it.
  trapped :
      (n : ℕ) (seen : List ℕ) (i k : ℕ)
      → Passed seen (some i)
      → was_seen seen i ≡ true
      → was_seen seen k ≡ true
      → first_of_chain n (some k) ≡ none
  trapped zero seen i k p h m = refl
  trapped (suc n) seen i k p h m =
      let (nothing, leads) = p k m in
      elim leads [
        | inl e ↦ rw (nothing, e) (trapped n seen i i p h h)
        | inr (j, e, m') ↦ rw (nothing, e) (trapped n seen i j p h m')
      ]

  Passed-more :
      (seen : List ℕ) (i : ℕ)
      → Passed seen (some i)
      → f (store i) ≡ none
      → Passed (i ∷ seen) (next_error (store i))
  Passed-more seen i p nothing k m = elim (Bool-cases (eqb i k)) [
    | inl e ↦ let same : i ≡ k = ground arith in rw (sym same) (nothing, inl refl)
    | inr e ↦
        let (nothing', leads) = p k (ground arith) in
        elim leads [
          | inl l ↦ (nothing', inr (i, l, ground arith))
          | inr (j, l, m') ↦ (nothing', inr (j, l, ground arith))
        ]
  ]

  walk-first :
      (n : ℕ) (seen : List ℕ) (current : Option ℕ)
      → Passed seen current
      → walk f store n seen current ≡ first_of_chain n current
  unfolding walk
  walk-first zero seen current p = refl
  walk-first (suc n) seen none p = refl
  walk-first (suc n) seen (some i) p = elim (Bool-cases (was_seen seen i)) [
    | inl h ↦ rw h (sym (trapped (suc n) seen i i p h h))
    | inr h ↦ rw h (elim (Option-cases (f (store i))) [
      | inr (a, e) ↦ rw e refl
      | inl e ↦ rw e (walk-first n (i ∷ seen) (next_error (store i)) (Passed-more seen i p e))
    ])
  ]

-- The class of an exception is decided by the first of the eight nearest exceptions of its chain of
-- causes and contexts that the code recognises, whether or not the chain runs into a cycle: if none
-- of them is recognised, the failure is the generic one.
pub classify_direct_pi_failure-first :
    (store : Store) (error : ℕ)
    → classify_direct_pi_failure store error
      ≡ get_or (first_of_chain classify_object store 8 (some error)) coding_agent_failed
unfolding classify_direct_pi_failure
classify_direct_pi_failure-first store error =
    ap (λ (o : Option PublicRunFailure). get_or o coding_agent_failed)
      (walk-first classify_object store 8 [] (some error) (λ i m. cc))
