-- ===== src/Settlement/Turn.antt =====
-- What a settled turn says about the workspace.
use fomo_demo.Prelude.{
  ℕ, String, true, false, not, ◌&&◌, ◌≡◌, refl, sym, ◌∙◌, ◌↔◌, List, [], ◌∷◌, ok, err, is_empty,
  contains, >>-eq-ok, ok_inj, not→false, and_left, and_right, eq_refl, Bool-cases, inr, inl,
}
use fomo_demo.Contracts.Order.{sorted_set, mem-sorted_set}
use fomo_demo.Settlement.{
  RuntimeTurnReceipt, TurnEffectPolicy, must_change, TurnSettlement, no_effect,
  settle_workspace_turn, no_effect_diagnostic, is_must_change,
}

-- a list without members
no_members :
    (xs ys : List String)
    → ((z : String) → contains xs z ≡ contains ys z)
    → is_empty xs ≡ is_empty ys
no_members [] [] h = refl
no_members [] (y ∷ ys) h = cc (h y, eq_refl y)
no_members (x ∷ xs) [] h = cc (h x, eq_refl x)
no_members (x ∷ xs) (y ∷ ys) h = refl

is_empty-sorted_set : (xs : List String) → is_empty (sorted_set xs) ≡ is_empty xs
is_empty-sorted_set xs = no_members (sorted_set xs) xs (mem-sorted_set xs)

must_change_eq : (p : TurnEffectPolicy) → is_must_change p ≡ true → p ≡ must_change
must_change_eq TurnEffectPolicy.must_change h = refl
must_change_eq _ h = cc

empty_eq : (xs : List String) → is_empty xs ≡ true → xs ≡ []
empty_eq [] h = refl
empty_eq (x ∷ xs) h = cc

module _ (str : ℕ → String) (receipt : RuntimeTurnReceipt) (paths : List String)
    (policy : TurnEffectPolicy) where
  -- A turn is refused exactly if its policy is that it must change the workspace and the server
  -- observed no changed path.
  pub settle_workspace_turn_refused :
      (settle_workspace_turn str receipt paths policy
        ≡ err (no_effect (no_effect_diagnostic str receipt)))
      ↔ ((policy ≡ must_change) × (paths ≡ []))
  unfolding settle_workspace_turn
  settle_workspace_turn_refused =
      let refused = is_must_change policy && is_empty (sorted_set paths) in
      (
        λ h. elim (Bool-cases refused) [
          | inr e ↦ cc (rw e at h)
          | inl e ↦ (
            must_change_eq policy (and_left (is_must_change policy) _ e),
            empty_eq paths
                (sym (is_empty-sorted_set paths) ∙ and_right (is_must_change policy) _ e),
          )
        ],
        λ h. rw (h.0, is_empty-sorted_set paths, h.1) refl,
      )

  -- An admitted turn reports exactly the paths that the server observed, and is a no-op exactly if
  -- there are none; a turn that must change the workspace is never a no-op.
  pub settle_workspace_turn_admitted :
      (s : TurnSettlement)
      → settle_workspace_turn str receipt paths policy ≡ ok s
      → ((p : String) → contains s.changed_paths p ≡ contains paths p)
        × (s.no_op ≡ is_empty paths)
        × ((is_must_change policy && s.no_op) ≡ false)
  unfolding settle_workspace_turn
  settle_workspace_turn_admitted s h =
      let (allowed, h') =
        >>-eq-ok (not (is_must_change policy && is_empty (sorted_set paths)))
          (no_effect (no_effect_diagnostic str receipt)) _ h in
      let same = sym (ok_inj h') in
      (
        rw same (mem-sorted_set paths),
        rw same (is_empty-sorted_set paths),
        rw same (not→false _ allowed),
      )
