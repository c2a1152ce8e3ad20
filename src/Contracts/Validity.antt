-- ===== src/Contracts/Validity.antt =====
-- What the validators of direct_pi/contracts.py accept.
use mathlib.Core.List.{Perm}
use mathlib.Core.List.Perm
use fomo_demo.Prelude.{
  String, true, List, [], ◌∷◌, ◌≡◌, refl, eq_iff, arith, ok, unique, unique→Distinct, Distinct,
  >>-eq-ok, guard-eq-ok,
}
use fomo_demo.Contracts.{
  AcceptanceContract, criterion_ids, test_ids, tested_ids, same_texts, exact_test_per_criterion,
  duplicate_criteria, duplicate_tests, not_one_test_each,
}
use fomo_demo.Contracts.Order.{sorted, sorted-perm}

same_texts→eq : (xs ys : List String) → same_texts xs ys ≡ true → xs ≡ ys
same_texts→eq [] [] h = refl
same_texts→eq [] (y ∷ ys) h = cc
same_texts→eq (x ∷ xs) [] h = cc
same_texts→eq (x ∷ xs) (y ∷ ys) h = ground (arith, eq_iff x y, same_texts→eq xs ys)

pub record IsOneToOne (c : AcceptanceContract) : Type 0 where
  pub criteria_distinct : Distinct (criterion_ids c)
  pub tests_distinct : Distinct (test_ids c)
  pub one_test_each : Perm (criterion_ids c) (tested_ids c)

sorted_eq→perm : (xs ys : List String) → sorted xs ≡ sorted ys → Perm xs ys
sorted_eq→perm xs ys e = Perm.trans (Perm.symm (sorted-perm xs)) (rw e (sorted-perm ys))

-- A contract that the validator accepts has distinct criterion ids and distinct test ids, and the
-- criteria that its tests name are a permutation of its criteria: each criterion has one test.
pub exact_test_per_criterion-IsOneToOne :
    (c : AcceptanceContract) → exact_test_per_criterion c ≡ ok tt → IsOneToOne c
unfolding exact_test_per_criterion
exact_test_per_criterion-IsOneToOne c h =
    let (u1, h1) = >>-eq-ok (unique (criterion_ids c)) duplicate_criteria _ h in
    let (u2, h2) = >>-eq-ok (unique (test_ids c)) duplicate_tests _ h1 in
    let same = guard-eq-ok _ not_one_test_each h2 in
    record {
      criteria_distinct = unique→Distinct (criterion_ids c) u1;
      tests_distinct = unique→Distinct (test_ids c) u2;
      one_test_each = sorted_eq→perm (criterion_ids c) (tested_ids c) (same_texts→eq _ _ same);
    }
