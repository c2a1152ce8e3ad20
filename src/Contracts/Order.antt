-- ===== src/Contracts/Order.antt =====
-- `sorted` on texts: by code points, as Python compares them, here as an insertion sort.
use Prim.Native.Char.{code}
use mathlib.Core.List.Perm
use mathlib.Core.List.{Perm}
use fomo_demo.Prelude.{
  String, Bool, true, false, ◌&&◌, ◌||◌, List, [], ◌∷◌, ltb, eqb, if◌then◌else◌, Bool-cases, inl,
  inr, ◌≡◌, contains, to_set, ◌∙◌, ◌==◌, arith, eq_iff, ap, refl,
}

-- `s <= t`
text_le : String → String → Bool
text_le String.[] t = true
text_le (String.◌∷◌ c s) String.[] = false
text_le (String.◌∷◌ c s) (String.◌∷◌ d t) =
    ltb (code c) (code d) || (eqb (code c) (code d) && text_le s t)

insert_sorted : String → List String → List String
insert_sorted x [] = x ∷ []
insert_sorted x (y ∷ ys) = if text_le x y then x ∷ y ∷ ys else y ∷ insert_sorted x ys

unfoldable pub sorted : List String → List String
unfolding insert_sorted text_le
sorted [] = []
sorted (x ∷ xs) = insert_sorted x (sorted xs)

-- `sorted(set(xs))`
unfoldable pub sorted_set : List String → List String
unfolding sorted
sorted_set xs = sorted (to_set xs)

insert_sorted-perm : (x : String) (xs : List String) → Perm (insert_sorted x xs) (x ∷ xs)
unfolding insert_sorted
insert_sorted-perm x [] = Perm.refl (x ∷ [])
insert_sorted-perm x (y ∷ ys) = elim (Bool-cases (text_le x y)) [
  | inl e ↦ rw e (Perm.refl (x ∷ y ∷ ys))
  | inr e ↦ rw e (Perm.trans (Perm.cons y (insert_sorted-perm x ys)) (Perm.swap x y ys))
]

-- `sorted` only reorders.
pub sorted-perm : (xs : List String) → Perm (sorted xs) xs
unfolding sorted
sorted-perm [] = Perm.refl []
sorted-perm (x ∷ xs) = Perm.trans (insert_sorted-perm x (sorted xs)) (Perm.cons x (sorted-perm xs))

mem-insert_sorted :
    (x : String) (xs : List String) (z : String)
    → contains (insert_sorted x xs) z ≡ (x == z || contains xs z)
unfolding insert_sorted
mem-insert_sorted x [] z = refl
mem-insert_sorted x (y ∷ ys) z = ground (arith, mem-insert_sorted x ys z)

mem-sorted : (xs : List String) (z : String) → contains (sorted xs) z ≡ contains xs z
unfolding sorted
mem-sorted [] z = refl
mem-sorted (x ∷ xs) z = mem-insert_sorted x (sorted xs) z ∙ ap (λ b. x == z || b) (mem-sorted xs z)

mem-to_set : (xs : List String) (z : String) → contains (to_set xs) z ≡ contains xs z
mem-to_set [] z = refl
mem-to_set (x ∷ xs) z = ground (arith, mem-to_set xs z, eq_iff x z)

pub mem-sorted_set : (xs : List String) (z : String) → contains (sorted_set xs) z ≡ contains xs z
unfolding sorted_set
mem-sorted_set xs z = mem-sorted (to_set xs) z ∙ mem-to_set xs z
