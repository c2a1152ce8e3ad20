-- ===== src/Prelude/Sets.antt =====
-- Python sets of texts, as lists that are only asked for membership.
use Prim.Native.Nat.{◌≤◌}
use Prim.Native.String.{String}
use mathlib.Core.Path.{◌≡◌, refl}
use mathlib.Core.Logic.{inl, inr}
use mathlib.Core.Bool.{Bool, true, false, ◌||◌}
use mathlib.Core.List.{List, [], ◌∷◌, ◌++◌}
use native.Mathlib.Omega.{arith}
use text.Mathlib.Text.{◌==◌}
use text.Mathlib.TextEquality.{eq_iff}
use fomo_demo.Prelude.Tests.{eqb, if◌then◌else◌, Bool-cases}
use fomo_demo.Prelude.Lists.{length, all, All}

-- `x in xs`
abbrev pub contains : List String → String → Bool
contains [] x = false
contains (y ∷ ys) x = y == x || contains ys x

infix 50 ◌∈◌
abbrev pub ◌∈◌ : String → List String → Type 0
x ∈ xs = contains xs x ≡ true

-- `set(xs)`
abbrev pub to_set : List String → List String
to_set [] = []
to_set (x ∷ xs) = if contains xs x then to_set xs else x ∷ to_set xs

-- `len(xs) == len(set(xs))`
unfoldable pub unique : List String → Bool
unique xs = eqb (length xs) (length (to_set xs))

-- `set(xs).issubset(ys)`
abbrev pub subset : List String → List String → Bool
subset xs ys = all (contains ys) xs

-- No text stands twice.
abbrev pub Distinct : List String → Type 0
Distinct [] = Unit
Distinct (x ∷ xs) = (contains xs x ≡ false) × Distinct xs

length-to_set-le : (xs : List String) → length (to_set xs) ≤ length xs
length-to_set-le [] = omega arith
length-to_set-le (x ∷ xs) = ground (arith, length-to_set-le xs)

pub unique→Distinct : (xs : List String) → unique xs ≡ true → Distinct xs
unfolding unique
unique→Distinct [] h = tt
unique→Distinct (x ∷ xs) h = elim (Bool-cases (contains xs x)) [
  | inl old ↦ absurd (ground (arith, length-to_set-le xs))
  | inr new ↦ (new, unique→Distinct xs (ground arith))
]

pub Distinct→unique : (xs : List String) → Distinct xs → unique xs ≡ true
unfolding unique
Distinct→unique [] h = refl
Distinct→unique (x ∷ xs) h = ground (arith, Distinct→unique xs h.1)

contains-append :
    (xs ys : List String) (x : String) → contains (xs ++ ys) x ≡ (contains xs x || contains ys x)
contains-append [] ys x = refl
contains-append (y ∷ xs) ys x = ground (arith, contains-append xs ys x)

-- A subset, element by element.
pub subset→mem : (xs ys : List String) (x : String) → subset xs ys ≡ true → x ∈ xs → x ∈ ys
subset→mem [] ys x h m = ground arith
subset→mem (z ∷ xs) ys x h m = ground (arith, eq_iff z x, subset→mem xs ys x)

-- A statement about all elements, at one of them.
pub All-mem {κ} : (P : String → Type κ) (xs : List String) (x : String) → All P xs → x ∈ xs → P x
All-mem P [] x a m = cc
All-mem P (y ∷ ys) x a m = elim (Bool-cases (y == x)) [
  | inl e ↦ let same : y ≡ x = (eq_iff y x).0 e in rw same at a.0
  | inr e ↦ All-mem P ys x a.1 (ground arith)
]
