-- ===== src/Prelude/Lists.antt =====
-- Lists measured by native numbers.
use Prim.Native.Nat.{ℕ, suc, ◌+◌}
use mathlib.Core.Path.{◌≡◌, refl, sym}
use mathlib.Core.Logic.{◌⊎◌, inl, inr}
use mathlib.Core.Bool.{Bool, true, false, ◌&&◌, ◌||◌}
use mathlib.Core.List.{List, [], ◌∷◌, ◌++◌}
use mathlib.Core.Option.{Option, none, some}
use native.Mathlib.Omega.{arith}
use fomo_demo.Prelude.Tests.{if◌then◌else◌, Bool-cases}

module _ {ℓ} {A : Type ℓ} where
  abbrev pub length : List A → ℕ
  length [] = 0
  length (x ∷ xs) = suc (length xs)

  length-append : (xs ys : List A) → length (xs ++ ys) ≡ length xs + length ys
  length-append [] ys = omega arith
  length-append (x ∷ xs) ys = omega (arith, length-append xs ys)

  abbrev pub append : List A → List A → List A
  append xs ys = xs ++ ys

  abbrev pub is_empty : List A → Bool
  is_empty [] = true
  is_empty (x ∷ xs) = false

  -- `any(...)`, `all(...)` and `[... for x in xs if ...]`, which the library keeps shut
  abbrev pub any : (A → Bool) → List A → Bool
  any p [] = false
  any p (x ∷ xs) = p x || any p xs

  abbrev pub all : (A → Bool) → List A → Bool
  all p [] = true
  all p (x ∷ xs) = p x && all p xs

  abbrev pub keep : (A → Bool) → List A → List A
  keep p [] = []
  keep p (x ∷ xs) = if p x then x ∷ keep p xs else keep p xs

  -- `next((x for x in xs if ...), None)`
  abbrev pub first : (A → Bool) → List A → Option A
  first p [] = none
  first p (x ∷ xs) = if p x then some x else first p xs

  abbrev pub All {κ} : (A → Type κ) → List A → Type κ
  All P [] = Unit
  All P (x ∷ xs) = P x × All P xs

pub append-nil_parts {ℓ} : {B : Type ℓ} (xs ys : List B) → xs ++ ys ≡ [] → (xs ≡ []) × (ys ≡ [])
append-nil_parts [] ys h = (refl, h)
append-nil_parts (x ∷ xs) ys h = cc

module _ {ℓ κ} {A : Type ℓ} {B : Type κ} where
  -- `[y for x in xs for y in f(x)]`
  abbrev pub gather : (A → List B) → List A → List B
  gather f [] = []
  gather f (x ∷ xs) = f x ++ gather f xs

  pub gather-nil : (f : A → List B) (xs : List A) → gather f xs ≡ [] → All (λ x. f x ≡ []) xs
  gather-nil f [] h = tt
  gather-nil f (x ∷ xs) h =
      let (now, rest) = append-nil_parts (f x) (gather f xs) h in (now, gather-nil f xs rest)

pub All-map {ℓ κ} :
    {A : Type ℓ} {P Q : A → Type κ} (xs : List A) → ((x : A) → P x → Q x) → All P xs → All Q xs
All-map [] f h = tt
All-map (x ∷ xs) f h = (f x h.0, All-map xs f h.1)

-- The value is one of the list.
abbrev pub In : {A : Type 0} → A → List A → Type 0
In x [] = ⊥
In x (y ∷ ys) = (y ≡ x) ⊎ In x ys

pub keep-In :
    {A : Type 0} (p : A → Bool) (x : A) (xs : List A) → In x (keep p xs) → In x xs × (p x ≡ true)
keep-In p x [] m = absurd m
keep-In p x (y ∷ ys) m = elim (Bool-cases (p y)) [
  | inr e ↦ let (m', h) = keep-In p x ys (rw e at m) in (inr m', h)
  | inl e ↦ elim (rw e at m) [
    | inl same ↦ (inl same, rw same at e)
    | inr later ↦ let (m', h) = keep-In p x ys later in (inr m', h)
  ]
]

pub first-In :
    {A : Type 0} (p : A → Bool) (x : A) (xs : List A) → first p xs ≡ some x → In x xs × (p x ≡ true)
first-In p x [] h = cc
first-In p x (y ∷ ys) h = elim (Bool-cases (p y)) [
  | inl e ↦ let same : y ≡ x = cc (rw e at h) in (inl same, rw same at e)
  | inr e ↦ let (m, t) = first-In p x ys (rw e at h) in (inr m, t)
]

pub All-In : {A : Type 0} (P : A → Type 0) (x : A) (xs : List A) → All P xs → In x xs → P x
All-In P x [] a m = absurd m
All-In P x (y ∷ ys) a (inl e) = rw (sym e) a.0
All-In P x (y ∷ ys) a (inr m) = All-In P x ys a.1 m

pub All-of : {A : Type 0} (P : A → Type 0) (xs : List A) → ((x : A) → In x xs → P x) → All P xs
All-of P [] f = tt
All-of P (x ∷ xs) f = (f x (inl refl), All-of P xs (λ y m. f y (inr m)))
