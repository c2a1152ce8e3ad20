-- ===== src/Runs/Lease/Fairness.antt =====
-- Which run `claim_next_run` takes.
use fomo_demo.Prelude.{
  ℕ, String, Bool, true, false, not, ◌≡◌, refl, inl, inr, some, List, [], ◌∷◌, All, All-In, All-map,
  In, arith, Bool-cases, leb, ◌≤◌, keep, first, any,
}
use fomo_demo.Runs.{RunRecord, Database}
use fomo_demo.Runs.Store.{by_age, insert_by_age}
use fomo_demo.Runs.Lease.{
  is_candidate, is_other_writer, next_claimable, claim_next_run, claimed, claim_of,
}

-- Each run is at least as old as those after it.
abbrev pub IsAged : List RunRecord → Type 0
IsAged [] = Unit
IsAged (x ∷ xs) = All (λ (y : RunRecord). leb x.created_at y.created_at ≡ true) xs × IsAged xs

leb_trans : (a b c : ℕ) → leb a b ≡ true → leb b c ≡ true → leb a c ≡ true
leb_trans a b c h k = ground arith

leb-flip : (a b : ℕ) → leb a b ≡ false → leb b a ≡ true
leb-flip a b h = ground arith

leb_same : (a : ℕ) → leb a a ≡ true
leb_same a = ground arith

All-insert_by_age :
    (P : RunRecord → Type 0) (r : RunRecord) (xs : List RunRecord)
    → P r
    → All P xs
    → All P (insert_by_age r xs)
unfolding insert_by_age
All-insert_by_age P r [] p a = (p, tt)
All-insert_by_age P r (x ∷ xs) p a = elim (Bool-cases (leb r.created_at x.created_at)) [
  | inl e ↦ rw e (p, a)
  | inr e ↦ rw e (a.0, All-insert_by_age P r xs p a.1)
]

insert_by_age-IsAged :
    (r : RunRecord) (xs : List RunRecord) → IsAged xs → IsAged (insert_by_age r xs)
unfolding insert_by_age
insert_by_age-IsAged r [] s = (tt, tt)
insert_by_age-IsAged r (x ∷ xs) s = elim (Bool-cases (leb r.created_at x.created_at)) [
  | inl e ↦ rw e (
    (
      e,
      All-map xs
          (λ (y : RunRecord) (h : leb x.created_at y.created_at ≡ true).
            leb_trans r.created_at x.created_at y.created_at e h)
          s.0,
    ),
    s,
  )
  | inr e ↦ rw e (
    All-insert_by_age (λ (y : RunRecord). leb x.created_at y.created_at ≡ true) r xs
        (leb-flip r.created_at x.created_at e) s.0,
    insert_by_age-IsAged r xs s.1,
  )
]

pub by_age-IsAged : (xs : List RunRecord) → IsAged (by_age xs)
unfolding by_age
by_age-IsAged [] = tt
by_age-IsAged (x ∷ xs) = insert_by_age-IsAged x (by_age xs) (by_age-IsAged xs)

In-insert_by_age :
    (r x : RunRecord) (xs : List RunRecord) → In r (x ∷ xs) → In r (insert_by_age x xs)
unfolding insert_by_age
In-insert_by_age r x [] m = m
In-insert_by_age r x (y ∷ ys) m = elim (Bool-cases (leb x.created_at y.created_at)) [
  | inl e ↦ rw e m
  | inr e ↦ rw e (elim m [
    | inl same ↦ inr (In-insert_by_age r x ys (inl same))
    | inr (inl same) ↦ inl same
    | inr (inr rest) ↦ inr (In-insert_by_age r x ys (inr rest))
  ])
]

pub In-by_age : (r : RunRecord) (xs : List RunRecord) → In r xs → In r (by_age xs)
unfolding by_age
In-by_age r [] m = m
In-by_age r (x ∷ xs) (inl e) = In-insert_by_age r x (by_age xs) (inl e)
In-by_age r (x ∷ xs) (inr m) = In-insert_by_age r x (by_age xs) (inr (In-by_age r xs m))

pub In-keep :
    (p : RunRecord → Bool) (r : RunRecord) (xs : List RunRecord)
    → In r xs
    → p r ≡ true
    → In r (keep p xs)
In-keep p r [] m h = m
In-keep p r (x ∷ xs) (inl e) h = rw (e, h) (inl refl)
In-keep p r (x ∷ xs) (inr m) h = elim (Bool-cases (p x)) [
  | inl e ↦ rw e (inr (In-keep p r xs m h))
  | inr e ↦ rw e (In-keep p r xs m h)
]

-- The first of an aged list that passes is at least as old as any that passes.
first-aged :
    (p : RunRecord → Bool) (r : RunRecord) (xs : List RunRecord)
    → IsAged xs
    → In r xs
    → p r ≡ true
    → (y : RunRecord) × (first p xs ≡ some y) × (leb y.created_at r.created_at ≡ true)
first-aged p r [] s m h = absurd m
first-aged p r (x ∷ xs) s (inl e) h = (x, rw (e, h) refl, rw e (leb_same r.created_at))
first-aged p r (x ∷ xs) s (inr m) h = elim (Bool-cases (p x)) [
  | inl e ↦
      (x, rw e refl, All-In (λ (y : RunRecord). leb x.created_at y.created_at ≡ true) r xs s.0 m)
  | inr e ↦ rw e (first-aged p r xs s.1 m h)
]

-- Where a queued run of the table could be resumed or has no live sandbox, and its project has no other
-- run that is running or waiting, a claim succeeds, and takes a run at least as old.
pub claim_next_run-oldest :
    (now lease_seconds : ℕ) (token : String) (db : Database) (r : RunRecord)
    → In r db.runs
    → is_candidate db.resources r ≡ true
    → any (is_other_writer r) db.runs ≡ false
    → (taken : RunRecord) × ((claim_next_run now lease_seconds token db).0
        ≡ some (claimed now lease_seconds token taken))
      × (taken.created_at ≤ r.created_at)
unfolding claim_next_run next_claimable claim_of
claim_next_run-oldest now lease_seconds token db r m c quiet =
    let free = λ (x : RunRecord). not (any (is_other_writer x) db.runs) in
    let open_to : free r ≡ true = rw quiet refl in
    let (taken, f, older) =
      first-aged free r (by_age (keep (is_candidate db.resources) db.runs)) (by_age-IsAged _)
        (In-by_age r _ (In-keep (is_candidate db.resources) r db.runs m c)) open_to in
    (taken, rw f refl, ground (arith, older))
