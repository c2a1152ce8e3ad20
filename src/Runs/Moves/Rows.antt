-- ===== src/Runs/Moves/Rows.antt =====
-- Writing one row of the table of runs.
use fomo_demo.Prelude.{
  ◌⊎◌, true, ◌+◌, String, false, ◌≡◌, refl, ap, sym, ◌∙◌, inl, inr, some, List, [], ◌∷◌, ◌==◌, In,
  contains, ◌∈◌, Distinct, arith, eq_iff, eq_refl, All, first-In, Bool-cases,
}
use fomo_demo.Runs.{RunRecord}
use fomo_demo.Runs.Store.{put_run, run_ids, find_run}
use fomo_demo.Runs.Moves.{weight, writers}

pub In-id : (r : RunRecord) (runs : List RunRecord) → In r runs → r.id ∈ run_ids runs
In-id r [] m = absurd m
In-id r (x ∷ xs) (inl e) = ground (arith, eq_iff x.id r.id)
In-id r (x ∷ xs) (inr m) = ground (arith, In-id r xs m)

-- A run of the rest has another id than the first.
other_id :
    (r x : RunRecord) (xs : List RunRecord)
    → contains (run_ids xs) x.id ≡ false
    → In r xs
    → (x.id == r.id) ≡ false
other_id r x xs d m = ground (arith, In-id r xs m, eq_iff x.id r.id)

put_here :
    (old new : RunRecord) (xs : List RunRecord)
    → old.id ≡ new.id
    → put_run new (old ∷ xs) ≡ new ∷ xs
unfolding put_run
put_here old new xs i = rw (i, eq_refl new.id) refl

put_later :
    (old new x : RunRecord) (xs : List RunRecord)
    → old.id ≡ new.id
    → contains (run_ids xs) x.id ≡ false
    → In old xs
    → put_run new (x ∷ xs) ≡ x ∷ put_run new xs
unfolding put_run
put_later old new x xs i d m =
    let other : (x.id == new.id) ≡ false = rw i at (other_id old x xs d m) in rw other refl

pub ids-put_run :
    (new : RunRecord) (runs : List RunRecord) → run_ids (put_run new runs) ≡ run_ids runs
unfolding put_run
ids-put_run new [] = refl
ids-put_run new (x ∷ xs) = ground (arith, eq_iff x.id new.id, ids-put_run new xs)

pub writers-put_run :
    (project : String) (old new : RunRecord) (runs : List RunRecord)
    → Distinct (run_ids runs)
    → In old runs
    → old.id ≡ new.id
    → writers project (put_run new runs) + weight project old
      ≡ writers project runs + weight project new
writers-put_run project old new [] d m i = absurd m
writers-put_run project old new (x ∷ xs) d (inl e) i =
    rw (put_here x new xs (ap (λ (r : RunRecord). r.id) e ∙ i), sym e) (omega arith)
writers-put_run project old new (x ∷ xs) d (inr m) i =
    rw (put_later old new x xs i d.0 m) (omega (arith, writers-put_run project old new xs d.1 m i))

pub All-put_run :
    (P : RunRecord → Type 0) (new : RunRecord) (runs : List RunRecord)
    → P new
    → All P runs
    → All P (put_run new runs)
unfolding put_run
All-put_run P new [] p a = tt
All-put_run P new (x ∷ xs) p a = elim (Bool-cases (x.id == new.id)) [
  | inl e ↦ rw e (p, a.1)
  | inr e ↦ rw e (a.0, All-put_run P new xs p a.1)
]

-- A run that is found is a row with the id.
pub find_run-In :
    (runs : List RunRecord) (id : String) (r : RunRecord)
    → find_run runs id ≡ some r
    → In r runs × (r.id ≡ id)
find_run-In runs id r h =
    let (m, e) = first-In (λ (x : RunRecord). x.id == id) r runs h in (m, (eq_iff r.id id).0 e)

-- The row that was written is found.
pub put_run-In :
    (old new : RunRecord) (runs : List RunRecord)
    → Distinct (run_ids runs)
    → In old runs
    → old.id ≡ new.id
    → In new (put_run new runs)
put_run-In old new [] d m i = absurd m
put_run-In old new (x ∷ xs) d (inl e) i =
    rw (put_here x new xs (ap (λ (r : RunRecord). r.id) e ∙ i)) (inl refl)
put_run-In old new (x ∷ xs) d (inr m) i =
    rw (put_later old new x xs i d.0 m) (inr (put_run-In old new xs d.1 m i))

-- A row with another id stays.
pub In-put_run :
    (r new : RunRecord) (runs : List RunRecord)
    → (r.id == new.id) ≡ false
    → In r runs
    → In r (put_run new runs)
unfolding put_run
In-put_run r new [] e m = absurd m
In-put_run r new (x ∷ xs) e (inl same) =
    let other : (x.id == new.id) ≡ false = rw same e in rw other (inl same)
In-put_run r new (x ∷ xs) e (inr m) = elim (Bool-cases (x.id == new.id)) [
  | inl h ↦ rw h (inr m)
  | inr h ↦ rw h (inr (In-put_run r new xs e m))
]

-- Where the ids differ, a row is found by its id.
pub In-find_run :
    (r : RunRecord) (id : String) (runs : List RunRecord)
    → Distinct (run_ids runs)
    → In r runs
    → r.id ≡ id
    → find_run runs id ≡ some r
In-find_run r id [] d m i = absurd m
In-find_run r id (x ∷ xs) d (inl e) i = rw (e, i, eq_refl id) refl
In-find_run r id (x ∷ xs) d (inr m) i =
    let other : (x.id == id) ≡ false = rw i at (other_id r x xs d.0 m) in
    rw other (In-find_run r id xs d.1 m i)

-- Where the ids differ, two rows with one id are the same.
pub In-unique :
    (r s : RunRecord) (runs : List RunRecord)
    → Distinct (run_ids runs)
    → In r runs
    → In s runs
    → r.id ≡ s.id
    → r ≡ s
In-unique r s runs d m n i = cc (In-find_run r s.id runs d m i, In-find_run s s.id runs d n refl)

-- A row that is found is found again as it was written.
pub find_run-put_run :
    (runs : List RunRecord) (id : String) (old new : RunRecord)
    → find_run runs id ≡ some old
    → old.id ≡ new.id
    → find_run (put_run new runs) id ≡ some new
unfolding put_run
find_run-put_run [] id old new f i = cc
find_run-put_run (x ∷ xs) id old new f i = elim (Bool-cases (x.id == id)) [
  | inl e ↦
      let same : x ≡ old = cc (rw e at f) in
      let named : new.id ≡ id =
        sym (ap (λ (r : RunRecord). r.id) same ∙ i) ∙ (eq_iff x.id id).0 e in
      let here : (x.id == new.id) ≡ true = rw (named, e) refl in
      let there : (new.id == id) ≡ true = (eq_iff new.id id).1 named in rw (here, there) refl
  | inr e ↦
      let rest : find_run xs id ≡ some old = rw e at f in
      let named : old.id ≡ id = (find_run-In xs id old rest).1 in
      let other : (x.id == new.id) ≡ false = ground (arith, sym i ∙ named, e) in
      rw (other, e) (find_run-put_run xs id old new rest i)
]

-- Where the ids differ, a row of the written table is the new one or another one with another id.
pub put_run-parts :
    (x new : RunRecord) (runs : List RunRecord)
    → Distinct (run_ids runs)
    → In x (put_run new runs)
    → (x ≡ new) ⊎ (In x runs × ((x.id == new.id) ≡ false))
unfolding put_run
put_run-parts x new [] d m = absurd m
put_run-parts x new (y ∷ ys) d m = elim (Bool-cases (y.id == new.id)) [
  | inl e ↦ elim (rw e at m) [
    | inl same ↦ inl (sym same)
    | inr later ↦
        let named : y.id ≡ new.id = (eq_iff y.id new.id).0 e in
        let differs : (y.id == x.id) ≡ false = other_id x y ys d.0 later in
        inr (inr later, ground (arith, rw named at differs, eq_iff x.id new.id, eq_iff new.id x.id))
  ]
  | inr e ↦ elim (rw e at m) [
    | inl same ↦ inr (inl same, rw same at e)
    | inr later ↦ elim (put_run-parts x new ys d.1 later) [
      | inl now ↦ inl now
      | inr (n, f) ↦ inr (inr n, f)
    ]
  ]
]
