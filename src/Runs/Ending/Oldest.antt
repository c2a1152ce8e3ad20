-- ===== src/Runs/Ending/Oldest.antt =====
-- The run that `_advance_project_after_terminal` selects.
use fomo_demo.Prelude.{
  String, Bool, true, false, not, ◌&&◌, ◌||◌, ◌≡◌, refl, inl, inr, Option, none, some, List, [],
  ◌∷◌, ◌==◌, leb, keep, keep-In, All, All-In, All-of, In, arith, Bool-cases, eq_iff, and_left,
  and_right, first,
}
use fomo_demo.Runs.{RunRecord, is_queued}
use fomo_demo.Runs.Store.{by_age, next_queued, run_id_of}
use fomo_demo.Runs.Lease.Fairness.{IsAged, by_age-IsAged, In-by_age, In-keep}
use fomo_demo.Runs.Moves.Operations.{by_age-In}

-- No queued run of the project is in the table; or the id is that of one that is at least as old as
-- every other.
abbrev pub IsOldestQueued : String → List RunRecord → Option String → Type 0
IsOldestQueued project_id runs none =
    All (λ (x : RunRecord). (x.project_id == project_id && is_queued x.status) ≡ false) runs
IsOldestQueued project_id runs (some id) =
    (r : RunRecord) × In r runs
    × (r.id ≡ id)
    × (r.project_id ≡ project_id)
    × (is_queued r.status ≡ true)
    × All
        (λ (x : RunRecord).
          (not (x.project_id == project_id && is_queued x.status) || leb r.created_at x.created_at)
          ≡ true)
        runs

abbrev queued_for : String → RunRecord → Bool
queued_for project_id r = r.project_id == project_id && is_queued r.status

-- the candidates in the order of their age
abbrev line_of : String → List RunRecord → List RunRecord
line_of project_id runs = by_age (keep (queued_for project_id) runs)

line_of-In :
    (project_id : String) (runs : List RunRecord) (r : RunRecord)
    → In r (line_of project_id runs)
    → In r runs × (queued_for project_id r ≡ true)
line_of-In project_id runs r m = keep-In (queued_for project_id) r runs (by_age-In r _ m)

In-line_of :
    (project_id : String) (runs : List RunRecord) (r : RunRecord)
    → In r runs
    → queued_for project_id r ≡ true
    → In r (line_of project_id runs)
In-line_of project_id runs r m h = In-by_age r _ (In-keep (queued_for project_id) r runs m h)

oldest_first :
    (r x : RunRecord) (rs : List RunRecord)
    → IsAged (r ∷ rs)
    → In x (r ∷ rs)
    → leb r.created_at x.created_at ≡ true
oldest_first r x rs a (inl e) = rw e (ground arith)
oldest_first r x rs a (inr m) =
    All-In (λ (y : RunRecord). leb r.created_at y.created_at ≡ true) x rs a.0 m

-- whatever the line is
first_of-IsOldestQueued :
    (project_id : String) (runs line : List RunRecord)
    → line_of project_id runs ≡ line
    → IsAged line
    → IsOldestQueued project_id runs (run_id_of (first (λ (r : RunRecord). true) line))
first_of-IsOldestQueued project_id runs [] e a = All-of _ runs (λ x m.
    elim (Bool-cases (queued_for project_id x)) [
      | inr h ↦ h
      | inl h ↦ absurd (rw e at (In-line_of project_id runs x m h))
    ])
first_of-IsOldestQueued project_id runs (r ∷ rs) e a =
    let there : In r (line_of project_id runs) = rw e (inl refl) in
    let (m, h) = line_of-In project_id runs r there in
    (
      r,
      m,
      refl,
      (eq_iff r.project_id project_id).0 (and_left _ _ h),
      and_right (r.project_id == project_id) _ h,
      All-of _ runs (λ x n. elim (Bool-cases (queued_for project_id x)) [
        | inr k ↦ rw k refl
        | inl k ↦
            let in_line : In x (r ∷ rs) = rw e at (In-line_of project_id runs x n k) in
            rw (oldest_first r x rs a in_line) (ground arith)
      ]),
    )

pub next_queued-IsOldestQueued :
    (project_id : String) (runs : List RunRecord)
    → IsOldestQueued project_id runs (run_id_of (next_queued project_id runs))
next_queued-IsOldestQueued project_id runs =
    first_of-IsOldestQueued project_id runs (line_of project_id runs) refl
      (by_age-IsAged (keep (queued_for project_id) runs))
