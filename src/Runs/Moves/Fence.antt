-- ===== src/Runs/Moves/Fence.antt =====
-- A write under the fence as allowed changes of the table of runs.
use fomo_demo.Prelude.{
  ℕ, String, true, ◌≡◌, refl, sym, inl, inr, Option, none, some, List, ok, >>=-eq-ok, ok_inj, In,
  Distinct, Bool-cases,
}
use fomo_demo.Runs.{RunRecord, Database, lease_lost, RepositoryError}
use fomo_demo.Runs.Store.{
  find_run, put_run, set_run, run_ids, run_for_write, locked_run, holds_lease, or_raise,
}
use fomo_demo.Runs.Moves.{RespectsCancel, RespectsCancel-kept, Legal, keeps, Moves, done, change}
use fomo_demo.Runs.Moves.Rows.{find_run-In, put_run-In, find_run-put_run}

-- The row that the fence gives and the tables then: without a token as they were, under a token
-- with the time of the row's last change.
pub data Locked (now : ℕ) (id : String) (db : Database)
    : Option String → RunRecord × Database → Type 0 where
  unfenced : (r : RunRecord) → find_run db.runs id ≡ some r → Locked now id db none (r, db)
  under :
      (token : String) (old : RunRecord)
      → find_run db.runs id ≡ some old
      → holds_lease now token old ≡ true
      → Locked now id db
          (some token)
          (record old { updated_at = now }, set_run (record old { updated_at = now }) db)

pub or_raise-eq-ok :
    {A : Type 0} (e : RepositoryError) {a : A} (o : Option A) → or_raise o e ≡ ok a → o ≡ some a
or_raise-eq-ok e none h = cc
or_raise-eq-ok e (some a) h = cc

pub run_for_write-Locked :
    (now : ℕ) (id : String) (token : Option String) (db : Database) (locked : RunRecord × Database)
    → run_for_write now id token db ≡ ok locked
    → Locked now id db token locked
unfolding run_for_write
run_for_write-Locked now id none db locked h =
    let (r, found, e) = >>=-eq-ok (locked_run db id) _ h in
    rw (sym (ok_inj e)) (unfenced r (or_raise-eq-ok _ (find_run db.runs id) found))
run_for_write-Locked now id (some token) db locked h =
    let (old, found, e) = >>=-eq-ok (or_raise (find_run db.runs id) lease_lost) _ h in
    elim (Bool-cases (holds_lease now token old)) [
      | inl held ↦
          rw (sym (ok_inj (rw held at e)))
            (under token old (or_raise-eq-ok _ (find_run db.runs id) found) held)
      | inr lost ↦ absurd cc (rw lost at e)
    ]

-- The row that the fence gives is in the tables that it leaves.
pub Locked-find_run :
    (now : ℕ) (id : String) (token : Option String) (db : Database) (locked : RunRecord × Database)
    → Locked now id db token locked
    → find_run locked.1.runs id ≡ some locked.0
Locked-find_run now id _ db _ (unfenced r f) = f
Locked-find_run now id _ db _ (under token old f held) =
    find_run-put_run db.runs id old (record old { updated_at = now }) f refl

Locked-Moves :
    (issued : List String) (now : ℕ) (id : String) (token : Option String) (db : Database)
    (locked : RunRecord × Database) (new : RunRecord)
    → Locked now id db token locked
    → Distinct (run_ids db.runs)
    → locked.0.id ≡ new.id
    → locked.0.project_id ≡ new.project_id
    → RespectsCancel locked.0 new
    → Legal issued locked.1.runs locked.0 new
    → Moves issued db.runs (put_run new locked.1.runs)
Locked-Moves issued now id _ db _ new (unfenced r f) d i p k l =
    change r new (find_run-In db.runs id r f).0 i p k l (done (put_run new db.runs))
Locked-Moves issued now id _ db _ new (under token old f held) d i p k l =
    let m : In old db.runs = (find_run-In db.runs id old f).0 in
    let touched : RunRecord = record old { updated_at = now } in
    change old touched m refl refl (RespectsCancel-kept _ _ refl refl) (keeps refl refl refl) (
      change touched new (put_run-In old touched db.runs d m refl) i p k l
        (done (put_run new (put_run touched db.runs))))

-- A write of the row that the fence gives, where the change is allowed.
pub write-Moves :
    (issued : List String) (now : ℕ) (id : String) (token : Option String) (db : Database)
    (locked : RunRecord × Database) (new : RunRecord)
    → run_for_write now id token db ≡ ok locked
    → Distinct (run_ids db.runs)
    → locked.0.id ≡ new.id
    → locked.0.project_id ≡ new.project_id
    → RespectsCancel locked.0 new
    → Legal issued locked.1.runs locked.0 new
    → Moves issued db.runs (put_run new locked.1.runs)
write-Moves issued now id token db locked new h d i p k l =
    Locked-Moves issued now id token db locked new (run_for_write-Locked now id token db locked h) d
      i p k l
