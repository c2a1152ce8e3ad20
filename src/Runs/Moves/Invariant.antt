-- ===== src/Runs/Moves/Invariant.antt =====
-- What the allowed changes of the table of runs keep.
use fomo_demo.Prelude.{
  All-In, ◌≤◌, String, true, false, ◌≡◌, refl, sym, ◌⊎◌, inl, inr, List, ◌∷◌, ◌==◌, In, Distinct,
  arith, All, Bool-cases, eq_iff, contains, none,
}
use fomo_demo.Runs.{RunRecord, RunStatus}
use fomo_demo.Runs.Store.{run_ids}
use fomo_demo.Runs.Moves.Rows.{ids-put_run, writers-put_run, All-put_run}
use fomo_demo.Runs.Moves.{
  weight, writers, is_leased, may_leave, is_writer, Legal, keeps, starts, leaves, put_run, Moves,
  done, change, create,
}

-- The ids differ, a project has at most one writer, and a run has a lease exactly while it runs.
pub record IsSound (runs : List RunRecord) : Type 0 where
  pub distinct : Distinct (run_ids runs)
  pub single : (project : String) → writers project runs ≤ 1
  pub leased : All (λ (r : RunRecord). is_leased r ≡ true) runs

may_leave-is_writer :
    (s t : RunStatus) → may_leave s t ≡ true → is_writer t ≡ true → is_writer s ≡ true
may_leave-is_writer s t h w = ground arith

-- A change makes a run a writer only where its project has none.
weight-Legal :
    (issued : List String) (runs : List RunRecord) (old new : RunRecord) (project : String)
    → old.project_id ≡ new.project_id
    → Legal issued runs old new
    → (weight project new ≤ weight project old)
      ⊎ ((writers project runs ≡ 0) × (weight project old ≡ 0))
weight-Legal issued runs old new project p (keeps s o e) = inl (rw (p, s) (omega arith))
weight-Legal issued runs old new project p (starts token i q r o e w) =
    elim (Bool-cases (old.project_id == project)) [
      | inl h ↦
          let same : old.project_id ≡ project = (eq_iff old.project_id project).0 h in
          inr (rw (sym same) w, rw (h, q) refl)
      | inr h ↦
          let other : (new.project_id == project) ≡ false = rw p at h in
          inl (rw (h, other) (omega arith))
    ]
weight-Legal issued runs old new project p (leaves m o e) =
    inl (ground (arith, sym p, may_leave-is_writer old.status new.status m))

is_leased-Legal :
    (issued : List String) (runs : List RunRecord) (old new : RunRecord)
    → Legal issued runs old new
    → is_leased old ≡ true
    → is_leased new ≡ true
is_leased-Legal issued runs old new (keeps s o e) h = rw (s, o, e) h
is_leased-Legal issued runs old new (starts token i q r o e w) h = rw (r, o, e) refl
is_leased-Legal issued runs old new (leaves m o e) h = ground (arith, m, o, e)

weight-IsBounded : (project : String) (r : RunRecord) → weight project r ≤ 1
weight-IsBounded project r = ground arith

pub change-IsSound :
    (issued : List String) (runs : List RunRecord) (old new : RunRecord)
    → In old runs
    → old.id ≡ new.id
    → old.project_id ≡ new.project_id
    → Legal issued runs old new
    → IsSound runs
    → IsSound (put_run new runs)
change-IsSound issued runs old new m i p l s = record {
  distinct = rw (ids-put_run new runs) s.distinct;
  single = λ (project : String).
      let count = writers-put_run project old new runs s.distinct m i in
      elim (weight-Legal issued runs old new project p l) [
        | inl lighter ↦ omega (arith, count, lighter, s.single project)
        | inr none_yet ↦ omega (arith, count, none_yet.0, none_yet.1, weight-IsBounded project new)
      ];
  leased =
      All-put_run (λ (r : RunRecord). is_leased r ≡ true) new runs
        (is_leased-Legal issued runs old new l
          (All-In (λ (r : RunRecord). is_leased r ≡ true) old runs s.leased m))
        s.leased;
}

pub create-IsSound :
    (runs : List RunRecord) (new : RunRecord)
    → contains (run_ids runs) new.id ≡ false
    → new.status ≡ RunStatus.queued
    → new.lease_owner ≡ none
    → new.lease_expires_at ≡ none
    → IsSound runs
    → IsSound (new ∷ runs)
create-IsSound runs new f q o e s = record {
  distinct = (f, s.distinct);
  single = λ (project : String). rw q (ground (arith, s.single project));
  leased = (rw (q, o, e) refl, s.leased);
}

-- Whatever the sequence of allowed changes, they keep the ids distinct, at most one writer of each
-- project, and leases exactly on the running runs.
pub Moves-IsSound :
    (issued : List String) (before after : List RunRecord)
    → Moves issued before after
    → IsSound before
    → IsSound after
Moves-IsSound issued before after (done runs) s = s
Moves-IsSound issued before after (change old new m i p k l rest) s =
    Moves-IsSound issued (put_run new before) after rest
      (change-IsSound issued before old new m i p l s)
Moves-IsSound issued before after (create new f q o e rest) s =
    Moves-IsSound issued (new ∷ before) after rest (create-IsSound before new f q o e s)
