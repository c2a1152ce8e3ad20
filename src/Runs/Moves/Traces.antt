-- ===== src/Runs/Moves/Traces.antt =====
-- What stays true of one run, or of one lease token, over a sequence of allowed changes.
use fomo_demo.Prelude.{
  is_some, not, ◌||◌, All-In, String, true, false, ◌≡◌, refl, sym, ap, ◌∙◌, inl, inr, List, ◌∷◌,
  ◌==◌, In, contains, Distinct, arith, All, Bool-cases, eq_iff,
}
use fomo_demo.Runs.{RunRecord, RunStatus, is_terminal}
use fomo_demo.Runs.Store.{run_ids, leased_under}
use fomo_demo.Runs.Ending.{is_cancelled}
use fomo_demo.Runs.Moves.{
  RespectsCancel, Legal, keeps, starts, leaves, put_run, Moves, done, change, create, may_leave,
}
use fomo_demo.Runs.Moves.Rows.{All-put_run, put_run-In, In-put_run, In-unique}
use fomo_demo.Runs.Moves.Invariant.{IsSound, change-IsSound, create-IsSound}

-- No run is leased under the token.
abbrev pub IsUnowned : String → List RunRecord → Type 0
IsUnowned token = All (λ (r : RunRecord). leased_under r.lease_owner token ≡ false)

leased_under-Legal :
    (issued : List String) (runs : List RunRecord) (old new : RunRecord) (token : String)
    → contains issued token ≡ false
    → leased_under old.lease_owner token ≡ false
    → Legal issued runs old new
    → leased_under new.lease_owner token ≡ false
leased_under-Legal issued runs old new token f u (keeps s o e) = rw o u
leased_under-Legal issued runs old new token f u (starts t i q r o e w) =
    rw o (ground (arith, eq_iff t token))
leased_under-Legal issued runs old new token f u (leaves m o e) = rw o refl

-- A token under which no run is leased and which is not issued again leases no run any more.
pub Moves-IsUnowned :
    (issued : List String) (before after : List RunRecord) (token : String)
    → contains issued token ≡ false
    → Moves issued before after
    → IsUnowned token before
    → IsUnowned token after
Moves-IsUnowned issued before after token f (done runs) u = u
Moves-IsUnowned issued before after token f (change old new m i p k l rest) u =
    Moves-IsUnowned issued (put_run new before) after token f rest (
      All-put_run (λ (r : RunRecord). leased_under r.lease_owner token ≡ false) new before
        (leased_under-Legal issued before old new token f
          (All-In (λ (r : RunRecord). leased_under r.lease_owner token ≡ false) old before u m) l)
        u)
Moves-IsUnowned issued before after token f (create new d q o e rest) u =
    Moves-IsUnowned issued (new ∷ before) after token f rest (rw o refl, u)

-- A row with the id and the status.
abbrev pub HasStatus : String → RunStatus → List RunRecord → Type 0
HasStatus id status runs = (r : RunRecord) × In r runs × (r.id ≡ id) × (r.status ≡ status)

terminal_stays : (s t : RunStatus) → is_terminal s ≡ true → may_leave s t ≡ true → ⊥
terminal_stays s t h m = ground arith

status-Legal :
    (issued : List String) (runs : List RunRecord) (old new : RunRecord)
    → is_terminal old.status ≡ true
    → Legal issued runs old new
    → new.status ≡ old.status
status-Legal issued runs old new t (keeps s o e) = s
status-Legal issued runs old new t (starts token i q r o e w) = absurd cc (rw q at t)
status-Legal issued runs old new t (leaves m o e) =
    absurd (terminal_stays old.status new.status t m)

change-HasStatus :
    (issued : List String) (runs : List RunRecord) (old new : RunRecord) (id : String)
    (status : RunStatus)
    → Distinct (run_ids runs)
    → In old runs
    → old.id ≡ new.id
    → Legal issued runs old new
    → is_terminal status ≡ true
    → HasStatus id status runs
    → HasStatus id status (put_run new runs)
change-HasStatus issued runs old new id status d m i l t (r, n, e, s) =
    elim (Bool-cases (r.id == new.id)) [
      | inr h ↦ (r, In-put_run r new runs h n, e, s)
      | inl h ↦
          let same : r.id ≡ new.id = (eq_iff r.id new.id).0 h in
          let one : old ≡ r = In-unique old r runs d m n (i ∙ sym same) in
          let kept : new.status ≡ old.status = status-Legal issued runs old new (rw (one, s) t) l in
          (
            new,
            put_run-In old new runs d m i,
            sym same ∙ e,
            kept ∙ ap (λ (x : RunRecord). x.status) one ∙ s,
          )
    ]

-- A run that has ended keeps its status.
pub Moves-HasStatus :
    (issued : List String) (before after : List RunRecord) (id : String) (status : RunStatus)
    → is_terminal status ≡ true
    → Moves issued before after
    → IsSound before
    → HasStatus id status before
    → HasStatus id status after
Moves-HasStatus issued before after id status t (done runs) s h = h
Moves-HasStatus issued before after id status t (change old new m i p k l rest) s h =
    Moves-HasStatus issued (put_run new before) after id status t rest
      (change-IsSound issued before old new m i p l s)
      (change-HasStatus issued before old new id status s.distinct m i l t h)
Moves-HasStatus issued before after id status t (create new d q o x rest) s (r, n, e, same) =
    Moves-HasStatus issued (new ∷ before) after id status t rest
      (create-IsSound before new d q o x s) (r, inr n, e, same)

-- The run is in the table, its cancellation is requested, and it is not ended except cancelled.
abbrev pub IsCancelling : String → List RunRecord → Type 0
IsCancelling id runs =
    (r : RunRecord) × In r runs
    × (r.id ≡ id)
    × (is_some r.cancel_requested_at ≡ true)
    × ((not (is_terminal r.status) || is_cancelled r.status) ≡ true)

-- What a change does to a run whose cancellation is requested.
RespectsCancel-some :
    (old new : RunRecord)
    → RespectsCancel old new
    → is_some old.cancel_requested_at ≡ true
    → is_some new.cancel_requested_at ≡ true
RespectsCancel-some old new k c = ground (arith, k.law)

cancelled_or_alive :
    (issued : List String) (runs : List RunRecord) (old new : RunRecord)
    → RespectsCancel old new
    → Legal issued runs old new
    → is_some old.cancel_requested_at ≡ true
    → (not (is_terminal old.status) || is_cancelled old.status) ≡ true
    → (not (is_terminal new.status) || is_cancelled new.status) ≡ true
cancelled_or_alive issued runs old new k l c h = elim (Bool-cases (is_terminal old.status)) [
  | inl over ↦ rw (status-Legal issued runs old new over l) h
  | inr alive ↦ ground (arith, k.law)
]

change-IsCancelling :
    (issued : List String) (runs : List RunRecord) (old new : RunRecord) (id : String)
    → Distinct (run_ids runs)
    → In old runs
    → old.id ≡ new.id
    → RespectsCancel old new
    → Legal issued runs old new
    → IsCancelling id runs
    → IsCancelling id (put_run new runs)
change-IsCancelling issued runs old new id d m i k l (r, n, e, c, s) =
    elim (Bool-cases (r.id == new.id)) [
      | inr h ↦ (r, In-put_run r new runs h n, e, c, s)
      | inl h ↦
          let same : r.id ≡ new.id = (eq_iff r.id new.id).0 h in
          let one : old ≡ r = In-unique old r runs d m n (i ∙ sym same) in
          (
            new,
            put_run-In old new runs d m i,
            sym same ∙ e,
            RespectsCancel-some old new k (rw one c),
            cancelled_or_alive issued runs old new k l (rw one c) (rw one s),
          )
    ]

-- A run whose cancellation is requested is never ended in another way.
pub Moves-IsCancelling :
    (issued : List String) (before after : List RunRecord) (id : String)
    → Moves issued before after
    → IsSound before
    → IsCancelling id before
    → IsCancelling id after
Moves-IsCancelling issued before after id (done runs) s h = h
Moves-IsCancelling issued before after id (change old new m i p k l rest) s h =
    Moves-IsCancelling issued (put_run new before) after id rest
      (change-IsSound issued before old new m i p l s)
      (change-IsCancelling issued before old new id s.distinct m i k l h)
Moves-IsCancelling issued before after id (create new d q o x rest) s (r, n, e, c, t) =
    Moves-IsCancelling issued (new ∷ before) after id rest (create-IsSound before new d q o x s)
      (r, inr n, e, c, t)
