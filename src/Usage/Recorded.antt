-- ===== src/Usage/Recorded.antt =====
-- What reservations and records do to the ledger.
use Prim.Native.String.{count}
use fomo_demo.Prelude.{
  ℕ, String, Bool, true, false, not, ◌||◌, ltb, is_blank, ◌≡◌, refl, sym, Option, none, some, List,
  ◌∷◌, ok, >>=-eq-ok, >>-eq-ok, ok_inj, eq_refl, if◌then◌else◌,
}
use fomo_demo.Runs.{RunRecord, Database}
use fomo_demo.Runs.Store.{run_for_write, find_run}
use fomo_demo.Usage.{
  Counters, UsageEntry, Ledger, no_usage, add_usage, is_entry, find_entry, find_graph, put_entry,
  usage_scope,
}
use fomo_demo.Usage.Operations.{
  UsageCall, new_entry, insert_entry, reserved, add_entry, recorded_once, reserved_once,
  record_usage_entry, reserve_usage_entry, settle_usage_entry, settle_with, settled_entry,
  recorded_usage, is_incomplete, get_usage_totals,
}
use fomo_demo.Runs.Moves.Fence.{run_for_write-Locked, Locked-find_run}

-- The entry of a request, with the id.
abbrev pub HasEntry : String → String → String → Ledger → Type 0
HasEntry run_id request_id id l =
    (e : UsageEntry) × (find_entry l.entries run_id request_id ≡ some e) × (e.id ≡ id)

recorded_once-HasEntry :
    (id : String) (c : UsageCall) (usage : Counters) (locked : RunRecord × Database)
    (o : Option UsageEntry) (l : Ledger) (result : String × Bool × Ledger)
    → find_entry l.entries c.run_id c.request_id ≡ o
    → recorded_once id c usage locked o l ≡ ok result
    → HasEntry c.run_id c.request_id result.0 result.2
unfolding recorded_once add_entry
recorded_once-HasEntry id c usage locked (some e) l result f h = rw (sym (ok_inj h)) (e, f, refl)
recorded_once-HasEntry id c usage locked none l result f h =
    let (after, added, e) = >>=-eq-ok (add_entry id c usage c.metadata locked l) _ h in
    let (scope, s, k) =
      >>=-eq-ok (usage_scope l (find_graph l.graphs c.run_id) c.goal_id) _ added in
    let new : UsageEntry = new_entry id c locked.0 scope usage c.metadata in
    rw (sym (ok_inj e), sym (ok_inj k))
      (new, rw (eq_refl c.run_id, eq_refl c.request_id) refl, refl)

put_entry-head :
    (old new : UsageEntry) (es : List UsageEntry)
    → is_entry new.run_id new.request_id old ≡ true
    → put_entry new (old ∷ es) ≡ new ∷ es
unfolding put_entry
put_entry-head old new es h = rw h refl

-- The settlement of the newest entry.
settle_reserved :
    (id token : String) (c : UsageCall) (usage : Counters) (r : RunRecord)
    (scope : Option String × Option String) (db : Database) (l : Ledger)
    → settle_usage_entry c.run_id c.request_id token usage
        (insert_entry (new_entry id c r scope no_usage (reserved token c.metadata)) db l)
      ≡ ok (
        id,
        true,
        insert_entry
            (settled_entry usage (new_entry id c r scope no_usage (reserved token c.metadata)))
            db
            l,
      )
unfolding settle_usage_entry settle_with
settle_reserved id token c usage r scope db l =
    let new : UsageEntry = new_entry id c r scope no_usage (reserved token c.metadata) in
    let own : is_entry c.run_id c.request_id new ≡ true =
      rw (eq_refl c.run_id, eq_refl c.request_id) refl in
    let written : put_entry (settled_entry usage new) (new ∷ l.entries)
        ≡ settled_entry usage new ∷ l.entries =
      put_entry-head new (settled_entry usage new) l.entries own in
    rw (eq_refl c.run_id, eq_refl c.request_id, eq_refl token) (rw written refl)

module _ (strip : String → String) where
  record-HasEntry :
      (now : ℕ) (id : String) (c : UsageCall) (usage : Counters) (l : Ledger)
      (result : String × Bool × Ledger)
      → record_usage_entry strip now id c usage l ≡ ok result
      → HasEntry c.run_id c.request_id result.0 result.2
  unfolding record_usage_entry
  record-HasEntry now id c usage l result h =
      let (a1, h1) =
        >>-eq-ok (not (is_blank (strip c.request_id) || ltb 160 (count c.request_id))) _ _ h in
      let (locked, w, h2) =
        >>=-eq-ok (run_for_write now c.run_id (some c.lease_token) l.database) _ h1 in
      recorded_once-HasEntry id c usage locked _ l result refl h2

  -- Once a request was recorded, a later call for it that the fence lets through, by whatever worker
  -- and with whatever provider, model and counters, returns the same entry as not new and leaves the
  -- ledger.
  pub record_usage_entry-once :
      (now later : ℕ) (id other_id : String) (c d : UsageCall) (usage other : Counters) (l : Ledger)
      (result : String × Bool × Ledger) (locked : RunRecord × Database)
      → record_usage_entry strip now id c usage l ≡ ok result
      → d.run_id ≡ c.run_id
      → d.request_id ≡ c.request_id
      → run_for_write later d.run_id (some d.lease_token) result.2.database ≡ ok locked
      → record_usage_entry strip later other_id d other result.2 ≡ ok (result.0, false, result.2)
  unfolding record_usage_entry recorded_once
  record_usage_entry-once now later id other_id c d usage other l result locked h i j w =
      let (e, f, named) = record-HasEntry now id c usage l result h in
      let (bounded, h1) =
        >>-eq-ok (not (is_blank (strip c.request_id) || ltb 160 (count c.request_id))) _ _ h in
      let g : find_entry result.2.entries d.run_id d.request_id ≡ some e = rw (i, j) f in
      let same : not (is_blank (strip d.request_id) || ltb 160 (count d.request_id)) ≡ true =
        rw j bounded in
      rw (same, w, g, named) refl

  -- Where a request has no entry and is reserved: the totals of the run are then withheld; the
  -- settlement under the token that was given succeeds and adds exactly its counters to what was
  -- recorded; and then the totals are what is recorded, or still withheld where another entry of the
  -- run was unsettled before.
  pub reserve_usage_entry-settles :
      (now : ℕ) (id token : String) (c : UsageCall) (usage : Counters) (l : Ledger)
      (given : String × Ledger)
      → find_entry l.entries c.run_id c.request_id ≡ none
      → reserve_usage_entry strip now id token c l ≡ ok given
      → (is_incomplete c.run_id given.1.entries ≡ true)
        × (get_usage_totals c.run_id given.1 ≡ ok no_usage)
        × (after : Ledger) × (settle_usage_entry c.run_id c.request_id given.0 usage given.1
            ≡ ok (id, true, after))
        × (recorded_usage c.run_id after.entries
            ≡ add_usage usage (recorded_usage c.run_id l.entries))
        × (is_incomplete c.run_id after.entries ≡ is_incomplete c.run_id l.entries)
        × (get_usage_totals c.run_id after
            ≡ ok (
                if is_incomplete c.run_id l.entries
                then no_usage
                else add_usage usage (recorded_usage c.run_id l.entries)))
  unfolding reserve_usage_entry reserved_once add_entry settle_usage_entry settle_with put_entry
      recorded_usage is_incomplete get_usage_totals
  reserve_usage_entry-settles now id token c usage l given f h =
      let (a1, h1) =
        >>-eq-ok (not (is_blank (strip c.request_id) || ltb 160 (count c.request_id))) _ _ h in
      let (locked, w, h2) =
        >>=-eq-ok (run_for_write now c.run_id (some c.lease_token) l.database) _ h1 in
      let (after, added, e) =
        >>=-eq-ok (add_entry id c no_usage (reserved token c.metadata) locked l) _ (rw f at h2) in
      let (scope, s, k) =
        >>=-eq-ok (usage_scope l (find_graph l.graphs c.run_id) c.goal_id) _ added in
      let new : UsageEntry = new_entry id c locked.0 scope no_usage (reserved token c.metadata) in
      let run = eq_refl c.run_id in
      let there : find_run locked.1.runs c.run_id ≡ some locked.0 =
        Locked-find_run now c.run_id (some c.lease_token) l.database locked
          (run_for_write-Locked now c.run_id (some c.lease_token) l.database locked w) in
      rw (sym (ok_inj e), sym (ok_inj k))
        (
          rw run refl,
          rw (there, run) refl,
          insert_entry (settled_entry usage new) locked.1 l,
          settle_reserved id token c usage locked.0 scope locked.1 l,
          rw run refl,
          rw run refl,
          rw (there, run) refl,
        )
