-- ===== src/Usage/Settled.antt =====
-- Repeated settlements of a request.
use fomo_demo.Prelude.{
  ℕ, String, Bool, true, false, ◌&&◌, ◌≡◌, refl, sym, ap, ◌∙◌, inl, inr, some, List, [], ◌∷◌, ◌==◌,
  Result, ok, err, >>=-eq-ok, >>-eq-ok, ok_inj, Bool-cases, eq_iff, eq_refl, and_left, and_right,
  arith, eqb, first-In, if◌then◌else◌,
}
use fomo_demo.Runs.{RepositoryError, conflict, not_found}
use fomo_demo.Runs.Store.{or_raise}
use fomo_demo.Runs.Moves.Fence.{or_raise-eq-ok}
use fomo_demo.Usage.{Counters, UsageEntry, Ledger, same_usage, is_entry, find_entry, put_entry}
use fomo_demo.Usage.Operations.{
  settle_usage_entry, settle_with, settled_entry, was_settled, same_option,
}

eqb-eq : (a b : ℕ) → eqb a b ≡ true → a ≡ b
eqb-eq a b h = ground arith

same_usage-eq : (a b : Counters) → same_usage a b ≡ true → a ≡ b
same_usage-eq a b h =
    let h4 =
      and_left
        (eqb a.input_tokens b.input_tokens
          && eqb a.output_tokens b.output_tokens
          && eqb a.cache_read_tokens b.cache_read_tokens
          && eqb a.cache_write_tokens b.cache_write_tokens
          && eqb a.tool_calls b.tool_calls)
        (eqb a.cost_micros b.cost_micros) h in
    let h3 =
      and_left
        (eqb a.input_tokens b.input_tokens
          && eqb a.output_tokens b.output_tokens
          && eqb a.cache_read_tokens b.cache_read_tokens
          && eqb a.cache_write_tokens b.cache_write_tokens)
        (eqb a.tool_calls b.tool_calls) h4 in
    let h2 =
      and_left
        (eqb a.input_tokens b.input_tokens
          && eqb a.output_tokens b.output_tokens
          && eqb a.cache_read_tokens b.cache_read_tokens)
        (eqb a.cache_write_tokens b.cache_write_tokens) h3 in
    let h1 =
      and_left (eqb a.input_tokens b.input_tokens && eqb a.output_tokens b.output_tokens)
        (eqb a.cache_read_tokens b.cache_read_tokens) h2 in
    let e1 =
      eqb-eq a.input_tokens b.input_tokens (and_left _ (eqb a.output_tokens b.output_tokens) h1) in
    let e2 =
      eqb-eq a.output_tokens b.output_tokens (and_right (eqb a.input_tokens b.input_tokens) _ h1) in
    let e3 =
      eqb-eq a.cache_read_tokens b.cache_read_tokens (
        and_right (eqb a.input_tokens b.input_tokens && eqb a.output_tokens b.output_tokens) _
          h2) in
    let e4 = eqb-eq a.cache_write_tokens b.cache_write_tokens (
      and_right
        (eqb a.input_tokens b.input_tokens
          && eqb a.output_tokens b.output_tokens
          && eqb a.cache_read_tokens b.cache_read_tokens)
        _ h3) in
    let e5 = eqb-eq a.tool_calls b.tool_calls (
      and_right
        (eqb a.input_tokens b.input_tokens
          && eqb a.output_tokens b.output_tokens
          && eqb a.cache_read_tokens b.cache_read_tokens
          && eqb a.cache_write_tokens b.cache_write_tokens)
        _ h4) in
    let e6 = eqb-eq a.cost_micros b.cost_micros (
      and_right
        (eqb a.input_tokens b.input_tokens
          && eqb a.output_tokens b.output_tokens
          && eqb a.cache_read_tokens b.cache_read_tokens
          && eqb a.cache_write_tokens b.cache_write_tokens
          && eqb a.tool_calls b.tool_calls)
        _ h) in
    cc

-- The entry that was written is the entry of its request.
find_entry-put_entry :
    (es : List UsageEntry) (run_id request_id : String) (e new : UsageEntry)
    → find_entry es run_id request_id ≡ some e
    → new.run_id ≡ run_id
    → new.request_id ≡ request_id
    → find_entry (put_entry new es) run_id request_id ≡ some new
unfolding put_entry
find_entry-put_entry [] run_id request_id e new f i j = cc
find_entry-put_entry (x ∷ xs) run_id request_id e new f i j =
    let own : is_entry run_id request_id new ≡ true =
      rw (i, j, eq_refl run_id, eq_refl request_id) refl in
    let same : is_entry new.run_id new.request_id x ≡ is_entry run_id request_id x =
      rw (i, j) refl in
    elim (Bool-cases (is_entry run_id request_id x)) [
      | inl h ↦ rw (same ∙ h, own) refl
      | inr h ↦ rw (same ∙ h, h) (find_entry-put_entry xs run_id request_id e new (rw h at f) i j)
    ]

find_entry-names :
    (es : List UsageEntry) (run_id request_id : String) (e : UsageEntry)
    → find_entry es run_id request_id ≡ some e
    → (e.run_id ≡ run_id) × (e.request_id ≡ request_id)
find_entry-names es run_id request_id e f =
    let (m, h) = first-In (is_entry run_id request_id) e es f in
    (
      (eq_iff e.run_id run_id).0 (and_left (e.run_id == run_id) _ h),
      (eq_iff e.request_id request_id).0 (and_right (e.run_id == run_id) _ h),
    )

-- what a settlement of a settled entry gives
abbrev pub settled_again :
    Counters → Counters → String → Ledger → Result RepositoryError (String × Bool × Ledger)
settled_again usage other id l =
    if same_usage usage other
    then ok (id, false, l)
    else err (conflict "usage request was already settled differently")

settle_found :
    (run_id request_id token : String) (other : Counters) (l : Ledger) (e : UsageEntry)
    → find_entry l.entries run_id request_id ≡ some e
    → same_option e.metadata.reservation token ≡ true
    → was_settled e.metadata.settled ≡ true
    → settle_usage_entry run_id request_id token other l ≡ settled_again e.usage other e.id l
unfolding settle_usage_entry settle_with
settle_found run_id request_id token other l e f t s = rw (f, t, s) refl

-- Once a request was settled, a second settlement under the same token never changes the ledger: with
-- the same counters it returns the same entry as not new, and with other counters it is refused.
pub settle_usage_entry-once :
    (run_id request_id token id : String) (usage other : Counters) (flag : Bool) (l after : Ledger)
    → settle_usage_entry run_id request_id token usage l ≡ ok (id, flag, after)
    → settle_usage_entry run_id request_id token other after ≡ settled_again usage other id after
unfolding settle_usage_entry settle_with
settle_usage_entry-once run_id request_id token id usage other flag l after h =
    let (e, found, h1) =
      >>=-eq-ok
        (or_raise (find_entry l.entries run_id request_id)
          (not_found "usage reservation not found"))
        _ h in
    let f = or_raise-eq-ok _ (find_entry l.entries run_id request_id) found in
    let (t, h2) = >>-eq-ok (same_option e.metadata.reservation token) _ _ h1 in
    elim (Bool-cases (was_settled e.metadata.settled)) [
      | inl s ↦ elim (Bool-cases (same_usage e.usage usage)) [
        | inl u ↦
            let done = ok_inj (rw (s, u) at h2) in
            let named : e.id ≡ id = ap (λ (r : String × Bool × Ledger). r.0) done in
            let kept : l ≡ after = ap (λ (r : String × Bool × Ledger). r.2) done in
            rw (sym named, sym kept, sym (same_usage-eq e.usage usage u))
              (settle_found run_id request_id token other l e f t s)
        | inr u ↦ absurd cc (rw (s, u) at h2)
      ]
      | inr s ↦
          let done = ok_inj (rw s at h2) in
          let named : e.id ≡ id = ap (λ (r : String × Bool × Ledger). r.0) done in
          let new : UsageEntry = settled_entry usage e in
          let next : Ledger = record l { entries = put_entry new l.entries } in
          let kept : next ≡ after = ap (λ (r : String × Bool × Ledger). r.2) done in
          let (i, j) = find_entry-names l.entries run_id request_id e f in
          let g : find_entry next.entries run_id request_id ≡ some new =
            find_entry-put_entry l.entries run_id request_id e new f i j in
          rw (sym named, sym kept) (settle_found run_id request_id token other next new g t refl)
    ]
