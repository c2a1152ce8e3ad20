-- ===== src/Usage/Operations.antt =====
-- `record_usage_entry`, `reserve_usage_entry`, `settle_usage_entry` and the totals. `strip` is Python's
-- `str.strip`.
use Prim.Native.String.{count}
use fomo_demo.Prelude.{
  ℕ, String, Bool, true, false, not, ◌&&◌, ◌||◌, Option, none, some, List, [], ◌∷◌, ◌==◌, Result,
  ok, err, guard, ◌>>=◌, ◌>>◌, any, ltb, if◌then◌else◌, is_blank,
}
use fomo_demo.Runs.{RunRecord, Database, RepositoryError, not_found, conflict, invalid}
use fomo_demo.Runs.Store.{find_run, or_raise, run_for_write}
use fomo_demo.Usage.{
  Counters, no_usage, add_usage, same_usage, Metadata, UsageEntry, Ledger, find_graph, usage_scope,
  find_entry, put_entry,
}

-- What a caller says of a request.
pub record UsageCall : Type 0 where
  pub run_id : String
  pub request_id : String
  pub lease_token : String
  pub provider : String
  pub model : String
  pub metadata : Metadata
  pub goal_id : Option String

abbrev pub new_entry :
    String
    → UsageCall
    → RunRecord
    → Option String × Option String
    → Counters
    → Metadata
    → UsageEntry
new_entry id c r scope usage metadata = record {
  id = id;
  project_id = r.project_id;
  run_id = c.run_id;
  graph_id = scope.0;
  goal_node_id = scope.1;
  request_id = c.request_id;
  provider = c.provider;
  model = c.model;
  usage = usage;
  metadata = metadata;
}

abbrev pub insert_entry : UsageEntry → Database → Ledger → Ledger
insert_entry e db l = record l { database = db; entries = e ∷ l.entries }

abbrev pub reserved : String → Metadata → Metadata
reserved token m = record m { reservation = some token; settled = some false }

-- A new entry with the scope of its goal.
unfoldable pub add_entry :
    String
    → UsageCall
    → Counters
    → Metadata
    → RunRecord × Database
    → Ledger
    → Result RepositoryError Ledger
unfolding usage_scope
add_entry id c usage metadata locked l = do
  scope ← usage_scope l (find_graph l.graphs c.run_id) c.goal_id
  ok (insert_entry (new_entry id c locked.0 scope usage metadata) locked.1 l)

-- An entry that is there already is returned as it is.
unfoldable pub recorded_once :
    String
    → UsageCall
    → Counters
    → RunRecord × Database
    → Option UsageEntry
    → Ledger
    → Result RepositoryError (String × Bool × Ledger)
unfolding add_entry
recorded_once id c usage locked (some e) l = ok (e.id, false, l)
recorded_once id c usage locked none l = do
  after ← add_entry id c usage c.metadata locked l
  ok (id, true, after)

abbrev pub same_option : Option String → String → Bool
same_option none s = false
same_option (some t) s = t == s

-- A reservation that is there already is returned where it is of the same provider and model.
reserved_again :
    UsageCall → UsageEntry → Option String → Ledger → Result RepositoryError (String × Ledger)
reserved_again c e none l = err (conflict "usage request id is already bound differently")
reserved_again c e (some token) l =
    if e.provider == c.provider && e.model == c.model
    then ok (token, l)
    else err (conflict "usage request id is already bound differently")

unfoldable pub reserved_once :
    String
    → String
    → UsageCall
    → RunRecord × Database
    → Option UsageEntry
    → Ledger
    → Result RepositoryError (String × Ledger)
unfolding add_entry reserved_again
reserved_once id token c locked (some e) l = reserved_again c e e.metadata.reservation l
reserved_once id token c locked none l = do
  after ← add_entry id c no_usage (reserved token c.metadata) locked l
  ok (token, after)

abbrev pub was_settled : Option Bool → Bool
was_settled (some true) = true
was_settled _ = false

abbrev pub settled_entry : Counters → UsageEntry → UsageEntry
settled_entry usage e = record e {
  usage = usage;
  metadata = record e.metadata { settled = some true };
}

unfoldable pub settle_with :
    Counters → UsageEntry → Ledger → Result RepositoryError (String × Bool × Ledger)
settle_with usage e l =
    if was_settled e.metadata.settled
    then (if same_usage e.usage usage
        then ok (e.id, false, l)
        else err (conflict "usage request was already settled differently"))
    else ok (e.id, true, record l { entries = put_entry (settled_entry usage e) l.entries })

-- The flag of the result says that the usage is new; the lease of the run is not asked for.
unfoldable pub settle_usage_entry :
    String → String → String → Counters → Ledger → Result RepositoryError (String × Bool × Ledger)
unfolding settle_with
settle_usage_entry run_id request_id token usage l = do
  e ← or_raise (find_entry l.entries run_id request_id) (not_found "usage reservation not found")
  guard (same_option e.metadata.reservation token)
      (conflict "usage reservation token does not match")
  settle_with usage e l

module _ (strip : String → String) where
  -- `id` and `token` are the ids that `uuid7()` gives, and `now` is the time of the fence.
  unfoldable pub record_usage_entry :
      ℕ → String → UsageCall → Counters → Ledger → Result RepositoryError (String × Bool × Ledger)
  unfolding recorded_once
  record_usage_entry now id c usage l = do
    guard (not (is_blank (strip c.request_id) || ltb 160 (count c.request_id)))
        (invalid "request_id must be nonempty and bounded")
    locked ← run_for_write now c.run_id (some c.lease_token) l.database
    recorded_once id c usage locked (find_entry l.entries c.run_id c.request_id) l

  unfoldable pub reserve_usage_entry :
      ℕ → String → String → UsageCall → Ledger → Result RepositoryError (String × Ledger)
  unfolding reserved_once
  reserve_usage_entry now id token c l = do
    guard (not (is_blank (strip c.request_id) || ltb 160 (count c.request_id)))
        (invalid "request_id must be nonempty and bounded")
    locked ← run_for_write now c.run_id (some c.lease_token) l.database
    reserved_once id token c locked (find_entry l.entries c.run_id c.request_id) l

-- the sums over the entries of a run
unfoldable pub recorded_usage : String → List UsageEntry → Counters
recorded_usage run_id [] = no_usage
recorded_usage run_id (e ∷ es) =
    let rest = recorded_usage run_id es in
    if e.run_id == run_id then add_usage e.usage rest else rest

-- `metadata.get("_usageSettled") is False`
abbrev pub is_unsettled : Option Bool → Bool
is_unsettled (some false) = true
is_unsettled _ = false

-- An entry of the run is not settled.
unfoldable pub is_incomplete : String → List UsageEntry → Bool
is_incomplete run_id es =
    any (λ (e : UsageEntry). e.run_id == run_id && is_unsettled e.metadata.settled) es

-- `get_usage_totals`
unfoldable pub get_usage_totals : String → Ledger → Result RepositoryError Counters
unfolding recorded_usage is_incomplete
get_usage_totals run_id l = do
  r ← or_raise (find_run l.database.runs run_id) (not_found "run not found")
  ok (if is_incomplete run_id l.entries then no_usage else recorded_usage run_id l.entries)
