-- ===== src/Usage.antt =====
-- The usage ledger of persistence/repository.py: its rows and their lookups. The counters are natural
-- numbers. The metadata keep the two keys of a reservation apart from the caller's other values.
pub mod Operations
pub mod Settled
pub mod Recorded
use Prim.Native.String.{count}
use fomo_demo.Prelude.{
  ℕ, ◌+◌, String, Bool, true, false, not, ◌&&◌, ◌||◌, Option, none, some, List, [], ◌∷◌, ◌==◌,
  Result, ok, err, guard, ◌>>=◌, ◌>>◌, first, any, eqb, ltb, if◌then◌else◌, is_some, is_blank,
}
use fomo_demo.Runs.{
  RunRecord, Database, Value, RepositoryError, not_found, conflict, invalid, inconsistent,
}
use fomo_demo.Runs.Store.{find_run, or_raise, run_for_write}

pub record Counters : Type 0 where
  pub input_tokens : ℕ
  pub output_tokens : ℕ
  pub cache_read_tokens : ℕ
  pub cache_write_tokens : ℕ
  pub tool_calls : ℕ
  pub cost_micros : ℕ

-- `UsageTotals()`
abbrev pub no_usage : Counters
no_usage = record {
  input_tokens = 0;
  output_tokens = 0;
  cache_read_tokens = 0;
  cache_write_tokens = 0;
  tool_calls = 0;
  cost_micros = 0;
}

abbrev pub add_usage : Counters → Counters → Counters
add_usage a b = record {
  input_tokens = a.input_tokens + b.input_tokens;
  output_tokens = a.output_tokens + b.output_tokens;
  cache_read_tokens = a.cache_read_tokens + b.cache_read_tokens;
  cache_write_tokens = a.cache_write_tokens + b.cache_write_tokens;
  tool_calls = a.tool_calls + b.tool_calls;
  cost_micros = a.cost_micros + b.cost_micros;
}

abbrev pub same_usage : Counters → Counters → Bool
same_usage a b =
    eqb a.input_tokens b.input_tokens
    && eqb a.output_tokens b.output_tokens
    && eqb a.cache_read_tokens b.cache_read_tokens
    && eqb a.cache_write_tokens b.cache_write_tokens
    && eqb a.tool_calls b.tool_calls
    && eqb a.cost_micros b.cost_micros

-- `_usageReservationToken`, `_usageSettled` and the rest
pub record Metadata : Type 0 where
  pub reservation : Option String
  pub settled : Option Bool
  pub others : List (String × Value)

pub record UsageEntry : Type 0 where
  pub id : String
  pub project_id : String
  pub run_id : String
  pub graph_id : Option String
  pub goal_node_id : Option String
  pub request_id : String
  pub provider : String
  pub model : String
  pub usage : Counters
  pub metadata : Metadata

-- The columns of the goal graph's tables that the ledger reads.
pub record GraphRecord : Type 0 where
  pub id : String
  pub run_id : String
  pub current_revision : ℕ

pub record RevisionRecord : Type 0 where
  pub id : String
  pub graph_id : String
  pub revision : ℕ

pub record NodeRecord : Type 0 where
  pub id : String
  pub revision_id : String
  pub goal_key : String

-- the tables that the ledger reads and writes
pub record Ledger : Type 0 where
  pub database : Database
  pub graphs : List GraphRecord
  pub revisions : List RevisionRecord
  pub nodes : List NodeRecord
  pub entries : List UsageEntry

abbrev pub find_graph : List GraphRecord → String → Option GraphRecord
find_graph graphs run_id = first (λ (g : GraphRecord). g.run_id == run_id) graphs

-- `_current_revision_in_session`
abbrev pub current_revision_of :
    List RevisionRecord → GraphRecord → Result RepositoryError RevisionRecord
current_revision_of revisions g =
    or_raise
      (first (λ (r : RevisionRecord). r.graph_id == g.id && eqb r.revision g.current_revision)
        revisions)
      (inconsistent "GoalGraph current revision is missing")

-- The graph and the node that an entry is counted for.
unfoldable pub usage_scope :
    Ledger
    → Option GraphRecord
    → Option String
    → Result RepositoryError (Option String × Option String)
usage_scope l none none = ok (none, none)
usage_scope l (some g) none = ok (some g.id, none)
usage_scope l none (some goal) = err (conflict "P0 run has no goal for scoped usage")
usage_scope l (some g) (some goal) = do
  r ← current_revision_of l.revisions g
  n ←
      or_raise (first (λ (n : NodeRecord). n.revision_id == r.id && n.goal_key == goal) l.nodes)
        (not_found "goal not found")
  ok (some g.id, some n.id)

abbrev pub is_entry : String → String → UsageEntry → Bool
is_entry run_id request_id e = e.run_id == run_id && e.request_id == request_id

abbrev pub find_entry : List UsageEntry → String → String → Option UsageEntry
find_entry entries run_id request_id = first (is_entry run_id request_id) entries

-- the write of a row with the run and the request of the given one, which are unique in the table
unfoldable pub put_entry : UsageEntry → List UsageEntry → List UsageEntry
put_entry new [] = []
put_entry new (e ∷ es) =
    if is_entry new.run_id new.request_id e then new ∷ es else e ∷ put_entry new es
