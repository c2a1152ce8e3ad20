-- ===== src/Tests/UsageTests.antt =====
-- The usage ledger at concrete inputs.
use fomo_demo.Runs.Store.{run_for_write, holds_lease, put_run}
use fomo_demo.Usage.{put_entry, Counters, Ledger, no_usage, add_usage}
use fomo_demo.Usage.Operations.{
  reserve_usage_entry, UsageCall, new_entry, insert_entry, reserved, settled_entry,
  settle_usage_entry, record_usage_entry, recorded_usage, is_incomplete, get_usage_totals,
}
use fomo_demo.Prelude.{if◌then◌else◌, ◌≡◌, refl, none, ok, [], ◌∷◌, true, false}
use fomo_demo.Runs.{Database}
use fomo_demo.Usage.Settled.{settle_usage_entry-once, settled_again}
use fomo_demo.Usage.Recorded.{record_usage_entry-once, reserve_usage_entry-settles}
use fomo_demo.Tests.Office.{office, queued_run, running_run, ended_run}
use fomo_demo.Tests.Data.{keep_text}

abbrev ledger : Ledger
ledger = record { database = office; graphs = []; revisions = []; nodes = []; entries = [] }

abbrev question : UsageCall
question = record {
  run_id = "r1";
  request_id = "q1";
  lease_token = "t1";
  provider = "litellm";
  model = "flash";
  metadata = record { reservation = none; settled = none; others = [] };
  goal_id = none;
}

abbrev some_usage : Counters
some_usage = record no_usage { input_tokens = 12; output_tokens = 3; cost_micros = 7 }

-- the tables after the fence at 50
abbrev fenced_office : Database
fenced_office = record office {
  runs = queued_run ∷ record running_run { updated_at = 50 } ∷ ended_run ∷ [];
}

-- and after the fence at 60
abbrev refenced_office : Database
refenced_office = record office {
  runs = queued_run ∷ record running_run { updated_at = 60 } ∷ ended_run ∷ [];
}

abbrev reserved_ledger : Ledger
reserved_ledger =
    insert_entry
      (new_entry "e1" question running_run (none, none) no_usage (reserved "k1" question.metadata))
      fenced_office ledger

abbrev settled_ledger : Ledger
settled_ledger =
    insert_entry
      (settled_entry some_usage (
        new_entry "e1" question running_run (none, none) no_usage
          (reserved "k1" question.metadata)))
      fenced_office ledger

abbrev recorded_ledger : Ledger
recorded_ledger =
    insert_entry (new_entry "e1" question running_run (none, none) some_usage question.metadata)
      fenced_office ledger

reserve_example :
    (is_incomplete "r1" reserved_ledger.entries ≡ true)
    × (get_usage_totals "r1" reserved_ledger ≡ ok no_usage)
    × (after : Ledger) × (settle_usage_entry "r1" "q1" "k1" some_usage reserved_ledger
        ≡ ok ("e1", true, after))
    × (recorded_usage "r1" after.entries
        ≡ add_usage some_usage (recorded_usage "r1" ledger.entries))
    × (is_incomplete "r1" after.entries ≡ is_incomplete "r1" ledger.entries)
    × (get_usage_totals "r1" after
        ≡ ok (
            if is_incomplete "r1" ledger.entries
            then no_usage
            else add_usage some_usage (recorded_usage "r1" ledger.entries)))
unfolding reserve_usage_entry run_for_write holds_lease put_run
reserve_example =
    reserve_usage_entry-settles keep_text 50 "e1" "k1" question some_usage ledger
      ("k1", reserved_ledger) refl refl

settle_example :
    settle_usage_entry "r1" "q1" "k1" no_usage settled_ledger
    ≡ settled_again some_usage no_usage "e1" settled_ledger
unfolding settle_usage_entry put_entry
settle_example =
    settle_usage_entry-once "r1" "q1" "k1" "e1" some_usage no_usage true reserved_ledger
      settled_ledger refl

-- the same request from another provider, with other counters
abbrev other_question : UsageCall
other_question = record question { provider = "openai"; model = "large" }

record_example :
    record_usage_entry keep_text 60 "e2" other_question no_usage recorded_ledger
    ≡ ok ("e1", false, recorded_ledger)
unfolding record_usage_entry run_for_write holds_lease put_run
record_example =
    record_usage_entry-once keep_text 50 60 "e1" "e2" question other_question some_usage no_usage
      ledger ("e1", true, recorded_ledger) (record running_run { updated_at = 60 }, refenced_office)
      refl refl refl refl

totals_of_settled : get_usage_totals "r1" settled_ledger ≡ ok some_usage
unfolding get_usage_totals
totals_of_settled = refl

totals_are_withheld : get_usage_totals "r1" reserved_ledger ≡ ok no_usage
unfolding get_usage_totals
totals_are_withheld = refl
