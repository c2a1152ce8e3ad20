-- ===== src/Runs/Expired/Cleared.antt =====
-- What is left after the recovery of the runs whose lease has expired.
use fomo_demo.Prelude.{ℕ, true, not, ◌||◌, ◌≡◌, List, contains}
use fomo_demo.Runs.{RunRecord}
use fomo_demo.Runs.Store.{run_ids}
use fomo_demo.Runs.Expired.{is_abandoned}

-- An abandoned run is among those that are still to be recovered.
abbrev IsListed : ℕ → List RunRecord → RunRecord → Type 0
IsListed cutoff rs x = (not (is_abandoned cutoff x) || contains (run_ids rs) x.id) ≡ true
