-- ===== src/Runs/Publish/Once.antt =====
-- What a publication leaves, and its repetition.
use fomo_demo.Prelude.{String, true, not, ◌||◌, ◌≡◌, some, List, ◌∷◌, ◌==◌, All, ltb, ok}
use fomo_demo.Runs.{RunRecord, VersionRecord, number, Database, RunStatus}
use fomo_demo.Runs.Store.{find_run, run_for_write, or_raise}
use fomo_demo.Runs.Publish.{Publication, published_before, is_succeeded, run_for_write, or_raise}
use fomo_demo.Runs.Sandbox.{is_succeeded}

-- A version of another project, or with a lower number.
abbrev pub IsOlderThan : VersionRecord → VersionRecord → Type 0
IsOlderThan new v = (not (v.project_id == new.project_id) || ltb v.number new.number) ≡ true

abbrev HasPublished : String → Publication → List VersionRecord → VersionRecord × Database → Type 0
HasPublished id p versions result =
    (q : RunRecord) × (find_run result.1.runs id ≡ some q)
    × (q.status ≡ RunStatus.succeeded)
    × (result.1.versions ≡ result.0 ∷ versions)
    × All (IsOlderThan result.0) versions
    × (published_before q p.commit_sha result.1 ≡ ok result)
