-- ===== src/Runs/Lineage.antt =====
-- The prompt of a run and of the runs it recovers: `_run_prompt_lineage_in_session` and
-- `_assemble_run_prompt`. `str` prints a number.
use Prim.Native.String.{◌++◌, count}
use fomo_demo.Prelude.{
  ℕ, suc, zero, String, Bool, false, not, ◌&&◌, Option, none, some, List, [], ◌∷◌, ◌==◌, Result, ok,
  err, guard, ◌>>=◌, ◌>>◌, contains, if◌then◌else◌, ltb, leb, length,
}
use fomo_demo.Runs.{RunRecord, MessageRecord, Database, RepositoryError, not_found, inconsistent}
use fomo_demo.Runs.Store.{find_run, or_raise}

-- `MAX_RECOVERY_LINEAGE_RUNS` and `MAX_RECOVERY_PROMPT_CHARACTERS`
abbrev pub max_recovery_lineage_runs : ℕ
max_recovery_lineage_runs = 8

abbrev pub max_recovery_prompt_characters : ℕ
max_recovery_prompt_characters = 96000

-- the first message of the user for the run; of two at one time, the one that was added first
abbrev pub is_message_of : RunRecord → MessageRecord → Bool
is_message_of r m = named m.run_id && m.project_id == r.project_id && m.role == "user"
  where
    named : Option String → Bool
    named none = false
    named (some id) = id == r.id

older_message : MessageRecord → Option MessageRecord → MessageRecord
older_message m none = m
older_message m (some n) = if ltb m.created_at n.created_at then m else n

unfoldable pub first_message : RunRecord → List MessageRecord → Option MessageRecord
unfolding older_message
first_message r [] = none
first_message r (m ∷ ms) =
    let rest = first_message r ms in if is_message_of r m then some (older_message m rest) else rest

-- The contents of the messages from the original run to the given one: `visited` are the runs so far
-- and `rounds` is how many more there may be.
unfoldable pub lineage_from :
    ℕ
    → Database
    → String
    → List String
    → List String
    → Option String
    → Result RepositoryError (List String)
lineage_from rounds db project_id visited contents none = ok contents
lineage_from zero db project_id visited contents (some id) =
    if contains visited id
    then err (inconsistent "recovery run lineage contains a cycle")
    else err (inconsistent "recovery run lineage is too deep")
lineage_from (suc rounds) db project_id visited contents (some id) = do
  guard (not (contains visited id)) (inconsistent "recovery run lineage contains a cycle")
  r ← or_raise (find_run db.runs id) (not_found "run not found")
  guard (r.project_id == project_id) (inconsistent "recovery run lineage crossed project scope")
  m ← or_raise (first_message r db.messages) (not_found "run message not found")
  lineage_from rounds db project_id (id ∷ visited) (m.content ∷ contents) r.recovered_from_run_id

unfoldable pub run_prompt_lineage : Database → RunRecord → Result RepositoryError (List String)
unfolding lineage_from
run_prompt_lineage db r = lineage_from max_recovery_lineage_runs db r.project_id [] [] (some r.id)

abbrev pub with_content : List String → String → List String
with_content [] content = content ∷ []
with_content (c ∷ cs) content = c ∷ with_content cs content

module _ (str : ℕ → String) where
  followups : ℕ → List String → String
  followups index [] = ""
  followups index (c ∷ cs) =
      "\n\nRecovery follow-up " ++ str index ++ ":\n" ++ c ++ followups (suc index) cs

  unfoldable pub joined_prompt : List String → String
  unfolding followups
  joined_prompt [] = ""
  joined_prompt (c ∷ []) = c
  joined_prompt (c ∷ d ∷ cs) = "Original request:\n" ++ c ++ followups 1 (d ∷ cs)

  unfoldable pub assemble_run_prompt : List String → Result RepositoryError String
  unfolding joined_prompt
  assemble_run_prompt contents = do
    guard (ltb 0 (length contents) && leb (length contents) max_recovery_lineage_runs)
        (inconsistent "recovery prompt lineage is invalid")
    guard (leb (count (joined_prompt contents)) max_recovery_prompt_characters)
        (inconsistent "recovery prompt exceeds the runtime limit")
    ok (joined_prompt contents)
