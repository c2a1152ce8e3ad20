-- ===== src/Lib.antt =====
-- Verification library of the FOMO control plane (services/control-plane/src/fomo), a service that
-- plans a web application as a graph of goals, lets a coding agent build them one by one, and
-- verifies each result before it is published.
--
-- The planner's answer is an acceptance contract per goal and a goal graph; the goal manager decides
-- which goal is built, claimed, retried and verified; a finished turn of the agent is settled before
-- its result is verified; and whatever fails is reduced to a closed set of public failures.
--
-- A message of a user becomes a queued run; workers claim runs under leases, ask the user, record
-- their usage and end the runs, all through the repository, whose tables are the only shared state.
--
-- The parts, by the files under services/control-plane/src/fomo/direct_pi:
--   Contracts, Contracts/*   contracts.py: the acceptance DSL. Contracts/Syntax has the patterns of
--     Identifier, LocalPath and the historical path grammar as matchers over code points.
--   Graph, Graph/*   goalgraph.py: Topology is _validate_goal_topology, Dependencies is
--     _transitive_dependencies, Routes is _validate_route_manifest, Evidence the evidence of the v2
--     contract, Navigation the navigation suite, Keys the durable keys and test paths, Status the
--     two status machines, and Model the drafts, GoalGraph and materialize_goal_graph.
--   Manager, Manager/*   goal_manager.py: every operation returns a new graph or an error.
--     Manager/Run composes the operations to runs, Manager/Progress to a run that finishes,
--     Manager/Regression is build_regression_suite, Manager/Escalation early_full_validation_reason
--     and Manager/Plan plan_goal_execution.
--   Failures, Failures/*   failures.py: Table is the table of public failures, Classify the
--     classification of exceptions, Payload the payloads of events.
--   Settlement, Settlement/*   settlement.py: the admission of turns.
-- and by the files under services/control-plane/src/fomo:
--   Runtime, Runtime/*   runtime_contract.py and agent_framework.py: the catalogue of models, the
--     compatibility of frameworks, what a deployment enables, and the contract of a run, resolved and
--     read back.
--   Runs, Runs/*   persistence/models.py and persistence/repository.py, the life of a run: Store is
--     the rows, the event log and the write fence (_run_for_write), Access is _require_project,
--     Create create_message_and_run, Lease claim_next_run and renew_lease, Phase the progress under
--     a lease, Input wait_for_user_input, Answer answer_user_input and complete_run_continuation, Ending
--     request_cancel and mark_terminal, Publish finalize_verified_publish, Expired
--     recover_expired_running_runs, Fork create_recovery_message_and_run with the prompts of Lineage,
--     Sandbox the sandboxes of a run, Resume get_run_continuation,
--     Accounts the sessions and projects of an account. Runs/Moves is the transition
--     system of the table of runs of its allowed changes, and Runs/History the sequences of
--     calls: the methods that create a run or write its status or its lease, and those of its progress
--     and its sandboxes. What they guarantee is in Runs/History/Guarantees.
--   Usage, Usage/*   the usage ledger of persistence/repository.py.
--   Prelude, Prelude/*   shared helpers; Tests, Tests/*   runs on small inputs.
--
-- How the code is translated: a function that raises returns a Result with an error of its module.
-- A Python set of texts that is only asked for membership is a list. Texts are the native texts, and
-- lengths are counted in code points. A pydantic model that is validated again on construction is a
-- record and a validator. A LegacyGoal is a Goal with a flag, which a new validation keeps. An
-- exception is an object of a store, which a chain of causes links by identity.
--
-- The tables of the repository are lists of rows, and a method is a function from them to a result
-- and the new tables, or an error. Methods run one after the other, which the database's locks
-- stand for; one that raises, or returns without a commit, leaves the tables. The time of a call,
-- in microseconds, and the ids and lease tokens that uuid7 gives are arguments. A column that is
-- set to the current time on an UPDATE is written out.
--
-- Parameters: byte_count is the length of the UTF-8 encoding, normalized is strip().lower(),
-- casefold is str.casefold, strip is str.strip, digest is the shortened SHA-256 of a path,
-- joined_text joins unknown names for a message, and str prints a number. Nothing is assumed of
-- them.
--
-- Loops: the worklist of _transitive_dependencies runs on fuel, as many rounds as the goal and all
-- goals have dependencies, which is proved to be enough. The classification makes the eight turns
-- that the source makes, and the lineage of a prompt the eight rounds of its limit. All other loops
-- are structural.
--
-- Not modelled: of the repository, registration and passwords, checkpoints, the other operations on
-- versions, the persisted goal graph except what the ledger reads, and the responses. What the two
-- recoveries read of goal graphs and checkpoints is an argument of theirs, which the theorems leave
-- open, and what they write there is left out. The sequences of calls have set_run_phase without a
-- status, as its only caller calls it. Nor are assert_goal_graph_executable, from_started_payload,
-- parsing and printing of JSON and the hashes of revisions, the length bounds of pydantic fields; and
-- the SQL, sessions of the agent, the sandbox service, the orchestrator, the worker and the HTTP
-- layer, which are I/O around the decisions modelled here; and the web application.
mod Prelude
pub mod Contracts
pub mod Graph
pub mod Manager
pub mod Failures
pub mod Settlement
pub mod Runtime
pub mod Runs
pub mod Usage
mod Tests
