-- ===== src/Lib.antt =====
-- Hands-Free Auto Lab: what promotion transactions, rollback plans and coding jobs go through.
--
-- The program prepares a change to a repository in a private workspace, and a person may then
-- have it promoted: a proposal lists files with their old and new contents, a promotion
-- transaction records how far each file has come, and a journal keeps the snapshots. After a
-- crash an inspection says what stands on disk, a rollback plan is made from it, and the rollback
-- executor carries it out. What a worker did to its workspace is told from two snapshots of it, and
-- a change policy says what it may have done. An action that a model proposes is checked before it
-- runs. A coding job that is asked for from outside has a life of its own, which
-- is recorded in snapshots of the same kind; several of them are put into a queue, each bound to
-- its request, its run and its job.
--
-- Files and the code that they are about (all in src/hands_free_auto_lab):
--   Prelude      lists, integers, strings as code points, results; nothing of the program
--   Json         the JSON values and `json.dumps` as `_canonical_json_bytes` calls it: sorted keys,
--                no spaces, escapes as the call asks for
--   Checks       the values that an argument of type `object` can be, `_HEX_LOWER`, SHA-256
--   Paths        what the program uses of `PurePosixPath`
--   Snapshot     lab_workspace_snapshot.py, without the capture: Types, Validate (identities and the
--                validation of a recorded snapshot), Diff (`diff_lab_workspace_snapshots`); Paths and
--                Changes are about the difference.
--   Policy       lab_worker_change_policy.py: Types, Checks (`_require_...`), Validate (targets,
--                policies, building), Evidence (a policy against the snapshots before and after a
--                worker ran); Allowed and Accepted are about what a policy lets through.
--   Contract     lab_coding_integration_contract.py: Types, Checks, Wire (policies as wire values),
--                Request and Outcome (the operations on requests and on results); Plain, Parts and
--                WireRefusals have the lemmas on single fields, RoundTrip, Results, Refusals and Build are
--                about whole records. `coding_requests` of Build is what queues rely on.
--   Approval     lab_promotion_approval_state.py: Types (constants, and `Readers`: what is used of
--                `bytes.decode`, `json.loads` and `datetime`), Checks (`_decode_record`,
--                `_validate_...`), Records (`validate_..._record`), Build (`build_..._record`); Fields
--                and Names have the lemmas on single checks, Accepted is about challenges and
--                approvals, Choices about decisions and terminal records.
--   Proposal     lab_promotion_proposal.py: the records and `_proposal_identity_object`
--   Transaction  lab_promotion_transaction_state.py: Types (states, tables, records), Checks
--                (`_require_...`), Plan (`_validate_plan_file`, `_validated_proposal`), Identity
--                (identity objects, `_derive_risk`), Validate (`_validate_state_invariants`,
--                `validate_lab_promotion_transaction`), Build and Transition
--                (`build_...`, `transition_lab_promotion_transaction`). Facts, Rules and Updates
--                have the lemmas on one check, one table or one dictionary; Success, History,
--                Unchanged, Built, Outcomes and Completion are about whole operations and
--                chains of them.
--   Rollback     lab_promotion_rollback_plan.py: Types, Plan (`_plan_file`, `_restore_step`, the
--                loop over the files), Build (`build_lab_promotion_rollback_plan`). Replay says
--                what a step does to one MODIFY file, after lab_promotion_rollback_executor.py,
--                which takes no other files; Resume and Finish are about plans that are carried
--                out, interrupted and made again.
--   Lifecycle    lab_coding_job_lifecycle.py: Types, Validate, Transition; Facts, Success,
--                History and Completed are about them.
--   Queue        lab_coding_job_queue.py: Types, Validate; Success is about items, Contents about
--                queues. A queue uses requests through `RequestContract`: what it relies on of
--                `validate_lab_coding_integration_request`, which Contract fills.
--   Dispatcher   lab_coding_job_dispatcher.py: Types (`Runner`: what one job does, which
--                lab_coding_integration.py composes of sessions and workers), Dispatch; Runs says
--                which jobs have run, Guard what was validated before.
--   Action       lab_action.py and lab_policy.py: Types, Validate (`validate_lab_action`,
--                `build_lab_action`), Eligible (`_relative_path` with `posixpath.normpath`,
--                `evaluate_lab_policy`); Climbing and Canonical are about the paths that
--                `normpath` leaves alone, Allowed and Permitted about what is eligible.
--   Samples      test data; each part's Tests runs its model on it
--
-- How the code is read. A function that raises returns a `Result`: an error has the class of the
-- exception, the name or the path that its message is about, and the fixed text of the message. The
-- checks run in the order of the code, so the first error is the error. The strings that stand for
-- states, progress, operations and risks are data types whose last constructor is any other string,
-- so the refusals of unknown strings have their branch. A `frozen` dataclass is a record whose
-- fields have the annotated types: a check by `isinstance` of a field has no other branch, except
-- where the annotation is `object` or a union with `None`, and there a `Value` is passed. A tuple
-- is a list, a mapping a list of pairs. Strings are sequences of code points without surrogates, so
-- that encoding them never raises; they are ordered by their code points, and paths are strings.
--
-- The records of a contract and of a policy come from outside, so that their fields hold a `Value`:
-- `compound` is a list or a dictionary that `json.dumps` accepts, `object` anything that it does not;
-- floating-point numbers are left out. The tuples in these records are lists, so the refusal of what
-- is not a tuple has no branch. A dictionary that is made of the items of a list is a list of pairs,
-- in which a key that occurs once is looked up.
--
-- SHA-256 is a parameter: any function from bytes to 64 lowercase hexadecimal digits. Nothing is
-- assumed of collisions. Nothing is assumed of the readers of a record either; JSON texts with
-- floating-point numbers or lone surrogates are outside of what they can return. There is no
-- fuel: every loop goes over a list.
--
-- Not modelled: the file system, git, processes and the network, `json.loads`, and what only composes
-- them (journals, stores, inspectors, executors, workers, command lines). The effect of a rollback step
-- on disk is a description, not the system calls of `_restore_preimage` and its siblings.
pub mod Prelude
pub mod Json
pub mod Checks
pub mod Paths
pub mod Snapshot
pub mod Policy
pub mod Contract
pub mod Approval
pub mod Proposal
pub mod Transaction
pub mod Rollback
pub mod Lifecycle
pub mod Samples
pub mod Queue
pub mod Dispatcher
pub mod Action
