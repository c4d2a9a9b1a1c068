-- ===== src/Queue/Samples.antt =====
-- A queue of two jobs over requests that are their identifiers, for the tests.
use hands_free_auto_lab_port.Prelude.{
  arith, String, ◌≡◌, true, List, [], ◌∷◌, Result, ok, err, if◌then◌else◌,
}
use hands_free_auto_lab_port.Samples.{toy, even_id, odd_id, opened}
use hands_free_auto_lab_port.Checks.{is_hex}
use hands_free_auto_lab_port.Lifecycle.Types.{state_name}
use hands_free_auto_lab_port.Lifecycle.Validate.{
  require_identifier, require_optional_identifier, require_evidence, snapshot_object, check_state,
  validate_state_invariants, job_identity, snapshot_identity, validate_lab_coding_job_lifecycle,
  snapshot, build_lab_coding_job_lifecycle,
}
use hands_free_auto_lab_port.Queue.Types.{
  RequestContract, Item, item_component, item_schema_version,
}
use hands_free_auto_lab_port.Queue.Validate.{
  error, item_objects, queue_identity, validate_lab_coding_job_queue_item, queue_item,
  build_lab_coding_job_queue_item, validate_lab_coding_job_queue, queue_of,
  build_lab_coding_job_queue,
}

-- Unfolding this name opens what a run of a queue computes with.
unfoldable pub opened_queue : Unit {0}
unfolding opened state_name require_identifier require_optional_identifier require_evidence
    snapshot_object check_state validate_state_invariants job_identity snapshot_identity
    validate_lab_coding_job_lifecycle snapshot build_lab_coding_job_lifecycle item_objects
    queue_identity validate_lab_coding_job_queue_item queue_item build_lab_coding_job_queue_item
    validate_lab_coding_job_queue queue_of build_lab_coding_job_queue
opened_queue = tt

-- A request that is its identifier, which the validation checks.
abbrev pub check_id : String → Result String
check_id s = if is_hex 64 s then ok s else err (error "request_id" "")

pub check_id_same : (s : String) {t : String} → check_id s ≡ ok t → t ≡ s
check_id_same s h = ground arith

pub check_id-IsHex : (s : String) {t : String} → check_id s ≡ ok t → is_hex 64 s ≡ true
check_id-IsHex s h = ground arith

abbrev pub bare : RequestContract
bare = record {
  Request = String;
  request_id = λ s. s;
  validate = check_id;
  validate_same = check_id_same;
  validate-IsHex = check_id-IsHex;
}

abbrev pub an_item : String → String → Item bare
an_item request run = record {
  component = item_component;
  schema_version = item_schema_version;
  request = request;
  run_id = run;
  job_id = job_identity toy request run;
}

abbrev pub two : List (Item bare)
two = an_item even_id odd_id ∷ (an_item odd_id even_id ∷ [])
