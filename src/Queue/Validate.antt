-- ===== src/Queue/Validate.antt =====
-- Items and queues are validated and built (lab_coding_job_queue.py).
use hands_free_auto_lab_port.Prelude.{
  String, not, List, [], ◌∷◌, map, Error, raised, queue_error, Result, ok, raise_if, ◌>>=◌, ◌>>◌,
  traverse, str_eq, eqb_ℤ, ltb, length, is_nil, distinct,
}
use hands_free_auto_lab_port.Json.{Json, Items, nil, item, object_of}
use hands_free_auto_lab_port.Checks.{Value, text, Sha256}
use hands_free_auto_lab_port.Proposal.{identity}
use hands_free_auto_lab_port.Lifecycle.Types.{Lifecycle}
use hands_free_auto_lab_port.Lifecycle.Validate.{build_lab_coding_job_lifecycle}
use hands_free_auto_lab_port.Queue.Types.{
  RequestContract, Item, Queue, item_component, item_schema_version, queue_component,
  queue_schema_version, max_coding_job_queue_items, queue_id_domain,
}

abbrev pub error : String → String → Error
error = raised queue_error

module _ (C : RequestContract) where
  abbrev pub request_ids : List (Item C) → List String
  request_ids = map (λ (i : Item C). C.request_id i.request)

  abbrev pub run_ids : List (Item C) → List String
  run_ids = map (λ (i : Item C). i.run_id)

module _ (H : Sha256) (C : RequestContract) where
  -- the list of `_queue_identity`
  unfoldable pub item_objects : List (Item C) → Items
  item_objects [] = nil
  item_objects (i ∷ items) =
      item
        (object_of (
          ("request_id", Json.text (C.request_id i.request))
          ∷ ("run_id", Json.text i.run_id)
          ∷ ("job_id", Json.text i.job_id)
          ∷ []))
        (item_objects items)

  -- `_queue_id` of `_queue_identity`
  unfoldable pub queue_identity : List (Item C) → String
  queue_identity items = identity H queue_id_domain (
      object_of (
        ("component", Json.text queue_component)
        ∷ ("schema_version", Json.integer queue_schema_version)
        ∷ ("items", Json.array (item_objects items))
        ∷ []))

  unfoldable pub validate_lab_coding_job_queue_item : Item C → Result (Item C)
  validate_lab_coding_job_queue_item i = do
    raise_if (not (str_eq i.component item_component))
        (error "" "coding-job queue item component mismatch")
    raise_if (not (eqb_ℤ i.schema_version item_schema_version))
        (error "" "unsupported coding-job queue item schema version")
    request ← C.validate i.request
    lifecycle ← build_lab_coding_job_lifecycle H (text (C.request_id request)) (text i.run_id)
    raise_if (not (str_eq i.job_id lifecycle.job_id))
        (error "" "job_id does not match exact request_id/run_id identity")
    ok i

  -- the item for a request and the lifecycle that was built for it
  unfoldable pub queue_item : C.Request → Lifecycle → Item C
  queue_item request lifecycle = record {
    component = item_component;
    schema_version = item_schema_version;
    request = request;
    run_id = lifecycle.run_id;
    job_id = lifecycle.job_id;
  }

  unfoldable pub build_lab_coding_job_queue_item : C.Request → Value → Result (Item C)
  build_lab_coding_job_queue_item request run_id = do
    trusted_request ← C.validate request
    lifecycle ← build_lab_coding_job_lifecycle H (text (C.request_id trusted_request)) run_id
    validate_lab_coding_job_queue_item (queue_item trusted_request lifecycle)

  unfoldable pub validate_lab_coding_job_queue : Queue C → Result (Queue C)
  validate_lab_coding_job_queue q = do
    raise_if (not (str_eq q.component queue_component))
        (error "" "coding-job queue component mismatch")
    raise_if (not (eqb_ℤ q.schema_version queue_schema_version))
        (error "" "unsupported coding-job queue schema version")
    raise_if (is_nil q.items) (error "" "items must be a non-empty exact tuple")
    raise_if (ltb max_coding_job_queue_items (length q.items))
        (error "" "coding-job queue exceeds maximum item count")
    items ← traverse validate_lab_coding_job_queue_item q.items
    raise_if (not (distinct (request_ids C items)))
        (error "" "queue must not contain duplicate request_id values")
    raise_if (not (distinct (run_ids C items)))
        (error "" "queue must not contain duplicate run_id values")
    raise_if (not (str_eq q.queue_id (queue_identity items)))
        (error "" "queue_id does not match exact ordered queue contents")
    ok q

  -- the queue of items with the identity of its contents
  unfoldable pub queue_of : List (Item C) → Queue C
  queue_of items = record {
    component = queue_component;
    schema_version = queue_schema_version;
    queue_id = queue_identity items;
    items = items;
  }

  unfoldable pub build_lab_coding_job_queue : List (Item C) → Result (Queue C)
  build_lab_coding_job_queue items = do
    raise_if (is_nil items) (error "" "items must be a non-empty exact tuple")
    raise_if (ltb max_coding_job_queue_items (length items))
        (error "" "coding-job queue exceeds maximum item count")
    trusted_items ← traverse validate_lab_coding_job_queue_item items
    validate_lab_coding_job_queue (queue_of trusted_items)
