-- ===== src/Queue/Types.antt =====
-- What a queue needs of requests, its items, and the queue (lab_coding_job_queue.py).
use hands_free_auto_lab_port.Prelude.{ℕ, String, ◌≡◌, true, List, ℤ, pos, Result, ok}
use hands_free_auto_lab_port.Checks.{is_hex}

-- The contract of requests (lab_coding_integration_contract.py), as far as queues rely on it:
-- `validate_lab_coding_integration_request` returns the request that it is given, and has checked
-- the form of its identifier.
pub record RequestContract : Type 1 where
  pub Request : Type 0
  pub request_id : Request → String
  pub validate : Request → Result Request
  pub validate_same : (r : Request) {q : Request} → validate r ≡ ok q → q ≡ r
  pub validate-IsHex :
      (r : Request) {q : Request} → validate r ≡ ok q → is_hex 64 (request_id r) ≡ true

module _ (C : RequestContract) where
  -- `LabCodingJobQueueItem`
  pub record Item : Type 0 where
    pub component : String
    pub schema_version : ℤ
    pub request : C.Request
    pub run_id : String
    pub job_id : String

  -- `LabCodingJobQueue`
  pub record Queue : Type 0 where
    pub component : String
    pub schema_version : ℤ
    pub queue_id : String
    pub items : List Item

abbrev pub item_component : String
item_component = "hands-free-auto-lab-coding-job-queue-item-v1"

abbrev pub item_schema_version : ℤ
item_schema_version = pos 1

abbrev pub queue_component : String
queue_component = "hands-free-auto-lab-coding-job-queue-v1"

abbrev pub queue_schema_version : ℤ
queue_schema_version = pos 1

abbrev pub max_coding_job_queue_items : ℕ
max_coding_job_queue_items = 32

abbrev pub queue_id_domain : String
queue_id_domain = "hands-free-auto-lab-coding-job-queue-id-v1"
