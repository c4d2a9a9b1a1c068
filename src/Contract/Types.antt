-- ===== src/Contract/Types.antt =====
-- Requests and results (lab_coding_integration_contract.py). Their fields hold any value until they
-- are validated.
use hands_free_auto_lab_port.Prelude.{List, pos, ◌*◌, ℤ, String, ℕ}
use hands_free_auto_lab_port.Policy.Types.{ChangePolicy}
use hands_free_auto_lab_port.Checks.{Value}

-- `LabCodingIntegrationRequest`
pub record Request : Type 0 where
  pub component : Value
  pub schema_version : Value
  pub request_id : Value
  pub repository_path : Value
  pub commit_oid : Value
  pub expected_branch : Value
  pub relative_paths : List Value
  pub goal : Value
  pub change_policy : ChangePolicy
  pub max_runtime_seconds : Value

-- `LabCodingIntegrationResult`
pub record Outcome : Type 0 where
  pub component : Value
  pub schema_version : Value
  pub result_id : Value
  pub request_id : Value
  pub candidate_id : Value

abbrev pub request_component : String
request_component = "hands-free-auto-lab-coding-integration-request-v1"

abbrev pub request_schema_version : ℤ
request_schema_version = pos 1

abbrev pub result_component : String
result_component = "hands-free-auto-lab-coding-integration-result-v1"

abbrev pub result_schema_version : ℤ
result_schema_version = pos 1

abbrev pub max_integration_goal_bytes : ℕ
max_integration_goal_bytes = 64 * 1024

abbrev pub max_integration_runtime_seconds : ℤ
max_integration_runtime_seconds = pos 3600

abbrev pub request_id_domain : String
request_id_domain = "hands-free-auto-lab-coding-integration-request-id-v1"

abbrev pub result_id_domain : String
result_id_domain = "hands-free-auto-lab-coding-integration-result-id-v1"
