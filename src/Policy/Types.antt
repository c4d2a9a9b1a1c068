-- ===== src/Policy/Types.antt =====
-- Targets and policies (lab_worker_change_policy.py). Their fields hold any value until they are
-- validated: a policy is made of what a caller sent (`_policy_from_wire` of
-- lab_coding_integration_contract.py).
use hands_free_auto_lab_port.Prelude.{String, List, ℤ, pos}
use hands_free_auto_lab_port.Checks.{Value}

-- `LabWorkerChangeTarget`
pub record Target : Type 0 where
  pub operation : Value
  pub path : Value
  pub max_final_bytes : Value
  pub final_mode : Value
  pub before_bytes : Value
  pub before_sha256 : Value
  pub before_mode : Value

-- `LabWorkerChangePolicy`
pub record ChangePolicy : Type 0 where
  pub component : Value
  pub schema_version : Value
  pub policy_id : Value
  pub targets : List Target

abbrev pub change_policy_component : String
change_policy_component = "hands-free-auto-lab-worker-change-policy-v1"

abbrev pub change_policy_schema_version : ℤ
change_policy_schema_version = pos 1

-- `OPERATION_ADD` and `OPERATION_MODIFY`
abbrev pub operation_add : String
operation_add = "ADDED"

abbrev pub operation_modify : String
operation_modify = "MODIFIED"

abbrev pub policy_id_domain : String
policy_id_domain = "hands-free-auto-lab-worker-change-policy-id-v1"
