-- ===== src/Dispatcher/Types.antt =====
-- What the dispatcher needs of a single job (lab_coding_integration.py): deployments and their
-- validation, and `run_lab_coding_integration_request_with_lifecycle`, which changes the world. The
-- root of the journal, the same for all jobs, is part of `run`.
use hands_free_auto_lab_port.Prelude.{Result, String}
use hands_free_auto_lab_port.Queue.Types.{RequestContract}

pub record Runner (C : RequestContract) : Type 1 where
  pub World : Type 0
  pub Deployment : Type 0
  pub JobResult : Type 0
  pub session_id : Deployment → String
  pub validate_deployment : Deployment → Result Deployment
  pub run : C.Request → Deployment → String → World → Result JobResult × World
