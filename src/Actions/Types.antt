-- ===== src/Actions/Types.antt =====
-- src/actions/types.ts: the messages between the agent and the helper.
use agentv.Base.{String, Bool, Option, List}

-- `protocol_version` is 1 and `action` is `restart_service` in every value.
pub record RestartRequest : Type 0 where
  pub operation_id : String
  pub unit : String
  pub reason : String
  pub expected_active_state : String
  pub expected_sub_state : String
  pub expected_invocation_id : Option String

pub data Outcome : Type 0 where
  success failed not_started unknown : Outcome

pub record ServiceState : Type 0 where
  pub active_state : String
  pub sub_state : String
  pub invocation_id : Option String

pub record RestartReceipt : Type 0 where
  pub operation_id : String
  pub unit : String
  pub outcome : Outcome
  pub before : ServiceState
  pub after : Option ServiceState
  pub started_at : String
  pub completed_at : Option String
  pub systemd_job_result : Option String

-- `protocol_version` is 1 in every value: the schema of the client refuses any other.
pub record HelperCapabilities : Type 0 where
  pub policy_valid : Bool
  pub restart_services : List String

-- `src/actions/ledger.ts`, `LedgerRecord`
pub record LedgerRecord : Type 0 where
  pub request_hash : String
  pub request : RestartRequest
  pub receipt : RestartReceipt
  pub updated_at : String

-- An `Error` with the `code` and the `outcome` that the helper assigns to it.
pub record HelperError : Type 0 where
  pub code : Option String
  pub message : String
  pub outcome : Option String
