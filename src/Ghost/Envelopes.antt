-- ===== src/Ghost/Envelopes.antt =====
-- command.go, execution.go and envelopes.go: the envelopes of a command on its way through a Ghost.
use Prim.Native.String.{String}
use edgectl.Prelude.{
  ℕ, [], ◌++◌, not, ◌&&◌, ◌==◌, if◌then◌else◌, Text, codes, same, is_empty, trim_space, Result, ok,
  err, ◌>>◌, Option, none,
}
use edgectl.Session.Command.{Args}

pub data LifecyclePhase : Type 0 where
  boot appeared seeded radiating : LifecyclePhase

-- `invalid_command_env` carries the reason.
pub data GhostError : Type 0 where
  invalid_ghost_id seed_registry : GhostError
  lifecycle_order : LifecyclePhase → LifecyclePhase → GhostError
  invalid_command_env : String → GhostError
  not_radiating command_target_mismatch duplicate_command_id duplicate_message_id : GhostError

pub record CommandEnv : Type 0 where
  pub message_id : ℕ
  pub command_id : Text
  pub intent_id : Text
  pub ghost_id : Text
  pub seed_selector : Text
  pub operation : Text
  pub args : Args

unfoldable pub require : String → Text → Result GhostError (Unit {0})
require reason v = if is_empty (trim_space v) then err (invalid_command_env reason) else ok tt

unfoldable pub require_nonzero : String → ℕ → Result GhostError (Unit {0})
require_nonzero reason n = if n == 0 then err (invalid_command_env reason) else ok tt

unfoldable pub validate_command_env : CommandEnv → Result GhostError (Unit {0})
validate_command_env e = do
  require_nonzero "missing message_id" e.message_id
  require "missing command_id" e.command_id
  require "missing intent_id" e.intent_id
  require "missing ghost_id" e.ghost_id
  require "missing seed_selector" e.seed_selector
  require "missing operation" e.operation

abbrev pub outcome_success : Text
outcome_success = codes "success"

abbrev pub outcome_error : Text
outcome_error = codes "error"

abbrev pub seed_status_ok : Text
seed_status_ok = codes "ok"

abbrev pub seed_status_error : Text
seed_status_error = codes "error"

pub record SeedExecuteEnv : Type 0 where
  pub execution_id : Text
  pub command_id : Text
  pub seed_id : Text
  pub operation : Text
  pub args : Args

unfoldable pub validate_seed_execute : SeedExecuteEnv → Result GhostError (Unit {0})
validate_seed_execute e = do
  require "missing execution_id" e.execution_id
  require "missing command_id" e.command_id
  require "missing seed_id" e.seed_id
  require "missing operation" e.operation

pub record SeedResultEnv : Type 0 where
  pub execution_id : Text
  pub seed_id : Text
  pub status : Text
  pub stdout : Text
  pub stderr : Text
  pub exit_code : ℕ

unfoldable pub validate_seed_result : SeedResultEnv → Result GhostError (Unit {0})
validate_seed_result e = do
  require "missing execution_id" e.execution_id
  require "missing seed_id" e.seed_id
  require "missing status" e.status

pub record EventEnv : Type 0 where
  pub event_id : Text
  pub command_id : Text
  pub intent_id : Text
  pub ghost_id : Text
  pub seed_id : Text
  pub outcome : Text
  pub timestamp_ms : ℕ

unfoldable pub require_outcome : Text → Result GhostError (Unit {0})
require_outcome o =
    if not (same o outcome_success) && not (same o outcome_error)
    then err (invalid_command_env "invalid outcome")
    else ok tt

unfoldable pub validate_event_env : EventEnv → Result GhostError (Unit {0})
validate_event_env e = do
  require "missing event_id" e.event_id
  require "missing command_id" e.command_id
  require "missing intent_id" e.intent_id
  require "missing ghost_id" e.ghost_id
  require "missing seed_id" e.seed_id
  require_outcome e.outcome
  require_nonzero "missing timestamp_ms" e.timestamp_ms

unfoldable pub event_id_for_command : Text → Text
event_id_for_command command_id = codes "evt." ++ trim_space command_id

unfoldable pub execution_id_for_command : Text → Text
execution_id_for_command command_id = codes "exec." ++ trim_space command_id

pub data ExecutionPhase : Type 0 where
  accepted complete : ExecutionPhase

-- The three artifacts are the zero values until the execution is complete: `none` here.
pub record Artifacts : Type 0 where
  pub seed_execute : SeedExecuteEnv
  pub seed_result : SeedResultEnv
  pub event : EventEnv

pub record ExecutionState : Type 0 where
  pub message_id : ℕ
  pub command_id : Text
  pub execution_id : Text
  pub intent_id : Text
  pub ghost_id : Text
  pub seed_selector : Text
  pub operation : Text
  pub args : Args
  pub artifacts : Option Artifacts
  pub outcome : Text
  pub phase : ExecutionPhase

unfoldable pub new_execution_state : CommandEnv → ExecutionState
new_execution_state cmd = record {
  message_id = cmd.message_id;
  command_id = trim_space cmd.command_id;
  execution_id = execution_id_for_command cmd.command_id;
  intent_id = trim_space cmd.intent_id;
  ghost_id = trim_space cmd.ghost_id;
  seed_selector = trim_space cmd.seed_selector;
  operation = trim_space cmd.operation;
  args = cmd.args;
  artifacts = none;
  outcome = [];
  phase = accepted;
}
