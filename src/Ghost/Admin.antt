-- ===== src/Ghost/Admin.antt =====
-- admin_control.go: commands from the admin endpoint. The admin mutex makes an execution one step.
-- `S` is the state of the host, the clock is an argument in milliseconds. A negative limit is 0 here.
pub mod Envelope
pub mod Total
mod Tests
use edgectl.Prelude.{
  ℕ, zero, suc, ◌+◌, ◌-◌, ◌%◌, ◌^◌, List, [], ◌∷◌, ◌++◌, ◌==◌, leb, if◌then◌else◌, Text, codes,
  is_empty, trim_space, decimal, length, drop, Result, ok, err, ◌>>=◌, Option, none, some,
}
use edgectl.Schema.{msg_command, msg_event}
use edgectl.Session.Command.{Args}
use edgectl.Seeds.{SeedMetadata}
use edgectl.Ghost.Envelopes.{GhostError, CommandEnv, ExecutionState, Artifacts, EventEnv}
use edgectl.Ghost.Server.{Server, execution_by_command_id, seed_metadata}
use edgectl.Ghost.Pipeline.{handle_command_and_execute}

pub record AdminCommand : Type 0 where
  pub command_id : Text
  pub intent_id : Text
  pub seed_selector : Text
  pub operation : Text
  pub args : Args

pub record VerificationRecord : Type 0 where
  pub request_id : Text
  pub trace_id : Text
  pub command_message_id : ℕ
  pub command_message_type : ℕ
  pub event_message_type : ℕ
  pub command_id : Text
  pub execution_id : Text
  pub event_id : Text
  pub ghost_id : Text
  pub seed_id : Text
  pub operation : Text
  pub outcome : Text
  pub seed_status : Text
  pub exit_code : ℕ
  pub timestamp_ms : ℕ
  pub status : Text

-- The fields of `Service` that the admin operations use.
pub record Admin (S : Type 0) : Type 0 where
  pub server : Server S
  pub admin_seq : ℕ
  pub admin_events : List EventEnv
  pub verification_events : List VerificationRecord

pub data AdminError : Type 0 where
  ghost_error : GhostError → AdminError
  missing_execution : Text → AdminError

-- `fmt.Sprintf("kind.%s.%d", ghostID, n)`
abbrev pub numbered : Text → Text → ℕ → Text
numbered kind ghost_id n = kind ++ (ghost_id ++ (codes "." ++ decimal n))

abbrev pub or_numbered : Text → Text → Text → ℕ → Text
or_numbered given kind ghost_id n =
    if is_empty (trim_space given) then numbered kind ghost_id n else trim_space given

-- The command that the pipeline is given: always one for this Ghost.
unfoldable pub admin_env : Text → ℕ → AdminCommand → CommandEnv
admin_env ghost_id message_id cmd = record {
  message_id = message_id;
  command_id = or_numbered cmd.command_id (codes "cmd.") ghost_id message_id;
  intent_id = or_numbered cmd.intent_id (codes "intent.") ghost_id message_id;
  ghost_id = ghost_id;
  seed_selector = trim_space cmd.seed_selector;
  operation = trim_space cmd.operation;
  args = cmd.args;
}

-- `state.SeedResult`, which is the zero value before the execution is complete.
abbrev pub status_of : Option Artifacts → Text
status_of none = []
status_of (some a) = a.seed_result.status

abbrev pub exit_code_of : Option Artifacts → ℕ
exit_code_of none = 0
exit_code_of (some a) = a.seed_result.exit_code

unfoldable pub verification_of : Text → ℕ → ExecutionState → EventEnv → VerificationRecord
verification_of ghost_id message_id state event = record {
  request_id = numbered (codes "req.") ghost_id message_id;
  trace_id = numbered (codes "trace.") ghost_id message_id;
  command_message_id = message_id;
  command_message_type = msg_command;
  event_message_type = msg_event;
  command_id = state.command_id;
  execution_id = state.execution_id;
  event_id = event.event_id;
  ghost_id = ghost_id;
  seed_id = event.seed_id;
  operation = state.operation;
  outcome = event.outcome;
  seed_status = status_of state.artifacts;
  exit_code = exit_code_of state.artifacts;
  timestamp_ms = event.timestamp_ms;
  status = event.outcome;
}

abbrev pub default_limit : ℕ
default_limit = 20

-- The last elements, at most as many as the limit says.
unfoldable pub recent {ℓ} : {A : Type ℓ} → ℕ → List A → List A
recent limit xs =
    let n = if limit == 0 then default_limit else limit in
    if leb (length xs) n then xs else drop (length xs - n) xs

abbrev pub next_admin_seq : ℕ → ℕ
next_admin_seq n = (n + 1) % 2 ^ 64

module _ {S : Type 0} where
  -- After the pipeline has returned an event.
  unfoldable pub record_execution :
      Admin S → Text → EventEnv → Admin S × Result AdminError (ExecutionState × EventEnv)
  record_execution a command_id event = elim (execution_by_command_id a.server command_id) [
    | none ↦ (a, err (missing_execution command_id))
    | some state ↦ (
      record a {
        admin_events = a.admin_events ++ event ∷ [];
        verification_events =
            a.verification_events ++ verification_of a.server.ghost_id a.admin_seq state event ∷ [];
      },
      ok (state, event),
    )
  ]

  unfoldable pub execute_admin_command :
      ℕ → Admin S → S → AdminCommand → Admin S × S × Result AdminError (ExecutionState × EventEnv)
  execute_admin_command now a w cmd =
      let message_id = next_admin_seq a.admin_seq in
      let env = admin_env a.server.ghost_id message_id cmd in
      let (server, w', answer) = handle_command_and_execute now a.server w env in
      let a' : Admin S = record a { server = server; admin_seq = message_id } in
      elim answer [
        | err e ↦ (a', w', err (ghost_error e))
        | ok event ↦ let (a'', r) = record_execution a' env.command_id event in (a'', w', r)
      ]

  unfoldable pub list_seeds : Admin S → List SeedMetadata
  list_seeds a = seed_metadata a.server

  unfoldable pub recent_admin_events : Admin S → ℕ → List EventEnv
  recent_admin_events a limit = recent limit a.admin_events

  unfoldable pub verification_view : Admin S → ℕ → List VerificationRecord
  verification_view a limit = recent limit a.verification_events
