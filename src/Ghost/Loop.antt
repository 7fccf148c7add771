-- ===== src/Ghost/Loop.antt =====
-- command_loop.go: commands that are submitted under a request id and executed one by one by the
-- pipeline. The clock is an argument, in milliseconds.
pub mod Closed
use Prim.Native.String.{String}
use edgectl.Prelude.{
  ℕ, ◌+◌, ◌%◌, ◌^◌, List, [], ◌∷◌, ◌++◌, Bool, ◌==◌, if◌then◌else◌, Text, codes, same, is_empty,
  trim_space, decimal, Map, lookup, insert, remove, has, text_eq, Result, ok, err, ◌>>=◌, ◌>>◌,
  map_err, Option, none, some,
}
use edgectl.Ghost.Envelopes.{
  CommandEnv, validate_command_env, EventEnv, ExecutionState, GhostError, outcome_success,
}
use edgectl.Ghost.Server.{Server, execution_by_command_id}
use edgectl.Ghost.Pipeline.{handle_command_and_execute}

abbrev pub report_phase_complete : Text
report_phase_complete = codes "complete"

abbrev pub completion_satisfied : Text
completion_satisfied = codes "satisfied"

abbrev pub completion_failed : Text
completion_failed = codes "failed"

pub data LoopError : Type 0 where
  missing_request_id : LoopError
  invalid_request ghost_error : GhostError → LoopError
  request_not_found already_observed missing_execution : Text → LoopError

pub record CommandRequest : Type 0 where
  pub request_id : Text
  pub command : CommandEnv

pub record ReportEnv : Type 0 where
  pub intent_id : Text
  pub phase : Text
  pub summary : Text
  pub completion_state : Text
  pub command_id : Text
  pub execution_id : Text
  pub event_id : Text
  pub outcome : Text
  pub last_updated : ℕ

pub record ObservedCommand : Type 0 where
  pub command_id : Text
  pub execution_id : Text
  pub event : EventEnv
  pub outcome : Text
  pub updated_at : ℕ

pub record SingleCommandLoop : Type 0 where
  pub desired : Map Text CommandEnv
  pub observed : Map Text ObservedCommand
  pub seq : ℕ

abbrev pub new_single_command_loop : SingleCommandLoop
new_single_command_loop = record { desired = []; observed = []; seq = 0 }

-- The ids that a submitted command leaves open.
unfoldable pub fill_ids : CommandEnv → Text → ℕ → CommandEnv
fill_ids cmd request_id msg_seq = record cmd {
  message_id = if cmd.message_id == 0 then msg_seq else cmd.message_id;
  command_id =
      if is_empty (trim_space cmd.command_id)
      then codes "cmd." ++ (request_id ++ (codes "." ++ decimal msg_seq))
      else cmd.command_id;
}

unfoldable pub normalize_submitted_command : CommandEnv → Text → ℕ → Result LoopError CommandEnv
normalize_submitted_command cmd request_id msg_seq =
    let out = fill_ids cmd request_id msg_seq in
    map_err invalid_request (validate_command_env out) >> ok out

unfoldable pub submit_command :
    SingleCommandLoop → CommandRequest → SingleCommandLoop × Result LoopError (Unit {0})
submit_command l req =
    let key = trim_space req.request_id in
    let msg_seq = (l.seq + 1) % 2 ^ 64 in
    if is_empty key
    then (l, err missing_request_id)
    else elim (normalize_submitted_command req.command key msg_seq) [
      | err e ↦ (record l { seq = msg_seq }, err e)
      | ok cmd ↦ (
        record {
          desired = insert key cmd l.desired;
          observed = remove key l.observed;
          seq = msg_seq;
        },
        ok tt,
      )
    ]

-- `SnapshotCommand`: the command, and what was observed of it.
unfoldable pub snapshot_command :
    SingleCommandLoop → Text → Option (CommandEnv × Option ObservedCommand)
snapshot_command l request_id = elim (lookup (trim_space request_id) l.desired) [
  | none ↦ none
  | some cmd ↦ some (cmd, lookup (trim_space request_id) l.observed)
]

unfoldable pub report_for : CommandEnv → ObservedCommand → ReportEnv
report_for cmd observed =
    let is_success = same observed.outcome outcome_success in
    record {
      intent_id = cmd.intent_id;
      phase = report_phase_complete;
      summary =
          codes "command "
          ++ (cmd.command_id ++ (if is_success then codes " satisfied" else codes " failed"));
      completion_state = if is_success then completion_satisfied else completion_failed;
      command_id = observed.command_id;
      execution_id = observed.execution_id;
      event_id = observed.event.event_id;
      outcome = observed.outcome;
      last_updated = observed.updated_at;
    }

unfoldable pub observed_of : ℕ → CommandEnv → ExecutionState → EventEnv → ObservedCommand
observed_of now cmd exec event = record {
  command_id = cmd.command_id;
  execution_id = exec.execution_id;
  event = event;
  outcome = event.outcome;
  updated_at = now;
}

-- What a pass finds before it calls the server.
unfoldable pub select : SingleCommandLoop → Text → Result LoopError CommandEnv
select l key = elim (lookup key l.desired) [
  | none ↦ err (request_not_found key)
  | some cmd ↦ if has key l.observed then err (already_observed key) else ok cmd
]

module _ {S : Type 0} where
  -- After the pipeline has returned an event.
  unfoldable pub observe :
      ℕ
      → SingleCommandLoop
      → Server S
      → Text
      → CommandEnv
      → EventEnv
      → SingleCommandLoop × Result LoopError ReportEnv
  observe now l srv key cmd event = elim (execution_by_command_id srv cmd.command_id) [
    | none ↦ (l, err (missing_execution cmd.command_id))
    | some exec ↦
        let obs = observed_of now cmd exec event in
        (record l { observed = insert key obs l.observed }, ok (report_for cmd obs))
  ]

  unfoldable pub execute_selected :
      ℕ
      → SingleCommandLoop
      → Server S
      → S
      → Text
      → CommandEnv
      → SingleCommandLoop × Server S × S × Result LoopError ReportEnv
  execute_selected now l srv w key cmd =
      let (srv', w', answer) = handle_command_and_execute now srv w cmd in
      elim answer [
        | err e ↦ (l, srv', w', err (ghost_error e))
        | ok event ↦ let (l', r) = observe now l srv' key cmd event in (l', srv', w', r)
      ]

  -- `ReconcileOnce`, with no other user of the loop or the server in between.
  unfoldable pub reconcile_once :
      ℕ
      → SingleCommandLoop
      → Server S
      → S
      → Text
      → SingleCommandLoop × Server S × S × Result LoopError ReportEnv
  reconcile_once now l srv w request_id = elim (select l (trim_space request_id)) [
    | err e ↦ (l, srv, w, err e)
    | ok cmd ↦ execute_selected now l srv w (trim_space request_id) cmd
  ]
