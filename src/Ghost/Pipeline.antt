-- ===== src/Ghost/Pipeline.antt =====
-- pipeline.go: command -> seed.execute -> seed.result -> event. The clock is the argument `now`, in
-- milliseconds.
pub mod Outcome
pub mod Total
pub mod Builtin
use edgectl.Prelude.{
  ℕ, List, [], ◌∷◌, ◌++◌, Bool, true, false, not, ◌&&◌, ◌||◌, ◌==◌, if◌then◌else◌, Text, codes,
  same, is_empty, trim_space, Result, ok, err, ◌>>=◌, ◌>>◌, Option, none, some,
}
use edgectl.Seeds.{Registry, Seed, SeedResult, resolve}
use edgectl.Ghost.Envelopes.{
  GhostError, CommandEnv, ExecutionState, SeedExecuteEnv, SeedResultEnv, EventEnv,
  validate_seed_execute, validate_seed_result, validate_event_env, outcome_success, outcome_error,
  seed_status_ok, seed_status_error, event_id_for_command,
}
use edgectl.Ghost.Server.{Server, handle_command, complete_execution}

abbrev pub unknown_seed_exit_code : ℕ
unknown_seed_exit_code = 127

unfoldable pub build_seed_execute : ExecutionState → SeedExecuteEnv
build_seed_execute state = record {
  execution_id = state.execution_id;
  command_id = state.command_id;
  seed_id = state.seed_selector;
  operation = state.operation;
  args = state.args;
}

unfoldable pub error_seed_result : SeedExecuteEnv → Text → ℕ → SeedResultEnv
error_seed_result exec reason exit_code = record {
  execution_id = exec.execution_id;
  seed_id = exec.seed_id;
  status = seed_status_error;
  stdout = [];
  stderr = reason ++ 10 ∷ [];
  exit_code = exit_code;
}

-- The status of a result that states none.
unfoldable pub default_status : SeedResult → Option Text → Text
default_status result none =
    if not (result.exit_code == 0) then seed_status_error else seed_status_ok
default_status result (some _) = seed_status_error

unfoldable pub normalize_seed_result : SeedExecuteEnv → SeedResult → Option Text → SeedResultEnv
normalize_seed_result exec result none = record {
  execution_id = exec.execution_id;
  seed_id = exec.seed_id;
  status =
      if is_empty (trim_space result.status)
      then default_status result none
      else trim_space result.status;
  stdout = result.stdout;
  stderr = result.stderr;
  exit_code = result.exit_code;
}
normalize_seed_result exec result (some message) = record {
  execution_id = exec.execution_id;
  seed_id = exec.seed_id;
  status = seed_status_error;
  stdout = result.stdout;
  stderr = if is_empty result.stderr then message ++ 10 ∷ [] else result.stderr;
  exit_code = if result.exit_code == 0 then 1 else result.exit_code;
}

unfoldable pub build_event : ℕ → ExecutionState → SeedResultEnv → EventEnv
build_event now state seed_result = record {
  event_id = event_id_for_command state.command_id;
  command_id = state.command_id;
  intent_id = state.intent_id;
  ghost_id = state.ghost_id;
  seed_id = seed_result.seed_id;
  outcome =
      if same seed_result.status seed_status_ok && seed_result.exit_code == 0
      then outcome_success
      else outcome_error;
  timestamp_ms = now;
}

module _ {S : Type 0} where
  -- `exec` with the id that the seed states of itself, if it states one.
  unfoldable pub rename_seed : Seed S → SeedExecuteEnv → SeedExecuteEnv
  rename_seed seed exec =
      let seed_id = trim_space seed.metadata.id in
      record exec { seed_id = if is_empty seed_id then exec.seed_id else seed_id }

  unfoldable pub dispatch : Option (Seed S) → S → SeedExecuteEnv → S × SeedResultEnv
  dispatch none w exec =
      (w, error_seed_result exec (codes "unknown seed: " ++ exec.seed_id) unknown_seed_exit_code)
  dispatch (some seed) w exec =
      let (w', result, failure) = seed.execute exec.operation exec.args w in
      (w', normalize_seed_result (rename_seed seed exec) result failure)

  unfoldable pub execute_seed : Option (Registry S) → S → SeedExecuteEnv → S × SeedResultEnv
  execute_seed none w exec = (w, error_seed_result exec (codes "seed registry unavailable") 1)
  execute_seed (some reg) w exec = dispatch (resolve reg exec.seed_id) w exec

  -- After the seed has run: the event, if the envelopes are valid, and the completed execution.
  unfoldable pub finish :
      ℕ → Server S → ExecutionState → SeedResultEnv → Server S × Result GhostError EventEnv
  finish now s state seed_result =
      let event = build_event now state seed_result in
      elim (validate_seed_result seed_result >> validate_event_env event) [
        | err e ↦ (s, err e)
        | ok _ ↦ (
          complete_execution s state.execution_id (build_seed_execute state) seed_result event,
          ok event,
        )
      ]

  -- An accepted execution: the request to the seed is checked, and the seed runs.
  unfoldable pub run_accepted :
      ℕ → Server S → S → ExecutionState → Server S × S × Result GhostError EventEnv
  run_accepted now s w state = elim (validate_seed_execute (build_seed_execute state)) [
    | err e ↦ (s, w, err e)
    | ok _ ↦
        let (w', seed_result) = execute_seed s.registry w (build_seed_execute state) in
        let (s', r) = finish now s state seed_result in (s', w', r)
  ]

  unfoldable pub handle_command_and_execute :
      ℕ → Server S → S → CommandEnv → Server S × S × Result GhostError EventEnv
  handle_command_and_execute now s w cmd =
      let (s', answer) = handle_command s cmd in
      elim answer [ err e ↦ (s', w, err e) | ok state ↦ run_accepted now s' w state ]
