-- ===== src/Ghost/Server.antt =====
-- server.go: the lifecycle of a Ghost, the intake of commands and the store of executions. Every
-- method holds the server's mutex, so it is one step.
pub mod Lifecycle
pub mod Intake
use edgectl.Prelude.{
  ℕ, List, [], ◌∷◌, Bool, true, false, not, if◌then◌else◌, Text, same, is_empty, trim_space, Map,
  lookup, insert, has, text_eq, nat_eq, Result, ok, err, ◌>>=◌, ◌>>◌, Option, none, some, length,
}
use edgectl.Seeds.{Registry, SeedMetadata, list_metadata}
use edgectl.Ghost.Envelopes.{
  LifecyclePhase, boot, appeared, seeded, radiating, GhostError, invalid_ghost_id, seed_registry,
  lifecycle_order, not_radiating, command_target_mismatch, duplicate_command_id,
  duplicate_message_id, CommandEnv, validate_command_env, ExecutionState, Artifacts,
  new_execution_state, complete, EventEnv, SeedExecuteEnv, SeedResultEnv,
}

pub record Server (S : Type 0) : Type 0 where
  pub ghost_id : Text
  pub phase : LifecyclePhase
  pub registry : Option (Registry S)
  pub execution_by_id : Map Text ExecutionState
  pub execution_by_cmd_id : Map Text ExecutionState
  pub command_by_message_id : Map ℕ Text

-- `if s.phase != want { return transitionError(…) }`, for a transition to `next`.
abbrev pub is_phase : LifecyclePhase → LifecyclePhase → Bool
is_phase boot boot = true
is_phase appeared appeared = true
is_phase seeded seeded = true
is_phase radiating radiating = true
is_phase _ _ = false

unfoldable pub completed :
    SeedExecuteEnv → SeedResultEnv → EventEnv → ExecutionState → ExecutionState
completed seed_exec seed_result event state = record state {
  artifacts = some (record { seed_execute = seed_exec; seed_result = seed_result; event = event });
  outcome = event.outcome;
  phase = complete;
}

pub record LifecycleStatus : Type 0 where
  pub ghost_id : Text
  pub phase : LifecyclePhase
  pub seed_count : ℕ

module _ {S : Type 0} where
  abbrev pub new_server : Server S
  new_server = record {
    ghost_id = [];
    phase = boot;
    registry = none;
    execution_by_id = [];
    execution_by_cmd_id = [];
    command_by_message_id = [];
  }

  unfoldable pub appear : Server S → Text → Server S × Result GhostError (Unit {0})
  appear s ghost_id =
      let id = trim_space ghost_id in
      if is_empty id
      then (s, err invalid_ghost_id)
      else if not (is_phase s.phase boot)
      then (s, err (lifecycle_order s.phase appeared))
      else (record s { ghost_id = id; phase = appeared }, ok tt)

  unfoldable pub radiate : Server S → Server S × Result GhostError (Unit {0})
  radiate s =
      if not (is_phase s.phase seeded)
      then (s, err (lifecycle_order s.phase radiating))
      else (record s { phase = radiating }, ok tt)

  unfoldable pub seed : Server S → Option (Registry S) → Server S × Result GhostError (Unit {0})
  seed s none = (s, err seed_registry)
  seed s (some reg) =
      if not (is_phase s.phase appeared)
      then (s, err (lifecycle_order s.phase seeded))
      else (record s { registry = some reg; phase = seeded }, ok tt)

  -- The three writes that record an execution.
  unfoldable pub store : Server S → ExecutionState → Server S
  store s state = record s {
    execution_by_id = insert state.execution_id state s.execution_by_id;
    execution_by_cmd_id = insert state.command_id state s.execution_by_cmd_id;
    command_by_message_id = insert state.message_id state.command_id s.command_by_message_id;
  }

  -- The guards of `HandleCommand`.
  unfoldable pub admit : Server S → CommandEnv → Result GhostError (Unit {0})
  admit s cmd =
      validate_command_env cmd
      >> (if not (is_phase s.phase radiating)
          then err not_radiating
          else if not (same (trim_space cmd.ghost_id) s.ghost_id)
          then err command_target_mismatch
          else if has (trim_space cmd.command_id) s.execution_by_cmd_id
          then err duplicate_command_id
          else if has cmd.message_id s.command_by_message_id
          then err duplicate_message_id
          else ok tt)

  unfoldable pub handle_command :
      Server S → CommandEnv → Server S × Result GhostError ExecutionState
  handle_command s cmd = elim (admit s cmd) [
    | err e ↦ (s, err e)
    | ok _ ↦ let state = new_execution_state cmd in (store s state, ok state)
  ]

  unfoldable pub complete_execution :
      Server S → Text → SeedExecuteEnv → SeedResultEnv → EventEnv → Server S
  complete_execution s execution_id seed_exec seed_result event =
      elim (lookup execution_id s.execution_by_id) [
        | none ↦ s
        | some state ↦ store s (completed seed_exec seed_result event state)
      ]

  unfoldable pub get_execution : Server S → Text → Option ExecutionState
  get_execution s execution_id = lookup (trim_space execution_id) s.execution_by_id

  unfoldable pub execution_by_command_id : Server S → Text → Option ExecutionState
  execution_by_command_id s command_id = lookup (trim_space command_id) s.execution_by_cmd_id

  unfoldable pub execution_by_message_id : Server S → ℕ → Option ExecutionState
  execution_by_message_id s message_id = elim (lookup message_id s.command_by_message_id) [
    | none ↦ none
    | some command_id ↦ lookup command_id s.execution_by_cmd_id
  ]

  unfoldable pub seed_metadata : Server S → List SeedMetadata
  seed_metadata s = elim s.registry [ none ↦ [] | some reg ↦ list_metadata reg ]

  unfoldable pub status : Server S → LifecycleStatus
  unfolding seed_metadata
  status s = record {
    ghost_id = s.ghost_id;
    phase = s.phase;
    seed_count = length (seed_metadata s);
  }
