-- ===== src/Ghost/Pipeline/Total.antt =====
-- An accepted command is always carried to its end: no later check of the pipeline can fail.
use edgectl.Prelude.{ℕ, ◌≡◌, false, Text, is_empty, trim_space, some, text_eq}
use edgectl.Ghost.Envelopes.{
  CommandEnv, ExecutionState, SeedResultEnv, EventEnv, new_execution_state,
}
use edgectl.Ghost.Server.{Server, completed, execution_by_command_id}
use edgectl.Ghost.Pipeline.{build_seed_execute, build_event}

abbrev IsNamed : Text → Type 0
IsNamed t = is_empty (trim_space t) ≡ false

-- What an accepted execution has.
record IsComplete (x : ExecutionState) : Type 0 where
  execution_id : IsNamed x.execution_id
  command_id : IsNamed x.command_id
  intent_id : IsNamed x.intent_id
  ghost_id : IsNamed x.ghost_id
  seed_selector : IsNamed x.seed_selector
  operation : IsNamed x.operation

record IsUsable (r : SeedResultEnv) : Type 0 where
  execution_id : IsNamed r.execution_id
  seed_id : IsNamed r.seed_id
  status : IsNamed r.status

module _ {S : Type 0} where
  -- What the pipeline leaves of an accepted command.
  pub record Finished (now : ℕ) (t : Server S) (cmd : CommandEnv) (event : EventEnv) : Type 0 where
    pub state : ExecutionState
    pub result : SeedResultEnv
    pub recorded : execution_by_command_id t cmd.command_id ≡ some state
    pub is_completed :
        state
        ≡ completed
            (build_seed_execute (new_execution_state cmd))
            result
            event
            (new_execution_state cmd)
    pub is_event : event ≡ build_event now (new_execution_state cmd) result
