-- ===== src/Ghost/Loop/Closed.antt =====
-- A pass of command_loop.go over the pipeline: it closes the command.
use edgectl.Prelude.{ℕ, ◌≡◌, ◌↔◌, Text, trim_space, text_eq, Result, ok, err}
use edgectl.Ghost.Envelopes.{CommandEnv, EventEnv, outcome_success}
use edgectl.Ghost.Server.{Server}
use edgectl.Ghost.Pipeline.Total.{Finished}
use edgectl.Ghost.Loop.{
  SingleCommandLoop, ReportEnv, LoopError, already_observed, completion_satisfied, reconcile_once,
}

module _ {S : Type 0} where
  -- What a pass that closed its command leaves.
  pub record Closes (now : ℕ) (cmd : CommandEnv) (request_id : Text)
      (out : SingleCommandLoop × Server S × S × Result LoopError ReportEnv) : Type 0 where
    pub event : EventEnv
    pub finished : Finished now out.1 cmd event
    pub report : ReportEnv
    pub returned : out.3 ≡ ok report
    pub satisfied_iff :
        (report.completion_state ≡ completion_satisfied) ↔ (event.outcome ≡ outcome_success)
    pub only_once :
        (later : ℕ)
        → reconcile_once later out.0 out.1 out.2 request_id
          ≡ (out.0, out.1, out.2, err (already_observed (trim_space request_id)))
