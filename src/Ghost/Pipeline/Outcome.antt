-- ===== src/Ghost/Pipeline/Outcome.antt =====
-- Outcomes of pipeline.go: when the event of a seed's result says success.
use edgectl.Prelude.{ℕ, [], Text, same_iff, trim_space, Option, none, some, ◌≡◌, ◌⊎◌, ◌↔◌, arith}
use edgectl.Seeds.{SeedResult}
use edgectl.Ghost.Envelopes.{ExecutionState, SeedExecuteEnv, outcome_success, seed_status_ok}
use edgectl.Ghost.Pipeline.{default_status, normalize_seed_result, build_event}

-- The event of a seed's result says success exactly when the seed returned no error, its exit code is 0, and the status that it states, without the spaces around it, is empty or `ok`.
pub build_event-normalize_seed_result_iff :
    (now : ℕ) (state : ExecutionState) (exec : SeedExecuteEnv) (result : SeedResult)
    (failure : Option Text)
    → ((build_event now state (normalize_seed_result exec result failure)).outcome
        ≡ outcome_success)
      ↔ ((failure ≡ none)
          × (result.exit_code ≡ 0)
          × ((trim_space result.status ≡ []) ⊎ (trim_space result.status ≡ seed_status_ok)))
unfolding build_event normalize_seed_result default_status
build_event-normalize_seed_result_iff now state exec result none =
    ground (arith, same_iff (normalize_seed_result exec result none).status seed_status_ok)
build_event-normalize_seed_result_iff now state exec result (some message) = ground arith
