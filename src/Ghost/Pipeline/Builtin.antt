-- ===== src/Ghost/Pipeline/Builtin.antt =====
-- The built-in seeds of internal/seeds under pipeline.go.
use edgectl.Prelude.{refl, ℕ, ◌≡◌, ◌↔◌, Text, trim_space, none, arith}
use edgectl.Session.Command.{Args}
use edgectl.Seeds.{Seed}
use edgectl.Seeds.Replies.{IsConsistent, status_ok}
use edgectl.Seeds.Kv
use edgectl.Seeds.Kv.{kv_seed}
use edgectl.Seeds.Flow.{flow_seed}
use edgectl.Seeds.Mongod
use edgectl.Seeds.Mongod.{Runner, mongod_seed}
use edgectl.Seeds.Consistent.{kv-IsConsistent, flow-IsConsistent, mongod-IsConsistent}
use edgectl.Ghost.Envelopes.{ExecutionState, SeedExecuteEnv, outcome_success, seed_status_ok}
use edgectl.Ghost.Pipeline.{normalize_seed_result, build_event}
use edgectl.Ghost.Pipeline.Outcome.{build_event-normalize_seed_result_iff}

-- The seeds of internal/seeds that run no files.
pub data IsBuiltIn : (S : Type 0) → Seed S → Type 1 where
  is_kv : (quote : Text → Text) → IsBuiltIn Kv.Store (kv_seed quote)
  is_flow : {S : Type 0} → IsBuiltIn S flow_seed
  is_mongod : {S : Type 0} (run : Runner S) (unit : Text) → IsBuiltIn S (mongod_seed run unit)

trim_space-status_ok : trim_space status_ok ≡ seed_status_ok
unfolding trim_space
trim_space-status_ok = refl

execute-IsConsistent :
    {S : Type 0} {seed : Seed S}
    → IsBuiltIn S seed
    → (action : Text) (args : Args) (w : S)
    → let out = seed.execute action args w in IsConsistent (out.1, out.2)
unfolding kv_seed flow_seed mongod_seed
execute-IsConsistent (is_kv quote) action args w = kv-IsConsistent quote action args w
execute-IsConsistent is_flow action args w = flow-IsConsistent action args
execute-IsConsistent (is_mongod run unit) action args w =
    mongod-IsConsistent run (Mongod.resolve_unit unit) action args w

-- The event that the pipeline builds from what a built-in seed (kv, flow or mongod) answers says success exactly when the seed returned no error, whatever the action and its arguments.
pub build_event-execute_iff :
    {S : Type 0} {seed : Seed S} (built_in : IsBuiltIn S seed) (now : ℕ) (state : ExecutionState)
    (exec : SeedExecuteEnv) (action : Text) (args : Args) (w : S)
    → let out = seed.execute action args w in
      ((build_event now state (normalize_seed_result exec out.1 out.2)).outcome ≡ outcome_success)
      ↔ (out.2 ≡ none)
build_event-execute_iff {seed = seed} built_in now state exec action args w =
    let out = seed.execute action args w in
    ground (
      arith,
      build_event-normalize_seed_result_iff now state exec out.1 out.2,
      execute-IsConsistent built_in action args w,
      trim_space-status_ok,
    )
