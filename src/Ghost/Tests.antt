-- ===== src/Ghost/Tests.antt =====
-- A Ghost with one seed that accepts one command, and the theorems of these components on it.
use edgectl.Prelude.{
  text_eq, same, ◌≡◌, ◌≢◌, ◌↔◌, inl, refl, [], ◌∷◌, codes, Text, trim_space, has, none, some, ok,
  err,
}
use edgectl.Seeds.{Seed, Registry, SeedResult}
use edgectl.Ghost.Envelopes.{
  CommandEnv, new_execution_state, validate_command_env, require, require_nonzero, radiating,
  duplicate_command_id, SeedExecuteEnv, outcome_success,
}
use edgectl.Ghost.Server.{Server, new_server, appear, seed, radiate, admit, handle_command}
use edgectl.Ghost.Server.Lifecycle.{
  Reach, here, next, did_appear, did_seed, did_radiate, did_accept, IsOrdered, Reach-IsOrdered,
}
use edgectl.Ghost.Server.Intake.{accepted_once}
use edgectl.Ghost.Pipeline.{build_event, normalize_seed_result}
use edgectl.Seeds.Kv.{kv_seed}
use edgectl.Ghost.Pipeline.Builtin.{is_kv, build_event-execute_iff}
use edgectl.Ghost.Loop.{SingleCommandLoop}

abbrev flow : Seed Text
flow = record {
  metadata = record { id = codes "seed.flow"; name = codes "flow"; description = codes "answers" };
  execute = λ operation args w.
      (w, record { status = codes "ok"; stdout = operation; stderr = []; exit_code = 0 }, none);
}

abbrev registry : Registry Text
registry = (codes "seed.flow", flow) ∷ []

abbrev radiating_server : Server Text
radiating_server = record {
  ghost_id = codes "ghost.one";
  phase = radiating;
  registry = some registry;
  execution_by_id = [];
  execution_by_cmd_id = [];
  command_by_message_id = [];
}

radiating_server-Reach : Reach new_server radiating_server
unfolding appear seed radiate trim_space
radiating_server-Reach =
    next (next (next here (did_appear (codes " ghost.one"))) (did_seed (some registry))) did_radiate

abbrev cmd : CommandEnv
cmd = record {
  message_id = 4;
  command_id = codes "c1";
  intent_id = codes "i";
  ghost_id = codes "ghost.one";
  seed_selector = codes "seed.flow";
  operation = codes "status";
  args = [];
}

cmd-accepted : (handle_command radiating_server cmd).1 ≡ ok (new_execution_state cmd)
unfolding handle_command admit validate_command_env require require_nonzero trim_space has same
cmd-accepted = refl

Reach-IsOrdered_example : IsOrdered radiating_server
Reach-IsOrdered_example = Reach-IsOrdered radiating_server-Reach

accept-Reach : Reach radiating_server (handle_command radiating_server cmd).0
accept-Reach = next here (did_accept cmd)

abbrev busy_server : Server Text
busy_server = record radiating_server {
  execution_by_cmd_id = (codes "c1", new_execution_state cmd) ∷ [];
}

cmd-refused : (handle_command busy_server cmd).1 ≡ err duplicate_command_id
unfolding handle_command admit validate_command_env require require_nonzero trim_space has same
cmd-refused = refl

accepted_once_example :
    (handle_command (handle_command radiating_server cmd).0 cmd).1 ≢ ok (new_execution_state cmd)
accepted_once_example =
    accepted_once radiating_server (handle_command radiating_server cmd).0 cmd cmd
      (new_execution_state cmd) (new_execution_state cmd) cmd-accepted here (inl refl)

abbrev exec : SeedExecuteEnv
exec = record {
  execution_id = codes "exec.c1";
  command_id = codes "c1";
  seed_id = codes "seed.flow";
  operation = codes "status";
  args = [];
}

abbrev result : SeedResult
result = record { status = codes " ok "; stdout = []; stderr = []; exit_code = 0 }

build_event-execute_iff_example :
    let out = (kv_seed (λ t. t)).execute (codes "get") [] [] in
    ((build_event 1 (new_execution_state cmd) (normalize_seed_result exec out.1 out.2)).outcome
      ≡ outcome_success)
    ↔ (out.2 ≡ none)
build_event-execute_iff_example =
    build_event-execute_iff (is_kv (λ t. t)) 1 (new_execution_state cmd) exec (codes "get") [] []

abbrev submitted : SingleCommandLoop
submitted = record { desired = (codes "r1", cmd) ∷ []; observed = []; seq = 1 }
