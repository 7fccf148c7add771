-- ===== src/Seeds/Flow.antt =====
-- flow/seed.go: the deterministic seed. It keeps no state, so it runs on any state of the host.
use edgectl.Prelude.{
  ℕ, [], ◌∷◌, ◌++◌, ◌==◌, if◌then◌else◌, Text, codes, same, trim_space, keys, sort_strings, join,
  map, none, some,
}
use edgectl.Session.Command.{Args}
use edgectl.Seeds.{SeedMetadata, SeedResult, Seed}
use edgectl.Seeds.Replies.{Reply, arg, line, status_ok, status_error}

unfoldable pub metadata : SeedMetadata
metadata = record {
  id = codes "seed.flow";
  name = codes "Flow";
  description = codes "Deterministic control-flow seed";
}

-- The text of errUnknownAction.
abbrev pub unknown_action : Text
unknown_action = codes "unknown seed action"

unfoldable pub success : Text → SeedResult
success stdout = record { status = status_ok; stdout = stdout; stderr = []; exit_code = 0 }

unfoldable pub failure : Text → ℕ → SeedResult
failure stderr code = record {
  status = status_error;
  stdout = [];
  stderr = stderr;
  exit_code = code;
}

unfoldable pub render_args : Args → Text
render_args [] = line (codes "flow echo: {}")
render_args (a ∷ args) =
    codes "flow echo: "
    ++ (join (codes ",")
          (map (λ k. k ++ (codes "=" ++ arg k (a ∷ args))) (sort_strings (keys (a ∷ args))))
        ++ 10 ∷ [])

unfoldable pub deterministic_step : Text → Text × ℕ
deterministic_step name =
    if same name (codes "init")
    then (codes "flow step: init -> ready", 0)
    else if same name (codes "plan")
    then (codes "flow step: plan -> queued", 0)
    else if same name (codes "apply")
    then (codes "flow step: apply -> complete", 0)
    else (codes "flow step: unknown", 2)

unfoldable pub step : Args → Reply
step args =
    let (msg, code) = deterministic_step (trim_space (arg (codes "name") args)) in
    if code == 0 then (success (line msg), none) else (failure (line msg) code, some unknown_action)

unfoldable pub execute : Text → Args → Reply
execute action args =
    if same action (codes "status")
    then (success (line (codes "flow status: ok")), none)
    else if same action (codes "echo")
    then (success (render_args args), none)
    else if same action (codes "step")
    then step args
    else (failure (line (codes "unknown action: " ++ action)) 64, some unknown_action)

unfoldable pub flow_seed : {S : Type 0} → Seed S
flow_seed = record {
  metadata = metadata;
  execute = λ action args s. let reply = execute action args in (s, reply.0, reply.1);
}
