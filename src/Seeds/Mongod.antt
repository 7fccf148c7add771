-- ===== src/Seeds/Mongod.antt =====
-- mongod/seed.go: a systemd unit behind a runner of commands, which is a parameter: it answers stdout,
-- stderr, an exit code and perhaps the text of an error (tools.CommandRunner).
use edgectl.Prelude.{
  ℕ, List, [], ◌∷◌, ◌++◌, ◌==◌, if◌then◌else◌, Text, codes, same, is_empty, trim_space, Option,
  none, some,
}
use edgectl.Session.Command.{Args}
use edgectl.Seeds.{SeedMetadata, Seed}
use edgectl.Seeds.Replies.{Reply, arg, line, status_ok, status_error}

pub record Output : Type 0 where
  pub stdout : Text
  pub stderr : Text
  pub exit_code : ℕ
  pub failure : Option Text

-- `Run(name, args...)` on the host.
abbrev pub Runner : Type 0 → Type 0
Runner S = Text → List Text → S → S × Output

abbrev pub default_unit : Text
default_unit = codes "mongod"

unfoldable pub resolve_unit : Text → Text
resolve_unit unit = let t = trim_space unit in if is_empty t then default_unit else t

unfoldable pub metadata : SeedMetadata
metadata = record {
  id = codes "seed.mongod";
  name = codes "MongoDB (mongod)";
  description = codes "Predefined mongod service adapter for Linux hosts";
}

-- What `exec` makes of a command's output.
unfoldable pub answer : Output → Option Text → Reply
answer out none =
    (record { status = status_ok; stdout = out.stdout; stderr = out.stderr; exit_code = 0 }, none)
answer out (some message) = (
  record {
    status = status_error;
    stdout = out.stdout;
    stderr = if is_empty out.stderr then line message else out.stderr;
    exit_code = if out.exit_code == 0 then 1 else out.exit_code;
  },
  some (codes "seed command failed: " ++ message),
)

unfoldable pub unknown_action : Text → Reply
unknown_action act = (
  record {
    status = status_error;
    stdout = [];
    stderr = line (codes "unknown action: " ++ act);
    exit_code = 64;
  },
  some (codes "unknown seed action"),
)

-- `args["unit"]` overrides the seed's unit.
unfoldable pub chosen_unit : Text → Args → Text
chosen_unit unit args =
    let override = trim_space (arg (codes "unit") args) in
    if is_empty override then unit else override

module _ {S : Type 0} (run : Runner S) where
  unfoldable pub exec : Text → List Text → S → S × Reply
  exec name args s = let (s', out) = run name args s in (s', answer out out.failure)

  unfoldable pub systemctl : Text → Text → S → S × Reply
  systemctl verb unit = exec (codes "systemctl") (verb ∷ unit ∷ [])

  -- `unit` is the resolved unit of the seed.
  unfoldable pub execute : Text → Text → Args → S → S × Reply
  execute unit action args s =
      let act = trim_space action in
      let target = chosen_unit unit args in
      if same act (codes "status")
      then systemctl (codes "is-active") target s
      else if same act (codes "start")
      then systemctl (codes "start") target s
      else if same act (codes "stop")
      then systemctl (codes "stop") target s
      else if same act (codes "restart")
      then systemctl (codes "restart") target s
      else if same act (codes "version")
      then exec (codes "mongod") (codes "--version" ∷ []) s
      else (s, unknown_action act)

  unfoldable pub mongod_seed : Text → Seed S
  mongod_seed unit = record {
    metadata = metadata;
    execute = λ action args s.
        let (s', reply) = execute (resolve_unit unit) action args s in (s', reply.0, reply.1);
  }
