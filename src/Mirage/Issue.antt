-- ===== src/Mirage/Issue.antt =====
-- orchestration.go: issues, and the commands that are planned from them.
pub mod Plan
use Prim.Native.String.{String}
use edgectl.Prelude.{
  ℕ, zero, suc, ◌+◌, List, [], ◌∷◌, ◌++◌, Bool, true, false, not, ◌||◌, ◌==◌, ltb, if◌then◌else◌,
  Text, codes, same, is_empty, trim_space, decimal, map, Result, ok, err, ◌>>=◌, ◌>>◌, Option, none,
  some,
}
use edgectl.Session.{SessionError}
use edgectl.Session.Command.{Args, Command}

-- `invalid_issue` carries the reason, `invalid_step` the index too; `executor_failed` the text of
-- the executor's error.
pub data MirageError : Type 0 where
  invalid_issue : String → MirageError
  invalid_step : ℕ → String → MirageError
  intent_not_found target_ghost_required no_executor executor_failed : Text → MirageError
  wire_error : SessionError → MirageError

pub record IssueCommand : Type 0 where
  pub ghost_id : Text
  pub seed_selector : Text
  pub operation : Text
  pub args : Args
  pub blocking : Bool

pub record IssueEnv : Type 0 where
  pub intent_id : Text
  pub actor : Text
  pub target_scope : Text
  pub objective : Text
  pub seed_dependencies : List Text
  pub timestamp_ms : ℕ
  pub command_plan : List IssueCommand
  pub seed_selector : Text
  pub operation : Text
  pub args : Args

abbrev blank : Text → Bool
blank t = is_empty (trim_space t)

unfoldable pub require : (String → MirageError) → String → Text → Result MirageError (Unit {0})
require fault reason t = if blank t then err (fault reason) else ok tt

-- The wrapper says where the step stands.
unfoldable pub validate_step : (String → MirageError) → IssueCommand → Result MirageError (Unit {0})
validate_step fault c = do
  require fault "missing ghost_id" c.ghost_id
  require fault "missing seed_selector" c.seed_selector
  require fault "missing operation" c.operation

unfoldable pub validate_steps : ℕ → List IssueCommand → Result MirageError (Unit {0})
validate_steps index [] = ok tt
validate_steps index (c ∷ cs) =
    validate_step (invalid_step index) c >> validate_steps (index + 1) cs

unfoldable pub validate_issue : IssueEnv → Result MirageError (Unit {0})
validate_issue i = do
  require invalid_issue "missing intent_id" i.intent_id
  require invalid_issue "missing actor" i.actor
  require invalid_issue "missing target_scope" i.target_scope
  require invalid_issue "missing objective" i.objective
  validate_steps 0 i.command_plan

pub record PlannedCommand : Type 0 where
  pub command : Command
  pub blocking : Bool
  pub seed_key : Text

-- Replaces one byte by another, as `strings.ReplaceAll` does for strings of one byte.
unfoldable pub replace_byte : ℕ → ℕ → Text → Text
replace_byte old new t = map (λ c. if c == old then new else c) t

unfoldable pub sanitize_id : Text → Text
sanitize_id t = replace_byte b'/' b'.' (replace_byte b' ' b'.' (trim_space t))

-- What follows a prefix, if it is there.
unfoldable pub after_prefix : Text → Text → Option Text
after_prefix [] t = some t
after_prefix (p ∷ ps) [] = none
after_prefix (p ∷ ps) (c ∷ cs) = if p == c then after_prefix ps cs else none

-- strings.TrimPrefix
unfoldable pub trim_prefix : Text → Text → Text
trim_prefix prefix t = elim (after_prefix prefix t) [ none ↦ t | some rest ↦ rest ]

unfoldable pub normalize_ghost_id : Text → Text
normalize_ghost_id target_scope =
    trim_space (trim_prefix (codes "ghost:") (trim_space target_scope))

unfoldable pub seed_lock_key : Text → Text → Text
seed_lock_key ghost_id seed_selector =
    trim_space ghost_id ++ (codes "::" ++ trim_space seed_selector)

-- fmt.Sprintf("cmd.%s.%d", sanitizeID(intent_id), n)
unfoldable pub command_id_for : Text → ℕ → Text
command_id_for intent_id n = codes "cmd." ++ (sanitize_id intent_id ++ (codes "." ++ decimal n))

unfoldable pub planned : Text → ℕ → IssueCommand → PlannedCommand
planned intent_id n step = record {
  command = record {
    command_id = command_id_for intent_id n;
    intent_id = intent_id;
    ghost_id = trim_space step.ghost_id;
    seed_selector = trim_space step.seed_selector;
    operation = trim_space step.operation;
    args = step.args;
  };
  blocking = step.blocking;
  seed_key = seed_lock_key (trim_space step.ghost_id) (trim_space step.seed_selector);
}

-- The loop of `planCommandsFromIssue`, at step number n.
unfoldable pub plan_steps : Text → ℕ → List IssueCommand → Result MirageError (List PlannedCommand)
plan_steps intent_id n [] = ok []
plan_steps intent_id n (step ∷ steps) = do
  validate_step invalid_issue step
  rest ← plan_steps intent_id (n + 1) steps
  ok (planned intent_id n step ∷ rest)

-- `if operation == "" { operation = … }` over strings that are trimmed already.
abbrev or_else : Text → Text → Text
or_else t other = if is_empty t then other else t

unfoldable pub single_command : IssueEnv → Text → IssueCommand
single_command issue ghost_id = record {
  ghost_id = ghost_id;
  seed_selector = or_else (trim_space issue.seed_selector) (codes "seed.flow");
  operation = or_else (trim_space issue.operation) (trim_space issue.objective);
  args = issue.args;
  blocking = false;
}

-- The literal `PlannedCommand` of an issue with no plan: its fields are trimmed already.
unfoldable pub planned_single : IssueEnv → IssueCommand → PlannedCommand
planned_single issue c = record {
  command = record {
    command_id = codes "cmd." ++ (sanitize_id issue.intent_id ++ codes ".1");
    intent_id = issue.intent_id;
    ghost_id = c.ghost_id;
    seed_selector = c.seed_selector;
    operation = c.operation;
    args = c.args;
  };
  blocking = false;
  seed_key = seed_lock_key c.ghost_id c.seed_selector;
}

unfoldable pub normalize_issue_to_commands : IssueEnv → Result MirageError (List PlannedCommand)
normalize_issue_to_commands issue = elim issue.command_plan [
  | step ∷ steps ↦ plan_steps issue.intent_id 1 (step ∷ steps)
  | [] ↦
      let ghost_id = normalize_ghost_id issue.target_scope in
      let c = single_command issue ghost_id in
      if is_empty ghost_id
      then err (target_ghost_required issue.target_scope)
      else if is_empty c.operation
      then err (invalid_issue "missing operation")
      else ok (planned_single issue c ∷ [])
]
