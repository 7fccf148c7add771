-- ===== src/Mirage/Issue/Plan.antt =====
-- The command ids of a plan in orchestration.go.
use edgectl.Prelude.{
  ℕ, suc, ◌+◌, ◌<◌, List, [], ◌∷◌, ◌++◌, All, length, Text, codes, decimal-injective, ok, >>=-eq-ok,
  ok-injective, ◌≡◌, ◌≢◌, refl, sym, ap, subst, arith,
}
use edgectl.Mirage.Issue.{
  IssueCommand, PlannedCommand, invalid_issue, validate_step, sanitize_id, command_id_for, planned,
  plan_steps,
}

append-injective : (s : Text) {t u : Text} → s ++ t ≡ s ++ u → t ≡ u
append-injective [] h = h
append-injective (c ∷ s) h = append-injective s (cc)

command_id_for-injective :
    (intent_id : Text) (m n : ℕ) → command_id_for intent_id m ≡ command_id_for intent_id n → m ≡ n
unfolding command_id_for
command_id_for-injective intent_id m n h = decimal-injective m n (
    append-injective (codes ".")
      (append-injective (sanitize_id intent_id) (append-injective (codes "cmd.") h)))

-- No two commands of the list have one id.
unfoldable pub Distinct : List PlannedCommand → Type 0
Distinct [] = Unit {0}
Distinct (c ∷ cs) = All (λ d. d.command.command_id ≢ c.command.command_id) cs × Distinct cs

plan_steps-later :
    (intent_id : Text) (m n : ℕ) (steps : List IssueCommand) (cmds : List PlannedCommand)
    → m < n
    → plan_steps intent_id n steps ≡ ok cmds
    → All (λ d. d.command.command_id ≢ command_id_for intent_id m) cmds
unfolding plan_steps planned
plan_steps-later intent_id m n [] cmds h e = rw (sym (ok-injective e)) tt
plan_steps-later intent_id m n (step ∷ steps) cmds h e =
    let (_, _, e') = >>=-eq-ok (validate_step invalid_issue step) _ e in
    let (rest, planned_rest, last) = >>=-eq-ok (plan_steps intent_id (n + 1) steps) _ e' in
    subst (All (λ d. d.command.command_id ≢ command_id_for intent_id m)) (ok-injective last) (
      λ (s : command_id_for intent_id n ≡ command_id_for intent_id m).
          omega (arith, command_id_for-injective intent_id n m s),
      plan_steps-later intent_id m (n + 1) steps rest (omega arith) planned_rest,
    )

-- A plan has one command for each step, and no two of its commands have one id.
pub plan_steps-Distinct :
    (intent_id : Text) (n : ℕ) (steps : List IssueCommand) (cmds : List PlannedCommand)
    → plan_steps intent_id n steps ≡ ok cmds
    → (length cmds ≡ length steps) × Distinct cmds
unfolding plan_steps planned Distinct
plan_steps-Distinct intent_id n [] cmds e = rw (sym (ok-injective e)) (refl, tt)
plan_steps-Distinct intent_id n (step ∷ steps) cmds e =
    let (_, _, e') = >>=-eq-ok (validate_step invalid_issue step) _ e in
    let (rest, planned_rest, last) = >>=-eq-ok (plan_steps intent_id (n + 1) steps) _ e' in
    let (same_length, is_distinct) =
      plan_steps-Distinct intent_id (n + 1) steps rest planned_rest in
    subst (λ cs. (length cs ≡ suc (length steps)) × Distinct cs) (ok-injective last)
      (
        ap suc same_length,
        (plan_steps-later intent_id n (n + 1) steps rest (omega arith) planned_rest, is_distinct),
      )
