-- ===== src/Ghost/Server/Intake.antt =====
-- Intake: what an accepted command leaves in the store, and that no command is accepted twice.
use edgectl.Prelude.{
  ℕ, ◌≡◌, ◌≢◌, ◌⊎◌, true, false, Text, trim_space, none, some, arith, ok, err, Result-cases, inl,
  inr, lookup, text_eq, nat_eq, Option-cases, lookup-insert, lookup-insert_self, has,
}
use edgectl.Ghost.Envelopes.{CommandEnv, ExecutionState, GhostError, new_execution_state}
use edgectl.Ghost.Server.{
  Server, appear, seed, radiate, store, admit, handle_command, completed, complete_execution,
  execution_by_command_id, execution_by_message_id,
}
use edgectl.Ghost.Server.Lifecycle.{
  Step, Reach, here, next, did_appear, did_seed, did_radiate, did_accept, did_complete,
}

module _ {S : Type 0} where
  pub handle_command_ok :
      (s : Server S) (cmd : CommandEnv) (x : ExecutionState)
      → (handle_command s cmd).1 ≡ ok x
      → (admit s cmd ≡ ok tt)
        × (x ≡ new_execution_state cmd)
        × ((handle_command s cmd).0 ≡ store s x)
  unfolding handle_command
  handle_command_ok s cmd x e = elim (Result-cases (admit s cmd)) [
    | inl (_, a) ↦ ground (arith, a)
    | inr (b, a) ↦ absurd (ground (arith, a))
  ]

  -- An accepted command is found, as accepted, by its execution id, its command id and its message
  -- id.
  pub handle_command_recorded :
      (s : Server S) (cmd : CommandEnv) (x : ExecutionState)
      → (handle_command s cmd).1 ≡ ok x
      → let t = (handle_command s cmd).0 in
        (execution_by_command_id t cmd.command_id ≡ some x)
        × (execution_by_message_id t cmd.message_id ≡ some x)
        × (lookup x.execution_id t.execution_by_id ≡ some x)
        × (x ≡ new_execution_state cmd)
  unfolding execution_by_command_id execution_by_message_id store new_execution_state
  handle_command_recorded s cmd x e =
      let (_, is_new, stored) = handle_command_ok s cmd x e in
      rw stored (
        ground (
          arith,
          is_new,
          lookup-insert_self (trim_space cmd.command_id) x s.execution_by_cmd_id,
          lookup-insert_self x.execution_id x s.execution_by_id,
          lookup-insert_self cmd.message_id (trim_space cmd.command_id) s.command_by_message_id,
        ))

  -- A command that is refused changes nothing.
  pub handle_command_refused :
      (s : Server S) (cmd : CommandEnv) (e : GhostError)
      → (handle_command s cmd).1 ≡ err e
      → (handle_command s cmd).0 ≡ s
  unfolding handle_command
  handle_command_refused s cmd e h = elim (Result-cases (admit s cmd)) [
    | inl (_, a) ↦ absurd (ground (arith, a))
    | inr (b, a) ↦ ground (arith, a)
  ]

  -- A command id, or a message id, that is taken.
  abbrev pub IsTaken : Server S → Text → Type 0
  IsTaken s id = has id s.execution_by_cmd_id ≡ true

  abbrev pub IsUsed : Server S → ℕ → Type 0
  IsUsed s mid = has mid s.command_by_message_id ≡ true

  handle_command_takes :
      (s : Server S) (cmd : CommandEnv) (x : ExecutionState)
      → (handle_command s cmd).1 ≡ ok x
      → IsTaken (handle_command s cmd).0 (trim_space cmd.command_id)
        × IsUsed (handle_command s cmd).0 cmd.message_id
  unfolding store new_execution_state has
  handle_command_takes s cmd x e =
      let (_, is_new, stored) = handle_command_ok s cmd x e in
      rw stored (
        ground (
          arith,
          is_new,
          lookup-insert_self (trim_space cmd.command_id) x s.execution_by_cmd_id,
          lookup-insert_self cmd.message_id (trim_space cmd.command_id) s.command_by_message_id,
        ))

  store_keeps :
      (s : Server S) (x : ExecutionState) (id : Text) (mid : ℕ)
      → (IsTaken s id → IsTaken (store s x) id) × (IsUsed s mid → IsUsed (store s x) mid)
  unfolding store has
  store_keeps s x id mid = ground (
    arith,
    lookup-insert x.command_id id x s.execution_by_cmd_id,
    lookup-insert x.message_id mid x.command_id s.command_by_message_id,
  )

  Step-keeps :
      {s t : Server S} (id : Text) (mid : ℕ)
      → Step s t
      → (IsTaken s id → IsTaken t id) × (IsUsed s mid → IsUsed t mid)
  Step-keeps {s} id mid (did_appear name) = unfold appear in ground arith
  Step-keeps {s} id mid (did_seed none) = unfold seed in ground arith
  Step-keeps {s} id mid (did_seed (some reg)) = unfold seed in ground arith
  Step-keeps {s} id mid did_radiate = unfold radiate in ground arith
  Step-keeps {s} id mid (did_accept cmd) =
      unfold handle_command in ground (arith, store_keeps s (new_execution_state cmd) id mid)
  Step-keeps {s} id mid (did_complete i e r v) =
      unfold complete_execution in
      elim (Option-cases (lookup i s.execution_by_id)) [
        | inl missing ↦ ground (arith, missing)
        | inr (x, found) ↦ ground (arith, found, store_keeps s (completed e r v x) id mid)
      ]

  Reach-keeps :
      {s t : Server S} (id : Text) (mid : ℕ)
      → Reach s t
      → (IsTaken s id → IsTaken t id) × (IsUsed s mid → IsUsed t mid)
  Reach-keeps id mid here = (λ h. h, λ h. h)
  Reach-keeps id mid (next r st) =
      let (taken, used) = Reach-keeps id mid r in
      let (taken', used') = Step-keeps id mid st in (λ h. taken' (taken h), λ h. used' (used h))

  pub admit_fresh :
      (s : Server S) (cmd : CommandEnv)
      → admit s cmd ≡ ok tt
      → (has (trim_space cmd.command_id) s.execution_by_cmd_id ≡ false)
        × (has cmd.message_id s.command_by_message_id ≡ false)
  unfolding admit
  admit_fresh s cmd e = ground arith

  -- At most once: after a command was accepted, whatever happens to the server, no command with the
  -- same id (but for surrounding spaces) or the same message id is accepted.
  pub accepted_once :
      (s t : Server S) (cmd cmd' : CommandEnv) (x y : ExecutionState)
      → (handle_command s cmd).1 ≡ ok x
      → Reach (handle_command s cmd).0 t
      → (trim_space cmd'.command_id ≡ trim_space cmd.command_id)
        ⊎ (cmd'.message_id ≡ cmd.message_id)
      → (handle_command t cmd').1 ≢ ok y
  accepted_once s t cmd cmd' x y e r again twice =
      let (now_taken, now_used) = handle_command_takes s cmd x e in
      let (fresh_id, fresh_mid) = admit_fresh t cmd' (handle_command_ok t cmd' y twice).0 in
      let (taken, used) = Reach-keeps (trim_space cmd.command_id) cmd.message_id r in
      elim again [
        | inl same_id ↦ cc (taken now_taken, fresh_id, same_id)
        | inr same_mid ↦ cc (used now_used, fresh_mid, same_mid)
      ]
