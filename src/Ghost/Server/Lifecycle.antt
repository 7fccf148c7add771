-- ===== src/Ghost/Server/Lifecycle.antt =====
-- The steps of a Ghost server, in any interleaving, and what its lifecycle guarantees.
use edgectl.Prelude.{
  ◌≡◌, ◌≢◌, ◌⊎◌, ◌∙◌, refl, [], Bool, true, false, Text, is_empty, Option, none, some, arith, ok,
  Result-cases, inl, inr, lookup, text_eq, nat_eq, Option-cases,
}
use edgectl.Seeds.{Registry}
use edgectl.Ghost.Envelopes.{
  LifecyclePhase, boot, appeared, seeded, radiating, CommandEnv, SeedExecuteEnv, SeedResultEnv,
  EventEnv, ExecutionState,
}
use edgectl.Ghost.Server.{
  Server, new_server, appear, seed, radiate, store, admit, handle_command, complete_execution,
}

abbrev pub has_appeared : LifecyclePhase → Bool
has_appeared boot = false
has_appeared _ = true

abbrev pub has_seeds : LifecyclePhase → Bool
has_seeds seeded = true
has_seeds radiating = true
has_seeds _ = false

radiating_or_not : (p : LifecyclePhase) → (p ≡ radiating) ⊎ (p ≢ radiating)
radiating_or_not radiating = inl refl
radiating_or_not boot = inr (λ e. cc)
radiating_or_not appeared = inr (λ e. cc)
radiating_or_not seeded = inr (λ e. cc)

module _ {S : Type 0} where
  -- What any client or pipeline does to the server. Between the acceptance of a command and its
  -- completion, other steps may come.
  pub data Step (s : Server S) : Server S → Type 0 where
    did_appear : (id : Text) → Step s (appear s id).0
    did_seed : (reg : Option (Registry S)) → Step s (seed s reg).0
    did_radiate : Step s (radiate s).0
    did_accept : (cmd : CommandEnv) → Step s (handle_command s cmd).0
    did_complete :
        (id : Text) (e : SeedExecuteEnv) (r : SeedResultEnv) (v : EventEnv)
        → Step s (complete_execution s id e r v)

  pub data Reach (s : Server S) : Server S → Type 0 where
    here : Reach s s
    next : {t u : Server S} → Reach s t → Step t u → Reach s u

  -- What each phase stands for.
  pub record IsOrdered (s : Server S) : Type 0 where
    pub named : has_appeared s.phase ≡ true → is_empty s.ghost_id ≡ false
    pub stocked : has_seeds s.phase ≡ true → s.registry ≢ none
    pub idle : s.phase ≢ radiating → (s.execution_by_cmd_id ≡ []) × (s.execution_by_id ≡ [])

  new_server-IsOrdered : IsOrdered new_server
  new_server-IsOrdered = ground arith

  appear-IsOrdered : (s : Server S) (id : Text) → IsOrdered s → IsOrdered (appear s id).0
  unfolding appear
  appear-IsOrdered s id h = ground arith

  seed-IsOrdered :
      (s : Server S) (reg : Option (Registry S)) → IsOrdered s → IsOrdered (seed s reg).0
  unfolding seed
  seed-IsOrdered s none h = h
  seed-IsOrdered s (some reg) h = ground arith

  radiate-IsOrdered : (s : Server S) → IsOrdered s → IsOrdered (radiate s).0
  unfolding radiate
  radiate-IsOrdered s h = ground arith

  admit_radiating : (s : Server S) (cmd : CommandEnv) → admit s cmd ≡ ok tt → s.phase ≡ radiating
  unfolding admit
  admit_radiating s cmd e = ground arith

  handle_command-IsOrdered :
      (s : Server S) (cmd : CommandEnv) → IsOrdered s → IsOrdered (handle_command s cmd).0
  unfolding handle_command store
  handle_command-IsOrdered s cmd h = elim (Result-cases (admit s cmd)) [
    | inl (_, e) ↦ ground (arith, e, admit_radiating s cmd)
    | inr (x, e) ↦ ground (arith, e)
  ]

  -- A server that holds an execution radiates.
  busy_radiating :
      (s : Server S) (id : Text) (x : ExecutionState)
      → IsOrdered s
      → lookup id s.execution_by_id ≡ some x
      → s.phase ≡ radiating
  unfolding lookup
  busy_radiating s id x h found = elim (radiating_or_not s.phase) [
    | inl yes_radiating ↦ yes_radiating
    | inr idle ↦ absurd (ground (arith, found, h.idle idle))
  ]

  complete_execution-IsOrdered :
      (s : Server S) (id : Text) (e : SeedExecuteEnv) (r : SeedResultEnv) (v : EventEnv)
      → IsOrdered s
      → IsOrdered (complete_execution s id e r v)
  unfolding complete_execution store
  complete_execution-IsOrdered s id e r v h = elim (Option-cases (lookup id s.execution_by_id)) [
    | inl missing ↦ ground (arith, missing)
    | inr (x, found) ↦ ground (arith, found, busy_radiating s id x h found)
  ]

  Step-IsOrdered : {s t : Server S} → Step s t → IsOrdered s → IsOrdered t
  Step-IsOrdered {s} (did_appear id) h = appear-IsOrdered s id h
  Step-IsOrdered {s} (did_seed reg) h = seed-IsOrdered s reg h
  Step-IsOrdered {s} did_radiate h = radiate-IsOrdered s h
  Step-IsOrdered {s} (did_accept cmd) h = handle_command-IsOrdered s cmd h
  Step-IsOrdered {s} (did_complete id e r v) h = complete_execution-IsOrdered s id e r v h

  -- Whatever is done to a new server, in any order: past boot it has an id, once seeded or
  -- radiating it has a registry, and it holds no execution before it radiates.
  pub Reach-IsOrdered : {t : Server S} → Reach new_server t → IsOrdered t
  Reach-IsOrdered here = new_server-IsOrdered
  Reach-IsOrdered (next r st) = Step-IsOrdered st (Reach-IsOrdered r)

  complete_execution_identity :
      (s : Server S) (id : Text) (e : SeedExecuteEnv) (r : SeedResultEnv) (v : EventEnv)
      → ((complete_execution s id e r v).ghost_id ≡ s.ghost_id)
        × ((complete_execution s id e r v).phase ≡ s.phase)
        × ((complete_execution s id e r v).registry ≡ s.registry)
  unfolding complete_execution store
  complete_execution_identity s id e r v = ground arith

  handle_command_identity :
      (s : Server S) (cmd : CommandEnv)
      → ((handle_command s cmd).0.ghost_id ≡ s.ghost_id)
        × ((handle_command s cmd).0.phase ≡ s.phase)
        × ((handle_command s cmd).0.registry ≡ s.registry)
  unfolding handle_command store
  handle_command_identity s cmd = ground arith

  Step-identity :
      {s t : Server S}
      → Step s t
      → has_appeared s.phase ≡ true
      → (t.ghost_id ≡ s.ghost_id) × (has_appeared t.phase ≡ true)
  Step-identity {s} (did_appear id) h = unfold appear in ground arith
  Step-identity {s} (did_seed none) h = unfold seed in ground arith
  Step-identity {s} (did_seed (some reg)) h = unfold seed in ground arith
  Step-identity {s} did_radiate h = unfold radiate in ground arith
  Step-identity {s} (did_accept cmd) h = ground (arith, handle_command_identity s cmd)
  Step-identity {s} (did_complete id e r v) h =
      ground (arith, complete_execution_identity s id e r v)

  -- Once a server has appeared, no step changes its id, and it stays appeared.
  pub Reach-identity :
      {s t : Server S}
      → Reach s t
      → has_appeared s.phase ≡ true
      → (t.ghost_id ≡ s.ghost_id) × (has_appeared t.phase ≡ true)
  Reach-identity here h = (refl, h)
  Reach-identity (next r st) h =
      let (same_id, up) = Reach-identity r h in
      let (same_id', up') = Step-identity st up in (same_id' ∙ same_id, up')
