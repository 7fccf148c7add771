-- ===== src/Mirage/Orchestrator/Locks.antt =====
-- The seed locks of orchestration.go over the first part of a pass and over a pass that fails.
use edgectl.Prelude.{
  ℕ, true, false, Text, same_iff, trim_space, lookup, lookup-insert, lookup-remove,
  lookup-insert_self, text_eq, Result, ok, err, none, some, ◌≡◌, refl, arith, ◌∙◌,
}
use edgectl.Session.Command.{Json, Command}
use edgectl.Session.Event.{Event}
use edgectl.Mirage.Issue.{PlannedCommand, no_executor}
use edgectl.Mirage.Orchestrator.{
  DesiredIntent, SeedLock, Orchestrator, settled, is_owner, next_pending_command,
  build_blocked_report, next_seq,
}
use edgectl.Mirage.Orchestrator.Pass.{
  conclude, release_seed_lock, choose_executor, take_lock, report_blocked, acquire, begin_pass,
  abort, reconcile_once, run_pass, finish_pass, record_event, ensure_observed, drop_lock, advance,
}

-- What the pass of an intent would run next.
pub record IsNext {X : Type 0} (o : Orchestrator X) (intent_id : Text) (desired : DesiredIntent)
    (next : PlannedCommand) : Type 0 where
  pub is_desired : lookup (trim_space intent_id) o.desired ≡ some desired
  pub is_pending :
      next_pending_command desired.commands (lookup (trim_space intent_id) o.observed) ≡ some next

module _ {X : Type 0} where
  pub begin_pass-IsNext :
      (now : ℕ) (o : Orchestrator X) (id : Text) {desired : DesiredIntent} {next : PlannedCommand}
      → IsNext o id desired next
      → begin_pass now o id ≡ acquire now o (trim_space id) desired next
  unfolding begin_pass
  begin_pass-IsNext now o id n = rw (begin_pass, n.is_desired, n.is_pending)

  begin_pass-blocked :
      (now : ℕ) (o : Orchestrator X) (id : Text) {desired : DesiredIntent} {next : PlannedCommand}
      {lock : SeedLock}
      → IsNext o id desired next
      → next.blocking ≡ true
      → lookup next.seed_key o.seed_locks ≡ some lock
      → is_owner lock (trim_space id) next.command.command_id ≡ false
      → begin_pass now o id ≡ report_blocked now o (trim_space id) desired next lock
  unfolding acquire
  begin_pass-blocked now o id n b held other = begin_pass-IsNext now o id n ∙ simp (b, held, other)

  choose_executor-missing :
      (o : Orchestrator X) (desired : DesiredIntent) (next : PlannedCommand)
      → lookup next.command.ghost_id o.executors ≡ none
      → choose_executor o desired next ≡ (o, settled (err (no_executor next.command.ghost_id)))
  unfolding choose_executor
  choose_executor-missing o desired next no_exec = rw (choose_executor, no_exec) refl

  -- A blocking next command whose lock is free takes it.
  pub begin_pass-free :
      (now : ℕ) (o : Orchestrator X) (id : Text) {desired : DesiredIntent} {next : PlannedCommand}
      → IsNext o id desired next
      → next.blocking ≡ true
      → lookup next.seed_key o.seed_locks ≡ none
      → begin_pass now o id ≡ choose_executor (take_lock o (trim_space id) next) desired next
  unfolding acquire
  begin_pass-free now o id n b free = begin_pass-IsNext now o id n ∙ simp (b, free)

  begin_pass-leaks :
      (now : ℕ) (o : Orchestrator X) (id : Text) {desired : DesiredIntent} {next : PlannedCommand}
      → IsNext o id desired next
      → next.blocking ≡ true
      → lookup next.seed_key o.seed_locks ≡ none
      → lookup next.command.ghost_id o.executors ≡ none
      → begin_pass now o id
        ≡ (take_lock o (trim_space id) next, settled (err (no_executor next.command.ghost_id)))
  unfolding take_lock
  begin_pass-leaks now o id {desired} {next} n b free no_exec =
      begin_pass-free now o id n b free
      ∙ choose_executor-missing (take_lock o (trim_space id) next) desired next no_exec

  -- A pass whose next command is blocking, while another intent or another command holds the seed's lock, reports that it waits, whatever the executors would do, and keeps the locks and the sequence number as they are.
  pub reconcile_once_blocked :
      (json : Json) (call : X → Command → Result Text Event) (now : ℕ) (o : Orchestrator X)
      (id : Text) {desired : DesiredIntent} {next : PlannedCommand} {lock : SeedLock}
      → IsNext o id desired next
      → next.blocking ≡ true
      → lookup next.seed_key o.seed_locks ≡ some lock
      → is_owner lock (trim_space id) next.command.command_id ≡ false
      → let (o', r) = reconcile_once json call now o id in
        (r ≡ ok (build_blocked_report now desired next lock))
        × (o'.seed_locks ≡ o.seed_locks)
        × (o'.seq ≡ o.seq)
  unfolding reconcile_once conclude report_blocked
  reconcile_once_blocked json call now o id n b held other =
      rw (begin_pass-blocked now o id n b held other) (refl, refl, refl)

  -- When a pass has a blocking next command, nobody holds its lock and no executor is registered for its ghost, the pass fails and leaves the lock held by this intent and command.
  pub reconcile_once_leaks :
      (json : Json) (call : X → Command → Result Text Event) (now : ℕ) (o : Orchestrator X)
      (id : Text) {desired : DesiredIntent} {next : PlannedCommand}
      → IsNext o id desired next
      → next.blocking ≡ true
      → lookup next.seed_key o.seed_locks ≡ none
      → lookup next.command.ghost_id o.executors ≡ none
      → let (o', r) = reconcile_once json call now o id in
        (r ≡ err (no_executor next.command.ghost_id))
        × (lookup next.seed_key o'.seed_locks
            ≡ some (record { intent_id = trim_space id; command_id = next.command.command_id }))
  unfolding reconcile_once conclude take_lock
  reconcile_once_leaks json call now o id {next = next} n b free no_exec =
      rw (begin_pass-leaks now o id n b free no_exec)
        (refl, lookup-insert_self next.seed_key _ o.seed_locks)

  take_lock-keeps :
      (o : Orchestrator X) (key : Text) (next : PlannedCommand) (k : Text) (lock : SeedLock)
      → lookup next.seed_key o.seed_locks ≡ none
      → lookup k o.seed_locks ≡ some lock
      → lookup k (take_lock o key next).seed_locks ≡ some lock
  unfolding take_lock
  take_lock-keeps o key next k lock free held = ground (
    arith,
    lookup-insert next.seed_key k (record { intent_id = key; command_id = next.command.command_id })
        o.seed_locks,
    same_iff next.seed_key k,
  )

  choose_executor-seed_locks :
      (o : Orchestrator X) (desired : DesiredIntent) (next : PlannedCommand)
      → (choose_executor o desired next).0.seed_locks ≡ o.seed_locks
  unfolding choose_executor
  choose_executor-seed_locks o desired next = ground arith

  acquire-keeps :
      (now : ℕ) (o : Orchestrator X) (key : Text) (desired : DesiredIntent) (next : PlannedCommand)
      (k : Text) (lock : SeedLock)
      → lookup k o.seed_locks ≡ some lock
      → lookup k (acquire now o key desired next).0.seed_locks ≡ some lock
  unfolding acquire report_blocked
  acquire-keeps now o key desired next k lock held = ground (
    arith,
    choose_executor-seed_locks o desired next,
    choose_executor-seed_locks (take_lock o key next) desired next,
    take_lock-keeps o key next k lock,
  )

  -- The first part of a pass never takes a lock away from its holder: every lock that is held before it is held after it by the same intent and command.
  pub begin_pass-keeps :
      (now : ℕ) (o : Orchestrator X) (id : Text) (k : Text) (lock : SeedLock)
      → lookup k o.seed_locks ≡ some lock
      → lookup k (begin_pass now o id).0.seed_locks ≡ some lock
  unfolding begin_pass
  begin_pass-keeps now o id k lock held = grind (arith, acquire-keeps now o (trim_space id))

  abort-releases :
      (o : Orchestrator X) (key : Text) (next : PlannedCommand)
      → next.blocking ≡ true
      → lookup next.seed_key o.seed_locks
        ≡ some (record { intent_id = key; command_id = next.command.command_id })
      → lookup next.seed_key (abort o key next).seed_locks ≡ none
  unfolding abort release_seed_lock
  abort-releases o key next b held = ground (
    arith,
    lookup-remove next.seed_key next.seed_key o.seed_locks,
    same_iff next.seed_key next.seed_key,
    same_iff key key,
    same_iff next.command.command_id next.command.command_id,
  )

  drop_lock-releases :
      (o : Orchestrator X) (next : PlannedCommand)
      → next.blocking ≡ true
      → lookup next.seed_key (drop_lock o next).seed_locks ≡ none
  unfolding drop_lock
  drop_lock-releases o next b = ground (
    arith,
    lookup-remove next.seed_key next.seed_key o.seed_locks,
    same_iff next.seed_key next.seed_key,
  )

  finish_pass-releases :
      (now : ℕ) (o : Orchestrator X) (key : Text) (desired : DesiredIntent) (next : PlannedCommand)
      (event : Event)
      → next.blocking ≡ true
      → lookup next.seed_key o.seed_locks
        ≡ some (record { intent_id = key; command_id = next.command.command_id })
      → lookup next.seed_key (finish_pass now o key desired next event).0.seed_locks ≡ none
  unfolding finish_pass record_event ensure_observed
  finish_pass-releases now o key desired next event b held = grind (
    arith,
    abort-releases (advance (ensure_observed o key) event) key next b held,
    drop_lock-releases,
  )

  -- From the executor's choice on, a pass over a blocking command that holds its lock ends with the lock free, whether the wire, the executor or the ingested event fails or all succeed.
  pub run_pass-releases :
      (json : Json) (call : X → Command → Result Text Event) (now : ℕ) (o : Orchestrator X)
      (key : Text) (desired : DesiredIntent) (next : PlannedCommand) (exec : X)
      → next.blocking ≡ true
      → lookup next.seed_key o.seed_locks
        ≡ some (record { intent_id = key; command_id = next.command.command_id })
      → lookup next.seed_key (run_pass json call now o key desired next exec).0.seed_locks ≡ none
  unfolding run_pass
  run_pass-releases json call now o key desired next exec b held =
      let o' : Orchestrator X = record o { seq = next_seq o.seq } in
      grind (arith, abort-releases o' key next b held, finish_pass-releases now o' key desired next)
