-- ===== src/Mirage/Orchestrator/Pass.antt =====
-- The operations that change the orchestrator.
use edgectl.Prelude.{
  ℕ, if◌then◌else◌, Text, trim_space, lookup, insert, remove, text_eq, Result, ok, err, ◌>>=◌, ◌>>◌,
  map_err, none, some,
}
use edgectl.Frame.{read_frame, default_limits, Frame}
use edgectl.Session.{SessionError, frame_error}
use edgectl.Session.Command.{Json, Command, encode_command_frame, decode_command_frame}
use edgectl.Session.Event.{Event, encode_event_frame, decode_event_frame}
use edgectl.Session.Report.{Report, encode_report_frame, decode_report_frame}
use edgectl.Mirage.Issue.{
  IssueEnv, PlannedCommand, MirageError, intent_not_found, no_executor, executor_failed, wire_error,
  validate_issue, normalize_issue_to_commands,
}
use edgectl.Mirage.Orchestrator.{
  DesiredIntent, ObservedIntent, SeedLock, Orchestrator, Begun, settled, dispatched, is_owner,
  next_seq, ensured, add_report, add_event, next_pending_command, build_blocked_report,
  build_report_from_observed, latest_report_or_synthesize_complete, store_issue, stamped,
  seed_dependencies_for_commands,
}

-- `frame.ReadFrame` on the bytes of one frame.
abbrev pub read_one : Text → Result SessionError Frame
read_one bytes = map_err frame_error (read_frame default_limits bytes) >>= λ (f, _). ok f

-- `dispatchCommandEnvelope`, with the sequence number that it takes.
unfoldable pub dispatch_command_envelope : Json → ℕ → Command → Result SessionError Command
dispatch_command_envelope json n command = do
  payload ← encode_command_frame json n command
  f ← read_one payload
  decode_command_frame json f

unfoldable pub through_event_frame : ℕ → Event → Result SessionError Event
through_event_frame n event = do
  payload ← encode_event_frame n event
  f ← read_one payload
  decode_event_frame f

unfoldable pub through_report_frame : ℕ → Report → Result SessionError Report
through_report_frame n report = do
  payload ← encode_report_frame n report
  f ← read_one payload
  decode_report_frame f

-- `ingestEventEnvelopeAndBuildReport`: the event's frame takes one sequence number and the report's
-- the next.
unfoldable pub ingest_event_envelope_and_build_report :
    ℕ → ℕ → DesiredIntent → ObservedIntent → Event → Result SessionError (Report × Event)
ingest_event_envelope_and_build_report now n desired observed event = do
  ingested ← through_event_frame n event
  wire ←
      through_report_frame (next_seq n) (build_report_from_observed now desired observed ingested)
  ok (wire, ingested)

-- The last sequence number that it takes: an event whose frame fails leaves no report to number.
unfoldable pub last_seq : ℕ → Event → ℕ
last_seq n event = elim (through_event_frame n event) [ err e ↦ n | ok ingested ↦ next_seq n ]

module _ {X : Type 0} where
  unfoldable pub submit_issue :
      ℕ → Orchestrator X → IssueEnv → Orchestrator X × Result MirageError (Unit {0})
  submit_issue now o issue =
      elim (validate_issue issue >> normalize_issue_to_commands (stamped now issue)) [
        | err e ↦ (o, err e)
        | ok commands ↦
            let full = record (stamped now issue) {
              seed_dependencies = seed_dependencies_for_commands commands;
            } in
            (store_issue now o full commands, ok tt)
      ]

  unfoldable pub release_seed_lock : Orchestrator X → Text → Text → Text → Orchestrator X
  release_seed_lock o seed_key intent_id command_id = elim (lookup seed_key o.seed_locks) [
    | none ↦ o
    | some lock ↦
        if is_owner lock intent_id command_id
        then record o { seed_locks = remove seed_key o.seed_locks }
        else o
  ]

  -- The lookup of the executor, after which the mutex is left.
  unfoldable pub choose_executor :
      Orchestrator X → DesiredIntent → PlannedCommand → Orchestrator X × Begun X
  choose_executor o desired next = elim (lookup next.command.ghost_id o.executors) [
    | none ↦ (o, settled (err (no_executor next.command.ghost_id)))
    | some exec ↦ (o, dispatched desired next exec)
  ]

  unfoldable pub take_lock : Orchestrator X → Text → PlannedCommand → Orchestrator X
  take_lock o key next = record o {
    seed_locks =
        insert next.seed_key (record { intent_id = key; command_id = next.command.command_id })
          o.seed_locks;
  }

  unfoldable pub report_blocked :
      ℕ
      → Orchestrator X
      → Text
      → DesiredIntent
      → PlannedCommand
      → SeedLock
      → Orchestrator X × Begun X
  report_blocked now o key desired next lock =
      let report = build_blocked_report now desired next lock in
      (
        record o {
          observed =
              insert key (add_report now report (ensured (lookup key o.observed))) o.observed;
        },
        settled (ok report),
      )

  -- The seed lock of a blocking command: taken, already owned, or held by another.
  unfoldable pub acquire :
      ℕ → Orchestrator X → Text → DesiredIntent → PlannedCommand → Orchestrator X × Begun X
  acquire now o key desired next =
      if next.blocking
      then elim (lookup next.seed_key o.seed_locks) [
        | none ↦ choose_executor (take_lock o key next) desired next
        | some lock ↦
            if is_owner lock key next.command.command_id
            then choose_executor o desired next
            else report_blocked now o key desired next lock
      ]
      else choose_executor o desired next

  -- The first critical section of `ReconcileOnce`.
  unfoldable pub begin_pass : ℕ → Orchestrator X → Text → Orchestrator X × Begun X
  begin_pass now o intent_id =
      let key = trim_space intent_id in
      elim (lookup key o.desired) [
        | none ↦ (o, settled (err (intent_not_found key)))
        | some desired ↦
            let obs = lookup key o.observed in
            elim (next_pending_command desired.commands obs) [
              | none ↦ (o, settled (ok (latest_report_or_synthesize_complete now desired obs)))
              | some next ↦ acquire now o key desired next
            ]
      ]

  -- Every failure after the executor was chosen.
  unfoldable pub abort : Orchestrator X → Text → PlannedCommand → Orchestrator X
  abort o key next =
      if next.blocking then release_seed_lock o next.seed_key key next.command.command_id else o

  -- `ensureObservedLocked` stores the empty record before anything can fail.
  unfoldable pub ensure_observed : Orchestrator X → Text → Orchestrator X
  ensure_observed o key = record o {
    observed = insert key (ensured (lookup key o.observed)) o.observed;
  }

  -- `if …Blocking { delete(o.seedLocks, …SeedKey) }`
  unfoldable pub drop_lock : Orchestrator X → PlannedCommand → Orchestrator X
  drop_lock o next =
      if next.blocking then record o { seed_locks = remove next.seed_key o.seed_locks } else o

  unfoldable pub record_event :
      ℕ → Orchestrator X → Text → PlannedCommand → Report → Event → Orchestrator X
  record_event now o key next report event =
      drop_lock
        (record o {
          observed =
              insert key (add_event now event report (ensured (lookup key o.observed))) o.observed;
        })
        next

  abbrev pub advance : Orchestrator X → Event → Orchestrator X
  advance o event = record o { seq = last_seq (next_seq o.seq) event }

  -- The second critical section, with the event that the executor returned.
  unfoldable pub finish_pass :
      ℕ
      → Orchestrator X
      → Text
      → DesiredIntent
      → PlannedCommand
      → Event
      → Orchestrator X × Result MirageError Report
  finish_pass now o key desired next event =
      let o' = advance (ensure_observed o key) event in
      elim (ingest_event_envelope_and_build_report now (next_seq o.seq) desired
        (ensured (lookup key o.observed)) event) [
          | err e ↦ (abort o' key next, err (wire_error e))
          | ok (report, ingested) ↦ (record_event now o' key next report ingested, ok report)
        ]

  -- From the executor's choice on; `call` is the executor's `ExecuteCommand`.
  unfoldable pub run_pass :
      Json
      → (X → Command → Result Text Event)
      → ℕ
      → Orchestrator X
      → Text
      → DesiredIntent
      → PlannedCommand
      → X
      → Orchestrator X × Result MirageError Report
  run_pass json call now o key desired next exec =
      let o' = record o { seq = next_seq o.seq } in
      elim (dispatch_command_envelope json (next_seq o.seq) next.command) [
        | err e ↦ (abort o' key next, err (wire_error e))
        | ok wire_command ↦ elim (call exec wire_command) [
          | err message ↦ (abort o' key next, err (executor_failed message))
          | ok event ↦ finish_pass now o' key desired next event
        ]
      ]

  unfoldable pub conclude :
      Json
      → (X → Command → Result Text Event)
      → ℕ
      → Text
      → Orchestrator X × Begun X
      → Orchestrator X × Result MirageError Report
  conclude json call now key (o, settled r) = (o, r)
  conclude json call now key (o, dispatched desired next exec) =
      run_pass json call now o key desired next exec

  -- A whole pass with no other goroutine in between.
  unfoldable pub reconcile_once :
      Json
      → (X → Command → Result Text Event)
      → ℕ
      → Orchestrator X
      → Text
      → Orchestrator X × Result MirageError Report
  reconcile_once json call now o intent_id =
      conclude json call now (trim_space intent_id) (begin_pass now o intent_id)
