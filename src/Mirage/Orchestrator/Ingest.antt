-- ===== src/Mirage/Orchestrator/Ingest.antt =====
-- Events that arrive from outside a pass, and the snapshot of one intent.
pub mod Again
use edgectl.Prelude.{
  ℕ, List, [], ◌∷◌, if◌then◌else◌, Text, same, trim_space, length, Map, lookup, has, text_eq,
  Result, ok, err, Option, none, some,
}
use edgectl.Session.Event.{Event}
use edgectl.Session.Report.{Report}
use edgectl.Mirage.Issue.{PlannedCommand, MirageError, wire_error}
use edgectl.Mirage.Orchestrator.{
  DesiredIntent, ObservedIntent, Orchestrator, next_seq, ensured,
  latest_report_or_synthesize_complete, pending_command_count,
}
use edgectl.Mirage.Orchestrator.Pass.{
  ensure_observed, advance, record_event, ingest_event_envelope_and_build_report,
}

unfoldable pub find_command : Text → List PlannedCommand → Option PlannedCommand
find_command id [] = none
find_command id (c ∷ cs) = if same c.command.command_id id then some c else find_command id cs

-- Go visits the intents in no fixed order; the map's is taken here.
unfoldable pub find_planned :
    Text → Map Text DesiredIntent → Option (Text × DesiredIntent × PlannedCommand)
find_planned id [] = none
find_planned id ((intent_id, desired) ∷ rest) = elim (find_command id desired.commands) [
  | some c ↦ some (intent_id, desired, c)
  | none ↦ find_planned id rest
]

module _ {X : Type 0} where
  unfoldable pub ingest_new :
      ℕ
      → Orchestrator X
      → Event
      → Text
      → DesiredIntent
      → PlannedCommand
      → Orchestrator X × Option (Result MirageError Report)
  ingest_new now o event intent_id desired plan =
      let obs = ensured (lookup intent_id o.observed) in
      let o' = advance (ensure_observed o intent_id) event in
      elim (ingest_event_envelope_and_build_report now (next_seq o.seq) desired obs event) [
        | err e ↦ (o', some (err (wire_error e)))
        | ok (report, ingested) ↦
            (record_event now o' intent_id plan report ingested, some (ok report))
      ]

  -- `IngestObservedEvent`; its `false` is `none`.
  unfoldable pub ingest_observed_event :
      ℕ → Orchestrator X → Event → Orchestrator X × Option (Result MirageError Report)
  ingest_observed_event now o event = elim (find_planned (trim_space event.command_id) o.desired) [
    | none ↦ (o, none)
    | some (intent_id, desired, plan) ↦
        let obs = ensured (lookup intent_id o.observed) in
        if has event.command_id obs.by_command_id
        then (
          ensure_observed o intent_id,
          some (ok (latest_report_or_synthesize_complete now desired (some obs))),
        )
        else ingest_new now o event intent_id desired plan
  ]

  -- `SnapshotIntent`, less the copies: the desired record, the observed one and the commands to go.
  unfoldable pub snapshot_intent :
      Orchestrator X → Text → Option (DesiredIntent × Option ObservedIntent × ℕ)
  snapshot_intent o intent_id = elim (lookup (trim_space intent_id) o.desired) [
    | none ↦ none
    | some desired ↦ elim (lookup (trim_space intent_id) o.observed) [
      | none ↦ some (desired, none, length desired.commands)
      | some obs ↦
          some (desired, some obs, pending_command_count desired.commands obs.by_command_id)
    ]
  ]
