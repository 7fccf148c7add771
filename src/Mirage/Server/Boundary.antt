-- ===== src/Mirage/Server/Boundary.antt =====
-- server.go: the server over its orchestrator, the reports it keeps and the spawner of local Ghosts.
use edgectl.Prelude.{
  map, ℕ, zero, suc, ◌-◌, ◌++◌, List, [], ◌∷◌, if◌then◌else◌, leb, Text, drop, length, Option, none,
  some, Result, ok, err,
}
use edgectl.Session.Event.{Event}
use edgectl.Session.Report.{Report}
use edgectl.Session.Command.{Json, Command}
use edgectl.Mirage.Issue.{IssueEnv, MirageError}
use edgectl.Mirage.Orchestrator.{Orchestrator, DesiredIntent, ObservedIntent}
use edgectl.Mirage.Orchestrator
use edgectl.Mirage.Orchestrator.Pass
use edgectl.Mirage.Orchestrator.Ingest
use edgectl.Mirage.Server.{
  RegisteredGhost, Server, ServerError, Spawner, SpawnGhostRequest, SpawnGhostResult,
  no_ghost_spawner, spawner_failed,
}

module _ {X W : Type 0} where
  unfoldable pub snapshot_registered_ghosts : Server X W → List RegisteredGhost
  snapshot_registered_ghosts s = map (λ entry. entry.1.meta) s.registry

  unfoldable pub append_report : Server X W → Report → Server X W
  append_report s report = record s { reports = s.reports ++ report ∷ [] }

  unfoldable pub register_executor :
      Server X W → Text → X → Server X W × Result MirageError (Unit {0})
  register_executor s ghost_id exec =
      let (loop, r) = Orchestrator.register_executor s.loop ghost_id exec in
      (record s { loop = loop }, r)

  unfoldable pub submit_issue :
      ℕ → Server X W → IssueEnv → Server X W × Result MirageError (Unit {0})
  submit_issue now s issue =
      let (loop, r) = Pass.submit_issue now s.loop issue in (record s { loop = loop }, r)

  unfoldable pub reconcile_intent :
      Json
      → (X → Command → Result Text Event)
      → ℕ
      → Server X W
      → Text
      → Server X W × Result MirageError Report
  reconcile_intent json exec now s intent_id =
      let (loop, r) = Pass.reconcile_once json exec now s.loop intent_id in
      elim r [
        | err e ↦ (record s { loop = loop }, err e)
        | ok report ↦ (append_report (record s { loop = loop }) report, ok report)
      ]

  unfoldable pub snapshot_intent :
      Server X W → Text → Option (DesiredIntent × Option ObservedIntent × ℕ)
  snapshot_intent s intent_id = Ingest.snapshot_intent s.loop intent_id

  unfoldable pub list_intent_ids : Server X W → List Text
  list_intent_ids s = Orchestrator.list_intent_ids s.loop

  -- `none` where no command of a desired intent matches.
  unfoldable pub observe_event :
      ℕ → Server X W → Event → Server X W × Option (Result MirageError Report)
  observe_event now s event =
      let (loop, r) = Ingest.ingest_observed_event now s.loop event in
      elim r [
        | none ↦ (record s { loop = loop }, none)
        | some (err e) ↦ (record s { loop = loop }, some (err e))
        | some (ok report) ↦ (append_report (record s { loop = loop }) report, some (ok report))
      ]

  -- The last reports; a limit of 0, as one below, means all of them.
  unfoldable pub recent_reports : Server X W → ℕ → List Report
  recent_reports s zero = s.reports
  recent_reports s (suc below) =
      let limit = suc below in
      if leb (length s.reports) limit then s.reports else drop (length s.reports - limit) s.reports

  unfoldable pub set_ghost_spawner : Server X W → Option (Spawner W) → Server X W
  set_ghost_spawner s spawner = record s { spawner = spawner }

  unfoldable pub spawn_local_ghost :
      Server X W → SpawnGhostRequest → W → W × Result ServerError SpawnGhostResult
  spawn_local_ghost s req w = elim s.spawner [
    | none ↦ (w, err no_ghost_spawner)
    | some spawn ↦
        let (w', r) = spawn req w in
        elim r [ err e ↦ (w', err (spawner_failed e)) | ok out ↦ (w', ok out) ]
  ]
