-- ===== src/Mirage/Orchestrator.antt =====
-- orchestration.go: the desired and observed stores, the seed locks and one reconcile pass. Each part
-- of a pass that holds the mutex is one function; between them other goroutines may run. `now` is the
-- clock in milliseconds, `X` the type of executors, and JSON is an interface.
pub mod Pass
pub mod Ingest
pub mod Wire
pub mod Locks
pub mod Progress
use edgectl.Prelude.{
  sort_strings, keys, ℕ, zero, suc, ◌+◌, ◌%◌, ◌^◌, List, [], ◌∷◌, ◌++◌, Bool, true, false, not,
  ◌&&◌, ◌||◌, ◌==◌, ltb, leb, if◌then◌else◌, Text, codes, same, is_empty, trim_space, decimal,
  length, last?, Map, lookup, insert, remove, has, text_eq, Result, ok, err, ◌>>=◌, ◌>>◌, map_err,
  Option, none, some,
}
use edgectl.Frame.{read_frame, default_limits, Frame, FrameError}
use edgectl.Session.{SessionError, frame_error}
use edgectl.Session.Command.{Json, Command, encode_command_frame, decode_command_frame}
use edgectl.Session.Event.{Event, encode_event_frame, decode_event_frame}
use edgectl.Session.Report.{Report, encode_report_frame, decode_report_frame}
use edgectl.Mirage.Issue.{
  IssueEnv, PlannedCommand, MirageError, intent_not_found, target_ghost_required, no_executor,
  executor_failed, wire_error, validate_issue, normalize_issue_to_commands,
}

-- ReportPhase… and Completion… share their texts.
abbrev pub in_progress : Text
in_progress = codes "in_progress"

abbrev pub complete : Text
complete = codes "complete"

abbrev pub satisfied : Text
satisfied = codes "satisfied"

abbrev pub failed : Text
failed = codes "failed"

abbrev pub outcome_success : Text
outcome_success = codes "success"

abbrev pub outcome_error : Text
outcome_error = codes "error"

pub record DesiredIntent : Type 0 where
  pub issue : IssueEnv
  pub commands : List PlannedCommand
  pub received_at : ℕ

pub record ObservedIntent : Type 0 where
  pub events : List Event
  pub reports : List Report
  pub observed_at : ℕ
  pub by_command_id : Map Text Event

pub record SeedLock : Type 0 where
  pub intent_id : Text
  pub command_id : Text

pub record OrchestratorSnapshot : Type 0 where
  pub intent_count : ℕ
  pub observed_count : ℕ

pub record Orchestrator (X : Type 0) : Type 0 where
  pub desired : Map Text DesiredIntent
  pub observed : Map Text ObservedIntent
  pub executors : Map Text X
  pub seed_locks : Map Text SeedLock
  pub seq : ℕ

-- The loop over the commands, with the ids that were seen.
distinct_seeds : Map Text (Unit {0}) → List PlannedCommand → List Text
distinct_seeds seen [] = []
distinct_seeds seen (c ∷ cs) =
    let seed_id = trim_space c.command.seed_selector in
    let is_new = not (is_empty seed_id) && not (has seed_id seen) in
    let rest = distinct_seeds (if is_new then insert seed_id tt seen else seen) cs in
    if is_new then seed_id ∷ rest else rest

unfoldable pub seed_dependencies_for_commands : List PlannedCommand → List Text
unfolding distinct_seeds sort_strings
seed_dependencies_for_commands commands = sort_strings (distinct_seeds [] commands)

abbrev pub no_observation : ObservedIntent
no_observation = record { events = []; reports = []; observed_at = 0; by_command_id = [] }

-- `ByCommandID` of an intent that may not have been observed.
abbrev pub closed_of : Option ObservedIntent → Map Text Event
closed_of none = []
closed_of (some obs) = obs.by_command_id

unfoldable pub next_pending_command :
    List PlannedCommand → Option ObservedIntent → Option PlannedCommand
next_pending_command [] obs = none
next_pending_command (c ∷ cs) none = some c
next_pending_command (c ∷ cs) (some obs) =
    if has c.command.command_id obs.by_command_id
    then next_pending_command cs (some obs)
    else some c

unfoldable pub pending_command_count : List PlannedCommand → Map Text Event → ℕ
pending_command_count [] closed = 0
pending_command_count (c ∷ cs) closed =
    let rest = pending_command_count cs closed in
    if has c.command.command_id closed then rest else suc rest

unfoldable pub build_report_from_observed : ℕ → DesiredIntent → ObservedIntent → Event → Report
build_report_from_observed now desired observed event =
    let completed_after = length observed.by_command_id + 1 in
    let total = length desired.commands in
    let id = desired.issue.intent_id in
    let is_failure = same event.outcome outcome_error in
    let is_last = leb total completed_after in
    record {
      intent_id = id;
      phase = if is_failure then complete else if is_last then complete else in_progress;
      summary =
          codes "intent "
          ++ (id
              ++ (if is_failure
                  then codes " failed on " ++ event.ghost_id
                  else if is_last
                  then codes " satisfied on " ++ event.ghost_id
                  else codes " progress "
                    ++ (decimal completed_after
                        ++ (codes "/" ++ (decimal total ++ (codes " on " ++ event.ghost_id))))));
      completion_state = if is_failure then failed else if is_last then satisfied else in_progress;
      command_id = event.command_id;
      execution_id = [];
      event_id = event.event_id;
      outcome = event.outcome;
      timestamp_ms = now;
    }

unfoldable pub synthesize_complete : ℕ → DesiredIntent → Report
synthesize_complete now desired = record {
  intent_id = desired.issue.intent_id;
  phase = complete;
  summary = codes "intent " ++ (desired.issue.intent_id ++ codes " has no command plan");
  completion_state = satisfied;
  command_id = [];
  execution_id = [];
  event_id = [];
  outcome = [];
  timestamp_ms = now;
}

abbrev pub reports_of : Option ObservedIntent → List Report
reports_of none = []
reports_of (some obs) = obs.reports

unfoldable pub latest_report_or_synthesize_complete :
    ℕ → DesiredIntent → Option ObservedIntent → Report
latest_report_or_synthesize_complete now desired obs = elim (last? (reports_of obs)) [
  | some r ↦ r
  | none ↦ synthesize_complete now desired
]

unfoldable pub build_blocked_report : ℕ → DesiredIntent → PlannedCommand → SeedLock → Report
build_blocked_report now desired next lock = record {
  intent_id = desired.issue.intent_id;
  phase = in_progress;
  summary =
      codes "intent "
      ++ (desired.issue.intent_id
          ++ (codes " waiting on seed lock "
              ++ (next.seed_key
                  ++ (codes " held by " ++ (lock.intent_id ++ (codes "/" ++ lock.command_id))))));
  completion_state = in_progress;
  command_id = next.command.command_id;
  execution_id = [];
  event_id = [];
  outcome = outcome_success;
  timestamp_ms = now;
}

-- `ensureObservedLocked`, seen as the record that is then changed and stored.
abbrev pub ensured : Option ObservedIntent → ObservedIntent
ensured none = no_observation
ensured (some obs) = obs

-- The appends that a report makes.
unfoldable pub add_report : ℕ → Report → ObservedIntent → ObservedIntent
add_report now r obs = record obs { reports = obs.reports ++ r ∷ []; observed_at = now }

unfoldable pub add_event : ℕ → Event → Report → ObservedIntent → ObservedIntent
add_event now event r obs = record {
  events = obs.events ++ event ∷ [];
  reports = obs.reports ++ r ∷ [];
  observed_at = now;
  by_command_id = insert event.command_id event obs.by_command_id;
}

-- What a pass has found out when it leaves the mutex for the first time.
pub data Begun (X : Type 0) : Type 0 where
  settled : Result MirageError Report → Begun X
  dispatched : DesiredIntent → PlannedCommand → X → Begun X

abbrev pub is_owner : SeedLock → Text → Text → Bool
is_owner lock intent_id command_id =
    same lock.intent_id intent_id && same lock.command_id command_id

-- `atomic.Uint64.Add(1)`
abbrev pub next_seq : ℕ → ℕ
next_seq n = (n + 1) % 2 ^ 64

-- `if issue.TimestampMS == 0 { … }`
abbrev pub stamped : ℕ → IssueEnv → IssueEnv
stamped now issue = record issue {
  timestamp_ms = if issue.timestamp_ms == 0 then now else issue.timestamp_ms;
}

module _ {X : Type 0} where
  abbrev pub new_orchestrator : Orchestrator X
  new_orchestrator = record {
    desired = [];
    observed = [];
    executors = [];
    seed_locks = [];
    seq = 0;
  }

  unfoldable pub register_executor :
      Orchestrator X → Text → X → Orchestrator X × Result MirageError (Unit {0})
  register_executor o ghost_id exec =
      let key = trim_space ghost_id in
      if is_empty key
      then (o, err (target_ghost_required ghost_id))
      else (record o { executors = insert key exec o.executors }, ok tt)

  -- The last part of `SubmitIssue`, under the mutex.
  unfoldable pub store_issue : ℕ → Orchestrator X → IssueEnv → List PlannedCommand → Orchestrator X
  store_issue now o issue commands = record o {
    desired =
        insert issue.intent_id (record { issue = issue; commands = commands; received_at = now })
          o.desired;
    observed = remove issue.intent_id o.observed;
  }

  unfoldable pub snapshot : Orchestrator X → OrchestratorSnapshot
  snapshot o = record { intent_count = length o.desired; observed_count = length o.observed }

  unfoldable pub list_intent_ids : Orchestrator X → List Text
  unfolding sort_strings keys
  list_intent_ids o = sort_strings (keys o.desired)
