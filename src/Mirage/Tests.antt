-- ===== src/Mirage/Tests.antt =====
-- Two intents that block on one seed, and the theorems of the orchestrator on them.
use edgectl.Prelude.{
  has, ◌≡◌, ◌<◌, refl, [], ◌∷◌, codes, Text, same, true, trim_space, lookup, text_eq, length, none,
  some, Result, ok, err, arith, put_be, get_be,
}
use edgectl.Tlv.{get_field, encode_fields, encode_field, decode_fields, decode_loop, decode_field}
use edgectl.Frame.{
  write_frame, read_frame, default_limits, encode_header, complete_header, parse_header,
  check_header, decode_header, check_lengths, read_some, read_full,
}
use edgectl.Schema.{validate, check_requirements, check_requirement}
use edgectl.Session.{
  encode_message, decode_message, get_string, get_optional_u64, put_u64, u64_from_bytes,
}
use edgectl.Session
use edgectl.Session.Command.{Json, Command}
use edgectl.Session.Event.{Event, encode_event_frame, decode_event_frame, validate_event}
use edgectl.Session.Report.{Report, encode_report_frame, decode_report_frame, validate_report}
use edgectl.Mirage.Issue.{
  IssueCommand, PlannedCommand, no_executor, planned, plan_steps, validate_step, require,
}
use edgectl.Mirage.Issue.Plan.{Distinct, plan_steps-Distinct}
use edgectl.Mirage.Orchestrator.{
  DesiredIntent, SeedLock, Orchestrator, closed_of, next_pending_command, pending_command_count,
  build_report_from_observed, no_observation,
}
use edgectl.Mirage.Orchestrator.Pass.{
  run_pass, finish_pass, reconcile_once, ingest_event_envelope_and_build_report,
  through_event_frame, through_report_frame, last_seq,
}
use edgectl.Mirage.Orchestrator.Ingest.{
  find_planned, find_command, ingest_new, ingest_observed_event,
}
use edgectl.Mirage.Orchestrator.Ingest.Again.{ingest_observed_event_again}
use edgectl.Mirage.Orchestrator.Locks.{IsNext, reconcile_once_leaks, run_pass-releases}
use edgectl.Mirage.Orchestrator.Progress.{finish_pass_progress}

abbrev step : IssueCommand
step = record {
  ghost_id = codes "g";
  seed_selector = codes "seed.kv";
  operation = codes "put";
  args = [];
  blocking = true;
}

abbrev put : PlannedCommand
put = record {
  command = record {
    command_id = codes "cmd.i.1";
    intent_id = codes "i";
    ghost_id = codes "g";
    seed_selector = codes "seed.kv";
    operation = codes "put";
    args = [];
  };
  blocking = true;
  seed_key = codes "g::seed.kv";
}

abbrev desired : DesiredIntent
desired = record {
  issue = record {
    intent_id = codes "i";
    actor = codes "a";
    target_scope = codes "ghost:g";
    objective = codes "put";
    seed_dependencies = codes "seed.kv" ∷ [];
    timestamp_ms = 1;
    command_plan = step ∷ [];
    seed_selector = [];
    operation = [];
    args = [];
  };
  commands = put ∷ [];
  received_at = 1;
}

abbrev idle : Orchestrator Text
idle = record {
  desired = (codes "i", desired) ∷ [];
  observed = [];
  executors = [];
  seed_locks = [];
  seq = 0;
}

abbrev lock_of_j : SeedLock
lock_of_j = record { intent_id = codes "j"; command_id = codes "cmd.j.1" }

abbrev busy : Orchestrator Text
busy = record idle { seed_locks = (codes "g::seed.kv", lock_of_j) ∷ [] }

abbrev own_lock : SeedLock
own_lock = record { intent_id = codes "i"; command_id = codes "cmd.i.1" }

abbrev owned : Orchestrator Text
owned = record idle { seed_locks = (codes "g::seed.kv", own_lock) ∷ [] }

-- A codec for the empty map only.
abbrev empty_json : Json
empty_json = record {
  marshal = λ m. codes "{}";
  unmarshal = λ t. some [];
  IsUtf8 = λ m. m ≡ [];
  unmarshal-marshal = λ m none_in. ([], refl, λ k. rw none_in refl);
}

abbrev event : Event
event = record {
  event_id = codes "evt.cmd.i.1";
  command_id = codes "cmd.i.1";
  intent_id = codes "i";
  ghost_id = codes "g";
  seed_id = codes "seed.kv";
  outcome = codes "success";
  timestamp_ms = 2;
}

abbrev answer : Text → Command → Result Text Event
answer exec c = ok event

idle-IsNext : IsNext idle (codes " i ") desired put
unfolding trim_space lookup same next_pending_command
idle-IsNext = record { is_desired = refl; is_pending = refl }

busy-IsNext : IsNext busy (codes " i ") desired put
unfolding trim_space lookup same next_pending_command
busy-IsNext = record { is_desired = refl; is_pending = refl }

reconcile_once_leaks_example :
    let (o', r) = reconcile_once empty_json answer 3 idle (codes " i ") in
    (r ≡ err (no_executor (codes "g")))
    × (lookup (codes "g::seed.kv") o'.seed_locks
        ≡ some (record { intent_id = trim_space (codes " i "); command_id = codes "cmd.i.1" }))
unfolding lookup
reconcile_once_leaks_example =
    reconcile_once_leaks empty_json answer 3 idle (codes " i ") idle-IsNext refl refl refl

run_pass-releases_example :
    lookup
      (codes "g::seed.kv")
      (run_pass empty_json answer 3 owned (codes "i") desired put (codes "exec")).0.seed_locks
    ≡ none
unfolding lookup same
run_pass-releases_example =
    run_pass-releases empty_json answer 3 owned (codes "i") desired put (codes "exec") refl refl

plan : plan_steps (codes "i") 1 (step ∷ []) ≡ ok (planned (codes "i") 1 step ∷ [])
unfolding plan_steps validate_step require trim_space
plan = refl

plan_steps-Distinct_example :
    (length (planned (codes "i") 1 step ∷ []) ≡ length (step ∷ []))
    × Distinct (planned (codes "i") 1 step ∷ [])
plan_steps-Distinct_example =
    plan_steps-Distinct (codes "i") 1 (step ∷ []) (planned (codes "i") 1 step ∷ []) plan

ingested :
    (r : Report) × (ingest_event_envelope_and_build_report 3 2 desired no_observation event
      ≡ ok (r, event))
unfolding ingest_event_envelope_and_build_report through_event_frame through_report_frame
    build_report_from_observed encode_event_frame decode_event_frame validate_event
    encode_report_frame decode_report_frame validate_report Session.require trim_space same
    get_optional_u64 put_u64 u64_from_bytes encode_message decode_message validate
    check_requirements check_requirement get_field get_string encode_fields encode_field
    decode_fields decode_loop decode_field get_be put_be write_frame read_frame default_limits
    encode_header complete_header parse_header check_header decode_header check_lengths read_some
    read_full
ingested = (_, refl)

finished :
    (o : Orchestrator Text) × (r : Report) × (finish_pass 3 owned (codes "i") desired put event
      ≡ (o, ok r))
unfolding finish_pass last_seq lookup ingest_event_envelope_and_build_report through_event_frame
    through_report_frame build_report_from_observed encode_event_frame decode_event_frame
    validate_event encode_report_frame decode_report_frame validate_report Session.require
    trim_space same get_optional_u64 put_u64 u64_from_bytes encode_message decode_message validate
    check_requirements check_requirement get_field get_string encode_fields encode_field
    decode_fields decode_loop decode_field get_be put_be write_frame read_frame default_limits
    encode_header complete_header parse_header check_header decode_header check_lengths read_some
    read_full
finished = (_, _, refl)

put-next : next_pending_command desired.commands (lookup (codes "i") owned.observed) ≡ some put
unfolding next_pending_command lookup
put-next = refl

finish_pass_progress_example :
    pending_command_count desired.commands (closed_of (lookup (codes "i") finished.0.observed))
    < pending_command_count desired.commands (closed_of (lookup (codes "i") owned.observed))
finish_pass_progress_example =
    finish_pass_progress 3 owned (codes "i") desired put event finished.0 finished.1 put-next
      (omega arith) (omega arith) refl finished.2

ingested_once :
    (o : Orchestrator Text) × (r : Report) × (ingest_observed_event 3 owned event
      ≡ (o, some (ok r)))
unfolding ingest_observed_event find_planned find_command ingest_new has last_seq lookup
    ingest_event_envelope_and_build_report through_event_frame through_report_frame
    build_report_from_observed encode_event_frame decode_event_frame validate_event
    encode_report_frame decode_report_frame validate_report Session.require trim_space same
    get_optional_u64 put_u64 u64_from_bytes encode_message decode_message validate
    check_requirements check_requirement get_field get_string encode_fields encode_field
    decode_fields decode_loop decode_field get_be put_be write_frame read_frame default_limits
    encode_header complete_header parse_header check_header decode_header check_lengths read_some
    read_full
ingested_once = (_, _, refl)

put-found :
    find_planned (trim_space event.command_id) owned.desired ≡ some (codes "i", desired, put)
unfolding find_planned find_command same trim_space
put-found = refl

ingest_observed_event_again_example :
    ((ingest_observed_event 9 ingested_once.0 event).1 ≡ some (ok ingested_once.1))
    × (lookup (codes "i") (ingest_observed_event 9 ingested_once.0 event).0.observed
        ≡ lookup (codes "i") ingested_once.0.observed)
unfolding lookup has
ingest_observed_event_again_example =
    ingest_observed_event_again 3 9 owned ingested_once.0 event (codes "i") desired put
      ingested_once.1 (omega arith) (omega arith) put-found refl ingested_once.2
