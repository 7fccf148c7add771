-- ===== src/Session/Report.antt =====
-- command_report_wire.go: the report that Mirage sends to the user boundary.
pub mod RoundTrip
use edgectl.Prelude.{
  ℕ, List, [], ◌∷◌, ◌++◌, ◌==◌, if◌then◌else◌, Text, is_empty, trim_space, Result, ok, err, ◌>>=◌,
  ◌>>◌,
}
use edgectl.Tlv.{Field, type_u64}
use edgectl.Frame.{Frame}
use edgectl.Schema.{
  msg_report, field_event_id, field_command_id, field_intent_id, field_phase, field_summary,
  field_completion_state, field_execution_id, field_outcome, field_timestamp_ms,
}
use edgectl.Session.{
  SessionError, require, string_field, put_u64, get_string, get_optional_u64, encode_message,
  decode_message,
}

pub record Report : Type 0 where
  pub intent_id : Text
  pub phase : Text
  pub summary : Text
  pub completion_state : Text
  pub command_id : Text
  pub execution_id : Text
  pub event_id : Text
  pub outcome : Text
  pub timestamp_ms : ℕ

unfoldable pub validate_report : Report → Result SessionError (Unit {0})
validate_report r = do
  require "intent_id" r.intent_id
  require "phase" r.phase
  require "summary" r.summary
  require "completion_state" r.completion_state

-- `if v := strings.TrimSpace(…); v != "" { fields = append(fields, …) }`
abbrev pub optional_field : ℕ → Text → List Field
optional_field id v = if is_empty (trim_space v) then [] else string_field id (trim_space v) ∷ []

abbrev pub report_fields : Report → List Field
report_fields r =
    string_field field_intent_id r.intent_id
    ∷ string_field field_phase r.phase
    ∷ string_field field_summary r.summary
    ∷ string_field field_completion_state r.completion_state
    ∷ (optional_field field_command_id r.command_id
        ++ (optional_field field_execution_id r.execution_id
            ++ (optional_field field_event_id r.event_id
                ++ (optional_field field_outcome r.outcome
                    ++ (if r.timestamp_ms == 0
                        then []
                        else record {
                          id = field_timestamp_ms;
                          typ = type_u64;
                          value = put_u64 r.timestamp_ms;
                        }
                          ∷ [])))))

unfoldable pub encode_report_frame : ℕ → Report → Result SessionError Text
encode_report_frame message_id r = do
  validate_report r
  encode_message message_id msg_report 0 (report_fields r)

unfoldable pub decode_report_frame : Frame → Result SessionError Report
decode_report_frame f = do
  fields ← decode_message msg_report f
  timestamp ← get_optional_u64 fields field_timestamp_ms
  ok (record {
    intent_id = get_string fields field_intent_id;
    phase = get_string fields field_phase;
    summary = get_string fields field_summary;
    completion_state = get_string fields field_completion_state;
    command_id = get_string fields field_command_id;
    execution_id = get_string fields field_execution_id;
    event_id = get_string fields field_event_id;
    outcome = get_string fields field_outcome;
    timestamp_ms = timestamp;
  })
