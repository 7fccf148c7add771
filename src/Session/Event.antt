-- ===== src/Session/Event.antt =====
-- eventwire.go: the event that a Ghost sends to Mirage.
pub mod RoundTrip
use edgectl.Prelude.{
  ℕ, List, [], ◌∷◌, ◌++◌, ◌==◌, if◌then◌else◌, Text, Result, ok, err, ◌>>=◌, ◌>>◌,
}
use edgectl.Tlv.{Field, type_u64}
use edgectl.Frame.{Frame}
use edgectl.Schema.{
  msg_event, field_event_id, field_command_id, field_intent_id, field_ghost_id, field_seed_id,
  field_outcome, field_timestamp_ms,
}
use edgectl.Session.{
  SessionError, require, string_field, put_u64, get_string, get_optional_u64, encode_message,
  decode_message,
}

pub record Event : Type 0 where
  pub event_id : Text
  pub command_id : Text
  pub intent_id : Text
  pub ghost_id : Text
  pub seed_id : Text
  pub outcome : Text
  pub timestamp_ms : ℕ

unfoldable pub validate_event : Event → Result SessionError (Unit {0})
validate_event e = do
  require "event_id" e.event_id
  require "command_id" e.command_id
  require "intent_id" e.intent_id
  require "ghost_id" e.ghost_id
  require "seed_id" e.seed_id
  require "outcome" e.outcome

abbrev pub event_fields : Event → List Field
event_fields e =
    string_field field_event_id e.event_id
    ∷ string_field field_command_id e.command_id
    ∷ string_field field_intent_id e.intent_id
    ∷ string_field field_ghost_id e.ghost_id
    ∷ string_field field_seed_id e.seed_id
    ∷ string_field field_outcome e.outcome
    ∷ (if e.timestamp_ms == 0
        then []
        else record { id = field_timestamp_ms; typ = type_u64; value = put_u64 e.timestamp_ms }
          ∷ [])

unfoldable pub encode_event_frame : ℕ → Event → Result SessionError Text
encode_event_frame message_id e = do
  validate_event e
  encode_message message_id msg_event 0 (event_fields e)

unfoldable pub decode_event_frame : Frame → Result SessionError Event
decode_event_frame f = do
  fields ← decode_message msg_event f
  timestamp ← get_optional_u64 fields field_timestamp_ms
  ok (record {
    event_id = get_string fields field_event_id;
    command_id = get_string fields field_command_id;
    intent_id = get_string fields field_intent_id;
    ghost_id = get_string fields field_ghost_id;
    seed_id = get_string fields field_seed_id;
    outcome = get_string fields field_outcome;
    timestamp_ms = timestamp;
  })
