-- ===== src/Session/Ack.antt =====
-- eventwire.go: the acknowledgement that Mirage sends for an event.
pub mod RoundTrip
use edgectl.Prelude.{ℕ, List, [], ◌∷◌, Text, Result, ok, err, ◌>>=◌, ◌>>◌}
use edgectl.Tlv.{Field, type_u32, type_u64}
use edgectl.Frame.{Frame, flag_is_response}
use edgectl.Schema.{
  msg_event_ack, field_event_id, field_command_id, field_ghost_id, field_ack_status, field_ack_code,
  field_timestamp_ms,
}
use edgectl.Session.{
  SessionError, require, require_nonzero, string_field, put_u32, put_u64, get_string,
  get_required_u64, get_optional_u32, encode_message, decode_message,
}

pub record EventAck : Type 0 where
  pub event_id : Text
  pub command_id : Text
  pub ghost_id : Text
  pub ack_status : Text
  pub ack_code : ℕ
  pub timestamp_ms : ℕ

unfoldable pub validate_ack : EventAck → Result SessionError (Unit {0})
validate_ack a = do
  require "event_id" a.event_id
  require "command_id" a.command_id
  require "ghost_id" a.ghost_id
  require "ack_status" a.ack_status
  require_nonzero "timestamp_ms" a.timestamp_ms

abbrev pub ack_fields : EventAck → List Field
ack_fields a =
    string_field field_event_id a.event_id
    ∷ string_field field_command_id a.command_id
    ∷ string_field field_ghost_id a.ghost_id
    ∷ string_field field_ack_status a.ack_status
    ∷ record { id = field_ack_code; typ = type_u32; value = put_u32 a.ack_code }
    ∷ record { id = field_timestamp_ms; typ = type_u64; value = put_u64 a.timestamp_ms }
    ∷ []

unfoldable pub encode_event_ack_frame : ℕ → EventAck → Result SessionError Text
encode_event_ack_frame message_id a = do
  validate_ack a
  encode_message message_id msg_event_ack flag_is_response (ack_fields a)

unfoldable pub decode_event_ack_frame : Frame → Result SessionError EventAck
decode_event_ack_frame f = do
  fields ← decode_message msg_event_ack f
  code ← get_optional_u32 fields field_ack_code
  ok (record {
    event_id = get_string fields field_event_id;
    command_id = get_string fields field_command_id;
    ghost_id = get_string fields field_ghost_id;
    ack_status = get_string fields field_ack_status;
    ack_code = code;
    timestamp_ms = get_required_u64 fields field_timestamp_ms;
  })
