-- ===== src/Session.antt =====
-- internal/protocol/session: the messages that Ghost and Mirage exchange, as framed TLV payloads.
-- This file has what the encoders and decoders of eventwire.go and command_report_wire.go share.
pub mod Message
pub mod Event
pub mod Ack
pub mod Command
pub mod Report
pub mod Outbox
pub mod Control
pub mod Transport
pub mod Config
mod Tests
use edgectl.Prelude.{
  ℕ, List, [], ◌∷◌, ◌++◌, length, ◌==◌, if◌then◌else◌, Option, none, some, Text, is_empty,
  trim_space, Result, ok, err, ◌>>=◌, ◌>>◌, map_err, put_be, get_be,
}
use Prim.Native.String.{String}
use edgectl.Tlv.{
  Field, TlvError, encode_fields, decode_fields, get_field, u32_from_bytes, type_string, type_u32,
  type_u64,
}
use edgectl.Frame.{Frame, FrameError, write_frame, default_limits}
use edgectl.Schema.{ValidationError, validate}

-- `missing` carries the name of the field that a `Validate` method found blank or zero.
pub data SessionError : Type 0 where
  missing : String → SessionError
  schema_error : ValidationError → SessionError
  tlv_error : TlvError → SessionError
  frame_error : FrameError → SessionError
  invalid_u64_length : ℕ → SessionError
  bad_json : SessionError

-- `if strings.TrimSpace(v) == "" { return fmt.Errorf("… missing …") }`
unfoldable pub require : String → Text → Result SessionError (Unit {0})
require name v = if is_empty (trim_space v) then err (missing name) else ok tt

unfoldable pub require_nonzero : String → ℕ → Result SessionError (Unit {0})
require_nonzero name n = if n == 0 then err (missing name) else ok tt

abbrev pub string_field : ℕ → Text → Field
string_field id v = record { id = id; typ = type_string; value = v }

unfoldable pub u64_from_bytes : Text → Result SessionError ℕ
u64_from_bytes b = if length b == 8 then ok (get_be b) else err (invalid_u64_length (length b))

unfoldable pub put_u32 : ℕ → Text
put_u32 v = put_be 4 v

unfoldable pub put_u64 : ℕ → Text
put_u64 v = put_be 8 v

-- A field that is missing has the empty value.
unfoldable pub get_string : List Field → ℕ → Text
get_string fields id = elim (get_field fields id) [ none ↦ [] | some f ↦ f.value ]

-- An error of `u64FromBytes` is dropped, and leaves 0.
unfoldable pub get_required_u64 : List Field → ℕ → ℕ
get_required_u64 fields id = elim (u64_from_bytes (get_string fields id)) [ ok v ↦ v | err _ ↦ 0 ]

-- `if tsField, ok := tlv.GetField(…); ok { … }`, where a missing field leaves 0.
unfoldable pub get_optional_u64 : List Field → ℕ → Result SessionError ℕ
get_optional_u64 fields id = elim (get_field fields id) [
  | none ↦ ok 0
  | some f ↦ u64_from_bytes f.value
]

unfoldable pub get_optional_u32 : List Field → ℕ → Result SessionError ℕ
get_optional_u32 fields id = elim (get_field fields id) [
  | none ↦ ok 0
  | some f ↦ map_err tlv_error (u32_from_bytes f.value)
]

-- The `frame.Frame` literal of every encoder.
abbrev pub outgoing : ℕ → ℕ → ℕ → List Field → Frame
outgoing message_id message_type flags fields = record {
  header = record {
    magic = 0;
    version = 0;
    header_len = 0;
    message_id = message_id;
    message_type = message_type;
    flags = flags;
    payload_len = 0;
  };
  auth = [];
  payload = encode_fields fields;
}

-- `schema.Validate`, `tlv.EncodeFields` and `frame.WriteFrame` into a buffer: the end of every
-- encoder.
unfoldable pub encode_message : ℕ → ℕ → ℕ → List Field → Result SessionError Text
encode_message message_id message_type flags fields = do
  map_err schema_error (validate message_type fields)
  map_err frame_error (write_frame default_limits (outgoing message_id message_type flags fields))

-- `tlv.DecodeFields` and `schema.Validate`: the beginning of every decoder.
unfoldable pub decode_message : ℕ → Frame → Result SessionError (List Field)
decode_message message_type f = do
  fields ← map_err tlv_error (decode_fields f.payload)
  map_err schema_error (validate message_type fields)
  ok fields
