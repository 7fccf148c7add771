-- ===== src/Session/Ack/RoundTrip.antt =====
-- Acknowledgements sent and received.
use edgectl.Prelude.{
  ℕ, ◌^◌, ◌<◌, ◌≡◌, refl, ◌++◌, Text, ok, arith, >>=-eq-ok, get_be-put_be, length-put_be,
}
use edgectl.Tlv.{get_field, u32_from_bytes}
use edgectl.Frame.{Frame, read_frame, default_limits, flag_is_response}
use edgectl.Schema.{msg_event_ack, field_timestamp_ms, field_ack_code}
use edgectl.Session.{
  get_string, get_optional_u32, get_required_u64, u64_from_bytes, put_u64, put_u32,
}
use edgectl.Session.Message.{encode_message-Received}
use edgectl.Session.Ack.{
  EventAck, validate_ack, ack_fields, encode_event_ack_frame, decode_event_ack_frame,
}

code-ack_fields :
    (a : EventAck)
    → a.ack_code < 2 ^ 32
    → get_optional_u32 (ack_fields a) field_ack_code ≡ ok a.ack_code
unfolding get_optional_u32 get_field u32_from_bytes put_u32
code-ack_fields a h = ground (arith, get_be-put_be 4 a.ack_code, length-put_be 4 a.ack_code)

timestamp-ack_fields :
    (a : EventAck)
    → a.timestamp_ms < 2 ^ 64
    → get_required_u64 (ack_fields a) field_timestamp_ms ≡ a.timestamp_ms
unfolding get_required_u64 get_string get_field u64_from_bytes put_u64
timestamp-ack_fields a h =
    ground (arith, get_be-put_be 8 a.timestamp_ms, length-put_be 8 a.timestamp_ms)

-- An acknowledgement that was encoded is read as one frame of that message id, with the bytes
-- behind it left, and is decoded to the same acknowledgement.
-- The message id and the timestamp fit 64 bits, the code 32.
pub decode_event_ack_frame-encode_event_ack_frame :
    (mid : ℕ) (a : EventAck) (out rest : Text)
    → mid < 2 ^ 64
    → a.timestamp_ms < 2 ^ 64
    → a.ack_code < 2 ^ 32
    → encode_event_ack_frame mid a ≡ ok out
    → (f : Frame) × (read_frame default_limits (out ++ rest) ≡ ok (f, rest))
      × (f.header.message_id ≡ mid)
      × (f.header.message_type ≡ msg_event_ack)
      × (decode_event_ack_frame f ≡ ok a)
unfolding encode_event_ack_frame decode_event_ack_frame
decode_event_ack_frame-encode_event_ack_frame mid a out rest hm ht hc sent =
    let (_, _, framed) = >>=-eq-ok (validate_ack a) _ sent in
    let r =
      encode_message-Received mid msg_event_ack flag_is_response (ack_fields a) out rest hm
        (omega arith) (omega arith) (omega arith) framed in
    (
      r.frame,
      r.was_read,
      r.id_kept,
      r.type_kept,
      rw (r.decoded, code-ack_fields a hc, timestamp-ack_fields a ht)
          (unfold get_string get_field in refl),
    )
