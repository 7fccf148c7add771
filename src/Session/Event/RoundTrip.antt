-- ===== src/Session/Event/RoundTrip.antt =====
-- Events sent and received.
use edgectl.Prelude.{
  ℕ, ◌^◌, ◌<◌, ◌≡◌, refl, ◌≤◌, ◌*◌, ◌++◌, All, Text, ok, arith, >>=-eq-ok, get_be-put_be, length,
  length-put_be,
}
use edgectl.Tlv.{get_field, encode_fields}
use edgectl.Frame.{Frame, read_frame, default_limits}
use edgectl.Schema.{msg_event, field_timestamp_ms, validate, check_requirements, check_requirement}
use edgectl.Session.{get_string, get_optional_u64, u64_from_bytes, put_u64}
use edgectl.Session.Message.{encode_message-Received, encode_message_succeeds}
use edgectl.Session.Event.{
  Event, validate_event, event_fields, encode_event_frame, decode_event_frame,
}

timestamp-event_fields :
    (e : Event)
    → e.timestamp_ms < 2 ^ 64
    → get_optional_u64 (event_fields e) field_timestamp_ms ≡ ok e.timestamp_ms
unfolding get_optional_u64 get_field u64_from_bytes put_u64
timestamp-event_fields e h =
    ground (arith, get_be-put_be 8 e.timestamp_ms, length-put_be 8 e.timestamp_ms)

event_fields-ids : (e : Event) → All (λ f. f.id < 2 ^ 16) (event_fields e)
event_fields-ids e = ground arith

-- An event that was encoded is read as one frame of that message id, with the bytes behind it
-- left, and is decoded to the same event.
-- The message id and the timestamp fit 64 bits.
pub decode_event_frame-encode_event_frame :
    (mid : ℕ) (e : Event) (out rest : Text)
    → mid < 2 ^ 64
    → e.timestamp_ms < 2 ^ 64
    → encode_event_frame mid e ≡ ok out
    → (f : Frame) × (read_frame default_limits (out ++ rest) ≡ ok (f, rest))
      × (f.header.message_id ≡ mid)
      × (f.header.message_type ≡ msg_event)
      × (decode_event_frame f ≡ ok e)
unfolding encode_event_frame decode_event_frame
decode_event_frame-encode_event_frame mid e out rest hm ht sent =
    let (_, _, framed) = >>=-eq-ok (validate_event e) _ sent in
    let r =
      encode_message-Received mid msg_event 0 (event_fields e) out rest hm (omega arith)
        (omega arith) (event_fields-ids e) framed in
    (
      r.frame,
      r.was_read,
      r.id_kept,
      r.type_kept,
      rw (r.decoded, timestamp-event_fields e ht) (unfold get_string get_field in refl),
    )

validate-event_fields : (e : Event) → validate msg_event (event_fields e) ≡ ok tt
unfolding validate check_requirements check_requirement get_field
validate-event_fields e = refl

-- A valid event whose payload has at most 8 MiB is encoded: the schema never refuses it.
pub encode_event_frame_succeeds :
    (mid : ℕ) (e : Event)
    → validate_event e ≡ ok tt
    → length (encode_fields (event_fields e)) ≤ 8 * 1024 * 1024
    → (out : Text) × (encode_event_frame mid e ≡ ok out)
unfolding encode_event_frame
encode_event_frame_succeeds mid e valid small = rw valid (
    encode_message_succeeds mid msg_event 0 (event_fields e) (validate-event_fields e) (omega arith)
      small)
