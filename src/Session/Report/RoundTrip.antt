-- ===== src/Session/Report/RoundTrip.antt =====
-- Reports sent and received.
use edgectl.Prelude.{
  ℕ, ◌^◌, ◌<◌, ◌≡◌, refl, [], ◌∷◌, ◌++◌, All, Text, ok, arith, >>=-eq-ok, get_be-put_be,
  length-put_be, trim_space, is_empty, true,
}
use edgectl.Tlv.{get_field}
use edgectl.Frame.{Frame, read_frame, default_limits}
use edgectl.Schema.{
  msg_report, field_timestamp_ms, field_command_id, field_execution_id, field_event_id,
  field_outcome,
}
use edgectl.Session.{get_string, get_optional_u64, u64_from_bytes, put_u64}
use edgectl.Session.Message.{encode_message-Received}
use edgectl.Session.Report.{
  Report, validate_report, report_fields, encode_report_frame, decode_report_frame,
}

-- What the wire keeps of a report: the optional ids without the spaces around them.
abbrev pub wire_report : Report → Report
wire_report r = record r {
  command_id = trim_space r.command_id;
  execution_id = trim_space r.execution_id;
  event_id = trim_space r.event_id;
  outcome = trim_space r.outcome;
}

is_empty_eq : (t : Text) → is_empty t ≡ true → t ≡ []
is_empty_eq [] h = refl
is_empty_eq (x ∷ t) h = cc

module _ (r : Report) where
  timestamp-report_fields :
      r.timestamp_ms < 2 ^ 64
      → get_optional_u64 (report_fields r) field_timestamp_ms ≡ ok r.timestamp_ms
  unfolding get_optional_u64 get_field u64_from_bytes put_u64
  timestamp-report_fields h =
      ground (arith, get_be-put_be 8 r.timestamp_ms, length-put_be 8 r.timestamp_ms)

  report_fields-ids : All (λ f. f.id < 2 ^ 16) (report_fields r)
  report_fields-ids = ground arith

  command_id-report_fields : get_string (report_fields r) field_command_id ≡ trim_space r.command_id
  unfolding get_string get_field
  command_id-report_fields = ground (arith, is_empty_eq (trim_space r.command_id))

  execution_id-report_fields :
      get_string (report_fields r) field_execution_id ≡ trim_space r.execution_id
  unfolding get_string get_field
  execution_id-report_fields = ground (arith, is_empty_eq (trim_space r.execution_id))

  event_id-report_fields : get_string (report_fields r) field_event_id ≡ trim_space r.event_id
  unfolding get_string get_field
  event_id-report_fields = ground (arith, is_empty_eq (trim_space r.event_id))

  outcome-report_fields : get_string (report_fields r) field_outcome ≡ trim_space r.outcome
  unfolding get_string get_field
  outcome-report_fields = ground (arith, is_empty_eq (trim_space r.outcome))

-- A report that was encoded is read as one frame of that message id, with the bytes behind it
-- left, and is decoded to the same report but for the spaces around its four optional ids.
-- The message id and the timestamp fit 64 bits.
pub decode_report_frame-encode_report_frame :
    (mid : ℕ) (r : Report) (out rest : Text)
    → mid < 2 ^ 64
    → r.timestamp_ms < 2 ^ 64
    → encode_report_frame mid r ≡ ok out
    → (f : Frame) × (read_frame default_limits (out ++ rest) ≡ ok (f, rest))
      × (f.header.message_id ≡ mid)
      × (f.header.message_type ≡ msg_report)
      × (decode_report_frame f ≡ ok (wire_report r))
unfolding encode_report_frame decode_report_frame
decode_report_frame-encode_report_frame mid r out rest hm ht sent =
    let (_, _, framed) = >>=-eq-ok (validate_report r) _ sent in
    let m =
      encode_message-Received mid msg_report 0 (report_fields r) out rest hm (omega arith)
        (omega arith) (report_fields-ids r) framed in
    (
      m.frame,
      m.was_read,
      m.id_kept,
      m.type_kept,
      rw
          (
            m.decoded,
            timestamp-report_fields r ht,
            command_id-report_fields r,
            execution_id-report_fields r,
            event_id-report_fields r,
            outcome-report_fields r,
          )
          (unfold get_string get_field in refl),
    )
