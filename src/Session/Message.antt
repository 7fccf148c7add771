-- ===== src/Session/Message.antt =====
-- A message that an encoder framed is read and decoded to the fields that were encoded.
use edgectl.Prelude.{
  ℕ, ◌*◌, ◌^◌, ◌≤◌, ◌<◌, ◌≡◌, refl, List, [], ◌∷◌, ◌++◌, length, All, Text, ok, arith,
  length-append, >>=-eq-ok, map_err, map_err-eq-ok,
}
use edgectl.Tlv.{Field, IsWire, encode_fields, encode_field}
use edgectl.Tlv.RoundTrip.{decode_fields-encode_fields, length-encode_field}
use edgectl.Frame.{Frame, default_limits, read_frame, write_frame, complete_header, encode_header}
use edgectl.Frame.RoundTrip.{read_frame-write_frame, write_frame-Written}
use edgectl.Schema.{validate}
use edgectl.Session.{schema_error, frame_error, encode_message, decode_message, outgoing}

-- In a payload that fits a frame, each value fits its length word.
fields-IsWire :
    (fs : List Field)
    → All (λ f. f.id < 2 ^ 16) fs
    → length (encode_fields fs) < 2 ^ 32
    → All IsWire fs
unfolding encode_fields
fields-IsWire [] ids fits = tt
fields-IsWire (f ∷ fs) ids fits =
    let whole = length-append (encode_field f) (encode_fields fs) in
    let own = length-encode_field f in
    (record { id_fits = ids.0; length_fits = omega arith }, fields-IsWire fs ids.1 (omega arith))

-- What the reader makes of an encoded message.
pub record Received (mid mt : ℕ) (fields : List Field) (out rest : Text) : Type 0 where
  pub frame : Frame
  pub was_read : read_frame default_limits (out ++ rest) ≡ ok (frame, rest)
  pub id_kept : frame.header.message_id ≡ mid
  pub type_kept : frame.header.message_type ≡ mt
  pub decoded : decode_message mt frame ≡ ok fields

complete_header-kept :
    (f : Frame)
    → ((complete_header f).message_id ≡ f.header.message_id)
      × ((complete_header f).message_type ≡ f.header.message_type)
unfolding complete_header
complete_header-kept f = (refl, refl)

default_payload : default_limits.max_payload_bytes ≡ 8388608
unfolding default_limits
default_payload = refl

-- What was framed is read back as one frame, with the bytes behind it left, and decodes to the
-- fields that were framed.
pub encode_message-Received :
    (mid mt flags : ℕ) (fields : List Field) (out rest : Text)
    → mid < 2 ^ 64
    → mt < 2 ^ 32
    → flags < 2 ^ 32
    → All (λ f. f.id < 2 ^ 16) fields
    → encode_message mid mt flags fields ≡ ok out
    → Received mid mt fields out rest
unfolding encode_message
encode_message-Received mid mt flags fields out rest hi ht hf ids e =
    let (_, accepted, e') = >>=-eq-ok (map_err schema_error (validate mt fields)) _ e in
    let f = outgoing mid mt flags fields in
    let written = map_err-eq-ok frame_error (write_frame default_limits f) e' in
    let fits = (write_frame-Written default_limits f out written).payload_fits in
    let small : length (encode_fields fields) < 2 ^ 32 = omega (arith, default_payload) in
    record {
      frame = record f { header = complete_header f };
      was_read =
          read_frame-write_frame default_limits f out rest (omega arith)
            (omega (arith, default_payload)) (omega arith) written;
      id_kept = (complete_header-kept f).0;
      type_kept = (complete_header-kept f).1;
      decoded =
          unfold decode_message in
          rw (decode_fields-encode_fields fields (fields-IsWire fields ids small) small)
            (rw accepted);
    }

-- A valid payload of at most 8 MiB is framed.
pub encode_message_succeeds :
    (mid mt flags : ℕ) (fields : List Field)
    → validate mt fields ≡ ok tt
    → flags < 8
    → length (encode_fields fields) ≤ 8 * 1024 * 1024
    → (out : Text) × (encode_message mid mt flags fields ≡ ok out)
unfolding encode_message write_frame default_limits
encode_message_succeeds mid mt flags fields accepted known small = (
  encode_header (complete_header (outgoing mid mt flags fields)) ++ encode_fields fields,
  rw accepted (ground arith),
)
