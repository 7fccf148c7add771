-- ===== src/Session/Command/RoundTrip.antt =====
-- Commands sent and received.
use edgectl.Prelude.{
  ℕ, ◌^◌, ◌<◌, ◌≡◌, refl, [], ◌∷◌, ◌++◌, All, Text, ok, arith, >>=-eq-ok, lookup, text_eq,
}
use edgectl.Tlv.{get_field}
use edgectl.Frame.{Frame, read_frame, default_limits}
use edgectl.Schema.{msg_command}
use edgectl.Session.{get_string}
use edgectl.Session.Message.{encode_message-Received}
use edgectl.Session.Command.{
  Args, Json, Command, validate_command, command_fields, encode_command_frame, decode_args,
  decode_command_frame,
}

-- The same command, with arguments that may stand in another order.
pub record SameCommand (c d : Command) : Type 0 where
  pub command_id : c.command_id ≡ d.command_id
  pub intent_id : c.intent_id ≡ d.intent_id
  pub ghost_id : c.ghost_id ≡ d.ghost_id
  pub seed_selector : c.seed_selector ≡ d.seed_selector
  pub operation : c.operation ≡ d.operation
  pub args : (k : Text) → lookup k c.args ≡ lookup k d.args

module _ (json : Json) where
  command_fields-ids :
      (c : Command) (m : Args)
      → All (λ f. f.id < 2 ^ 16) (command_fields json (record c { args = m }))
  command_fields-ids c [] = omega arith
  command_fields-ids c (a ∷ m) = omega arith

  args-command_fields :
      (c : Command) (m : Args)
      → json.IsUtf8 m
      → (n : Args) × (decode_args json (command_fields json (record c { args = m })) ≡ ok n)
        × ((k : Text) → lookup k n ≡ lookup k m)
  unfolding decode_args get_field
  args-command_fields c [] u = ([], refl, λ k. refl)
  args-command_fields c (a ∷ m) u =
      let (n, read, agree) = json.unmarshal-marshal (a ∷ m) u in (n, rw read, agree)

  -- A command that was encoded is read as one frame of that message id, with the bytes behind it
  -- left, and is decoded to the same command, if JSON represents its arguments.
  -- The message id fits 64 bits.
  pub decode_command_frame-encode_command_frame :
      (mid : ℕ) (c : Command) (out rest : Text)
      → mid < 2 ^ 64
      → json.IsUtf8 c.args
      → encode_command_frame json mid c ≡ ok out
      → (f : Frame) × (d : Command) × (read_frame default_limits (out ++ rest) ≡ ok (f, rest))
        × (f.header.message_id ≡ mid)
        × (f.header.message_type ≡ msg_command)
        × (decode_command_frame json f ≡ ok d)
        × SameCommand d c
  unfolding encode_command_frame decode_command_frame
  decode_command_frame-encode_command_frame mid c out rest hm u sent =
      let (_, _, framed) = >>=-eq-ok (validate_command c) _ sent in
      let r =
        encode_message-Received mid msg_command 0 (command_fields json c) out rest hm (omega arith)
          (omega arith) (command_fields-ids c c.args) framed in
      let (n, read, agree) = args-command_fields c c.args u in
      (
        r.frame,
        record c { args = n },
        r.was_read,
        r.id_kept,
        r.type_kept,
        rw (r.decoded, read) (unfold get_string get_field in refl),
        record {
          command_id = refl;
          intent_id = refl;
          ghost_id = refl;
          seed_selector = refl;
          operation = refl;
          args = agree;
        },
      )
