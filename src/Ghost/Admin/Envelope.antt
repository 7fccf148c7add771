-- ===== src/Ghost/Admin/Envelope.antt =====
-- admin_control.go, executeAdminCommandEnvelope: a command frame in, an event frame out.
use edgectl.Prelude.{ℕ, if◌then◌else◌, Text, is_empty, trim_space, Result, ok, err, ◌>>=◌, map_err}
use edgectl.Frame.{Frame, read_frame, default_limits}
use edgectl.Session.{SessionError, frame_error}
use edgectl.Session.Command.{Json, Command, decode_command_frame}
use edgectl.Session.Event.{Event, encode_event_frame}
use edgectl.Ghost.Envelopes.{EventEnv}
use edgectl.Ghost.Admin.{Admin, AdminCommand, AdminError, execute_admin_command}

pub data EnvelopeError : Type 0 where
  missing_command_frame : EnvelopeError
  wire_error : SessionError → EnvelopeError
  admin_error : AdminError → EnvelopeError

unfoldable pub admin_of : Command → AdminCommand
admin_of c = record {
  command_id = trim_space c.command_id;
  intent_id = trim_space c.intent_id;
  seed_selector = trim_space c.seed_selector;
  operation = trim_space c.operation;
  args = c.args;
}

unfoldable pub wire_event : EventEnv → Event
wire_event e = record {
  event_id = e.event_id;
  command_id = e.command_id;
  intent_id = e.intent_id;
  ghost_id = e.ghost_id;
  seed_id = e.seed_id;
  outcome = e.outcome;
  timestamp_ms = e.timestamp_ms;
}

-- `frame.ReadFrame(bytes.NewReader(…))` and the decoder; what stands behind the frame is ignored.
unfoldable pub open_command : Json → Text → Result SessionError (Frame × Command)
open_command json bytes = do
  (f, rest) ← map_err frame_error (read_frame default_limits bytes)
  c ← decode_command_frame json f
  ok (f, c)

module _ {S : Type 0} (json : Json) where
  unfoldable pub execute_opened :
      ℕ → Admin S → S → Frame × Command → Admin S × S × Result EnvelopeError Text
  execute_opened now a w (f, c) =
      let (a', w', r) = execute_admin_command now a w (admin_of c) in
      elim r [
        | err e ↦ (a', w', err (admin_error e))
        | ok (state, event) ↦
            (a', w', map_err wire_error (encode_event_frame f.header.message_id (wire_event event)))
      ]

  unfoldable pub execute_admin_command_envelope :
      ℕ → Admin S → S → Text → Admin S × S × Result EnvelopeError Text
  execute_admin_command_envelope now a w bytes =
      if is_empty bytes then (a, w, err missing_command_frame) else elim (open_command json bytes) [
        | err e ↦ (a, w, err (wire_error e))
        | ok opened ↦ execute_opened now a w opened
      ]
