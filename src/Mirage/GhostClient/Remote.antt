-- ===== src/Mirage/GhostClient/Remote.antt =====
-- Mirage's executor joined to a Ghost's admin endpoint: one command over both, and back.
use edgectl.Prelude.{ℕ, Text, codes, Result, ok, ◌>>◌, map_err}
use edgectl.Frame.{Frame}
use edgectl.Session.Command.{Json, Command}
use edgectl.Session.Event.{Event, encode_event_frame}
use edgectl.Ghost.Server.{Server}
use edgectl.Ghost.Admin.{Admin}
use edgectl.Ghost.Admin.Envelope.{EnvelopeError, wire_error, execute_admin_command_envelope}
use edgectl.Mirage.GhostClient.{ClientError, control_failed}

-- An event's frame, as the client reads it.
unfoldable pub received : (EnvelopeError → ClientError) → ℕ → Event → Result ClientError Event
received explain mid e = map_err (λ x. explain (wire_error x)) (encode_event_frame mid e) >> ok e

abbrev pub refused_for : (EnvelopeError → Text) → EnvelopeError → ClientError
refused_for explain e = control_failed (codes "execute_envelope") (explain e)

module _ {S : Type 0} (json : Json) (now : ℕ) (explain : EnvelopeError → Text) where
  -- The Ghost's handler as the call that posts a frame: the lines of JSON in between bring frames over
  -- as they are, and `explain` is the text of an error.
  unfoldable pub post_direct : Text → Admin S × S → (Admin S × S) × Result ClientError Text
  post_direct bytes (a, w) =
      let (a', w', r) = execute_admin_command_envelope json now a w bytes in
      ((a', w'), map_err (refused_for explain) r)
