-- ===== src/Mirage/Conn.antt =====
-- service.go, handleConn: one connection of a Ghost, from the bytes that it sends. `delivered` says which
-- writes the network carries; the clock is read once for each frame.
-- `persist_buildlog` is the one of Buildlog with its first arguments.
pub mod Buildlog
pub mod Runs
pub mod Closing
pub mod Exchange
mod Tests
use edgectl.Prelude.{
  ℕ, zero, suc, ◌+◌, List, [], ◌∷◌, ◌++◌, Bool, true, false, not, ◌==◌, if◌then◌else◌, Text, same,
  Option, none, some, Result, ok, err, length,
}
use edgectl.Frame.{Frame, read_frame, default_limits}
use edgectl.Schema.{msg_event}
use edgectl.Session.Control.{
  RegistrationAck, EnvelopeJson, write_registration_ack, ack_status_accepted,
}
use edgectl.Session.Event.{Event, decode_event_frame}
use edgectl.Session.Ack.{EventAck, encode_event_ack_frame}
use edgectl.Session.Report.{Report}
use edgectl.Mirage.Issue.{MirageError}
use edgectl.Mirage.Server.{Server, accept_event, mark_ghost_disconnected}
use edgectl.Mirage.Server.Boundary.{observe_event}
use edgectl.Mirage.Server.Discovery.{Net}
use edgectl.Mirage.Handshake.{PeerAuth, AuthError, handle_registration}

unfoldable pub persist_matched :
    {W : Type 0} → (Report → W → W) → Option (Result MirageError Report) → W → W
persist_matched persist (some (ok report)) w = persist report w
persist_matched persist (some (err _)) w = w
persist_matched persist none w = w

module _ {X W : Type 0} (persist_buildlog : Report → W → W) where
  -- An event that was decoded: it is observed, and then accepted.
  unfoldable pub take_event : ℕ → Text → Server X W → W → Event → Server X W × W × EventAck
  take_event now ghost_id s w event =
      let (s', seen) = observe_event now s event in
      let (s'', ack) = accept_event now s' ghost_id event in
      (s'', persist_matched persist_buildlog seen w, ack)

  -- One turn of the loop; no bytes mean that the connection is closed.
  unfoldable pub handle_frame : ℕ → Text → Server X W → W → Frame → Server X W × W × Option Text
  handle_frame now ghost_id s w f =
      if not (f.header.message_type == msg_event)
      then (s, w, none)
      else elim (decode_event_frame f) [
        | err _ ↦ (s, w, none)
        | ok event ↦
            let (s', w', ack) = take_event now ghost_id s w event in
            elim (encode_event_ack_frame f.header.message_id ack) [
              | err _ ↦ (s', w', none)
              | ok out ↦ (s', w', some out)
            ]
      ]

  module _ (clock : ℕ → ℕ) (delivered : ℕ → Bool) (ghost_id : Text) where
    -- The loop from the n-th frame on, with the acknowledgements that it writes.
    unfoldable pub serve : ℕ → ℕ → Server X W → W → Text → Server X W × W × List Text
    serve zero n s w input = (s, w, [])
    serve (suc fuel) n s w input = elim (read_frame default_limits input) [
      | err _ ↦ (s, w, [])
      | ok (f, rest) ↦
          let (s', w', answer) = handle_frame (clock n) ghost_id s w f in
          elim answer [
            | none ↦ (s', w', [])
            | some out ↦ elim (delivered n) [
              | false ↦ (s', w', [])
              | true ↦
                  let (s'', w'', more) = serve fuel (suc n) s' w' rest in (s'', w'', out ∷ more)
            ]
          ]
    ]

  module _ (json : EnvelopeJson) (net : Net) (binding : Bool) (clock : ℕ → ℕ)
      (delivered : ℕ → Bool) where
    -- The connection after its registration was read: write 0 is the acknowledgement.
    unfoldable pub serve_registered :
        Server X W → W → Text → Text → RegistrationAck → Server X W × W × List Text
    serve_registered s w ghost_id input ack = elim (write_registration_ack json ack) [
      | err _ ↦ (s, w, [])
      | ok out ↦ elim (delivered 0) [
        | false ↦ (s, w, [])
        | true ↦
            if not (same ack.status ack_status_accepted)
            then (s, w, out ∷ [])
            else (let (s', w', more) = serve clock delivered ghost_id (length input) 1 s w input in
                (mark_ghost_disconnected s' ghost_id, w', out ∷ more))
      ]
    ]

    -- What is left of the server and what was written, at the end of the connection.
    unfoldable pub handle_conn :
        Server X W → W → Text → Result AuthError PeerAuth → Text → Server X W × W × List Text
    handle_conn s w remote_addr (err _) input = (s, w, [])
    handle_conn s w remote_addr (ok auth) input =
        let (s', (reg, rest), ack) =
          handle_registration json net binding (clock 0) s remote_addr auth input in
        serve_registered s' w reg.ghost_id rest ack
