-- ===== src/Ghost/MirageClient/Answers.antt =====
-- Whether Mirage answers an attempt to deliver an event: read off the bytes on the connection.
use edgectl.Prelude.{
  ◌+◌, ◌%◌, ◌^◌, ◌++◌, sym, same, same_iff, ok, ◌≡◌, ap, ◌∙◌, Text, err, Result-cases, Bool-cases,
  inl, inr, arith,
}
use edgectl.Frame.{Frame, read_frame, default_limits}
use edgectl.Session.Event.{Event, encode_event_frame}
use edgectl.Session.Ack.{EventAck, decode_event_ack_frame}
use edgectl.Ghost.MirageClient.{
  Wire, MirageSession, ClientError, read_ack, receive, send_event_once,
}

module _ {W : Type 0} (wire : Wire W) (event : Event) where
  -- The bytes that arrive when the event is sent begin, behind those that the reader has, with a frame
  -- that is an acknowledgement of this event.
  pub record Acked (v : W) (t : MirageSession) (ack : EventAck) : Type 0 where
    pub bytes : Text
    pub input : Text
    pub frame : Frame
    pub rest : Text
    pub sent : encode_event_frame ((t.next_message_id + 1) % 2 ^ 64) event ≡ ok bytes
    pub arrived : (wire.exchange bytes v).1 ≡ ok input
    pub was_read : read_frame default_limits (t.reader ++ input) ≡ ok (frame, rest)
    pub decoded : decode_event_ack_frame frame ≡ ok ack
    pub own : ack.event_id ≡ event.event_id

  read_ack-ok :
      (left_over : Text → Text) (input : Text) (ack : EventAck)
      → (read_ack left_over event input).1 ≡ ok ack
      → (f : Frame) × (rest : Text) × (read_frame default_limits input ≡ ok (f, rest))
        × (decode_event_ack_frame f ≡ ok ack)
        × (ack.event_id ≡ event.event_id)
  unfolding read_ack
  read_ack-ok left_over input ack h = elim (Result-cases (read_frame default_limits input)) [
    | inr (e, bad) ↦ absurd (ground (arith, h, bad))
    | inl ((f, rest), good) ↦ elim (Result-cases (decode_event_ack_frame f)) [
      | inr (e, bad) ↦ absurd (ground (arith, h, good, bad))
      | inl (found, decoded) ↦ elim (Bool-cases (same found.event_id event.event_id)) [
        | inr other ↦ absurd (ground (arith, h, good, decoded, other))
        | inl own ↦
            let is_ack : found ≡ ack = ground (arith, h, good, decoded, own) in
            (
              f,
              rest,
              good,
              decoded ∙ ap ok is_ack,
              ap (λ a. a.event_id) (sym is_ack) ∙ (same_iff found.event_id event.event_id).0 own,
            )
      ]
    ]
  ]

  pub send_event_once-Acked :
      (v : W) (t : MirageSession) (ack : EventAck)
      → (send_event_once wire v t event).2 ≡ ok ack
      → Acked v t ack
  unfolding send_event_once receive
  send_event_once-Acked v t ack h =
      let id = (t.next_message_id + 1) % 2 ^ 64 in
      elim (Result-cases (encode_event_frame id event)) [
        | inr (e, bad) ↦ absurd (ground (arith, h, bad))
        | inl (bytes, sent) ↦ elim (Result-cases (wire.exchange bytes v).1) [
          | inr (e, bad) ↦ absurd (ground (arith, h, sent, bad))
          | inl (input, arrived) ↦
              let h' : (read_ack wire.left_over event (t.reader ++ input)).1 ≡ ok ack =
                ground (arith, h, sent, arrived) in
              let (f, rest, was_read, decoded, own) =
                read_ack-ok wire.left_over (t.reader ++ input) ack h' in
              record {
                bytes = bytes;
                input = input;
                frame = f;
                rest = rest;
                sent = sent;
                arrived = arrived;
                was_read = was_read;
                decoded = decoded;
                own = own;
              }
        ]
      ]

  Acked-ok :
      (v : W) (t : MirageSession) (ack : EventAck)
      → Acked v t ack
      → (send_event_once wire v t event).2 ≡ ok ack
  unfolding send_event_once receive read_ack
  Acked-ok v t ack h =
      ground (
        arith,
        h.sent,
        h.arrived,
        h.was_read,
        h.decoded,
        h.own,
        same_iff ack.event_id event.event_id,
      )

  abbrev pub Unanswered : W → MirageSession → Type 0
  Unanswered v t = (ack : EventAck) → Acked v t ack → ⊥

  pub err-Unanswered :
      (v : W) (t : MirageSession) (e : ClientError)
      → (send_event_once wire v t event).2 ≡ err e
      → Unanswered v t
  err-Unanswered v t e failed ack h = cc (Acked-ok v t ack h, failed)
