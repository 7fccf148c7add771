-- ===== src/Mirage/Conn/Exchange.antt =====
-- A Ghost's delivery of an event joined to Mirage's connection: one event over, and its answer back.
use edgectl.Prelude.{
  zero, suc, length, List, ◌∷◌, sym, ℕ, ◌+◌, ◌%◌, ◌^◌, ◌<◌, ◌≡◌, refl, ap, ◌∙◌, subst, true, [],
  ◌++◌, append-nil, Text, codes, same_refl, lookup, text_eq, ◌==◌, nat_eq, some, Option-cases,
  Result, ok, err, inl, inr, arith,
}
use edgectl.Frame.{Frame, read_frame, default_limits}
use edgectl.Schema.{msg_event}
use edgectl.Session.Event.{Event, encode_event_frame, decode_event_frame}
use edgectl.Session.Event.RoundTrip.{decode_event_frame-encode_event_frame}
use edgectl.Session.Ack.{EventAck, encode_event_ack_frame}
use edgectl.Session.Ack.RoundTrip.{decode_event_ack_frame-encode_event_ack_frame}
use edgectl.Session.Report.{Report}
use edgectl.Mirage.Server.{Server, new_server, accept_event}
use edgectl.Mirage.Server.Boundary.{observe_event}
use edgectl.Mirage.Server.Steps.{Reach, next, did_accept, did_observe}
use edgectl.Mirage.Server.Acks.{recorded, ack_in, accept_event-recorded}
use edgectl.Mirage.Server.Registry.{Reach-IsTracked}
use edgectl.Mirage.Conn.Closing.{serve_enough, unread}
use edgectl.Mirage.Conn.{serve, take_event, handle_frame}
use edgectl.Ghost.MirageClient.{Wire, MirageSession, read_ack, receive, send_event_once}

module _ {X W : Type 0} (now : ℕ) (ghost_id : Text) where
  accepted_id :
      (s : Server X W) (event : Event)
      → Reach new_server s
      → (accept_event now s ghost_id event).1.event_id ≡ event.event_id
  unfolding recorded ack_in
  accepted_id s event run =
      let t = (accept_event now s ghost_id event).0 in
      let held = accept_event-recorded now s ghost_id event in
      let run' : Reach new_server t = next run (did_accept now ghost_id event) in
      elim (Option-cases (lookup ghost_id t.registry)) [
        | inl gone ↦ absurd (ground (arith, held, gone))
        | inr (state, found) ↦
            let own =
              (Reach-IsTracked t ghost_id state run' found).own event.event_id
                (accept_event now s ghost_id event).1 in
            (own (ground (arith, held, found))).0
      ]

abbrev pub joined : List Text → Text
joined [] = []
joined (t ∷ more) = t ++ joined more

-- What the Ghost's read meets: the acknowledgements that were written, or the end of the stream.
unfoldable pub reply : {S W : Type 0} → S × W × List Text → (S × W) × Result Text Text
reply (s, w, []) = ((s, w), err (codes "EOF"))
reply (s, w, out ∷ more) = ((s, w), ok (out ++ joined more))

module _ {X W : Type 0} (persist : Report → W → W) (now : ℕ) (ghost_id : Text) where
  -- Mirage's loop on the bytes that the Ghost writes, whose clock stands and whose writes are carried.
  unfoldable pub exchange_direct : Text → Server X W × W → (Server X W × W) × Result Text Text
  exchange_direct bytes (s, w) =
      reply (serve persist (λ n. now) (λ n. true) ghost_id (length bytes) 1 s w bytes)

  abbrev pub direct : Wire (Server X W × W) → Wire (Server X W × W)
  direct wire = record wire { exchange = exchange_direct }

  handle_frame-take_event :
      (s : Server X W) (w : W) (f : Frame) (event : Event) (out : Text)
      → f.header.message_type ≡ msg_event
      → decode_event_frame f ≡ ok event
      → let (s', w', ack) = take_event persist now ghost_id s w event in
        encode_event_ack_frame f.header.message_id ack ≡ ok out
        → handle_frame persist now ghost_id s w f ≡ (s', w', some out)
  unfolding handle_frame
  handle_frame-take_event s w f event out is_event decoded answered =
      let is_event' : (f.header.message_type == msg_event) ≡ true = ground (arith, is_event) in
      rw (is_event', handle_frame) (rw decoded (rw answered refl))

  serve-done :
      (fuel n : ℕ) (s : Server X W) (w : W)
      → serve persist (λ k. now) (λ k. true) ghost_id fuel n s w [] ≡ (s, w, [])
  unfolding serve
  serve-done zero n s w = refl
  serve-done (suc fuel) n s w = rw (unread [] refl, serve) refl

  -- One turn of the loop, and the end of the bytes.
  serve-one :
      (fuel : ℕ) (s s' : Server X W) (w w' : W) (bytes out : Text) (f : Frame)
      → read_frame default_limits bytes ≡ ok (f, [])
      → handle_frame persist now ghost_id s w f ≡ (s', w', some out)
      → serve persist (λ n. now) (λ n. true) ghost_id (suc fuel) 1 s w bytes ≡ (s', w', out ∷ [])
  unfolding serve
  serve-one fuel s s' w w' bytes out f read handled =
      let written : (handle_frame persist now ghost_id s w f).2 ≡ some out =
        ap (λ p. p.2) handled in
      let h = handle_frame persist now ghost_id s w f in
      rw (read, serve)
        (rw written (
          ap (λ r. (r.0, r.1, out ∷ r.2)) (serve-done fuel 2 h.0 h.1)
          ∙ ap (λ p. (p.0, p.1, out ∷ [])) handled))

  exchange_direct-encode :
      (s : Server X W) (w : W) (id : ℕ) (event : Event) (out out' : Text)
      → id < 2 ^ 64
      → event.timestamp_ms < 2 ^ 64
      → encode_event_frame id event ≡ ok out
      → let (s', w', ack) = take_event persist now ghost_id s w event in
        encode_event_ack_frame id ack ≡ ok out'
        → exchange_direct out (s, w) ≡ ((s', w'), ok (out' ++ []))
  unfolding exchange_direct reply
  exchange_direct-encode s w id event out out' small time sent answered =
      let (f, read, is_id, is_event, decoded) =
        decode_event_frame-encode_event_frame id event out [] small time sent in
      let read' : read_frame default_limits out ≡ ok (f, []) =
        subst (λ t. read_frame default_limits t ≡ ok (f, [])) (append-nil out) read in
      let handled = handle_frame-take_event s w f event out' is_event decoded (rw is_id answered) in
      let (s', w', _) = take_event persist now ghost_id s w event in
      let whole =
        serve_enough persist (λ n. now) (λ n. true) ghost_id (suc (length out)) 1 s w out
          (omega arith) in
      ap reply (sym whole ∙ serve-one (length out) s s' w w' out out' f read' handled)

read_ack-encode :
    (left_over : Text → Text) (event : Event) (id : ℕ) (ack : EventAck) (out : Text)
    → id < 2 ^ 64
    → ack.timestamp_ms < 2 ^ 64
    → ack.ack_code < 2 ^ 32
    → ack.event_id ≡ event.event_id
    → encode_event_ack_frame id ack ≡ ok out
    → read_ack left_over event out ≡ ([], ok ack)
unfolding read_ack
read_ack-encode left_over event id ack out small time code own sent =
    let (f, read, _, _, decoded) =
      decode_event_ack_frame-encode_event_ack_frame id ack out [] small time code sent in
    let read' : read_frame default_limits out ≡ ok (f, []) =
      subst (λ t. read_frame default_limits t ≡ ok (f, [])) (append-nil out) read in
    rw (read', read_ack) (rw decoded (rw own (rw (same_refl event.event_id) refl)))

module _ {X W : Type 0} (persist : Report → W → W) (now : ℕ) (ghost_id : Text) where
  -- An event that a Ghost can encode, its timestamp within 64 bits, is sent by a Ghost whose reader is empty
  -- to the connection loop of a Mirage that has run from its start. If the acknowledgement that Mirage
  -- gives it can be encoded, with its timestamp within 64 bits and its code within 32, the loop on these
  -- bytes changes Mirage as observing and accepting the event do, and the delivery hands the Ghost this
  -- very acknowledgement, with nothing left in its reader. Mirage's clock stands meanwhile, and its
  -- writes are carried.
  pub send_event_once-direct :
      (wire : Wire (Server X W × W)) (s : Server X W) (w : W) (g : MirageSession) (event : Event)
      (out out' : Text)
      → let id = (g.next_message_id + 1) % 2 ^ 64 in
        let (s', w', ack) = take_event persist now ghost_id s w event in
        Reach new_server s
        → g.reader ≡ []
        → event.timestamp_ms < 2 ^ 64
        → ack.timestamp_ms < 2 ^ 64
        → ack.ack_code < 2 ^ 32
        → encode_event_frame id event ≡ ok out
        → encode_event_ack_frame id ack ≡ ok out'
        → send_event_once (direct persist now ghost_id wire) (s, w) g event
          ≡ ((s', w'), record g { reader = []; next_message_id = id }, ok ack)
  unfolding send_event_once receive
  send_event_once-direct wire s w g event out out' run empty time ack_time code sent answered =
      let id = (g.next_message_id + 1) % 2 ^ 64 in
      let small : id < 2 ^ 64 = omega arith in
      let own : (take_event persist now ghost_id s w event).2.event_id ≡ event.event_id =
        unfold take_event in
        accepted_id now ghost_id (observe_event now s event).0 event
          (next run (did_observe now event)) in
      let arrived =
        exchange_direct-encode persist now ghost_id s w id event out out' small time sent
          answered in
      let ack = (take_event persist now ghost_id s w event).2 in
      let was_read : read_ack wire.left_over event (g.reader ++ (out' ++ [])) ≡ ([], ok ack) =
        rw empty (
          rw (append-nil out')
            (read_ack-encode wire.left_over event id ack out' small ack_time code own answered)) in
      let g' : MirageSession = record g { next_message_id = id } in
      let (s', w', _) = take_event persist now ghost_id s w event in
      let v : Server X W × W = (s', w') in
      rw (sent, send_event_once)
        (ap (receive wire.left_over g' event) arrived
          ∙ ap (λ p. (v, record g' { reader = p.0 }, p.1)) was_read)
