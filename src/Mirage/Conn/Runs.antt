-- ===== src/Mirage/Conn/Runs.antt =====
-- What a connection changes of the server.
use edgectl.Prelude.{
  ℕ, zero, suc, ap, ◌∙◌, ◌≡◌, refl, length, Bool, true, false, Text, same, lookup, insert,
  lookup-insert, lookup-insert_self, has, text_eq, Option-cases, ok, Result-cases, Bool-cases, inl,
  inr, ◌==◌, ◌⊎◌, arith,
}
use edgectl.Frame.{Frame, read_frame, default_limits}
use edgectl.Schema.{msg_event}
use edgectl.Session.Control.{
  RegistrationAck, EnvelopeJson, write_registration_ack, ack_status_accepted, ack_status_rejected,
}
use edgectl.Session.Event.{Event, decode_event_frame}
use edgectl.Session.Ack.{encode_event_ack_frame}
use edgectl.Session.Report.{Report}
use edgectl.Mirage.Server.{
  Server, RegisteredGhostState, mark_ghost_disconnected, accept_event, upsert_registration,
}
use edgectl.Mirage.Server.Boundary.{observe_event}
use edgectl.Mirage.Server.Discovery.{Net}
use edgectl.Mirage.Server.Steps.{observe_event-Same}
use edgectl.Mirage.Handshake.{PeerAuth, handle_registration}
use edgectl.Mirage.Handshake.Identity.{handle_registration-cases}
use edgectl.Mirage.Conn.{take_event, handle_frame, serve, serve_registered, handle_conn}

module _ {X W : Type 0} where
  -- What a connection of the Ghost `g` may change of the server: no other Ghost's entry, and if `g` had one
  -- it has one.
  pub record Kept (g : Text) (s t : Server X W) : Type 0 where
    pub others :
        (other : Text) → same g other ≡ false → lookup other t.registry ≡ lookup other s.registry
    pub own : has g s.registry ≡ true → has g t.registry ≡ true

  pub Kept-refl : {g : Text} {s : Server X W} → Kept g s s
  Kept-refl = record { others = λ other e. refl; own = λ h. h }

  pub Kept-trans : {g : Text} {s t u : Server X W} → Kept g s t → Kept g t u → Kept g s u
  Kept-trans p q = record {
    others = λ other e. q.others other e ∙ p.others other e;
    own = λ h. q.own (p.own h);
  }

  pub insert-Kept :
      {g : Text} {s t : Server X W} (state : RegisteredGhostState)
      → t.registry ≡ insert g state s.registry
      → Kept g s t
  unfolding has
  insert-Kept {g = g} {s = s} state e = record {
    others = λ other d. rw e (ground (arith, d, lookup-insert g other state s.registry));
    own = λ h. rw e (ground (arith, lookup-insert_self g state s.registry));
  }

  same-Kept : {g : Text} {s t : Server X W} → t.registry ≡ s.registry → Kept g s t
  same-Kept {g = g} e = record {
    others = λ other d. ap (lookup other) e;
    own = λ h. ap (has g) e ∙ h;
  }

  disconnect-Kept : (s : Server X W) (g : Text) → Kept g s (mark_ghost_disconnected s g)
  unfolding mark_ghost_disconnected
  disconnect-Kept s g = elim (Option-cases (lookup g s.registry)) [
    | inl gone ↦ rw (gone, mark_ghost_disconnected) Kept-refl
    | inr (state, found) ↦ rw (found, mark_ghost_disconnected) (insert-Kept _ refl)
  ]

  module _ (persist : Report → W → W) where
    pub take_event-Kept :
        (now : ℕ) (g : Text) (s : Server X W) (w : W) (event : Event)
        → Kept g s (take_event persist now g s w event).0
    unfolding take_event accept_event
    take_event-Kept now g s w event =
        Kept-trans
          (same-Kept {t = (observe_event now s event).0} (observe_event-Same now s event).registry)
          (insert-Kept _ refl)

    handle_frame-Kept :
        (now : ℕ) (g : Text) (s : Server X W) (w : W) (f : Frame)
        → Kept g s (handle_frame persist now g s w f).0
    unfolding handle_frame
    handle_frame-Kept now g s w f = elim (Bool-cases (f.header.message_type == msg_event)) [
      | inr other ↦ rw (other, handle_frame) Kept-refl
      | inl is_event ↦ elim (Result-cases (decode_event_frame f)) [
        | inr (e, bad) ↦ rw (is_event, handle_frame) (rw bad Kept-refl)
        | inl (event, good) ↦
            let r = take_event-Kept now g s w event in
            elim (Result-cases
              (encode_event_ack_frame f.header.message_id (take_event persist now g s w event).2)) [
                | inr (e, bad) ↦ rw (is_event, handle_frame) (rw good (rw bad r))
                | inl (out, fine) ↦ rw (is_event, handle_frame) (rw good (rw fine r))
              ]
      ]
    ]

    module _ (clock : ℕ → ℕ) (delivered : ℕ → Bool) where
      serve-Kept :
          (g : Text) (fuel n : ℕ) (s : Server X W) (w : W) (input : Text)
          → Kept g s (serve persist clock delivered g fuel n s w input).0
      unfolding serve
      serve-Kept g zero n s w input = Kept-refl
      serve-Kept g (suc fuel) n s w input = elim (Result-cases (read_frame default_limits input)) [
        | inr (e, bad) ↦ rw (bad, serve) Kept-refl
        | inl ((f, rest), good) ↦
            let (s', w', answer) = handle_frame persist (clock n) g s w f in
            let r = handle_frame-Kept (clock n) g s w f in
            elim (Option-cases (handle_frame persist (clock n) g s w f).2) [
              | inl closed ↦ rw (good, serve) (rw closed r)
              | inr (out, written) ↦ elim (Bool-cases (delivered n)) [
                | inr lost ↦ rw (good, serve) (rw written (rw lost r))
                | inl fine ↦
                    rw (good, serve)
                      (rw written (rw fine (Kept-trans r (serve-Kept g fuel (suc n) s' w' rest))))
              ]
            ]
      ]

      module _ (json : EnvelopeJson) (net : Net) (binding : Bool) where
        serve_registered-refused :
            (s : Server X W) (w : W) (g input : Text) (ack : RegistrationAck)
            → ack.status ≡ ack_status_rejected
            → (serve_registered persist json net binding clock delivered s w g input ack).0 ≡ s
        unfolding serve_registered same
        serve_registered-refused s w g input ack rejected = ground (arith, rejected)

        pub serve_registered-Kept :
            (s : Server X W) (w : W) (g input : Text) (ack : RegistrationAck)
            → Kept g s (serve_registered persist json net binding clock delivered s w g input ack).0
        unfolding serve_registered
        serve_registered-Kept s w g input ack =
            elim (Result-cases (write_registration_ack json ack)) [
              | inr (e, bad) ↦ rw (bad, serve_registered) Kept-refl
              | inl (out, good) ↦ elim (Bool-cases (delivered 0)) [
                | inr lost ↦ rw (good, serve_registered) (rw lost Kept-refl)
                | inl fine ↦ elim (Bool-cases (same ack.status ack_status_accepted)) [
                  | inr refused ↦ rw (good, serve_registered) (rw fine (rw refused Kept-refl))
                  | inl accepted ↦
                      rw (good, serve_registered)
                        (rw fine (
                          rw accepted (
                            Kept-trans (serve-Kept g (length input) 1 s w input)
                              (disconnect-Kept _ g))))
                ]
              ]
            ]

        -- A connection whose registration is not accepted leaves the server as it was. One whose
        -- registration is accepted changes no entry but that of the Ghost registered, whatever bytes
        -- follow and whichever writes are carried.
        pub handle_conn_contained :
            (s : Server X W) (w : W) (addr : Text) (auth : PeerAuth) (input other : Text)
            → let r = handle_registration json net binding (clock 0) s addr auth input in
              let end =
                handle_conn persist json net binding clock delivered s w addr (ok auth) input in
              same r.1.0.ghost_id other ≡ false
              → (lookup other end.0.registry ≡ lookup other s.registry)
                × ((end.0 ≡ s) ⊎ (r.2.status ≡ ack_status_accepted))
        unfolding handle_conn upsert_registration
        handle_conn_contained s w addr auth input other distinct =
            let r = handle_registration json net binding (clock 0) s addr auth input in
            let later = serve_registered-Kept r.0 w r.1.0.ghost_id r.1.1 r.2 in
            elim (handle_registration-cases json net binding (clock 0) s addr auth input) [
              | inl (unchanged, rejected) ↦
                  let left =
                    serve_registered-refused r.0 w r.1.0.ghost_id r.1.1 r.2 rejected ∙ unchanged in
                  (ap (λ t. lookup other t.registry) left, inl left)
              | inr (_, _, stored) ↦
                  let first : Kept r.1.0.ghost_id s r.0 =
                    insert-Kept _ (ap (λ p. (p.0).registry) stored) in
                  (
                    (Kept-trans first later).others other distinct,
                    inr (ap (λ p. (p.1).status) stored),
                  )
            ]
