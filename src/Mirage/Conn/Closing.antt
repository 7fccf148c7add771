-- ===== src/Mirage/Conn/Closing.antt =====
-- How a connection leaves the Ghost that it registered, and that the bound on its turns is none.
use edgectl.Prelude.{
  has, Map, ℕ, zero, suc, ◌≤◌, ◌<◌, ◌≡◌, refl, sym, ap, subst, [], ◌∷◌, length, drop, take,
  length-drop, ltb, Bool, true, false, not, if◌then◌else◌, Text, same, same_refl, lookup,
  lookup-insert_self, text_eq, some, Option-cases, Result, ok, err, >>=-eq-ok, ok-injective,
  Result-cases, Bool-cases, inl, inr, arith,
}
use edgectl.Frame.{
  Frame, Limits, short_header, read_frame, read_full, read_some, check_lengths, decode_header,
  default_limits, fixed_header_len,
}
use edgectl.Session.Control.{
  Registration, RegistrationAck, EnvelopeJson, write_registration_ack, ack_status_accepted,
}
use edgectl.Session.Report.{Report}
use edgectl.Mirage.Server.{
  Server, RegisteredGhostState, upsert_registration, mark_ghost_disconnected, registered_as,
  found_or, fresh,
}
use edgectl.Mirage.Server.Discovery.{Net}
use edgectl.Mirage.Handshake.{PeerAuth, handle_registration}
use edgectl.Mirage.Handshake.Identity.{handle_registration-cases}
use edgectl.Mirage.Conn.Runs.{serve_registered-Kept}
use edgectl.Mirage.Conn.{handle_frame, serve, serve_registered, handle_conn}

read_some_rest :
    (n : ℕ) (input taken rest : Text)
    → read_some n input ≡ ok (taken, rest)
    → length rest ≤ length input
unfolding read_some read_full
read_some_rest n input taken rest h = ground (arith, length-drop n input)

else_ok :
    {E A : Type 0} (b : Bool) (m : Result E A) (e : E) {a : A}
    → (if b then err e else m) ≡ ok a
    → (b ≡ false) × (m ≡ ok a)
else_ok true m e h = absurd cc
else_ok false m e h = (refl, h)

read_frame_shorter :
    (limits : Limits) (input : Text) (f : Frame) (rest : Text)
    → read_frame limits input ≡ ok (f, rest)
    → length rest < length input
unfolding read_frame
read_frame_shorter limits input f rest h =
    let (enough, h0) = else_ok (ltb (length input) fixed_header_len) _ _ h in
    let (header, _, h1) = >>=-eq-ok (decode_header (take fixed_header_len input)) _ h0 in
    let (auth_len, _, h2) = >>=-eq-ok (check_lengths limits header) _ h1 in
    let ((auth, body), got, h3) =
      >>=-eq-ok (read_some auth_len (drop fixed_header_len input)) _ h2 in
    let ((payload, left), got', h4) = >>=-eq-ok (read_some header.payload_len body) _ h3 in
    let is_rest : left ≡ rest = ap (λ p. p.1) (ok-injective h4) in
    let bound = read_some_rest header.payload_len body payload left got' in
    ground (
      arith,
      is_rest,
      enough,
      bound,
      read_some_rest auth_len (drop fixed_header_len input) auth body got,
      length-drop fixed_header_len input,
    )

pub unread : (input : Text) → length input ≡ 0 → read_frame default_limits input ≡ err short_header
unfolding read_frame
unread [] h = refl
unread (_ ∷ _) h = absurd (omega (arith, h))

has-lookup :
    {A : Type 0} (k : Text) (m : Map Text A) → has k m ≡ true → (v : A) × (lookup k m ≡ some v)
unfolding has
has-lookup k m h = elim (Option-cases (lookup k m)) [
  | inl gone ↦ absurd (ground (arith, h, gone))
  | inr (v, found) ↦ (v, found)
]

module _ {X W : Type 0} where
  disconnected :
      (s : Server X W) (g : Text) (state : RegisteredGhostState)
      → lookup g (mark_ghost_disconnected s g).registry ≡ some state
      → state.meta.connected ≡ false
  unfolding mark_ghost_disconnected
  disconnected s g state h = elim (Option-cases (lookup g s.registry)) [
    | inl gone ↦ ground (arith, gone)
    | inr (was, found) ↦ ground (
      arith,
      found,
      lookup-insert_self g
          (record was { meta = record was.meta { connected = false; remote_addr = [] } })
          s.registry,
    )
  ]

  registered_present :
      (net : Net) (now : ℕ) (s : Server X W) (addr : Text) (reg : Registration)
      → has reg.ghost_id (upsert_registration net now s addr reg).0.registry ≡ true
  unfolding upsert_registration has
  registered_present net now s addr reg = ground (
    arith,
    lookup-insert_self reg.ghost_id
        (registered_as net now addr reg (found_or fresh (lookup reg.ghost_id s.registry)))
        s.registry,
  )

  registered_connected :
      (net : Net) (now : ℕ) (s : Server X W) (addr : Text) (reg : Registration)
      (state : RegisteredGhostState)
      → lookup reg.ghost_id (upsert_registration net now s addr reg).0.registry ≡ some state
      → state.meta.connected ≡ true
  unfolding upsert_registration registered_as
  registered_connected net now s addr reg state h = ground (
    arith,
    lookup-insert_self reg.ghost_id
        (registered_as net now addr reg (found_or fresh (lookup reg.ghost_id s.registry)))
        s.registry,
  )

  module _ (persist : Report → W → W) (clock : ℕ → ℕ) (delivered : ℕ → Bool) where
    serve_any :
        (g : Text) (fuel fuel' n : ℕ) (s : Server X W) (w : W) (input : Text)
        → length input ≤ fuel
        → length input ≤ fuel'
        → serve persist clock delivered g fuel n s w input
          ≡ serve persist clock delivered g fuel' n s w input
    unfolding serve
    serve_any g zero zero n s w input h h' = refl
    serve_any g zero (suc fuel') n s w input h h' = rw (unread input (omega arith), serve) refl
    serve_any g (suc fuel) zero n s w input h h' = rw (unread input (omega arith), serve) refl
    serve_any g (suc fuel) (suc fuel') n s w input h h' =
        elim (Result-cases (read_frame default_limits input)) [
          | inr (e, bad) ↦ rw (bad, serve) refl
          | inl ((f, rest), good) ↦
              let (s', w', answer) = handle_frame persist (clock n) g s w f in
              let less = read_frame_shorter default_limits input f rest good in
              let later =
                serve_any g fuel fuel' (suc n) s' w' rest (omega (arith, less))
                  (omega (arith, less)) in
              rw (good, serve) (ground (arith, later))
        ]

    -- The loop of a connection ends by itself: more turns than bytes change nothing, since each frame that
    -- is read takes some.
    pub serve_enough :
        (g : Text) (fuel n : ℕ) (s : Server X W) (w : W) (input : Text)
        → length input ≤ fuel
        → serve persist clock delivered g fuel n s w input
          ≡ serve persist clock delivered g (length input) n s w input
    serve_enough g fuel n s w input h = serve_any g fuel (length input) n s w input h (omega arith)

    module _ (json : EnvelopeJson) (net : Net) (binding : Bool) where
      serve_registered_connected :
          (s : Server X W) (w : W) (g input out : Text) (ack : RegistrationAck)
          (state : RegisteredGhostState)
          → same ack.status ack_status_accepted ≡ true
          → write_registration_ack json ack ≡ ok out
          → ((was : RegisteredGhostState)
              → lookup g s.registry ≡ some was
              → was.meta.connected ≡ true)
          → lookup g
              (serve_registered persist json net binding clock delivered s w g input ack).0.registry
            ≡ some state
          → state.meta.connected ≡ not (delivered 0)
      unfolding serve_registered
      serve_registered_connected s w g input out ack state accepted written before h =
          elim (Bool-cases (delivered 0)) [
            | inl fine ↦ ground (
              arith,
              fine,
              accepted,
              written,
              disconnected (serve persist clock delivered g (length input) 1 s w input).0 g state,
            )
            | inr lost ↦ ground (arith, lost, written, before state)
          ]

      -- After a registration that is accepted, with an acknowledgement that is encoded, the Ghost still
      -- has its entry in the registry at the end of the connection, and stands there as connected exactly
      -- if the acknowledgement was not delivered.
      pub handle_conn-handle_registration :
          (s : Server X W) (w : W) (addr : Text) (auth : PeerAuth) (input out : Text)
          → let r = handle_registration json net binding (clock 0) s addr auth input in
            let end =
              handle_conn persist json net binding clock delivered s w addr (ok auth) input in
            r.2.status ≡ ack_status_accepted
            → write_registration_ack json r.2 ≡ ok out
            → (state : RegisteredGhostState) × (lookup r.1.0.ghost_id end.0.registry ≡ some state)
              × (state.meta.connected ≡ not (delivered 0))
      unfolding handle_conn
      handle_conn-handle_registration s w addr auth input out accepted written =
          let r = handle_registration json net binding (clock 0) s addr auth input in
          let g = r.1.0.ghost_id in
          elim (handle_registration-cases json net binding (clock 0) s addr auth input) [
            | inl (_, rejected) ↦ absurd (ground (arith, rejected, accepted))
            | inr (_, _, stored) ↦
                let Fresh : Server X W → Type 0 = λ t.
                  (has g t.registry ≡ true)
                  × ((was : RegisteredGhostState)
                      → lookup g t.registry ≡ some was
                      → was.meta.connected ≡ true) in
                let (present, before) = subst Fresh (sym (ap (λ p. p.0) stored)) (
                  registered_present net (clock 0) s addr r.1.0,
                  registered_connected net (clock 0) s addr r.1.0,
                ) in
                let kept =
                  (serve_registered-Kept persist clock delivered json net binding r.0 w g r.1.1
                      r.2).own
                    present in
                let (state, found) = has-lookup g _ kept in
                (
                  state,
                  found,
                  serve_registered_connected r.0 w g r.1.1 out r.2 state
                      (rw accepted (same_refl ack_status_accepted)) written before found,
                )
          ]
