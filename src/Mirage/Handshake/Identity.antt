-- ===== src/Mirage/Handshake/Identity.antt =====
-- Whom Mirage registers: the peer that the transport names.
use edgectl.Prelude.{
  ℕ, ◌≡◌, refl, ◌∙◌, List, [], ◌∷◌, Bool, true, false, Text, same, same_iff, is_empty, Option, none,
  some, Option-cases, Result, ok, err, Result-cases, ◌⊎◌, inl, inr, arith,
}
use edgectl.Session.Transport.{TlsConfig, production, normalize_security_mode}
use edgectl.Session.Control.{Registration, EnvelopeJson, read_registration, ack_status_rejected}
use edgectl.Mirage.Server.{Server, upsert_registration}
use edgectl.Mirage.Server.Discovery.{Net}
use edgectl.Mirage.Handshake.{
  Certificate, PeerAuth, peer_identity_from_cert, identified, auth_of, authenticate_conn,
  binding_fault, handle_registration,
}

identified_lem :
    (cert : Certificate) (auth : PeerAuth)
    → identified cert ≡ ok auth
    → (auth.authenticated ≡ true)
      × (auth.peer_identity ≡ peer_identity_from_cert cert)
      × (is_empty auth.peer_identity ≡ false)
unfolding identified
identified_lem cert auth h = ground arith

-- The peer of a connection that production transport lets in.
authenticate_conn-production :
    (to_lower : Text → Text) (mode : Text) (tls : TlsConfig)
    (handshake : Option (Result Text (List Certificate))) (auth : PeerAuth)
    → same (normalize_security_mode to_lower mode) production ≡ true
    → authenticate_conn to_lower mode tls handshake ≡ ok auth
    → (cert : Certificate) × (more : List Certificate) × (handshake ≡ some (ok (cert ∷ more)))
      × (identified cert ≡ ok auth)
unfolding authenticate_conn auth_of
authenticate_conn-production to_lower mode tls none auth is_production h = ground arith
authenticate_conn-production to_lower mode tls (some (err e)) auth is_production h = ground arith
authenticate_conn-production to_lower mode tls (some (ok [])) auth is_production h = ground arith
authenticate_conn-production to_lower mode tls (some (ok (cert ∷ more))) auth is_production h =
    (cert, more, refl, ground arith)

binding_fault-none :
    (auth : PeerAuth) (reg : Registration)
    → auth.authenticated ≡ true
    → binding_fault true auth reg ≡ none
    → reg.ghost_id ≡ auth.peer_identity
unfolding binding_fault
binding_fault-none auth reg h e = ground (arith, same_iff auth.peer_identity reg.ghost_id)

module _ {X W : Type 0} (json : EnvelopeJson) (net : Net) where
  pub handle_registration-cases :
      (binding : Bool) (now : ℕ) (s : Server X W) (addr : Text) (auth : PeerAuth) (input : Text)
      → let out = handle_registration json net binding now s addr auth input in
        ((out.0 ≡ s) × (out.2.status ≡ ack_status_rejected))
        ⊎ ((read_registration json input ≡ ok out.1)
            × (binding_fault binding auth out.1.0 ≡ none)
            × ((out.0, out.2) ≡ upsert_registration net now s addr out.1.0))
  unfolding handle_registration
  handle_registration-cases binding now s addr auth input =
      elim (Result-cases (read_registration json input)) [
        | inr (e, bad) ↦ rw (bad, handle_registration) (inl (refl, refl))
        | inl ((reg, rest), is_ok) ↦ elim (Option-cases (binding_fault binding auth reg)) [
          | inr (message, fault) ↦ rw (is_ok, handle_registration) (rw fault (inl (refl, refl)))
          | inl fine ↦ rw (is_ok, handle_registration) (rw fine (inr (refl, fine, refl)))
        ]
      ]

  -- With identity binding and production transport, a connection that is let in either leaves the server
  -- as it is and is answered with a rejection, or registers exactly the Ghost that the first certificate
  -- of the peer names, under the address of the connection.
  pub handle_registration-authenticate_conn :
      (to_lower : Text → Text) (mode : Text) (tls : TlsConfig)
      (handshake : Option (Result Text (List Certificate))) (auth : PeerAuth) (now : ℕ)
      (s : Server X W) (addr input : Text)
      → same (normalize_security_mode to_lower mode) production ≡ true
      → authenticate_conn to_lower mode tls handshake ≡ ok auth
      → let out = handle_registration json net true now s addr auth input in
        ((out.0 ≡ s) × (out.2.status ≡ ack_status_rejected))
        ⊎ ((cert : Certificate) × (more : List Certificate) × (handshake ≡ some (ok (cert ∷ more)))
            × (read_registration json input ≡ ok out.1)
            × (out.1.0.ghost_id ≡ peer_identity_from_cert cert)
            × ((out.0, out.2) ≡ upsert_registration net now s addr out.1.0))
  handle_registration-authenticate_conn to_lower mode tls handshake auth now s addr input
        is_production let_in =
      let (cert, more, shown, known) =
        authenticate_conn-production to_lower mode tls handshake auth is_production let_in in
      let (is_authenticated, named, _) = identified_lem cert auth known in
      elim (handle_registration-cases true now s addr auth input) [
        | inl refused ↦ inl refused
        | inr (was_read, fine, stored) ↦
            let reg = (handle_registration json net true now s addr auth input).1.0 in
            inr (
              cert,
              more,
              shown,
              was_read,
              binding_fault-none auth reg is_authenticated fine ∙ named,
              stored,
            )
      ]
