-- ===== src/Mirage/Handshake.antt =====
-- service.go: who the peer of a connection is, and its registration. The TLS handshake of crypto/tls is
-- given by its outcome: no TLS connection, an error, or the certificates of the peer.
pub mod Identity
use edgectl.Prelude.{
  ℕ, List, [], ◌∷◌, Bool, true, false, not, ◌&&◌, ◌||◌, if◌then◌else◌, Text, codes, same, is_empty,
  trim_space, Option, none, some, Result, ok, err,
}
use edgectl.Session.Transport.{
  TlsConfig, TransportError, tls_required, mtls_required, production, normalize_security_mode,
}
use edgectl.Session.Control.{
  Registration, RegistrationAck, EnvelopeJson, read_registration, ack_status_rejected,
}
use edgectl.Mirage.Server.{Server, upsert_registration}
use edgectl.Mirage.Server.Discovery.{Net}

-- The parts of an x509.Certificate that are read, URIs as strings.
pub record Certificate : Type 0 where
  pub common_name : Text
  pub uris : List Text
  pub dns_names : List Text

pub record PeerAuth : Type 0 where
  pub peer_identity : Text
  pub authenticated : Bool

pub data AuthError : Type 0 where
  transport_error : TransportError → AuthError
  not_a_tls_connection empty_peer_identity : AuthError
  handshake_failed : Text → AuthError

-- `if len(list) > 0 { if v := strings.TrimSpace(list[0]); v != "" { return v } }`
abbrev pub first_or : Text → List Text → Text
first_or fallback [] = fallback
first_or fallback (t ∷ _) = if is_empty (trim_space t) then fallback else trim_space t

unfoldable pub peer_identity_from_cert : Certificate → Text
peer_identity_from_cert cert =
    if is_empty (trim_space cert.common_name)
    then first_or (first_or [] cert.dns_names) cert.uris
    else trim_space cert.common_name

abbrev pub anonymous : PeerAuth
anonymous = record { peer_identity = []; authenticated = false }

unfoldable pub identified : Certificate → Result AuthError PeerAuth
identified cert =
    let id = peer_identity_from_cert cert in
    if is_empty id
    then err empty_peer_identity
    else ok (record { peer_identity = id; authenticated = true })

-- After the handshake.
unfoldable pub auth_of : Bool → List Certificate → Result AuthError PeerAuth
auth_of need_peer [] = if need_peer then err (transport_error mtls_required) else ok anonymous
auth_of need_peer (cert ∷ _) = identified cert

unfoldable pub authenticate_conn :
    (Text → Text)
    → Text
    → TlsConfig
    → Option (Result Text (List Certificate))
    → Result AuthError PeerAuth
authenticate_conn to_lower security_mode tls handshake =
    let mode = normalize_security_mode to_lower security_mode in
    if not tls.enabled
    then if same mode production then err (transport_error tls_required) else ok anonymous
    else elim handshake [
      | none ↦ err not_a_tls_connection
      | some (err reason) ↦ err (handshake_failed reason)
      | some (ok certs) ↦ auth_of (tls.is_mutual || same mode production) certs
    ]

abbrev pub error_code_transport_failure : ℕ
error_code_transport_failure = 1000

abbrev pub error_code_semantic_validation : ℕ
error_code_semantic_validation = 1300

abbrev pub rejected : ℕ → Text → ℕ → Text → RegistrationAck
rejected code message now ghost_id = record {
  status = ack_status_rejected;
  code = code;
  message = message;
  ghost_id = ghost_id;
  timestamp_ms = now;
}

-- The message with which `RequireIdentityBinding` rejects a registration, if it does.
unfoldable pub binding_fault : Bool → PeerAuth → Registration → Option Text
binding_fault require_identity_binding auth reg =
    if not require_identity_binding
    then none
    else if auth.authenticated
    then if not (same auth.peer_identity reg.ghost_id)
      then some (codes "identity binding failure")
      else if not (is_empty (trim_space reg.peer_identity))
          && not (same (trim_space reg.peer_identity) auth.peer_identity)
      then some (codes "declared peer mismatch")
      else none
    else if not (same reg.peer_identity reg.ghost_id)
    then some (codes "identity binding failure")
    else none

module _ {X W : Type 0} (json : EnvelopeJson) (net : Net) (require_identity_binding : Bool) where
  -- The registration and what stands behind it, and the acknowledgement.
  unfoldable pub handle_registration :
      ℕ → Server X W → Text → PeerAuth → Text → Server X W × (Registration × Text) × RegistrationAck
  handle_registration now s remote_addr auth input = elim (read_registration json input) [
    | err _ ↦ (
      s,
      (record { ghost_id = []; peer_identity = []; seed_list = none }, input),
      rejected error_code_semantic_validation (codes "invalid registration payload") now
          (codes "unknown"),
    )
    | ok (reg, rest) ↦ elim (binding_fault require_identity_binding auth reg) [
      | some message ↦
          (s, (reg, rest), rejected error_code_transport_failure message now reg.ghost_id)
      | none ↦
          let (s', ack) = upsert_registration net now s remote_addr reg in (s', (reg, rest), ack)
    ]
  ]
