-- ===== src/Session/Transport/Production.antt =====
-- What transport_security.go demands of a production session.
use edgectl.Prelude.{◌≡◌, ◌↔◌, true, false, Text, same, ok, arith}
use edgectl.Session.Transport.{
  TlsConfig, production, normalize_security_mode, blank, known_mode, validate_client_transport,
  validate_server_transport,
}

-- Both ends of the session prove who they are.
pub record IsMutual (tls : TlsConfig) : Type 0 where
  pub enabled : tls.enabled ≡ true
  pub both_sides : tls.is_mutual ≡ true
  pub certified : blank tls.cert_file ≡ false
  pub keyed : blank tls.key_file ≡ false
  pub anchored : blank tls.ca_file ≡ false

module _ (to_lower : Text → Text) (security_mode : Text) (tls : TlsConfig) where
  -- In production a client's settings are accepted exactly if TLS is on and mutual, with certificate, key and CA files that are not blank, and the server's certificate is verified; a server's exactly if all but the last holds.
  pub production_iff :
      normalize_security_mode to_lower security_mode ≡ production
      → ((validate_client_transport to_lower security_mode tls ≡ ok tt)
          ↔ (IsMutual tls × (tls.insecure_skip_verify ≡ false)))
        × ((validate_server_transport to_lower security_mode tls ≡ ok tt) ↔ IsMutual tls)
  unfolding validate_client_transport validate_server_transport known_mode same
  production_iff h =
      rw (validate_client_transport, validate_server_transport, h) (ground arith, ground arith)
