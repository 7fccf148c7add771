-- ===== src/Session/Transport.antt =====
-- transport_security.go and the parts of config.go that it reads. `to_lower` is strings.ToLower.
pub mod Production
use edgectl.Prelude.{
  Bool, true, false, not, ◌&&◌, ◌||◌, if◌then◌else◌, Text, codes, same, is_empty, trim_space,
  Result, ok, err, ◌>>=◌, ◌>>◌,
}

pub record TlsConfig : Type 0 where
  pub enabled : Bool
  pub is_mutual : Bool
  pub cert_file : Text
  pub key_file : Text
  pub ca_file : Text
  pub server_name : Text
  pub insecure_skip_verify : Bool

pub data TransportError : Type 0 where
  invalid_security_mode : Text → TransportError
  tls_required mtls_required cert_file_required key_file_required ca_file_required : TransportError
  insecure_skip_not_allowed : TransportError

abbrev pub development : Text
development = codes "development"

abbrev pub production : Text
production = codes "production"

unfoldable pub normalize_security_mode : (Text → Text) → Text → Text
normalize_security_mode to_lower mode =
    if is_empty (trim_space mode) then development else to_lower (trim_space mode)

-- `if cond { return fault }`
abbrev pub refuse : Bool → TransportError → Result TransportError (Unit {0})
refuse true fault = err fault
refuse false fault = ok tt

abbrev pub blank : Text → Bool
blank t = is_empty (trim_space t)

unfoldable pub known_mode : Text → Text → Result TransportError (Unit {0})
known_mode mode given =
    refuse (not (same mode development || same mode production)) (invalid_security_mode given)

unfoldable pub validate_client_transport :
    (Text → Text) → Text → TlsConfig → Result TransportError (Unit {0})
validate_client_transport to_lower security_mode tls = do
  let mode = normalize_security_mode to_lower security_mode
  known_mode mode security_mode
  refuse (same mode production && not tls.enabled) tls_required
  refuse (same mode production && not tls.is_mutual) mtls_required
  refuse (same mode production && tls.insecure_skip_verify) insecure_skip_not_allowed
  refuse (tls.is_mutual && not tls.enabled) tls_required
  refuse (tls.enabled && (blank tls.ca_file && not tls.insecure_skip_verify)) ca_file_required
  refuse (tls.is_mutual && blank tls.cert_file) cert_file_required
  refuse (tls.is_mutual && blank tls.key_file) key_file_required

unfoldable pub validate_server_transport :
    (Text → Text) → Text → TlsConfig → Result TransportError (Unit {0})
validate_server_transport to_lower security_mode tls = do
  let mode = normalize_security_mode to_lower security_mode
  known_mode mode security_mode
  refuse (same mode production && not tls.enabled) tls_required
  refuse (same mode production && not tls.is_mutual) mtls_required
  refuse (tls.is_mutual && not tls.enabled) tls_required
  refuse (tls.enabled && blank tls.cert_file) cert_file_required
  refuse (tls.enabled && blank tls.key_file) key_file_required
  refuse (tls.is_mutual && blank tls.ca_file) ca_file_required
