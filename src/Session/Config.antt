-- ===== src/Session/Config.antt =====
-- config.go: the defaults of a session. A duration is an int64 of nanoseconds; floats, of which only the
-- test on the sign and the literal 2.0 are used, are parameters, as strings.ToLower is.
pub mod Positive
use edgectl.Prelude.{[], ℕ, zero, suc, ◌*◌, Bool, true, false, if◌then◌else◌, Text}
use edgectl.Session.Transport.{TlsConfig, development, normalize_security_mode}

pub data ℤ : Type 0 where
  pos negsuc : ℕ → ℤ

unfoldable pub is_positive : ℤ → Bool
is_positive (pos zero) = false
is_positive (pos (suc n)) = true
is_positive (negsuc n) = false

pub record BackoffConfig (F : Type 0) : Type 0 where
  pub initial_delay : ℤ
  pub multiplier : F
  pub max_delay : ℤ
  pub jitter : Bool

pub record Config (F : Type 0) : Type 0 where
  pub connect_timeout : ℤ
  pub handshake_timeout : ℤ
  pub read_timeout : ℤ
  pub write_timeout : ℤ
  pub heartbeat_interval : ℤ
  pub session_dead_after : ℤ
  pub ack_timeout : ℤ
  pub security_mode : Text
  pub tls : TlsConfig
  pub backoff : BackoffConfig F

abbrev pub milliseconds : ℕ → ℤ
milliseconds n = pos (n * 1000000)

abbrev pub seconds : ℕ → ℤ
seconds n = milliseconds (n * 1000)

-- `if t <= 0 { t = fallback }`
unfoldable pub or_default : ℤ → ℤ → ℤ
unfolding is_positive
or_default t fallback = if is_positive t then t else fallback

module _ {F : Type 0} (float_positive : F → Bool) (two : F) where
  unfoldable pub default_config : Config F
  default_config = record {
    connect_timeout = seconds 5;
    handshake_timeout = seconds 5;
    read_timeout = seconds 15;
    write_timeout = seconds 15;
    heartbeat_interval = seconds 5;
    session_dead_after = seconds 15;
    ack_timeout = seconds 20;
    security_mode = development;
    tls = record {
      enabled = false;
      is_mutual = false;
      cert_file = [];
      key_file = [];
      ca_file = [];
      server_name = [];
      insecure_skip_verify = false;
    };
    backoff = record {
      initial_delay = milliseconds 250;
      multiplier = two;
      max_delay = seconds 5;
      jitter = true;
    };
  }

  unfoldable pub with_defaults : (Text → Text) → Config F → Config F
  unfolding default_config or_default
  with_defaults to_lower c =
      let d = default_config in
      record c {
        connect_timeout = or_default c.connect_timeout d.connect_timeout;
        handshake_timeout = or_default c.handshake_timeout d.handshake_timeout;
        read_timeout = or_default c.read_timeout d.read_timeout;
        write_timeout = or_default c.write_timeout d.write_timeout;
        heartbeat_interval = or_default c.heartbeat_interval d.heartbeat_interval;
        session_dead_after = or_default c.session_dead_after d.session_dead_after;
        ack_timeout = or_default c.ack_timeout d.ack_timeout;
        security_mode = normalize_security_mode to_lower c.security_mode;
        backoff = record c.backoff {
          initial_delay = or_default c.backoff.initial_delay d.backoff.initial_delay;
          multiplier =
              if float_positive c.backoff.multiplier
              then c.backoff.multiplier
              else d.backoff.multiplier;
          max_delay = or_default c.backoff.max_delay d.backoff.max_delay;
        };
      }
