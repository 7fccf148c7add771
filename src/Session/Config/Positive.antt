-- ===== src/Session/Config/Positive.antt =====
-- What config.go's WithDefaults makes sure of, and what it leaves.
use edgectl.Prelude.{◌≡◌, Bool, true, Text, arith, refl}
use edgectl.Session.Transport.{normalize_security_mode}
use edgectl.Session.Config.{ℤ, is_positive, Config, default_config, or_default, with_defaults}

-- All durations, and the multiplier, are above 0.
pub record IsPositive {F : Type 0} (float_positive : F → Bool) (c : Config F) : Type 0 where
  pub connect : is_positive c.connect_timeout ≡ true
  pub handshake : is_positive c.handshake_timeout ≡ true
  pub read : is_positive c.read_timeout ≡ true
  pub write : is_positive c.write_timeout ≡ true
  pub heartbeat : is_positive c.heartbeat_interval ≡ true
  pub dead_after : is_positive c.session_dead_after ≡ true
  pub ack : is_positive c.ack_timeout ≡ true
  pub initial : is_positive c.backoff.initial_delay ≡ true
  pub multiplies : float_positive c.backoff.multiplier ≡ true
  pub max : is_positive c.backoff.max_delay ≡ true

or_default-positive : (t d : ℤ) → is_positive d ≡ true → is_positive (or_default t d) ≡ true
unfolding or_default
or_default-positive t d h = ground (arith, h)

or_default_kept : (t d : ℤ) → is_positive t ≡ true → or_default t d ≡ t
unfolding or_default
or_default_kept t d h = ground (arith, h)

module _ {F : Type 0} (float_positive : F → Bool) (two : F) (to_lower : Text → Text) where
  with_defaults-IsPositive :
      (c : Config F)
      → float_positive two ≡ true
      → IsPositive float_positive (with_defaults float_positive two to_lower c)
  unfolding with_defaults default_config is_positive
  with_defaults-IsPositive c h = record {
    connect = or_default-positive c.connect_timeout _ refl;
    handshake = or_default-positive c.handshake_timeout _ refl;
    read = or_default-positive c.read_timeout _ refl;
    write = or_default-positive c.write_timeout _ refl;
    heartbeat = or_default-positive c.heartbeat_interval _ refl;
    dead_after = or_default-positive c.session_dead_after _ refl;
    ack = or_default-positive c.ack_timeout _ refl;
    initial = or_default-positive c.backoff.initial_delay _ refl;
    multiplies = ground (arith, h);
    max = or_default-positive c.backoff.max_delay _ refl;
  }

  with_defaults_kept :
      (c : Config F)
      → IsPositive float_positive c
      → with_defaults float_positive two to_lower c
        ≡ record c { security_mode = normalize_security_mode to_lower c.security_mode }
  unfolding with_defaults default_config
  with_defaults_kept c h =
      rw
        (
          with_defaults, or_default, h.connect, h.handshake, h.read, h.write, h.heartbeat,
          h.dead_after, h.ack, h.initial, h.multiplies, h.max,
        )
        refl

  -- The defaults leave every duration and the multiplier above 0, where the multiplier 2.0 counts as such; filling in the defaults again changes nothing but what normalizing the security mode twice changes.
  pub with_defaults_settles :
      (c : Config F)
      → float_positive two ≡ true
      → let filled = with_defaults float_positive two to_lower c in
        IsPositive float_positive filled
        × (with_defaults float_positive two to_lower filled ≡ record filled {
          security_mode = normalize_security_mode to_lower filled.security_mode;
        })
  with_defaults_settles c h =
      let filled = with_defaults float_positive two to_lower c in
      (with_defaults-IsPositive c h, with_defaults_kept filled (with_defaults-IsPositive c h))
