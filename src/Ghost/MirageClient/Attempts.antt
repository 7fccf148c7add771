-- ===== src/Ghost/MirageClient/Attempts.antt =====
-- How often ConnectAndRegister dials.
use edgectl.Prelude.{
  ℕ, zero, suc, ◌+◌, ◌≤◌, ◌<◌, ◌≡◌, refl, false, not, ◌||◌, some, Result, Result-cases, Bool-cases,
  inl, inr, arith,
}
use edgectl.Session.Control.{EnvelopeJson}
use edgectl.Session.Config.{pos}
use edgectl.Ghost.MirageClient.{
  Wire, MirageClientConfig, MirageSession, ClientError, is_rejection, should_retry, register,
  attempt_once, connect_and_register,
}

no_retry_left :
    (cfg : MirageClientConfig) (m attempt : ℕ) (e : ClientError)
    → cfg.max_connect_attempts ≡ pos (suc m)
    → (is_rejection e || not (should_retry cfg.max_connect_attempts attempt)) ≡ false
    → attempt < suc m
unfolding should_retry
no_retry_left cfg m attempt e bound h = ground (arith, bound)

-- A network that counts its dials beside its state.
unfoldable pub counted : {W : Type 0} → Wire W → Wire (ℕ × W)
counted wire = record {
  dial = λ addr v. let (w', r) = wire.dial addr v.1 in ((v.0 + 1, w'), r);
  exchange = λ bytes v. let (w', r) = wire.exchange bytes v.1 in ((v.0, w'), r);
  wait = λ attempt v. let (w', r) = wire.wait attempt v.1 in ((v.0, w'), r);
  clock = λ v. wire.clock v.1;
  left_over = wire.left_over;
}

module _ {W : Type 0} (wire : Wire W) (json : EnvelopeJson) (cfg : MirageClientConfig) where
  attempt_once-dials : (v : ℕ × W) → (attempt_once (counted wire) json cfg v).0.0 ≡ v.0 + 1
  unfolding attempt_once register counted
  attempt_once-dials v = ground arith

  wait-dials : (attempt : ℕ) (v : ℕ × W) → ((counted wire).wait attempt v).0.0 ≡ v.0
  unfolding counted
  wait-dials attempt v = refl

  connect_and_register-some :
      (m turns attempt : ℕ) (v : ℕ × W)
      → cfg.max_connect_attempts ≡ pos (suc m)
      → attempt ≤ suc m
      → suc (suc m) ≤ attempt + turns
      → attempt ≡ v.0 + 1
      → (out : (ℕ × W) × Result ClientError MirageSession) × (connect_and_register
            (counted wire)
            json
            cfg
            turns
            attempt
            v
          ≡ some out)
        × (attempt ≤ out.0.0)
        × (out.0.0 ≤ suc m)
  unfolding connect_and_register
  connect_and_register-some m zero attempt v bound started enough now = absurd (omega arith)
  connect_and_register-some m (suc turns) attempt v bound started enough now =
      let v' = (attempt_once (counted wire) json cfg v).0 in
      let dialed = attempt_once-dials v in
      let v'' = ((counted wire).wait attempt v').0 in
      let low : attempt ≤ v'.0 = omega (arith, dialed, now) in
      let high : v'.0 ≤ suc m = omega (arith, dialed, now) in
      let waited_low : attempt ≤ v''.0 = omega (arith, wait-dials attempt v', low) in
      let waited_high : v''.0 ≤ suc m = omega (arith, wait-dials attempt v', high) in
      elim (Result-cases (attempt_once (counted wire) json cfg v).1) [
        | inl (s, done) ↦ rw (done, connect_and_register) (_, refl, low, high)
        | inr (e, failed) ↦
            elim (Bool-cases
              (is_rejection e || not (should_retry cfg.max_connect_attempts attempt))) [
                | inl final ↦ rw (failed, connect_and_register) (rw final (_, refl, low, high))
                | inr again ↦ elim (Result-cases ((counted wire).wait attempt v').1) [
                  | inr (reason, cancelled) ↦
                      rw (failed, connect_and_register)
                        (rw again (rw cancelled (_, refl, waited_low, waited_high)))
                  | inl (_, waited) ↦
                      let fewer = no_retry_left cfg m attempt e bound again in
                      let (out, ended, more, bounded) =
                        connect_and_register-some m turns (suc attempt) v'' bound
                          (omega (arith, fewer)) (omega arith)
                          (omega (arith, wait-dials attempt v', dialed, now)) in
                      rw (failed, connect_and_register)
                        (rw again (rw waited (out, ended, omega (arith, more), bounded)))
                ]
              ]
      ]

  -- With a positive bound on the attempts, whatever the network does and however registrations fail,
  -- connecting comes to a result within that many turns, in which it has dialed at least once and at most
  -- as often as the bound says.
  pub connect_and_register-ends :
      (m : ℕ) (w : W)
      → cfg.max_connect_attempts ≡ pos (suc m)
      → (out : (ℕ × W) × Result ClientError MirageSession) × (connect_and_register
            (counted wire)
            json
            cfg
            (suc m)
            1
            (0, w)
          ≡ some out)
        × (1 ≤ out.0.0)
        × (out.0.0 ≤ suc m)
  connect_and_register-ends m w bound =
      connect_and_register-some m (suc m) 1 (0, w) bound (omega arith) (omega arith) (omega arith)
