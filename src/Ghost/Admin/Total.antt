-- ===== src/Ghost/Admin/Total.antt =====
-- An admin command that the intake accepts: what its execution leaves in the service.
use edgectl.Prelude.{ℕ, ◌≡◌, [], ◌∷◌, ◌++◌}
use edgectl.Ghost.Envelopes.{CommandEnv, ExecutionState, EventEnv}
use edgectl.Ghost.Server.{Server}
use edgectl.Ghost.Pipeline.Total.{Finished}
use edgectl.Ghost.Admin.{Admin, next_admin_seq, verification_of}

module _ {S : Type 0} where
  -- What an executed admin command leaves of the service `a` in `b`.
  pub record Executed (now : ℕ) (a b : Admin S) (env : CommandEnv) (state : ExecutionState)
      (event : EventEnv) : Type 0 where
    pub finished : Finished now b.server env event
    pub is_state : finished.state ≡ state
    pub seq : b.admin_seq ≡ next_admin_seq a.admin_seq
    pub events : b.admin_events ≡ a.admin_events ++ event ∷ []
    pub verified :
        b.verification_events
        ≡ a.verification_events ++ verification_of b.server.ghost_id b.admin_seq state event ∷ []
