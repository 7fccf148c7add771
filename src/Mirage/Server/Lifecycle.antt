-- ===== src/Mirage/Server/Lifecycle.antt =====
-- The lifecycle of server.go over every run: phases and identity.
use edgectl.Prelude.{ap, ◌≡◌, ◌≢◌, ◌↔◌, arith, ℕ, ◌≤◌}
use edgectl.Mirage.Server.{
  Server, LifecyclePhase, boot, appeared, shimmering, seeded, appear, shimmer, seed,
  upsert_registration, mark_ghost_disconnected, accept_event,
}
use edgectl.Mirage.Server.Boundary.{register_executor, submit_issue, set_ghost_spawner}
use edgectl.Mirage.Server.Steps.{
  Step, did_appear, did_shimmer, did_seed, did_register, did_disconnect, did_accept, did_bind,
  did_submit, did_reconcile, did_observe, did_set_spawner, Same, Reach, here, next,
  reconcile_intent-Same, observe_event-Same,
}

-- The order of the phases.
abbrev pub rank : LifecyclePhase → ℕ
rank boot = 0
rank appeared = 1
rank shimmering = 2
rank seeded = 3

-- A later state: the phase has not gone back, and a name once given is kept.
pub record Follows {X W : Type 0} (s t : Server X W) : Type 0 where
  pub forward : rank s.phase ≤ rank t.phase
  pub same_id : s.phase ≢ boot → t.mirage_id ≡ s.mirage_id

rank_boot : (p : LifecyclePhase) → (p ≡ boot) ↔ (rank p ≡ 0)
rank_boot p = ground arith

module _ {X W : Type 0} where
  Same-Follows : {s t : Server X W} → Same s t → Follows s t
  Same-Follows h = ground (arith, ap rank h.phase)

  Step-Follows : {s t : Server X W} → Step s t → Follows s t
  unfolding appear shimmer seed upsert_registration mark_ghost_disconnected accept_event
      register_executor submit_issue set_ghost_spawner
  Step-Follows {s = s} (did_appear id) = ground arith
  Step-Follows {s = s} did_shimmer = ground arith
  Step-Follows {s = s} did_seed = ground arith
  Step-Follows {s = s} (did_register net now addr reg) = ground arith
  Step-Follows {s = s} (did_disconnect id) = ground arith
  Step-Follows {s = s} (did_accept now id event) = ground arith
  Step-Follows {s = s} (did_bind id exec) = ground arith
  Step-Follows {s = s} (did_submit now issue) = ground arith
  Step-Follows {s = s} (did_reconcile json exec now id) =
      Same-Follows (reconcile_intent-Same json exec now s id)
  Step-Follows {s = s} (did_observe now event) = Same-Follows (observe_event-Same now s event)
  Step-Follows {s = s} (did_set_spawner spawner) = ground arith

  Follows-trans : {s t u : Server X W} → Follows s t → Follows t u → Follows s u
  Follows-trans {s} {t} {u} h k = ground (arith, rank_boot s.phase, rank_boot t.phase)

  -- Over any run of the server's operations the phase never goes back, and once the server has appeared its id never changes.
  pub Reach-Follows : {s t : Server X W} → Reach s t → Follows s t
  Reach-Follows here = ground arith
  Reach-Follows (next r st) = Follows-trans (Reach-Follows r) (Step-Follows st)
