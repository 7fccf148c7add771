-- ===== src/Mirage/Server/Steps.antt =====
-- The operations of server.go that change the server, in any order, and what its phases stand for.
use edgectl.Prelude.{ℕ, ◌≡◌, Text, Option, arith, Result}
use edgectl.Session.Control.{Registration}
use edgectl.Session.Event.{Event}
use edgectl.Session.Command.{Json, Command}
use edgectl.Mirage.Issue.{IssueEnv}
use edgectl.Mirage.Server.{
  Server, Spawner, appear, shimmer, seed, upsert_registration, mark_ghost_disconnected,
  accept_event,
}
use edgectl.Mirage.Server.Discovery.{Net}
use edgectl.Mirage.Server.Boundary.{
  append_report, register_executor, submit_issue, reconcile_intent, observe_event,
  set_ghost_spawner,
}

module _ {X W : Type 0} where
  pub data Step (s : Server X W) : Server X W → Type 1 where
    did_appear : (id : Text) → Step s (appear s id).0
    did_shimmer : Step s (shimmer s).0
    did_seed : Step s (seed s).0
    did_register :
        (net : Net) (now : ℕ) (addr : Text) (reg : Registration)
        → Step s (upsert_registration net now s addr reg).0
    did_disconnect : (id : Text) → Step s (mark_ghost_disconnected s id)
    did_accept : (now : ℕ) (id : Text) (event : Event) → Step s (accept_event now s id event).0
    did_bind : (id : Text) (exec : X) → Step s (register_executor s id exec).0
    did_submit : (now : ℕ) (issue : IssueEnv) → Step s (submit_issue now s issue).0
    did_reconcile :
        (json : Json) (exec : X → Command → Result Text Event) (now : ℕ) (id : Text)
        → Step s (reconcile_intent json exec now s id).0
    did_observe : (now : ℕ) (event : Event) → Step s (observe_event now s event).0
    did_set_spawner : (spawner : Option (Spawner W)) → Step s (set_ghost_spawner s spawner)

  pub data Reach (s : Server X W) : Server X W → Type 1 where
    here : Reach s s
    next : {t u : Server X W} → Reach s t → Step t u → Reach s u

  -- The parts of the server that its orchestrator's operations leave as they are.
  pub record Same (s t : Server X W) : Type 0 where
    pub mirage_id : t.mirage_id ≡ s.mirage_id
    pub phase : t.phase ≡ s.phase
    pub registry : t.registry ≡ s.registry

  pub reconcile_intent-Same :
      (json : Json) (exec : X → Command → Result Text Event) (now : ℕ) (s : Server X W) (id : Text)
      → Same s (reconcile_intent json exec now s id).0
  unfolding reconcile_intent append_report
  reconcile_intent-Same json exec now s id = ground arith

  pub observe_event-Same :
      (now : ℕ) (s : Server X W) (event : Event) → Same s (observe_event now s event).0
  unfolding observe_event append_report
  observe_event-Same now s event = ground arith
