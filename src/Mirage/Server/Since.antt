-- ===== src/Mirage/Server/Since.antt =====
-- The time of a Ghost's registration in server.go, over every run.
use edgectl.Prelude.{
  ℕ, ◌≡◌, Text, same, same_iff, Map, lookup, insert, lookup-insert, text_eq, Option, none, some,
  Option-cases, Bool-cases, inl, inr, arith,
}
use edgectl.Session.Event.{Event}
use edgectl.Mirage.Server.{
  Server, RegisteredGhostState, new_server, appear, shimmer, seed, registered_as, found_or, fresh,
  unregistered, acknowledge, upsert_registration, mark_ghost_disconnected, accept_event,
}
use edgectl.Mirage.Server.Boundary.{register_executor, submit_issue, set_ghost_spawner}
use edgectl.Mirage.Server.Steps.{
  Step, did_appear, did_shimmer, did_seed, did_register, did_disconnect, did_accept, did_bind,
  did_submit, did_reconcile, did_observe, did_set_spawner, Reach, here, next, reconcile_intent-Same,
  observe_event-Same,
}
use edgectl.Mirage.Server.Registry.{IsTracked, Reach-IsTracked, Reach-trans}

unfoldable time_in : Option RegisteredGhostState → Option ℕ
time_in none = none
time_in (some state) = state.meta.registered_at

insert-keeps_time :
    (i g : Text) (state : RegisteredGhostState) (reg : Map Text RegisteredGhostState) {a : ℕ}
    → (time_in (lookup i reg) ≡ some a → state.meta.registered_at ≡ some a)
    → time_in (lookup g reg) ≡ some a
    → time_in (lookup g (insert i state reg)) ≡ some a
unfolding time_in
insert-keeps_time i g state reg h k = elim (Bool-cases (same i g)) [
  | inl e ↦ rw (lookup-insert i g state reg, e) (h (rw ((same_iff i g).0 e) k))
  | inr e ↦ rw (lookup-insert i g state reg, e) k
]

acknowledge_time :
    (now : ℕ) (g : Text) (event : Event) (state : RegisteredGhostState)
    → (acknowledge now g event state).0.meta.registered_at ≡ state.meta.registered_at
unfolding acknowledge
acknowledge_time now g event state = ground arith

module _ {X W : Type 0} where
  Step-keeps_time :
      {s t : Server X W}
      → Step s t
      → (g : Text) {a : ℕ} → time_in (lookup g s.registry) ≡ some a
      → time_in (lookup g t.registry) ≡ some a
  unfolding time_in appear shimmer seed upsert_registration mark_ghost_disconnected accept_event
      register_executor submit_issue set_ghost_spawner found_or registered_as fresh
  Step-keeps_time {s = s} (did_appear i) g h = ground arith
  Step-keeps_time {s = s} did_shimmer g h = ground arith
  Step-keeps_time {s = s} did_seed g h = ground arith
  Step-keeps_time {s = s} (did_register net now addr reg) g h =
      insert-keeps_time reg.ghost_id g _ s.registry (λ k. ground arith) h
  Step-keeps_time {s = s} (did_disconnect i) g h = elim (Option-cases (lookup i s.registry)) [
    | inl e ↦ rw (mark_ghost_disconnected, e) h
    | inr (state, e) ↦
        rw (mark_ghost_disconnected, e) (insert-keeps_time i g _ s.registry (λ k. ground arith) h)
  ]
  Step-keeps_time {s = s} (did_accept now i event) g h =
      insert-keeps_time i g _ s.registry
        (λ k. ground (
          arith,
          acknowledge_time now i event (found_or (unregistered now i) (lookup i s.registry)),
        ))
        h
  Step-keeps_time {s = s} (did_bind i exec) g h = ground arith
  Step-keeps_time {s = s} (did_submit now issue) g h = ground arith
  Step-keeps_time {s = s} (did_reconcile json exec now i) g h =
      let e = (reconcile_intent-Same json exec now s i).registry in rw e h
  Step-keeps_time {s = s} (did_observe now event) g h =
      let e = (observe_event-Same now s event).registry in rw e h
  Step-keeps_time {s = s} (did_set_spawner spawner) g h = h

  Reach-keeps_time :
      {s t : Server X W}
      → Reach s t
      → (g : Text) {a : ℕ} → time_in (lookup g s.registry) ≡ some a
      → time_in (lookup g t.registry) ≡ some a
  Reach-keeps_time here g h = h
  Reach-keeps_time (next r st) g h = Step-keeps_time st g (Reach-keeps_time r g h)

  -- What a later state knows of a Ghost of which an earlier one knew `state`.
  pub record StaysTracked (g : Text) (state : RegisteredGhostState) (t : Server X W) : Type 0 where
    pub later : RegisteredGhostState
    pub found : lookup g t.registry ≡ some later
    pub tracked : IsTracked g later
    pub since : ℕ
    pub was_since : state.meta.registered_at ≡ some since
    pub is_since : later.meta.registered_at ≡ some since

  -- A Ghost that is in the registry of a state that a new server can reach is there with a time of
  -- registration, and in every state after it is there with this very time. Its entry is about the Ghost
  -- that it is stored under, the event counter is the number of the acknowledgements that are stored,
  -- modulo 2 ^ 64, and each of them names this Ghost and the event that it is stored under.
  pub Reach-StaysTracked :
      (s t : Server X W) (g : Text) (state : RegisteredGhostState)
      → Reach new_server s
      → lookup g s.registry ≡ some state
      → Reach s t
      → StaysTracked g state t
  unfolding time_in
  Reach-StaysTracked s t g state start known run = elim (Option-cases state.meta.registered_at) [
    | inl never ↦ absurd ((Reach-IsTracked s g state start known).registered never)
    | inr (since, at_first) ↦
        let kept : time_in (lookup g t.registry) ≡ some since =
          Reach-keeps_time run g (rw known at_first) in
        elim (Option-cases (lookup g t.registry)) [
          | inl gone ↦ absurd (ground (arith, kept, gone))
          | inr (later, found) ↦ record {
            later = later;
            found = found;
            tracked = Reach-IsTracked t g later (Reach-trans start run) found;
            since = since;
            was_since = at_first;
            is_since = ground (arith, kept, found);
          }
        ]
  ]
