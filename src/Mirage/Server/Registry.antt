-- ===== src/Mirage/Server/Registry.antt =====
-- The registry of Ghosts in server.go, over every run.
use edgectl.Prelude.{
  ℕ, suc, ◌%◌, ◌^◌, ◌∷◌, ◌≡◌, ◌≢◌, refl, sym, subst, [], Text, same, same_iff, Map, lookup, insert,
  lookup-insert, text_eq, Option, none, some, arith, Option-cases, Bool-cases, inl, inr, length,
}
use edgectl.Session.Ack.{EventAck}
use edgectl.Session.Event.{Event}
use edgectl.Session.Control.{Registration}
use edgectl.Mirage.Server.Discovery.{Net}
use edgectl.Mirage.Server.{
  Server, RegisteredGhostState, appear, shimmer, seed, new_server, first_time, registered_as,
  found_or, fresh, unregistered, acknowledge, ack_of, upsert_registration, mark_ghost_disconnected,
  accept_event,
}
use edgectl.Mirage.Server.Boundary.{register_executor, submit_issue, set_ghost_spawner}
use edgectl.Mirage.Server.Steps.{
  Step, did_appear, did_shimmer, did_seed, did_register, did_disconnect, did_accept, did_bind,
  did_submit, did_reconcile, did_observe, did_set_spawner, Reach, here, next, reconcile_intent-Same,
  observe_event-Same,
}

length-insert :
    {A : Type 0} (k : Text) (v : A) (m : Map Text A)
    → lookup k m ≡ none
    → length (insert k v m) ≡ suc (length m)
unfolding lookup insert
length-insert k v [] h = refl
length-insert k v ((j, w) ∷ m) h = ground (arith, length-insert k v m)

-- What the server knows of a Ghost is about this Ghost, and the counter counts its acknowledged events, as far as 64 bits go.
pub record IsTracked (ghost_id : Text) (state : RegisteredGhostState) : Type 0 where
  pub named : state.meta.ghost_id ≡ ghost_id
  pub registered : state.meta.registered_at ≢ none
  pub counted : state.meta.event_count ≡ length state.ack_by_event % 2 ^ 64
  pub own :
      (id : Text) (ack : EventAck)
      → lookup id state.ack_by_event ≡ some ack
      → (ack.event_id ≡ id) × (ack.ghost_id ≡ ghost_id)

unregistered-IsTracked : (now : ℕ) (g : Text) → IsTracked g (unregistered now g)
unfolding unregistered fresh lookup
unregistered-IsTracked now g = record {
  named = refl;
  registered = λ e. cc;
  counted = refl;
  own = λ id ack h. absurd cc;
}

acknowledge-IsTracked :
    (now : ℕ) (g : Text) (event : Event) (state : RegisteredGhostState)
    → IsTracked g state
    → IsTracked g (acknowledge now g event state).0
unfolding acknowledge ack_of
acknowledge-IsTracked now g event state h =
    elim (Option-cases (lookup event.event_id state.ack_by_event)) [
      | inr (ack, e) ↦ rw (acknowledge, e) h
      | inl e ↦
          rw (acknowledge, e)
            (record {
              named = h.named;
              registered = h.registered;
              counted = omega (
                arith,
                h.counted,
                length-insert event.event_id (ack_of now g event) state.ack_by_event e,
              );
              own = λ id ack k. ground (
                arith,
                lookup-insert event.event_id id (ack_of now g event) state.ack_by_event,
                same_iff event.event_id id,
                h.own id ack,
              );
            })
    ]

-- Every entry of a registry is tracked.
abbrev AllTracked : Map Text RegisteredGhostState → Type 0
AllTracked reg =
    (g : Text) (state : RegisteredGhostState) → lookup g reg ≡ some state → IsTracked g state

insert-AllTracked :
    (g : Text) (state : RegisteredGhostState) (reg : Map Text RegisteredGhostState)
    → IsTracked g state
    → AllTracked reg
    → AllTracked (insert g state reg)
insert-AllTracked g state reg h all i st k = elim (Bool-cases (same g i)) [
  | inl e ↦
      let p : state ≡ st = ground (arith, lookup-insert g i state reg) in
      subst (λ x. IsTracked i x) p (subst (λ x. IsTracked x state) ((same_iff g i).0 e) h)
  | inr e ↦ all i st (ground (arith, lookup-insert g i state reg))
]

found-IsTracked :
    (now : ℕ) (g : Text) (reg : Map Text RegisteredGhostState)
    → AllTracked reg
    → IsTracked g (found_or (unregistered now g) (lookup g reg))
unfolding found_or
found-IsTracked now g reg all = elim (Option-cases (lookup g reg)) [
  | inl e ↦ rw (found_or, e) (unregistered-IsTracked now g)
  | inr (state, e) ↦ rw (found_or, e) (all g state e)
]

first_time_ne : (now : ℕ) (t : Option ℕ) → first_time now t ≢ none
first_time_ne now none = λ e. cc
first_time_ne now (some t) = λ e. cc

registered_as-IsTracked :
    (net : Net) (now : ℕ) (addr : Text) (r : Registration) (reg : Map Text RegisteredGhostState)
    → AllTracked reg
    → IsTracked r.ghost_id (registered_as net now addr r (found_or fresh (lookup r.ghost_id reg)))
unfolding registered_as found_or fresh lookup
registered_as-IsTracked net now addr r reg all = elim (Option-cases (lookup r.ghost_id reg)) [
  | inl e ↦ rw e (record {
    named = refl;
    registered = first_time_ne now none;
    counted = refl;
    own = λ id ack h. absurd cc;
  })
  | inr (state, e) ↦
      let h = all r.ghost_id state e in
      rw e (record {
        named = refl;
        registered = first_time_ne now state.meta.registered_at;
        counted = h.counted;
        own = h.own;
      })
]

module _ {X W : Type 0} where
  upsert-AllTracked :
      (net : Net) (now : ℕ) (s : Server X W) (addr : Text) (reg : Registration)
      → AllTracked s.registry
      → AllTracked (upsert_registration net now s addr reg).0.registry
  unfolding upsert_registration
  upsert-AllTracked net now s addr reg all =
      insert-AllTracked reg.ghost_id _ s.registry
        (registered_as-IsTracked net now addr reg s.registry all) all

  disconnect-AllTracked :
      (s : Server X W) (g : Text)
      → AllTracked s.registry
      → AllTracked (mark_ghost_disconnected s g).registry
  unfolding mark_ghost_disconnected
  disconnect-AllTracked s g all = elim (Option-cases (lookup g s.registry)) [
    | inl e ↦ rw (mark_ghost_disconnected, e) all
    | inr (state, e) ↦
        let h = all g state e in
        rw (mark_ghost_disconnected, e)
          (insert-AllTracked g _ s.registry
            (record {
              named = h.named;
              registered = h.registered;
              counted = h.counted;
              own = h.own;
            })
            all)
  ]

  Step-AllTracked : {s t : Server X W} → Step s t → AllTracked s.registry → AllTracked t.registry
  unfolding appear shimmer seed accept_event register_executor submit_issue set_ghost_spawner
  Step-AllTracked {s = s} (did_appear i) all =
      let e : (appear s i).0.registry ≡ s.registry = ground arith in subst AllTracked (sym e) all
  Step-AllTracked {s = s} did_shimmer all =
      let e : (shimmer s).0.registry ≡ s.registry = ground arith in subst AllTracked (sym e) all
  Step-AllTracked {s = s} did_seed all =
      let e : (seed s).0.registry ≡ s.registry = ground arith in subst AllTracked (sym e) all
  Step-AllTracked {s = s} (did_register net now addr reg) all =
      upsert-AllTracked net now s addr reg all
  Step-AllTracked {s = s} (did_disconnect g) all = disconnect-AllTracked s g all
  Step-AllTracked {s = s} (did_accept now g event) all =
      insert-AllTracked g _ s.registry
        (acknowledge-IsTracked now g event (found_or (unregistered now g) (lookup g s.registry))
          (found-IsTracked now g s.registry all))
        all
  Step-AllTracked {s = s} (did_bind i exec) all = all
  Step-AllTracked {s = s} (did_submit now issue) all = all
  Step-AllTracked {s = s} (did_reconcile json exec now i) all =
      subst AllTracked (sym (reconcile_intent-Same json exec now s i).registry) all
  Step-AllTracked {s = s} (did_observe now event) all =
      subst AllTracked (sym (observe_event-Same now s event).registry) all
  Step-AllTracked {s = s} (did_set_spawner spawner) all = all

  Reach-AllTracked : {s : Server X W} → Reach new_server s → AllTracked s.registry
  unfolding lookup
  Reach-AllTracked here = λ g state h. absurd cc
  Reach-AllTracked (next r st) = Step-AllTracked st (Reach-AllTracked r)

  pub Reach-trans : {s t u : Server X W} → Reach s t → Reach t u → Reach s u
  Reach-trans p here = p
  Reach-trans p (next r st) = next (Reach-trans p r) st

  -- Every entry of a state that a new server can reach is tracked.
  pub Reach-IsTracked :
      (s : Server X W) (g : Text) (state : RegisteredGhostState)
      → Reach new_server s
      → lookup g s.registry ≡ some state
      → IsTracked g state
  Reach-IsTracked s g state run h = Reach-AllTracked run g state h
