-- ===== src/Mirage/Server/Acks.antt =====
-- Acknowledgements of events in server.go, over every run.
use edgectl.Prelude.{
  Option-cases, Bool-cases, inl, inr, Map, ℕ, ◌≡◌, refl, ap, [], ◌∷◌, sym, subst, Text, same,
  same_iff, lookup, insert, lookup-insert, lookup-insert_self, text_eq, Option, none, some, arith,
}
use edgectl.Session.Ack.{EventAck}
use edgectl.Session.Event.{Event}
use edgectl.Mirage.Server.{
  Server, RegisteredGhostState, appear, shimmer, seed, registered_as, found_or, fresh, unregistered,
  acknowledge, ack_of, upsert_registration, mark_ghost_disconnected, accept_event,
}
use edgectl.Mirage.Server.Boundary.{register_executor, submit_issue, set_ghost_spawner}
use edgectl.Mirage.Server.Steps.{
  Step, did_appear, did_shimmer, did_seed, did_register, did_disconnect, did_accept, did_bind,
  did_submit, did_reconcile, did_observe, did_set_spawner, Reach, here, next, reconcile_intent-Same,
  observe_event-Same,
}

-- The acknowledgement of an event that a Ghost's state holds.
unfoldable pub ack_in : Text → Option RegisteredGhostState → Option EventAck
ack_in event_id none = none
ack_in event_id (some state) = lookup event_id state.ack_by_event

-- A map that has the entry already stays as it is.
insert-same :
    {A : Type 0} (k : Text) (v : A) (m : Map Text A) → lookup k m ≡ some v → insert k v m ≡ m
unfolding lookup insert
insert-same k v [] h = absurd cc
insert-same k v ((j, w) ∷ m) h = elim (Bool-cases (same j k)) [
  | inl e ↦ let p : w ≡ v = ground (arith, h, e) in rw (e, insert) (rw p refl)
  | inr e ↦ rw (e, insert) (ap (λ l. (j, w) ∷ l) (insert-same k v m (ground (arith, h, e))))
]

acknowledge-keeps :
    (now : ℕ) (g : Text) (event : Event) (state : RegisteredGhostState) (id : Text) {a : EventAck}
    → lookup id state.ack_by_event ≡ some a
    → lookup id (acknowledge now g event state).0.ack_by_event ≡ some a
unfolding acknowledge
acknowledge-keeps now g event state id h = ground (
  arith,
  lookup-insert event.event_id id (ack_of now g event) state.ack_by_event,
  same_iff event.event_id id,
)

acknowledge-holds :
    (now : ℕ) (g : Text) (event : Event) (state : RegisteredGhostState)
    → let (state', ack) = acknowledge now g event state in
      lookup event.event_id state'.ack_by_event ≡ some ack
unfolding acknowledge
acknowledge-holds now g event state =
    ground (arith, lookup-insert_self event.event_id (ack_of now g event) state.ack_by_event)

insert-keeps :
    (i g id : Text) (state : RegisteredGhostState) (reg : Map Text RegisteredGhostState)
    {a : EventAck}
    → (ack_in id (lookup i reg) ≡ some a → lookup id state.ack_by_event ≡ some a)
    → ack_in id (lookup g reg) ≡ some a
    → ack_in id (lookup g (insert i state reg)) ≡ some a
unfolding ack_in
insert-keeps i g id state reg h k = elim (Bool-cases (same i g)) [
  | inl e ↦ rw (lookup-insert i g state reg, e) (h (rw ((same_iff i g).0 e) k))
  | inr e ↦ rw (lookup-insert i g state reg, e) k
]

module _ {X W : Type 0} where
  unfoldable pub recorded : Server X W → Text → Text → Option EventAck
  unfolding ack_in
  recorded s ghost_id event_id = ack_in event_id (lookup ghost_id s.registry)

  Step-recorded :
      {s t : Server X W}
      → Step s t
      → (g id : Text) {a : EventAck} → recorded s g id ≡ some a
      → recorded t g id ≡ some a
  unfolding recorded ack_in appear shimmer seed upsert_registration mark_ghost_disconnected
      accept_event register_executor submit_issue set_ghost_spawner found_or registered_as fresh
  Step-recorded {s = s} (did_appear i) g id h = ground arith
  Step-recorded {s = s} did_shimmer g id h = ground arith
  Step-recorded {s = s} did_seed g id h = ground arith
  Step-recorded {s = s} (did_register net now addr reg) g id h =
      insert-keeps reg.ghost_id g id _ s.registry (λ k. ground arith) h
  Step-recorded {s = s} (did_disconnect i) g id h = elim (Option-cases (lookup i s.registry)) [
    | inl e ↦ rw (mark_ghost_disconnected, e) h
    | inr (state, e) ↦
        rw (mark_ghost_disconnected, e) (insert-keeps i g id _ s.registry (λ k. ground arith) h)
  ]
  Step-recorded {s = s} (did_accept now i event) g id h =
      insert-keeps i g id _ s.registry
        (λ k.
          acknowledge-keeps now i event (found_or (unregistered now i) (lookup i s.registry)) id
            (ground arith))
        h
  Step-recorded {s = s} (did_bind i exec) g id h = ground arith
  Step-recorded {s = s} (did_submit now issue) g id h = ground arith
  Step-recorded {s = s} (did_reconcile json exec now i) g id h =
      let e = (reconcile_intent-Same json exec now s i).registry in rw e h
  Step-recorded {s = s} (did_observe now event) g id h =
      let e = (observe_event-Same now s event).registry in rw e h
  Step-recorded {s = s} (did_set_spawner spawner) g id h = h

  pub accept_event-recorded :
      (now : ℕ) (s : Server X W) (g : Text) (event : Event)
      → let (t, ack) = accept_event now s g event in recorded t g event.event_id ≡ some ack
  unfolding accept_event recorded ack_in
  accept_event-recorded now s g event =
      let (state, ack) =
        acknowledge now g event (found_or (unregistered now g) (lookup g s.registry)) in
      rw (lookup-insert_self g state s.registry)
        (acknowledge-holds now g event (found_or (unregistered now g) (lookup g s.registry)))

  accept_event-known :
      (now : ℕ) (s : Server X W) (g : Text) (event : Event) {a : EventAck}
      → recorded s g event.event_id ≡ some a
      → (accept_event now s g event).1 ≡ a
  unfolding accept_event recorded ack_in acknowledge found_or
  accept_event-known now s g event h = ground arith

  accept_event-unchanged :
      (now : ℕ) (s : Server X W) (g : Text) (event : Event) {a : EventAck}
      → recorded s g event.event_id ≡ some a
      → (accept_event now s g event).0 ≡ s
  unfolding accept_event recorded ack_in acknowledge found_or
  accept_event-unchanged now s g event {a = a} h = elim (Option-cases (lookup g s.registry)) [
    | inl gone ↦ absurd (ground (arith, h, gone))
    | inr (state, found) ↦
        let held : lookup event.event_id state.ack_by_event ≡ some a = ground (arith, h, found) in
        rw (found, accept_event)
          (rw (held, acknowledge)
            (ap (λ m. record s { registry = m }) (insert-same g state s.registry found)))
  ]

  Reach-recorded :
      {s t : Server X W}
      → Reach s t
      → (g id : Text) {a : EventAck} → recorded s g id ≡ some a
      → recorded t g id ≡ some a
  Reach-recorded here g id h = h
  Reach-recorded (next r st) g id h = Step-recorded st g id (Reach-recorded r g id h)

  -- Once an event was accepted from a Ghost, every later event of this Ghost with the same id gets the very same acknowledgement, whatever the server did in between (registrations and disconnections of the Ghost included) and whatever the clock says, and it leaves the whole server as it was.
  pub accept_event_again :
      (now later : ℕ) (s t : Server X W) (g : Text) (event again : Event)
      → Reach (accept_event now s g event).0 t
      → again.event_id ≡ event.event_id
      → accept_event later t g again ≡ (t, (accept_event now s g event).1)
  accept_event_again now later s t g event again run same_id =
      let held = Reach-recorded run g event.event_id (accept_event-recorded now s g event) in
      let known =
        subst (λ id. recorded t g id ≡ some (accept_event now s g event).1) (sym same_id) held in
      rw (accept_event-unchanged later t g again known)
        (rw (accept_event-known later t g again known) refl)
