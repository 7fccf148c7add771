-- ===== src/Mirage/Orchestrator/Progress.antt =====
-- Pending commands of orchestration.go: when there is one, and how a recorded event reduces them.
use edgectl.Prelude.{
  ℕ, ◌≤◌, ◌<◌, List, [], ◌∷◌, true, if◌then◌else◌, Text, same, same_iff, Map, lookup, insert, has,
  lookup-insert, lookup-insert_self, text_eq, Option, none, some, ok, err, ok-injective,
  Result-cases, inl, inr, ◌^◌, ◌≡◌, refl, sym, ap, ◌∙◌, ◌↔◌, arith,
}
use edgectl.Session.Event.{Event}
use edgectl.Session.Report.{Report}
use edgectl.Mirage.Issue.{PlannedCommand, wire_error}
use edgectl.Session.{SessionError}
use edgectl.Mirage.Orchestrator.{
  ObservedIntent, Orchestrator, next_pending_command, pending_command_count, closed_of, ensured,
  add_event, DesiredIntent, next_seq,
}
use edgectl.Mirage.Orchestrator.Pass.{
  record_event, drop_lock, ensure_observed, advance, finish_pass,
  ingest_event_envelope_and_build_report, abort,
}
use edgectl.Mirage.Orchestrator.Wire.{ingest_event_envelope_and_build_report-ok, next_seq_lt}

-- A pass finds no pending command exactly when the snapshot's count of pending commands is 0.
pub next_pending_command_iff :
    (commands : List PlannedCommand) (obs : Option ObservedIntent)
    → (next_pending_command commands obs ≡ none)
      ↔ (pending_command_count commands (closed_of obs) ≡ 0)
unfolding next_pending_command pending_command_count has lookup
next_pending_command_iff [] none = grind arith
next_pending_command_iff [] (some obs) = grind arith
next_pending_command_iff (c ∷ cs) none = grind arith
next_pending_command_iff (c ∷ cs) (some obs) =
    ground (arith, next_pending_command_iff cs (some obs))

pub has-insert :
    (k j : Text) (v : Event) (m : Map Text Event)
    → has j (insert k v m) ≡ (if same k j then true else has j m)
unfolding has
has-insert k j v m = ground (arith, lookup-insert k j v m)

count-insert_le :
    (commands : List PlannedCommand) (k : Text) (v : Event) (m : Map Text Event)
    → pending_command_count commands (insert k v m) ≤ pending_command_count commands m
unfolding pending_command_count
count-insert_le [] k v m = omega arith
count-insert_le (c ∷ cs) k v m =
    ground (arith, count-insert_le cs k v m, has-insert k c.command.command_id v m)

count-insert_lt :
    (commands : List PlannedCommand) (obs : ObservedIntent) (next : PlannedCommand) (k : Text)
    (v : Event)
    → next_pending_command commands (some obs) ≡ some next
    → k ≡ next.command.command_id
    → pending_command_count commands (insert k v obs.by_command_id)
      < pending_command_count commands obs.by_command_id
unfolding pending_command_count next_pending_command
count-insert_lt [] obs next k v h own = ground arith
count-insert_lt (c ∷ cs) obs next k v h own = ground (
  arith,
  count-insert_lt cs obs next k v,
  count-insert_le cs k v obs.by_command_id,
  has-insert k c.command.command_id v obs.by_command_id,
  same_iff k c.command.command_id,
)

module _ {X : Type 0} where
  drop_lock-observed :
      (o : Orchestrator X) (next : PlannedCommand) → (drop_lock o next).observed ≡ o.observed
  unfolding drop_lock
  drop_lock-observed o next = ground arith

  pub record_event-lookup :
      (now : ℕ) (o : Orchestrator X) (key : Text) (next : PlannedCommand) (report : Report)
      (event : Event)
      → lookup key (record_event now o key next report event).observed
        ≡ some (add_event now event report (ensured (lookup key o.observed)))
  unfolding record_event
  record_event-lookup now o key next report event =
      ap (lookup key) (drop_lock-observed _ next)
      ∙ lookup-insert_self key (add_event now event report (ensured (lookup key o.observed)))
          o.observed

  pub observed-ensure_observed :
      (o : Orchestrator X) (key : Text) (event : Event)
      → lookup key (advance (ensure_observed o key) event).observed
        ≡ some (ensured (lookup key o.observed))
  unfolding ensure_observed
  observed-ensure_observed o key event =
      lookup-insert_self key (ensured (lookup key o.observed)) o.observed

next_pending-ensured :
    (commands : List PlannedCommand) (obs : Option ObservedIntent) {next : PlannedCommand}
    → next_pending_command commands obs ≡ some next
    → next_pending_command commands (some (ensured obs)) ≡ some next
unfolding next_pending_command has lookup
next_pending-ensured [] none h = h
next_pending-ensured (c ∷ cs) none h = h
next_pending-ensured commands (some obs) h = h

closed_of-ensured : (obs : Option ObservedIntent) → (ensured obs).by_command_id ≡ closed_of obs
closed_of-ensured none = refl
closed_of-ensured (some obs) = refl

module _ {X : Type 0} where
  finish_pass-recorded :
      (now : ℕ) (o : Orchestrator X) (key : Text) (desired : DesiredIntent) (next : PlannedCommand)
      (event ingested : Event) (r : Report)
      → ingest_event_envelope_and_build_report now
          (next_seq o.seq)
          desired
          (ensured (lookup key o.observed))
          event
        ≡ ok (r, ingested)
      → finish_pass now o key desired next event
        ≡ (record_event now (advance (ensure_observed o key) event) key next r ingested, ok r)
  unfolding finish_pass
  finish_pass-recorded now o key desired next event ingested r e = rw (finish_pass, e) refl

  finish_pass-failed :
      (now : ℕ) (o : Orchestrator X) (key : Text) (desired : DesiredIntent) (next : PlannedCommand)
      (event : Event) (e : SessionError)
      → ingest_event_envelope_and_build_report now
          (next_seq o.seq)
          desired
          (ensured (lookup key o.observed))
          event
        ≡ err e
      → finish_pass now o key desired next event
        ≡ (abort (advance (ensure_observed o key) event) key next, err (wire_error e))
  unfolding finish_pass
  finish_pass-failed now o key desired next event e h = rw (finish_pass, h) refl

  finish_pass-ok :
      (now : ℕ) (o : Orchestrator X) (key : Text) (desired : DesiredIntent) (next : PlannedCommand)
      (event : Event) (o' : Orchestrator X) (r : Report)
      → now < 2 ^ 64
      → event.timestamp_ms < 2 ^ 64
      → finish_pass now o key desired next event ≡ (o', ok r)
      → lookup key o'.observed ≡ some (add_event now event r (ensured (lookup key o.observed)))
  finish_pass-ok now o key desired next event o' r hn ht e =
      elim (Result-cases (
        ingest_event_envelope_and_build_report now (next_seq o.seq) desired
          (ensured (lookup key o.observed)) event)) [
            | inl ((r', ingested), h) ↦
                let whole =
                  sym (finish_pass-recorded now o key desired next event ingested r' h) ∙ e in
                let is_same : ingested ≡ event =
                  (ingest_event_envelope_and_build_report-ok now (next_seq o.seq) desired
                    (ensured (lookup key o.observed)) event r' ingested (next_seq_lt o.seq) hn ht
                    h).0 in
                let is_report : r' ≡ r = ok-injective (ap (λ p. p.1) whole) in
                let kept = ap (λ p. lookup key (p.0).observed) whole in
                sym kept
                ∙ record_event-lookup now (advance (ensure_observed o key) event) key next r'
                    ingested
                ∙ rw (observed-ensure_observed o key event, is_same, is_report) refl
            | inr (b, h) ↦
                let whole = sym (finish_pass-failed now o key desired next event b h) ∙ e in
                let no : err (wire_error b) ≡ ok r = ap (λ p. p.1) whole in cc
          ]

  -- A pass that gets to a report with an event of its own command has fewer commands pending than before it.
  -- The clock and the event's timestamp fit 64 bits.
  pub finish_pass_progress :
      (now : ℕ) (o : Orchestrator X) (key : Text) (desired : DesiredIntent) (next : PlannedCommand)
      (event : Event) (o' : Orchestrator X) (r : Report)
      → next_pending_command desired.commands (lookup key o.observed) ≡ some next
      → now < 2 ^ 64
      → event.timestamp_ms < 2 ^ 64
      → event.command_id ≡ next.command.command_id
      → finish_pass now o key desired next event ≡ (o', ok r)
      → pending_command_count desired.commands (closed_of (lookup key o'.observed))
        < pending_command_count desired.commands (closed_of (lookup key o.observed))
  unfolding add_event
  finish_pass_progress now o key desired next event o' r pending hn ht own e =
      let obs = lookup key o.observed in
      let lt =
        count-insert_lt desired.commands (ensured obs) next event.command_id event
          (next_pending-ensured desired.commands obs pending) own in
      rw (finish_pass-ok now o key desired next event o' r hn ht e, sym (closed_of-ensured obs)) lt
