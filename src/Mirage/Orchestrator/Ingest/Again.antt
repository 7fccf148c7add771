-- ===== src/Mirage/Orchestrator/Ingest/Again.antt =====
-- The same event, ingested a second time.
use edgectl.Prelude.{
  ℕ, ◌^◌, ◌<◌, Text, trim_space, lookup, lookup-insert_self, has, same_refl, text_eq, ok, err,
  Result-cases, last?-append, some, ◌≡◌, refl, sym, ap, ◌∙◌, inl, inr, arith, true, false,
}
use edgectl.Session.Event.{Event}
use edgectl.Session.Report.{Report}
use edgectl.Session.{SessionError}
use edgectl.Mirage.Issue.{PlannedCommand, wire_error}
use edgectl.Mirage.Orchestrator.{
  DesiredIntent, ObservedIntent, Orchestrator, next_seq, ensured, add_event,
  latest_report_or_synthesize_complete,
}
use edgectl.Mirage.Orchestrator.Pass.{
  ensure_observed, advance, record_event, drop_lock, ingest_event_envelope_and_build_report,
}
use edgectl.Mirage.Orchestrator.Ingest.{find_planned, ingest_new, ingest_observed_event}
use edgectl.Mirage.Orchestrator.Progress.{has-insert, record_event-lookup, observed-ensure_observed}
use edgectl.Mirage.Orchestrator.Wire.{ingest_event_envelope_and_build_report-ok, next_seq_lt}

add_event-seen :
    (now later : ℕ) (event : Event) (r : Report) (obs : ObservedIntent) (desired : DesiredIntent)
    → (has event.command_id (add_event now event r obs).by_command_id ≡ true)
      × (latest_report_or_synthesize_complete later desired (some (add_event now event r obs)) ≡ r)
unfolding add_event latest_report_or_synthesize_complete
add_event-seen now later event r obs desired = (
  ground (
    arith,
    has-insert event.command_id event.command_id event obs.by_command_id,
    same_refl event.command_id,
  ),
  rw (latest_report_or_synthesize_complete, last?-append obs.reports r) refl,
)

module _ {X : Type 0} where
  desired-record_event :
      (now : ℕ) (o : Orchestrator X) (key : Text) (next : PlannedCommand) (report : Report)
      (event : Event)
      → (record_event now o key next report event).desired ≡ o.desired
  unfolding record_event drop_lock
  desired-record_event now o key next report event = ground arith

  ingest_new-recorded :
      (now : ℕ) (o : Orchestrator X) (event : Event) (id : Text) (desired : DesiredIntent)
      (plan : PlannedCommand) (r : Report) (ingested : Event)
      → ingest_event_envelope_and_build_report now
          (next_seq o.seq)
          desired
          (ensured (lookup id o.observed))
          event
        ≡ ok (r, ingested)
      → ingest_new now o event id desired plan
        ≡ (record_event now (advance (ensure_observed o id) event) id plan r ingested, some (ok r))
  unfolding ingest_new
  ingest_new-recorded now o event id desired plan r ingested e = rw (ingest_new, e) refl

  ingest_new-failed :
      (now : ℕ) (o : Orchestrator X) (event : Event) (id : Text) (desired : DesiredIntent)
      (plan : PlannedCommand) (e : SessionError)
      → ingest_event_envelope_and_build_report now
          (next_seq o.seq)
          desired
          (ensured (lookup id o.observed))
          event
        ≡ err e
      → ingest_new now o event id desired plan
        ≡ (advance (ensure_observed o id) event, some (err (wire_error e)))
  unfolding ingest_new
  ingest_new-failed now o event id desired plan e h = rw (ingest_new, h) refl

  ingest_new-ok :
      (now : ℕ) (o : Orchestrator X) (event : Event) (id : Text) (desired : DesiredIntent)
      (plan : PlannedCommand) (o' : Orchestrator X) (r : Report)
      → now < 2 ^ 64
      → event.timestamp_ms < 2 ^ 64
      → ingest_new now o event id desired plan ≡ (o', some (ok r))
      → (o'.desired ≡ o.desired)
        × (lookup id o'.observed ≡ some (add_event now event r (ensured (lookup id o.observed))))
  unfolding ensure_observed
  ingest_new-ok now o event id desired plan o' r hn ht e =
      let obs = ensured (lookup id o.observed) in
      let o1 = advance (ensure_observed o id) event in
      elim (Result-cases
        (ingest_event_envelope_and_build_report now (next_seq o.seq) desired obs event)) [
          | inl ((r', ingested), h) ↦
              let whole = sym (ingest_new-recorded now o event id desired plan r' ingested h) ∙ e in
              let is_same : ingested ≡ event =
                (ingest_event_envelope_and_build_report-ok now (next_seq o.seq) desired obs event r'
                  ingested (next_seq_lt o.seq) hn ht h).0 in
              let is_report : r' ≡ r = cc (ap (λ p. p.1) whole) in
              (
                sym (ap (λ p. (p.0).desired) whole)
                    ∙ desired-record_event now o1 id plan r' ingested,
                sym (ap (λ p. lookup id (p.0).observed) whole)
                    ∙ record_event-lookup now o1 id plan r' ingested
                    ∙ rw (observed-ensure_observed o id event, is_same, is_report) refl,
              )
          | inr (b, h) ↦
              let whole = sym (ingest_new-failed now o event id desired plan b h) ∙ e in
              absurd (cc (ap (λ p. p.1) whole))
        ]

  -- An event that was ingested as new and answered with a report is, when it comes again with nothing ingested in between, answered with the same report, and its intent's observed state stays as it is.
  -- The clock and the event's timestamp fit 64 bits.
  pub ingest_observed_event_again :
      (now later : ℕ) (o o' : Orchestrator X) (event : Event) (id : Text) (desired : DesiredIntent)
      (plan : PlannedCommand) (r : Report)
      → now < 2 ^ 64
      → event.timestamp_ms < 2 ^ 64
      → find_planned (trim_space event.command_id) o.desired ≡ some (id, desired, plan)
      → has event.command_id (ensured (lookup id o.observed)).by_command_id ≡ false
      → ingest_observed_event now o event ≡ (o', some (ok r))
      → ((ingest_observed_event later o' event).1 ≡ some (ok r))
        × (lookup id (ingest_observed_event later o' event).0.observed ≡ lookup id o'.observed)
  unfolding ingest_observed_event ensure_observed
  ingest_observed_event_again now later o o' event id desired plan r hn ht found is_new e =
      let obs = ensured (lookup id o.observed) in
      let first : ingest_observed_event now o event ≡ ingest_new now o event id desired plan =
        rw (ingest_observed_event, found, is_new) refl in
      let (same_desired, now_seen) =
        ingest_new-ok now o event id desired plan o' r hn ht (sym first ∙ e) in
      let (closed, latest) = add_event-seen now later event r obs desired in
      let found' : find_planned (trim_space event.command_id) o'.desired
          ≡ some (id, desired, plan) =
        ap (find_planned (trim_space event.command_id)) same_desired ∙ found in
      let again : ingest_observed_event later o' event ≡ (ensure_observed o' id, some (ok r)) =
        rw (ingest_observed_event, found', now_seen, closed, latest) refl in
      (
        ap (λ p. p.1) again,
        ap (λ p. lookup id (p.0).observed) again
            ∙ lookup-insert_self id (ensured (lookup id o'.observed)) o'.observed
            ∙ rw now_seen refl,
      )
