-- ===== src/Mirage/Orchestrator/Wire.antt =====
-- What the framed steps of orchestration.go return when they succeed.
use edgectl.Prelude.{
  ℕ, ◌^◌, ◌<◌, [], ◌++◌, append-nil, Text, ok, >>=-eq-ok, ok-injective, ◌≡◌, refl, sym, subst, ap,
  ◌∙◌, arith,
}
use edgectl.Frame.{Frame, read_frame, default_limits}
use edgectl.Session.Command.{Json, Command, encode_command_frame}
use edgectl.Session.Command.RoundTrip.{SameCommand, decode_command_frame-encode_command_frame}
use edgectl.Session.Event.{Event, encode_event_frame}
use edgectl.Session.Event.RoundTrip.{decode_event_frame-encode_event_frame}
use edgectl.Session.Report.{Report, encode_report_frame}
use edgectl.Session.Report.RoundTrip.{wire_report, decode_report_frame-encode_report_frame}
use edgectl.Mirage.Orchestrator.{
  DesiredIntent, ObservedIntent, build_report_from_observed, next_seq,
}
use edgectl.Mirage.Orchestrator.Pass.{
  read_one, through_event_frame, through_report_frame, dispatch_command_envelope,
  ingest_event_envelope_and_build_report,
}

read_one-ok :
    (out : Text) (f : Frame)
    → read_frame default_limits (out ++ []) ≡ ok (f, [])
    → read_one out ≡ ok f
read_one-ok out f e = rw (sym (ap (read_frame default_limits) (append-nil out)) ∙ e) refl

through_event_frame-ok :
    (n : ℕ) (e g : Event)
    → n < 2 ^ 64
    → e.timestamp_ms < 2 ^ 64
    → through_event_frame n e ≡ ok g
    → g ≡ e
unfolding through_event_frame
through_event_frame-ok n e g hn ht sent =
    let (out, framed, rest) = >>=-eq-ok (encode_event_frame n e) _ sent in
    let (f, was_read, _, _, decoded) =
      decode_event_frame-encode_event_frame n e out [] hn ht framed in
    ok-injective (sym rest ∙ rw (read_one-ok out f was_read) decoded)

through_report_frame-ok :
    (n : ℕ) (r s : Report)
    → n < 2 ^ 64
    → r.timestamp_ms < 2 ^ 64
    → through_report_frame n r ≡ ok s
    → s ≡ wire_report r
unfolding through_report_frame
through_report_frame-ok n r s hn ht sent =
    let (out, framed, rest) = >>=-eq-ok (encode_report_frame n r) _ sent in
    let (f, was_read, _, _, decoded) =
      decode_report_frame-encode_report_frame n r out [] hn ht framed in
    ok-injective (sym rest ∙ rw (read_one-ok out f was_read) decoded)

-- A command that the wire steps return is the command that was dispatched, if JSON represents its arguments.
-- The sequence number fits 64 bits.
pub dispatch_command_envelope-SameCommand :
    (json : Json) (n : ℕ) (c d : Command)
    → n < 2 ^ 64
    → json.IsUtf8 c.args
    → dispatch_command_envelope json n c ≡ ok d
    → SameCommand d c
unfolding dispatch_command_envelope
dispatch_command_envelope-SameCommand json n c d hn u sent =
    let (out, framed, rest) = >>=-eq-ok (encode_command_frame json n c) _ sent in
    let (f, d', was_read, _, _, decoded, same) =
      decode_command_frame-encode_command_frame json n c out [] hn u framed in
    let agree : d' ≡ d = ok-injective (sym (rw (read_one-ok out f was_read) decoded) ∙ rest) in
    subst (λ x. SameCommand x c) agree same

pub next_seq_lt : (n : ℕ) → next_seq n < 2 ^ 64
next_seq_lt n = omega arith

timestamp-build_report :
    (now : ℕ) (desired : DesiredIntent) (observed : ObservedIntent) (event : Event)
    → (build_report_from_observed now desired observed event).timestamp_ms ≡ now
unfolding build_report_from_observed
timestamp-build_report now desired observed event = refl

-- An event that the wire steps ingest is the event that was sent, and its report is the one that is built from it, but for the spaces around the report's optional ids.
-- The sequence number, the clock and the event's timestamp fit 64 bits.
pub ingest_event_envelope_and_build_report-ok :
    (now n : ℕ) (desired : DesiredIntent) (observed : ObservedIntent) (event : Event) (r : Report)
    (ingested : Event)
    → n < 2 ^ 64
    → now < 2 ^ 64
    → event.timestamp_ms < 2 ^ 64
    → ingest_event_envelope_and_build_report now n desired observed event ≡ ok (r, ingested)
    → (ingested ≡ event) × (r ≡ wire_report (build_report_from_observed now desired observed event))
unfolding ingest_event_envelope_and_build_report
ingest_event_envelope_and_build_report-ok now n desired observed event r ingested hn hnow ht sent =
    let (e, through, rest) = >>=-eq-ok (through_event_frame n event) _ sent in
    let is_same = through_event_frame-ok n event e hn ht through in
    let (w, wired, last) =
      >>=-eq-ok
        (through_report_frame (next_seq n) (build_report_from_observed now desired observed e)) _
        rest in
    let is_wired =
      through_report_frame-ok (next_seq n) (build_report_from_observed now desired observed e) w
        (next_seq_lt n) (rw (timestamp-build_report now desired observed e) hnow) wired in
    let pairs = ok-injective last in
    (
      sym (ap (λ p. p.1) pairs) ∙ is_same,
      sym (ap (λ p. p.0) pairs)
          ∙ is_wired
          ∙ ap (λ x. wire_report (build_report_from_observed now desired observed x)) is_same,
    )
