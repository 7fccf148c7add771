-- ===== src/Session/Tests.antt =====
-- Concrete messages, and the theorems of these components on them.
use edgectl.Prelude.{
  List, ℕ, Bool, ltb, Option, All, ◌==◌, true, false, ◌⊎◌, ◌↔◌, inl, inr, same, ◌≡◌, refl, [], ◌∷◌,
  ◌++◌, codes, Text, trim_space, if◌then◌else◌, none, some, ok, arith, put_be,
}
use edgectl.Tlv.{get_field, encode_fields, encode_field}
use edgectl.Frame.{Frame, read_frame, default_limits, write_frame, encode_header, complete_header}
use edgectl.Schema.{
  validate, check_requirements, check_requirement, msg_event, msg_event_ack, msg_report,
  msg_command,
}
use edgectl.Session.{require, require_nonzero, put_u64, put_u32, encode_message}
use edgectl.Session.Event.{Event, validate_event, encode_event_frame, decode_event_frame}
use edgectl.Session.Event.RoundTrip.{
  encode_event_frame_succeeds, decode_event_frame-encode_event_frame,
}
use edgectl.Session.Ack.{EventAck, validate_ack, encode_event_ack_frame, decode_event_ack_frame}
use edgectl.Session.Ack.RoundTrip.{decode_event_ack_frame-encode_event_ack_frame}
use edgectl.Session.Report.{Report, validate_report, encode_report_frame, decode_report_frame}
use edgectl.Session.Report.RoundTrip.{wire_report, decode_report_frame-encode_report_frame}
use edgectl.Session.Command.{
  Args, Json, Command, validate_command, encode_command_frame, decode_command_frame,
}
use edgectl.Session.Command.RoundTrip.{SameCommand, decode_command_frame-encode_command_frame}
use edgectl.Session.Control.{
  Registration, RegistrationAck, Envelope, EnvelopeJson, control_type_register,
  control_type_register_ack, newline, require_text, validate_registration,
  validate_registration_ack, validate_seed_list, validate_seeds, write_control_envelope,
  write_registration, read_registration, write_registration_ack, read_registration_ack,
}
use edgectl.Session.Control.RoundTrip.{read-write_registration}
use edgectl.Session.Transport.{
  TlsConfig, production, normalize_security_mode, validate_client_transport,
  validate_server_transport,
}
use edgectl.Session.Transport.Production.{IsMutual, production_iff}
use edgectl.Session.Config.{Config, negsuc, pos}
use edgectl.Session.Outbox.{PendingEvent}
use edgectl.Session.Outbox.Replay.{Op, queues, attempts, settles}

abbrev event : Event
event = record {
  event_id = codes "evt.c";
  command_id = codes "c";
  intent_id = codes "i";
  ghost_id = codes "g";
  seed_id = codes "seed.flow";
  outcome = codes "success";
  timestamp_ms = 1;
}

event-valid : validate_event event ≡ ok tt
unfolding validate_event require trim_space
event-valid = refl

sent_event : (out : Text) × (encode_event_frame 7 event ≡ ok out)
sent_event =
    encode_event_frame_succeeds 7 event event-valid
      (unfold encode_fields encode_field put_be put_u64 in omega arith)

decode_event_frame-encode_event_frame_example :
    (f : Frame) × (read_frame default_limits (sent_event.0 ++ 9 ∷ []) ≡ ok (f, 9 ∷ []))
    × (f.header.message_id ≡ 7)
    × (f.header.message_type ≡ msg_event)
    × (decode_event_frame f ≡ ok event)
decode_event_frame-encode_event_frame_example =
    decode_event_frame-encode_event_frame 7 event sent_event.0 (9 ∷ []) (omega arith) (omega arith)
      sent_event.1

abbrev ack : EventAck
ack = record {
  event_id = codes "evt.c";
  command_id = codes "c";
  ghost_id = codes "g";
  ack_status = codes "accepted";
  ack_code = 0;
  timestamp_ms = 1;
}

sent_ack : (out : Text) × (encode_event_ack_frame 8 ack ≡ ok out)
unfolding encode_event_ack_frame validate_ack require require_nonzero trim_space encode_message
    validate check_requirements check_requirement get_field encode_fields encode_field put_be
    put_u32 put_u64 write_frame default_limits encode_header complete_header
sent_ack = (_, refl)

decode_event_ack_frame-encode_event_ack_frame_example :
    (f : Frame) × (read_frame default_limits (sent_ack.0 ++ []) ≡ ok (f, []))
    × (f.header.message_id ≡ 8)
    × (f.header.message_type ≡ msg_event_ack)
    × (decode_event_ack_frame f ≡ ok ack)
decode_event_ack_frame-encode_event_ack_frame_example =
    decode_event_ack_frame-encode_event_ack_frame 8 ack sent_ack.0 [] (omega arith) (omega arith)
      (omega arith) sent_ack.1

abbrev report : Report
report = record {
  intent_id = codes "i";
  phase = codes "complete";
  summary = codes "done";
  completion_state = codes "satisfied";
  command_id = codes " c ";
  execution_id = [];
  event_id = [];
  outcome = codes "success";
  timestamp_ms = 3;
}

sent_report : (out : Text) × (encode_report_frame 9 report ≡ ok out)
unfolding encode_report_frame validate_report require require_nonzero trim_space encode_message
    validate check_requirements check_requirement get_field encode_fields encode_field put_be
    put_u32 put_u64 write_frame default_limits encode_header complete_header
sent_report = (_, refl)

decode_report_frame-encode_report_frame_example :
    (f : Frame) × (read_frame default_limits (sent_report.0 ++ []) ≡ ok (f, []))
    × (f.header.message_id ≡ 9)
    × (f.header.message_type ≡ msg_report)
    × (decode_report_frame f ≡ ok (wire_report report))
decode_report_frame-encode_report_frame_example =
    decode_report_frame-encode_report_frame 9 report sent_report.0 [] (omega arith) (omega arith)
      sent_report.1

-- A codec for the map of one argument only.
abbrev one_arg : Args
one_arg = (codes "key", codes "v") ∷ []

abbrev one_arg_json : Json
one_arg_json = record {
  marshal = λ m. codes "{\"key\":\"v\"}";
  unmarshal = λ t. some one_arg;
  IsUtf8 = λ m. m ≡ one_arg;
  unmarshal-marshal = λ m is_that. (one_arg, refl, λ k. rw is_that refl);
}

abbrev command : Command
command = record {
  command_id = codes "c";
  intent_id = codes "i";
  ghost_id = codes "g";
  seed_selector = codes "seed.flow";
  operation = codes "status";
  args = one_arg;
}

sent_command : (out : Text) × (encode_command_frame one_arg_json 10 command ≡ ok out)
unfolding encode_command_frame validate_command require require_nonzero trim_space encode_message
    validate check_requirements check_requirement get_field encode_fields encode_field put_be
    put_u32 put_u64 write_frame default_limits encode_header complete_header
sent_command = (_, refl)

decode_command_frame-encode_command_frame_example :
    (f : Frame) × (d : Command) × (read_frame default_limits (sent_command.0 ++ []) ≡ ok (f, []))
    × (f.header.message_id ≡ 10)
    × (f.header.message_type ≡ msg_command)
    × (decode_command_frame one_arg_json f ≡ ok d)
    × SameCommand d command
decode_command_frame-encode_command_frame_example =
    decode_command_frame-encode_command_frame one_arg_json 10 command sent_command.0 []
      (omega arith) refl sent_command.1

abbrev waiting : PendingEvent
waiting = record {
  event_id = codes " e1 ";
  command_id = codes "c";
  ghost_id = codes "g";
  attempts = 0;
  queued_at = 5;
  last_attempt_at = 0;
  ack_deadline_at = 0;
  last_error = [];
}

abbrev registration : Registration
registration = record {
  ghost_id = codes "g";
  peer_identity = codes "g.local";
  seed_list =
      some (record { id = codes "seed.kv"; name = codes "kv"; description = codes "values" } ∷ []);
}

abbrev registered : RegistrationAck
registered = record {
  status = codes "accepted";
  code = 0;
  message = codes "registered";
  ghost_id = codes "g";
  timestamp_ms = 1;
}

abbrev registration_line : Envelope
registration_line = record { typ = control_type_register; reg = some registration; ack = none }

abbrev ack_line : Envelope
ack_line = record { typ = control_type_register_ack; reg = none; ack = some registered }

abbrev letter : Option RegistrationAck → Text
letter none = codes "r"
letter (some _) = codes "a"

letter_one_line : (a : Option RegistrationAck) → All (λ c. (c == newline) ≡ false) (letter a)
letter_one_line none = (refl, tt)
letter_one_line (some _) = (refl, tt)

abbrev letter_of : Text → Envelope
letter_of t = if same t (codes "r" ++ newline ∷ []) then registration_line else ack_line

letter_read :
    (e : Envelope)
    → (e ≡ registration_line) ⊎ (e ≡ ack_line)
    → ◌≡◌ {A = Option Envelope} (some (letter_of (letter e.ack ++ newline ∷ []))) (some e)
unfolding same
letter_read e (inl p) = rw p refl
letter_read e (inr p) = rw p refl

-- A codec for these two lines only.
abbrev two_lines : EnvelopeJson
two_lines = record {
  marshal = λ e. letter e.ack;
  unmarshal = λ t. some (letter_of t);
  IsUtf8 = λ e. (e ≡ registration_line) ⊎ (e ≡ ack_line);
  one_line = λ e. letter_one_line e.ack;
  unmarshal-marshal = letter_read;
}

abbrev r_line : Text
r_line = codes "r" ++ newline ∷ []

abbrev a_line : Text
a_line = codes "a" ++ newline ∷ []

sent_registration : write_registration two_lines registration ≡ ok r_line
unfolding write_registration write_control_envelope validate_registration validate_seed_list
    validate_seeds require_text trim_space
sent_registration = refl

sent_registration_ack : write_registration_ack two_lines registered ≡ ok a_line
unfolding write_registration_ack write_control_envelope validate_registration_ack require_text
    trim_space same
sent_registration_ack = refl

read-write_registration_example :
    (read_registration two_lines (r_line ++ codes "x") ≡ ok (registration, codes "x"))
    × (read_registration_ack two_lines (a_line ++ codes "x") ≡ ok (registered, codes "x"))
read-write_registration_example =
    read-write_registration two_lines registration registered r_line a_line (codes "x") (inl refl)
      (inr refl) (omega arith) (omega arith) sent_registration sent_registration_ack

abbrev tls : TlsConfig
tls = record {
  enabled = true;
  is_mutual = true;
  cert_file = codes "c.pem";
  key_file = codes "k.pem";
  ca_file = codes "ca.pem";
  server_name = [];
  insecure_skip_verify = false;
}

in_production : normalize_security_mode (λ t. t) (codes " production ") ≡ production
unfolding normalize_security_mode trim_space
in_production = refl

production_iff_example :
    ((validate_client_transport (λ t. t) (codes " production ") tls ≡ ok tt)
      ↔ (IsMutual tls × (tls.insecure_skip_verify ≡ false)))
    × ((validate_server_transport (λ t. t) (codes " production ") tls ≡ ok tt) ↔ IsMutual tls)
production_iff_example = production_iff (λ t. t) (codes " production ") tls in_production

-- A float is a number of hundredths.
abbrev above_0 : ℕ → Bool
above_0 n = ltb 0 n

abbrev unset : Config ℕ
unset = record {
  connect_timeout = negsuc 4;
  handshake_timeout = pos 7;
  read_timeout = pos 0;
  write_timeout = pos 0;
  heartbeat_interval = pos 0;
  session_dead_after = pos 0;
  ack_timeout = pos 0;
  security_mode = [];
  tls = tls;
  backoff = record { initial_delay = pos 0; multiplier = 0; max_delay = pos 0; jitter = false };
}

abbrev history : List Op
history =
    queues waiting
    ∷ attempts (codes "e1 ") 9 (codes "timeout")
    ∷ queues waiting
    ∷ settles (codes "e2")
    ∷ []
