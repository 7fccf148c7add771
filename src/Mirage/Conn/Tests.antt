-- ===== src/Mirage/Conn/Tests.antt =====
-- A Ghost that registers over a connection and sends one event.
use edgectl.Prelude.{
  ℕ, ◌≡◌, ◌⊎◌, refl, [], ◌∷◌, ◌++◌, codes, Text, Bool, true, false, not, List, trim_space, same,
  lookup, insert, text_eq, none, some, Option, Result, ok, err, arith, put_be, ◌+◌,
}
use edgectl.Tlv.{get_field, encode_fields, encode_field}
use edgectl.Frame.{default_limits, write_frame, encode_header, complete_header}
use edgectl.Schema.{validate, check_requirements, check_requirement}
use edgectl.Session
use edgectl.Session.{put_u64, put_u32, encode_message}
use edgectl.Session.Event.{Event, encode_event_frame, validate_event}
use edgectl.Session.Ack.{EventAck, encode_event_ack_frame, validate_ack}
use edgectl.Session.Report.{Report}
use edgectl.Session.Transport.{TlsConfig, production, normalize_security_mode}
use edgectl.Session.Control.{
  Registration, Envelope, EnvelopeJson, newline, control_type_register, read_registration,
  read_control_envelope, read_line, expect, validate_registration, validate_seed_list,
  validate_seeds, require_text, write_registration_ack, write_control_envelope,
  validate_registration_ack, ack_status_accepted, ack_status_rejected,
}
use edgectl.Mirage.Server.{
  Server, RegisteredGhostState, new_server, appear, upsert_registration, found_or, fresh,
  accept_event, acknowledge, unregistered, ack_of,
}
use edgectl.Mirage.Server.Boundary.{observe_event}
use edgectl.Mirage.Orchestrator.Ingest.{ingest_observed_event, find_planned}
use edgectl.Mirage.Server.Discovery.{Net}
use edgectl.Mirage.Server.Steps.{Reach, here, next, did_appear}
use edgectl.Mirage.Handshake.{
  Certificate, PeerAuth, peer_identity_from_cert, identified, auth_of, authenticate_conn,
  binding_fault, handle_registration,
}
use edgectl.Mirage.Handshake.Identity.{handle_registration-authenticate_conn}
use edgectl.Mirage.Conn.{take_event, serve, handle_conn}
use edgectl.Mirage.Conn.Runs.{handle_conn_contained}
use edgectl.Mirage.Conn.Closing.{serve_enough, handle_conn-handle_registration}
use edgectl.Mirage.Conn.Exchange.{direct, send_event_once-direct}
use edgectl.Ghost.MirageClient.{Wire, MirageSession, send_event_once}

abbrev plain_net : Net
plain_net = record { split_host_port = λ t. none; join_host_port = λ h p. h ++ codes ":" ++ p }

abbrev registration : Registration
registration = record { ghost_id = codes "g"; peer_identity = codes "g"; seed_list = some [] }

abbrev line : Envelope
line = record { typ = control_type_register; reg = some registration; ack = none }

-- A codec for this line only.
abbrev one_line_json : EnvelopeJson
one_line_json = record {
  marshal = λ e. codes "r";
  unmarshal = λ t. some line;
  IsUtf8 = λ e. e ≡ line;
  one_line = λ e. (refl, tt);
  unmarshal-marshal = λ e h. rw h refl;
}

abbrev input : Text
input = codes "r" ++ newline ∷ []

abbrev server : Server Text (Unit {0})
server = (appear new_server (codes "m")).0

abbrev tls : TlsConfig
tls = record {
  enabled = true;
  is_mutual = true;
  cert_file = codes "c.pem";
  key_file = codes "k.pem";
  ca_file = codes "ca.pem";
  server_name = [];
  insecure_skip_verify = false;
}

abbrev cert : Certificate
cert = record { common_name = codes " g "; uris = []; dns_names = [] }

abbrev auth : PeerAuth
auth = record { peer_identity = codes "g"; authenticated = true }

is_production : same (normalize_security_mode (λ t. t) production) production ≡ true
unfolding same normalize_security_mode trim_space
is_production = refl

let_in : authenticate_conn (λ t. t) production tls (some (ok (cert ∷ []))) ≡ ok auth
unfolding authenticate_conn auth_of identified peer_identity_from_cert trim_space same
    normalize_security_mode
let_in = refl

handle_registration-authenticate_conn_example :
    let out =
      handle_registration one_line_json plain_net true 7 server (codes "10.0.0.7") auth input in
    ((out.0 ≡ server) × (out.2.status ≡ ack_status_rejected))
    ⊎ ((c : Certificate) × (more : List Certificate) × (◌≡◌
          {A = Option (Result Text (List Certificate))}
          (some (ok (cert ∷ [])))
          (some (ok (c ∷ more))))
        × (read_registration one_line_json input ≡ ok out.1)
        × (out.1.0.ghost_id ≡ peer_identity_from_cert c)
        × ((out.0, out.2) ≡ upsert_registration plain_net 7 server (codes "10.0.0.7") out.1.0))
handle_registration-authenticate_conn_example =
    handle_registration-authenticate_conn one_line_json plain_net (λ t. t) production tls
      (some (ok (cert ∷ []))) auth 7 server (codes "10.0.0.7") input is_production let_in

abbrev keep : Report → Unit {0} → Unit {0}
keep report w = w

abbrev clock : ℕ → ℕ
clock n = 7 + n

abbrev delivered : ℕ → Bool
delivered n = true

other_ghost :
    same
      (handle_registration one_line_json plain_net true 7 server
        (codes "10.0.0.7")
        auth
        input).1.0.ghost_id
      (codes "h")
    ≡ false
unfolding handle_registration read_registration read_control_envelope read_line expect
    validate_registration validate_seed_list validate_seeds require_text binding_fault same
    trim_space upsert_registration
other_ghost = refl

handle_conn_contained_example :
    let r =
      handle_registration one_line_json plain_net true 7 server (codes "10.0.0.7") auth input in
    let end =
      handle_conn keep one_line_json plain_net true clock delivered server tt
        (codes "10.0.0.7")
        (ok auth)
        input in
    (lookup (codes "h") end.0.registry ≡ lookup (codes "h") server.registry)
    × ((end.0 ≡ server) ⊎ (r.2.status ≡ ack_status_accepted))
handle_conn_contained_example =
    handle_conn_contained keep clock delivered one_line_json plain_net true server tt
      (codes "10.0.0.7") auth input (codes "h") other_ghost

serve_enough_example :
    serve keep clock delivered (codes "g") 40 1 server tt input
    ≡ serve keep clock delivered (codes "g") 2 1 server tt input
serve_enough_example =
    serve_enough keep clock delivered (codes "g") 40 1 server tt input (omega arith)

registered_ok :
    (handle_registration one_line_json plain_net true 7 server
      (codes "10.0.0.7")
      auth
      input).2.status
    ≡ ack_status_accepted
unfolding handle_registration read_registration read_control_envelope read_line expect
    validate_registration validate_seed_list validate_seeds require_text binding_fault same
    trim_space upsert_registration
registered_ok = refl

ack_line :
    write_registration_ack one_line_json
      (handle_registration one_line_json plain_net true 7 server (codes "10.0.0.7") auth input).2
    ≡ ok input
unfolding handle_registration read_registration read_control_envelope read_line expect
    validate_registration validate_seed_list validate_seeds require_text binding_fault same
    trim_space upsert_registration write_registration_ack write_control_envelope
    validate_registration_ack
ack_line = refl

handle_conn-handle_registration_example :
    let r =
      handle_registration one_line_json plain_net true 7 server (codes "10.0.0.7") auth input in
    let end =
      handle_conn keep one_line_json plain_net true clock delivered server tt
        (codes "10.0.0.7")
        (ok auth)
        input in
    (state : RegisteredGhostState) × (lookup r.1.0.ghost_id end.0.registry ≡ some state)
    × (state.meta.connected ≡ not true)
handle_conn-handle_registration_example =
    handle_conn-handle_registration keep clock delivered one_line_json plain_net true server tt
      (codes "10.0.0.7") auth input input registered_ok ack_line

abbrev event : Event
event = record {
  event_id = codes "evt.c";
  command_id = codes "c";
  intent_id = codes "i";
  ghost_id = codes "g";
  seed_id = codes "seed.kv";
  outcome = codes "success";
  timestamp_ms = 2;
}

abbrev session : MirageSession
session = record { reader = []; outbox = []; next_message_id = 4 }

abbrev wire : Wire (Server Text (Unit {0}) × Unit {0})
wire = record {
  dial = λ addr v. (v, ok tt);
  exchange = λ bytes v. (v, err []);
  wait = λ attempt v. (v, ok tt);
  clock = λ v. 7;
  left_over = λ t. t;
}

abbrev taken_ack : EventAck
taken_ack = record {
  event_id = codes "evt.c";
  command_id = codes "c";
  ghost_id = codes "g";
  ack_status = ack_status_accepted;
  ack_code = 0;
  timestamp_ms = 9;
}

taken : (take_event keep 9 (codes "g") server tt event).2 ≡ taken_ack
unfolding take_event accept_event acknowledge unregistered found_or fresh lookup insert ack_of
    observe_event ingest_observed_event find_planned appear trim_space
taken = refl

sent_event : (out : Text) × (encode_event_frame 5 event ≡ ok out)
unfolding encode_event_frame validate_event Session.require trim_space encode_message validate
    check_requirements check_requirement get_field encode_fields encode_field put_be put_u32 put_u64
    write_frame default_limits encode_header complete_header
sent_event = (_, refl)

sent_ack : (out : Text) × (encode_event_ack_frame 5 taken_ack ≡ ok out)
unfolding encode_event_ack_frame validate_ack Session.require Session.require_nonzero trim_space
    encode_message validate check_requirements check_requirement get_field encode_fields
    encode_field put_be put_u32 put_u64 write_frame default_limits encode_header complete_header
sent_ack = (_, refl)

server-Reach : Reach new_server server
server-Reach = next here (did_appear (codes "m"))

send_event_once-direct_example :
    let (s', w', ack) = take_event keep 9 (codes "g") server tt event in
    send_event_once (direct keep 9 (codes "g") wire) (server, tt) session event
    ≡ ((s', w'), record session { reader = []; next_message_id = 5 }, ok ack)
send_event_once-direct_example =
    send_event_once-direct keep 9 (codes "g") wire server tt session event sent_event.0 sent_ack.0
      server-Reach refl (omega arith) (rw taken (omega arith)) (rw taken (omega arith)) sent_event.1
      (rw taken sent_ack.1)
