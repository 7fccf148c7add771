-- ===== src/Ghost/MirageClient.antt =====
-- mirage_client.go: a Ghost's session with Mirage. Dialing, the bytes on the connection, the waits and
-- the clock in nanoseconds are an interface, of which nothing is assumed. One client at a time uses a session: its
-- mutex makes a delivery one step.
pub mod Attempts
pub mod Answers
pub mod Delivery
mod Tests
use edgectl.Prelude.{
  ℕ, zero, suc, ◌+◌, ◌/◌, ◌%◌, ◌^◌, List, [], ◌∷◌, ◌++◌, map, Bool, true, false, not, ◌||◌, ◌==◌,
  ltb, if◌then◌else◌, Text, codes, same, is_empty, trim_space, Option, none, some, Result, ok, err,
  ◌>>=◌, ◌>>◌, map_err,
}
use edgectl.Frame.{read_frame, default_limits}
use edgectl.Seeds.{SeedMetadata}
use edgectl.Session.{SessionError, frame_error}
use edgectl.Session.Control.{
  SeedInfo, Registration, ControlError, EnvelopeJson, write_registration, read_registration_ack,
  ack_status_accepted,
}
use edgectl.Session.Event.{Event, validate_event, encode_event_frame}
use edgectl.Session.Ack.{EventAck, decode_event_ack_frame}
use edgectl.Session.Outbox.{
  EventOutbox, PendingEvent, new_event_outbox, upsert, mark_attempt, discard,
}
use edgectl.Session.Config.{ℤ, pos, negsuc}
use edgectl.Ghost.Envelopes.{EventEnv}

-- `MirageClientConfig` without the session's settings.
pub record MirageClientConfig : Type 0 where
  pub address : Text
  pub ghost_id : Text
  pub peer_identity : Text
  pub seed_list : List SeedInfo
  pub max_connect_attempts : ℤ

pub data ClientError : Type 0 where
  mirage_address_required ghost_id_required : ClientError
  dial_failed wait_cancelled connection_failed : Text → ClientError
  control_error : ControlError → ClientError
  registration_rejected : ℕ → Text → ClientError
  wire_error : SessionError → ClientError
  event_mismatch : Text → Text → ClientError
  ack_rejected : Text → ℕ → ClientError
  ack_timeout : ClientError

-- `exchange` writes bytes and returns those that arrive until the read is over; `left_over` is what a
-- failed read of a frame leaves of them.
pub record Wire (W : Type 0) : Type 0 where
  pub dial : Text → W → W × Result Text (Unit {0})
  pub exchange : Text → W → W × Result Text Text
  pub wait : ℕ → W → W × Result Text (Unit {0})
  pub clock : W → ℕ
  pub left_over : Text → Text

pub record MirageSession : Type 0 where
  pub reader : Text
  pub outbox : EventOutbox
  pub next_message_id : ℕ

unfoldable pub new_mirage_client : MirageClientConfig → Result ClientError MirageClientConfig
new_mirage_client cfg =
    if is_empty (trim_space cfg.address)
    then err mirage_address_required
    else if is_empty (trim_space cfg.ghost_id)
    then err ghost_id_required
    else ok (record cfg {
      peer_identity =
          if is_empty (trim_space cfg.peer_identity) then cfg.ghost_id else cfg.peer_identity;
    })

unfoldable pub should_retry : ℤ → ℕ → Bool
should_retry (pos zero) attempt = true
should_retry (pos (suc n)) attempt = ltb attempt (suc n)
should_retry (negsuc n) attempt = true

unfoldable pub seed_info_from_metadata : List SeedMetadata → List SeedInfo
seed_info_from_metadata list =
    map (λ meta. record { id = meta.id; name = meta.name; description = meta.description }) list

-- The trimmed event that is sent; a missing time is the clock's, in milliseconds.
unfoldable pub outgoing_event : ℕ → EventEnv → Event
outgoing_event now event = record {
  event_id = trim_space event.event_id;
  command_id = trim_space event.command_id;
  intent_id = trim_space event.intent_id;
  ghost_id = trim_space event.ghost_id;
  seed_id = trim_space event.seed_id;
  outcome = trim_space event.outcome;
  timestamp_ms = if event.timestamp_ms == 0 then now else event.timestamp_ms;
}

unfoldable pub is_rejection : ClientError → Bool
is_rejection (registration_rejected _ _) = true
is_rejection e = false

-- The acknowledgement of one event among the bytes that arrived, and the bytes behind it.
unfoldable pub read_ack : (Text → Text) → Event → Text → Text × Result ClientError EventAck
read_ack left_over event input = elim (read_frame default_limits input) [
  | err e ↦ (left_over input, err (wire_error (frame_error e)))
  | ok (f, rest) ↦ elim (decode_event_ack_frame f) [
    | err e ↦ (rest, err (wire_error e))
    | ok ack ↦
        if same ack.event_id event.event_id
        then (rest, ok ack)
        else (rest, err (event_mismatch event.event_id ack.event_id))
  ]
]

-- After the write: the acknowledgement is read from what arrived.
unfoldable pub receive :
    {W : Type 0}
    → (Text → Text)
    → MirageSession
    → Event
    → W × Result Text Text
    → W × MirageSession × Result ClientError EventAck
receive left_over s event (w, err e) = (w, s, err (connection_failed e))
receive left_over s event (w, ok input) =
    let (rest, r) = read_ack left_over event (s.reader ++ input) in
    (w, record s { reader = rest }, r)

unfoldable pub answered : EventAck → Result ClientError EventAck
answered ack =
    if same ack.ack_status ack_status_accepted
    then ok ack
    else err (ack_rejected ack.ack_status ack.ack_code)

unfoldable pub registration_of : MirageClientConfig → Registration
registration_of cfg = record {
  ghost_id = cfg.ghost_id;
  peer_identity = cfg.peer_identity;
  seed_list = some cfg.seed_list;
}

module _ {W : Type 0} (wire : Wire W) where
  -- What is read of the answer to a registration.
  unfoldable pub registered : EnvelopeJson → W → Text → Result ClientError MirageSession
  registered json w input = do
    (ack, rest) ← map_err control_error (read_registration_ack json input)
    (if not (same ack.status ack_status_accepted)
        then err (registration_rejected ack.code ack.message)
        else ok (record {
          reader = rest;
          outbox = new_event_outbox;
          next_message_id = wire.clock w % 2 ^ 64;
        }))

  unfoldable pub register :
      EnvelopeJson → MirageClientConfig → W → W × Result ClientError MirageSession
  register json cfg w = elim (write_registration json (registration_of cfg)) [
    | err e ↦ (w, err (control_error e))
    | ok line ↦
        let (w', r) = wire.exchange line w in
        (w', map_err connection_failed r >>= registered json w')
  ]

  -- One attempt: a dial, and the registration on it.
  unfoldable pub attempt_once :
      EnvelopeJson → MirageClientConfig → W → W × Result ClientError MirageSession
  attempt_once json cfg w =
      let (w', dialed) = wire.dial cfg.address w in
      elim dialed [ err e ↦ (w', err (dial_failed e)) | ok _ ↦ register json cfg w' ]

  -- `ConnectAndRegister` from an attempt on; `none` if its turns are spent.
  unfoldable pub connect_and_register :
      EnvelopeJson → MirageClientConfig → ℕ → ℕ → W → Option (W × Result ClientError MirageSession)
  connect_and_register json cfg zero attempt w = none
  connect_and_register json cfg (suc turns) attempt w =
      let (w', r) = attempt_once json cfg w in
      elim r [
        | ok s ↦ some (w', ok s)
        | err e ↦ elim (is_rejection e || not (should_retry cfg.max_connect_attempts attempt)) [
          | true ↦ some (w', err e)
          | false ↦
              let (w'', waited) = wire.wait attempt w' in
              elim waited [
                | err reason ↦ some (w'', err (wait_cancelled reason))
                | ok _ ↦ connect_and_register json cfg turns (suc attempt) w''
              ]
        ]
      ]

  unfoldable pub send_event_once :
      W → MirageSession → Event → W × MirageSession × Result ClientError EventAck
  send_event_once w s event =
      let id = (s.next_message_id + 1) % 2 ^ 64 in
      let s' : MirageSession = record s { next_message_id = id } in
      elim (encode_event_frame id event) [
        | err e ↦ (w, s', err (wire_error e))
        | ok bytes ↦ receive wire.left_over s' event (wire.exchange bytes w)
      ]

  module _ (explain : ClientError → Text) (event : Event) (deadline : ℕ) where
    -- The loop of `SendEventWithAck` from an attempt on; `none` if its turns are spent.
    unfoldable pub deliver :
        ℕ → ℕ → W → MirageSession → Option (W × MirageSession × Result ClientError EventAck)
    deliver zero attempt w s = none
    deliver (suc turns) attempt w s =
        let tried = (mark_attempt s.outbox event.event_id (wire.clock w) []).0 in
        let (w', s', r) = send_event_once w (record s { outbox = tried }) event in
        elim r [
          | ok ack ↦
              some (w', record s' { outbox = discard s'.outbox event.event_id }, answered ack)
          | err e ↦
              let failed = (mark_attempt s'.outbox event.event_id (wire.clock w') (explain e)).0 in
              let s'' : MirageSession = record s' { outbox = failed } in
              elim (ltb deadline (wire.clock w')) [
                | true ↦ some (w', s'', err ack_timeout)
                | false ↦
                    let (w'', waited) = wire.wait attempt w' in
                    elim waited [
                      | err reason ↦ some (w'', s'', err (wait_cancelled reason))
                      | ok _ ↦ deliver turns (suc attempt) w'' s''
                    ]
              ]
        ]

  unfoldable pub pending : ℕ → ℕ → Event → PendingEvent
  pending start deadline event = record {
    event_id = event.event_id;
    command_id = event.command_id;
    ghost_id = event.ghost_id;
    attempts = 0;
    queued_at = start;
    last_attempt_at = 0;
    ack_deadline_at = deadline;
    last_error = [];
  }

  unfoldable pub send_event_with_ack :
      (ClientError → Text)
      → ℕ
      → ℕ
      → W
      → MirageSession
      → EventEnv
      → Option (W × MirageSession × Result ClientError EventAck)
  send_event_with_ack explain timeout turns w s env =
      let start = wire.clock w in
      let event = outgoing_event (start / 1000000 % 2 ^ 64) env in
      elim (validate_event event) [
        | err e ↦ some (w, s, err (wire_error e))
        | ok _ ↦
            deliver explain event (start + timeout) turns 1 w
              (record s { outbox = upsert s.outbox (pending start (start + timeout) event) })
      ]
