-- ===== src/Ghost/MirageClient/Tests.antt =====
-- A Ghost whose network is down.
use edgectl.Prelude.{
  ◌≤◌, ℕ, ◌≡◌, refl, [], ◌∷◌, codes, Text, text_eq, some, none, Option, Result, ok, err, ◌+◌,
}
use edgectl.Session
use edgectl.Session.Event.{Event}
use edgectl.Session.Control.{EnvelopeJson, Envelope}
use edgectl.Session.Outbox.{PendingEvent}
use edgectl.Session.Config.{pos}
use edgectl.Ghost.MirageClient.{
  Wire, MirageClientConfig, MirageSession, ClientError, connect_and_register,
}
use edgectl.Ghost.MirageClient.Attempts.{counted, connect_and_register-ends}

-- The state is the time.
abbrev down : Wire ℕ
down = record {
  dial = λ addr t. (t + 1, err (codes "refused"));
  exchange = λ bytes t. (t + 5, err (codes "reset"));
  wait = λ attempt t. (t + attempt, ok tt);
  clock = λ t. t;
  left_over = λ b. b;
}

-- No envelope is claimed to be read back.
abbrev no_json : EnvelopeJson
no_json = record {
  marshal = λ e. [];
  unmarshal = λ t. none;
  IsUtf8 = λ e. ◌≡◌ {A = Option Envelope} none (some e);
  one_line = λ e. tt;
  unmarshal-marshal = λ e h. h;
}

abbrev config : MirageClientConfig
config = record {
  address = codes "m:9000";
  ghost_id = codes "g";
  peer_identity = codes "g";
  seed_list = [];
  max_connect_attempts = pos 3;
}

connect_and_register-ends_example :
    (out : (ℕ × ℕ) × Result ClientError MirageSession) × (connect_and_register
        (counted down)
        no_json
        config
        3
        1
        (0, 0)
      ≡ some out)
    × (1 ≤ out.0.0)
    × (out.0.0 ≤ 3)
connect_and_register-ends_example = connect_and_register-ends down no_json config 2 0 refl

abbrev event : Event
event = record {
  event_id = codes "e";
  command_id = codes "c";
  intent_id = codes "i";
  ghost_id = codes "g";
  seed_id = codes "seed.kv";
  outcome = codes "success";
  timestamp_ms = 2;
}

abbrev entry : Text → PendingEvent
entry id = record {
  event_id = id;
  command_id = codes "c";
  ghost_id = codes "g";
  attempts = 0;
  queued_at = 0;
  last_attempt_at = 0;
  ack_deadline_at = 9;
  last_error = [];
}

abbrev session : MirageSession
session = record {
  reader = [];
  outbox = (codes "e", entry (codes "e")) ∷ (codes "f", entry (codes "f")) ∷ [];
  next_message_id = 4;
}

abbrev no_text : ClientError → Text
no_text e = []
