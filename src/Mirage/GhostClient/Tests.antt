-- ===== src/Mirage/GhostClient/Tests.antt =====
-- A command from Mirage to a Ghost with one seed, and back.
use edgectl.Prelude.{◌≡◌, refl, [], ◌∷◌, codes, Text, none, some, ok, err, true}
use edgectl.Session
use edgectl.Session.Command.{Args, Json, Command}
use edgectl.Seeds.{Seed}
use edgectl.Ghost.Envelopes.{radiating}
use edgectl.Ghost.Admin.{Admin}
use edgectl.Ghost.Admin.Envelope.{EnvelopeError}
use edgectl.Mirage.GhostClient.{ControlWire, ClientError, GhostAdminCommand, persist}
use edgectl.Mirage.GhostClient.Persist.{persist_fails}

-- A codec for the map of one argument only.
abbrev one_arg : Args
one_arg = (codes "key", codes "v") ∷ []

abbrev one_arg_json : Json
one_arg_json = record {
  marshal = λ m. codes "{\"key\":\"v\"}";
  unmarshal = λ t. some one_arg;
  IsUtf8 = λ m. m ≡ one_arg;
  unmarshal-marshal = λ m is_that. (one_arg, refl, λ k. rw is_that refl);
}

abbrev flow : Seed Text
flow = record {
  metadata = record { id = codes "seed.flow"; name = codes "flow"; description = codes "answers" };
  execute = λ operation args w.
      (w, record { status = codes "ok"; stdout = operation; stderr = []; exit_code = 0 }, none);
}

abbrev ghost : Admin Text
ghost = record {
  server = record {
    ghost_id = codes "g";
    phase = radiating;
    registry = some ((codes "seed.flow", flow) ∷ []);
    execution_by_id = [];
    execution_by_cmd_id = [];
    command_by_message_id = [];
  };
  admin_seq = 0;
  admin_events = [];
  verification_events = [];
}

abbrev command : GhostAdminCommand
command = record {
  ghost_id = codes "g";
  command_id = codes " c ";
  intent_id = codes "i";
  seed_selector = codes "seed.flow";
  operation = codes "status";
  args = one_arg;
}

abbrev no_text : EnvelopeError → Text
no_text e = []

-- A Ghost that takes every command.
abbrev agreeable : ControlWire Text
agreeable = record {
  exchange = λ addr line w. (w, ok line);
  marshal_request = λ r. r.action;
  unmarshal_response = λ t. some (record { is_ok = true; error = []; payload = t });
  unmarshal_spawn = λ t. none;
  unmarshal_frame = λ t. some t;
  unmarshal_status = λ t. none;
  unmarshal_seeds = λ t. none;
}

persist_fails_example :
    (e : ClientError) × (persist agreeable
        (codes "h:7010")
        one_arg_json
        (codes "seed.kv")
        (codes "k")
        (codes "v")
        (codes "w")
      ≡ (codes "w", err e))
persist_fails_example =
    persist_fails agreeable (codes "h:7010") one_arg_json (codes "seed.kv") (codes "k") (codes "v")
      (codes "w")
