-- ===== src/Ghost/Admin/Tests.antt =====
-- An admin command on a Ghost with one seed.
use edgectl.Prelude.{[], ◌∷◌, codes, Text, none, some}
use edgectl.Seeds.{Seed}
use edgectl.Ghost.Envelopes.{radiating}
use edgectl.Ghost.Admin.{Admin, AdminCommand}

abbrev flow : Seed Text
flow = record {
  metadata = record { id = codes "seed.flow"; name = codes "flow"; description = codes "answers" };
  execute = λ operation args w.
      (w, record { status = codes "ok"; stdout = operation; stderr = []; exit_code = 0 }, none);
}

abbrev service : Admin Text
service = record {
  server = record {
    ghost_id = codes "g";
    phase = radiating;
    registry = some ((codes "seed.flow", flow) ∷ []);
    execution_by_id = [];
    execution_by_cmd_id = [];
    command_by_message_id = [];
  };
  admin_seq = 0;
  admin_events = [];
  verification_events = [];
}

abbrev cmd : AdminCommand
cmd = record {
  command_id = codes " c1 ";
  intent_id = [];
  seed_selector = codes "seed.flow";
  operation = codes "status";
  args = [];
}
