-- ===== src/Mirage/Server/Tests.antt =====
-- A Ghost that is lost and registers again, and the theorems of Mirage's server on it.
use edgectl.Prelude.{
  ◌++◌, insert, ◌≡◌, refl, [], codes, Text, same, trim_space, lookup, text_eq, none, some,
}
use edgectl.Session.Event.{Event}
use edgectl.Session.Control.{Registration}
use edgectl.Mirage.Server.{
  Server, RegisteredGhostState, new_server, appear, upsert_registration, mark_ghost_disconnected,
  accept_event, acknowledge, found_or, unregistered,
}
use edgectl.Mirage.Server.Discovery.{Net}
use edgectl.Mirage.Server.Steps.{
  Reach, here, next, did_appear, did_register, did_disconnect, did_accept,
}
use edgectl.Mirage.Server.Acks.{accept_event_again}
use edgectl.Mirage.Server.Since.{StaysTracked, Reach-StaysTracked}

abbrev event : Event
event = record {
  event_id = codes "evt.cmd.i.1";
  command_id = codes "cmd.i.1";
  intent_id = codes "i";
  ghost_id = codes "g";
  seed_id = codes "seed.kv";
  outcome = codes "success";
  timestamp_ms = 2;
}

-- Addresses without ports.
abbrev plain_net : Net
plain_net = record { split_host_port = λ t. none; join_host_port = λ h p. h ++ codes ":" ++ p }

abbrev registration : Registration
registration = record { ghost_id = codes "g"; peer_identity = codes "g"; seed_list = some [] }

abbrev server : Server Text (Unit {0})
server = (appear new_server (codes " m ")).0

-- An event is accepted, and then the Ghost is lost and registers again.
abbrev with_event : Server Text (Unit {0})
with_event = (accept_event 3 server (codes "g") event).0

abbrev lost : Server Text (Unit {0})
lost = mark_ghost_disconnected with_event (codes "g")

abbrev registered_again : Server Text (Unit {0})
registered_again = (upsert_registration plain_net 9 lost (codes "10.0.0.7") registration).0

run : Reach with_event registered_again
run =
    next (next here (did_disconnect (codes "g")))
      (did_register plain_net 9 (codes "10.0.0.7") registration)

accept_event_again_example :
    accept_event 20 registered_again (codes "g") event
    ≡ (registered_again, (accept_event 3 server (codes "g") event).1)
accept_event_again_example =
    accept_event_again 3 20 server registered_again (codes "g") event event run refl

whole_run : Reach new_server with_event
whole_run = next (next here (did_appear (codes " m "))) (did_accept 3 (codes "g") event)

abbrev known : RegisteredGhostState
known = (acknowledge 3 (codes "g") event (unregistered 3 (codes "g"))).0

is_known : lookup (codes "g") with_event.registry ≡ some known
unfolding appear accept_event lookup insert found_or trim_space same
is_known = refl

Reach-StaysTracked_example : StaysTracked (codes "g") known registered_again
Reach-StaysTracked_example =
    Reach-StaysTracked with_event registered_again (codes "g") known whole_run is_known run
