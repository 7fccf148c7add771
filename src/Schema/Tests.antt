-- ===== src/Schema/Tests.antt =====
-- An acknowledgement's fields, and the theorems of this component on them.
use edgectl.Prelude.{◌≡◌, ◌↔◌, refl, List, [], ◌∷◌, some, All, codes, ok}
use edgectl.Tlv.{Field, get_field, type_string, type_u32, type_u64}
use edgectl.Schema.{
  Requirement, requirements, validate, check_requirement, check_requirements, msg_event_ack,
  field_event_id, field_command_id, field_ghost_id, field_ack_status, field_ack_code,
  field_timestamp_ms,
}
use edgectl.Schema.Required.{Meets, validate_iff}

abbrev ack : List Field
ack =
    record { id = field_event_id; typ = type_string; value = codes "e" }
    ∷ record { id = field_command_id; typ = type_string; value = codes "c" }
    ∷ record { id = field_ghost_id; typ = type_string; value = codes "g" }
    ∷ record { id = field_ack_status; typ = type_string; value = codes "accepted" }
    ∷ record { id = field_ack_code; typ = type_u32; value = 0 ∷ 0 ∷ 0 ∷ 0 ∷ [] }
    ∷ record { id = field_timestamp_ms; typ = type_u64; value = 0 ∷ 0 ∷ 0 ∷ 0 ∷ 0 ∷ 0 ∷ 0 ∷ 1 ∷ [] }
    ∷ []

abbrev extra : List Field
extra = record { id = 9000; typ = type_string; value = codes "later" } ∷ []

validate_ack : validate msg_event_ack ack ≡ ok tt
unfolding validate check_requirements check_requirement requirements get_field
validate_ack = refl

validate_iff_example :
    (validate msg_event_ack ack ≡ ok tt)
    ↔ ((reqs : List Requirement) × (requirements msg_event_ack ≡ some reqs) × All (Meets ack) reqs)
validate_iff_example = validate_iff msg_event_ack ack
