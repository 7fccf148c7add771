-- ===== src/Schema.antt =====
-- internal/protocol/schema/schema.go: message types, field ids and the fields a message must have.
mod Tests
pub mod Required
use edgectl.Prelude.{
  ℕ, zero, suc, List, [], ◌∷◌, ◌==◌, not, if◌then◌else◌, Option, none, some, Result, ok, err, ◌>>=◌,
  ◌>>◌,
}
use edgectl.Tlv.{Field, get_field, type_u32, type_u64, type_string, type_bytes}

abbrev pub msg_issue : ℕ
msg_issue = 1

abbrev pub msg_command : ℕ
msg_command = 2

abbrev pub msg_seed_execute : ℕ
msg_seed_execute = 3

abbrev pub msg_seed_result : ℕ
msg_seed_result = 4

abbrev pub msg_event : ℕ
msg_event = 5

abbrev pub msg_report : ℕ
msg_report = 6

abbrev pub msg_event_ack : ℕ
msg_event_ack = 8

abbrev pub field_intent_id : ℕ
field_intent_id = 1

abbrev pub field_command_id : ℕ
field_command_id = 2

abbrev pub field_execution_id : ℕ
field_execution_id = 3

abbrev pub field_event_id : ℕ
field_event_id = 4

abbrev pub field_phase : ℕ
field_phase = 5

abbrev pub field_timestamp_ms : ℕ
field_timestamp_ms = 6

abbrev pub field_actor : ℕ
field_actor = 100

abbrev pub field_target_scope : ℕ
field_target_scope = 101

abbrev pub field_objective : ℕ
field_objective = 102

abbrev pub field_ghost_id : ℕ
field_ghost_id = 200

abbrev pub field_seed_selector : ℕ
field_seed_selector = 201

abbrev pub field_operation : ℕ
field_operation = 202

abbrev pub field_args : ℕ
field_args = 203

abbrev pub field_seed_id : ℕ
field_seed_id = 300

abbrev pub field_seed_execute_operation : ℕ
field_seed_execute_operation = 301

abbrev pub field_seed_execute_args : ℕ
field_seed_execute_args = 302

abbrev pub field_status : ℕ
field_status = 400

abbrev pub field_stdout : ℕ
field_stdout = 401

abbrev pub field_stderr : ℕ
field_stderr = 402

abbrev pub field_exit_code : ℕ
field_exit_code = 403

abbrev pub field_outcome : ℕ
field_outcome = 500

abbrev pub field_summary : ℕ
field_summary = 600

abbrev pub field_completion_state : ℕ
field_completion_state = 601

abbrev pub field_ack_status : ℕ
field_ack_status = 700

abbrev pub field_ack_code : ℕ
field_ack_code = 701

pub record Requirement : Type 0 where
  pub id : ℕ
  pub typ : ℕ

pub data Reason : Type 0 where
  unknown_message_type missing_required_field type_mismatch : Reason

-- A field id of 0 stands for none.
pub record ValidationError : Type 0 where
  pub message_type : ℕ
  pub field_id : ℕ
  pub reason : Reason

-- Required fields of type string.
abbrev strings : List ℕ → List Requirement
strings [] = []
strings (i ∷ is) = record { id = i; typ = type_string } ∷ strings is

abbrev typed : ℕ → ℕ → List Requirement → List Requirement
typed i t rs = record { id = i; typ = t } ∷ rs

-- The map `requirements`.
abbrev pub requirements : ℕ → Option (List Requirement)
requirements mt =
    if mt == msg_issue
    then some (strings (field_intent_id ∷ field_actor ∷ field_target_scope ∷ field_objective ∷ []))
    else if mt == msg_command
    then some (
        strings (
          field_command_id ∷ field_intent_id ∷ field_ghost_id ∷ field_seed_selector
          ∷ field_operation ∷ []))
    else if mt == msg_seed_execute
    then some (
        record { id = field_execution_id; typ = type_string }
        ∷ record { id = field_command_id; typ = type_string }
        ∷ record { id = field_seed_id; typ = type_string }
        ∷ record { id = field_seed_execute_operation; typ = type_string }
        ∷ typed field_seed_execute_args type_bytes [])
    else if mt == msg_seed_result
    then some (
        record { id = field_execution_id; typ = type_string }
        ∷ record { id = field_seed_id; typ = type_string }
        ∷ record { id = field_status; typ = type_string }
        ∷ typed field_stdout type_bytes
            (typed field_stderr type_bytes (typed field_exit_code type_u32 [])))
    else if mt == msg_event
    then some (
        strings (
          field_event_id ∷ field_command_id ∷ field_intent_id ∷ field_ghost_id ∷ field_seed_id
          ∷ field_outcome ∷ []))
    else if mt == msg_report
    then some
        (strings (field_intent_id ∷ field_phase ∷ field_summary ∷ field_completion_state ∷ []))
    else if mt == msg_event_ack
    then some (
        record { id = field_event_id; typ = type_string }
        ∷ record { id = field_command_id; typ = type_string }
        ∷ record { id = field_ghost_id; typ = type_string }
        ∷ record { id = field_ack_status; typ = type_string }
        ∷ typed field_timestamp_ms type_u64 [])
    else none

-- One round of the loop over the requirements.
unfoldable pub check_requirement : ℕ → List Field → Requirement → Result ValidationError (Unit {0})
check_requirement mt fields req = elim (get_field fields req.id) [
  | none ↦ err (record { message_type = mt; field_id = req.id; reason = missing_required_field })
  | some f ↦
      if not (f.typ == req.typ)
      then err (record { message_type = mt; field_id = req.id; reason = type_mismatch })
      else ok tt
]

unfoldable pub check_requirements :
    ℕ → List Field → List Requirement → Result ValidationError (Unit {0})
check_requirements mt fields [] = ok tt
check_requirements mt fields (req ∷ reqs) =
    check_requirement mt fields req >> check_requirements mt fields reqs

unfoldable pub validate : ℕ → List Field → Result ValidationError (Unit {0})
validate mt fields = elim (requirements mt) [
  | none ↦ err (record { message_type = mt; field_id = 0; reason = unknown_message_type })
  | some reqs ↦ check_requirements mt fields reqs
]
