-- ===== src/Session/Control.antt =====
-- control.go: the registration of a Ghost and its acknowledgement, as lines of JSON. The JSON of an
-- envelope is encoding/json's, taken as an interface.
pub mod RoundTrip
use Prim.Native.String.{String}
use edgectl.Prelude.{
  ℕ, ◌+◌, ◌*◌, ◌≡◌, ◌≢◌, List, [], ◌∷◌, ◌++◌, Bool, false, not, ◌&&◌, ◌==◌, ltb, if◌then◌else◌, All,
  Text, codes, same, is_empty, trim_space, length, Option, none, some, Result, ok, err, ◌>>=◌, ◌>>◌,
}

pub record SeedInfo : Type 0 where
  pub id : Text
  pub name : Text
  pub description : Text

-- A nil slice is `none`.
pub record Registration : Type 0 where
  pub ghost_id : Text
  pub peer_identity : Text
  pub seed_list : Option (List SeedInfo)

pub record RegistrationAck : Type 0 where
  pub status : Text
  pub code : ℕ
  pub message : Text
  pub ghost_id : Text
  pub timestamp_ms : ℕ

-- The two faults of a message carry their reasons; `missing_seed` the index too.
pub data ControlError : Type 0 where
  invalid_registration invalid_registration_ack : String → ControlError
  invalid_seed : ℕ → String → ControlError
  too_large end_of_stream bad_json : ControlError

abbrev pub ack_status_accepted : Text
ack_status_accepted = codes "accepted"

abbrev pub ack_status_rejected : Text
ack_status_rejected = codes "rejected"

abbrev pub control_type_register : Text
control_type_register = codes "seed.register"

abbrev pub control_type_register_ack : Text
control_type_register_ack = codes "seed.register.ack"

unfoldable pub require_text : ControlError → Text → Result ControlError (Unit {0})
require_text fault t = if is_empty (trim_space t) then err fault else ok tt

unfoldable pub validate_seeds : ℕ → List SeedInfo → Result ControlError (Unit {0})
validate_seeds i [] = ok tt
validate_seeds i (seed ∷ seeds) = do
  require_text (invalid_seed i "missing id") seed.id
  require_text (invalid_seed i "missing name") seed.name
  require_text (invalid_seed i "missing description") seed.description
  validate_seeds (i + 1) seeds

unfoldable pub validate_seed_list : Option (List SeedInfo) → Result ControlError (Unit {0})
validate_seed_list none = err (invalid_registration "missing seed_list")
validate_seed_list (some seeds) = validate_seeds 0 seeds

unfoldable pub validate_registration : Registration → Result ControlError (Unit {0})
validate_registration r = do
  require_text (invalid_registration "missing ghost_id") r.ghost_id
  validate_seed_list r.seed_list

unfoldable pub validate_registration_ack : RegistrationAck → Result ControlError (Unit {0})
validate_registration_ack a =
    let status = trim_space a.status in
    (if not (same status ack_status_accepted) && not (same status ack_status_rejected)
      then err (invalid_registration_ack "invalid status")
      else ok tt)
    >> (require_text (invalid_registration_ack "missing ghost_id") a.ghost_id
        >> (if a.timestamp_ms == 0
            then err (invalid_registration_ack "missing timestamp_ms")
            else ok tt))

-- `controlEnvelope`; the two pointers are left out of the JSON where they are nil.
pub record Envelope : Type 0 where
  pub typ : Text
  pub reg : Option Registration
  pub ack : Option RegistrationAck

abbrev pub newline : ℕ
newline = 10

-- Marshalled JSON is one line: strings have their line ends escaped. It is read back, with the line
-- end behind it, if the strings of the envelope are valid UTF-8.
pub record EnvelopeJson : Type 1 where
  pub marshal : Envelope → Text
  pub unmarshal : Text → Option Envelope
  pub IsUtf8 : Envelope → Type 0
  pub one_line : (e : Envelope) → All (λ c. (c == newline) ≡ false) (marshal e)
  pub unmarshal-marshal : (e : Envelope) → IsUtf8 e → unmarshal (marshal e ++ newline ∷ []) ≡ some e

-- `bufio.Reader.ReadBytes('\n')` on the bytes that are available: the line with its end, and the rest.
unfoldable pub read_line : Text → Option (Text × Text)
read_line [] = none
read_line (c ∷ t) =
    let later = read_line t in
    if c == newline
    then some (c ∷ [], t)
    else elim later [ none ↦ none | some (line, rest) ↦ some (c ∷ line, rest) ]

abbrev pub max_line : ℕ
max_line = 128 * 1024

-- `env.Type != want || env.Reg == nil`
unfoldable pub expect : {A : Type 0} → ControlError → Text → Text → Option A → Result ControlError A
expect fault want typ none = err fault
expect fault want typ (some a) = if same typ want then ok a else err fault

module _ (json : EnvelopeJson) where
  unfoldable pub write_control_envelope : Envelope → Text
  write_control_envelope e = json.marshal e ++ newline ∷ []

  unfoldable pub read_control_envelope : Text → Result ControlError (Envelope × Text)
  read_control_envelope bytes = elim (read_line bytes) [
    | none ↦ err end_of_stream
    | some (line, rest) ↦
        if ltb max_line (length line)
        then err too_large
        else elim (json.unmarshal line) [ none ↦ err bad_json | some e ↦ ok (e, rest) ]
  ]

  unfoldable pub write_registration : Registration → Result ControlError Text
  write_registration r = do
    validate_registration r
    ok (write_control_envelope (record { typ = control_type_register; reg = some r; ack = none }))

  unfoldable pub read_registration : Text → Result ControlError (Registration × Text)
  read_registration bytes = do
    (e, rest) ← read_control_envelope bytes
    r ← expect (invalid_registration "unexpected control type") control_type_register e.typ e.reg
    validate_registration r
    ok (r, rest)

  unfoldable pub write_registration_ack : RegistrationAck → Result ControlError Text
  write_registration_ack a = do
    validate_registration_ack a
    ok (
        write_control_envelope
          (record { typ = control_type_register_ack; reg = none; ack = some a }))

  unfoldable pub read_registration_ack : Text → Result ControlError (RegistrationAck × Text)
  read_registration_ack bytes = do
    (e, rest) ← read_control_envelope bytes
    a ←
        expect (invalid_registration_ack "unexpected control type") control_type_register_ack e.typ
          e.ack
    validate_registration_ack a
    ok (a, rest)
