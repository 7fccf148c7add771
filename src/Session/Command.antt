-- ===== src/Session/Command.antt =====
-- command_report_wire.go: the command that Mirage sends to a Ghost. The JSON of its arguments is
-- encoding/json's, taken as an interface.
pub mod RoundTrip
use edgectl.Prelude.{
  ℕ, ◌≡◌, List, [], ◌∷◌, ◌++◌, Text, Map, lookup, text_eq, Option, none, some, Result, ok, err,
  ◌>>=◌, ◌>>◌,
}
use edgectl.Tlv.{Field, type_bytes, get_field}
use edgectl.Frame.{Frame}
use edgectl.Schema.{
  msg_command, field_command_id, field_intent_id, field_ghost_id, field_seed_selector,
  field_operation, field_args,
}
use edgectl.Session.{
  SessionError, bad_json, require, string_field, get_string, encode_message, decode_message,
}

-- map[string]string
abbrev pub Args : Type 0
Args = Map Text Text

-- json.Marshal and json.Unmarshal on maps of strings. Strings that are valid UTF-8 are read back;
-- the order of the entries may change.
pub record Json : Type 1 where
  pub marshal : Args → Text
  pub unmarshal : Text → Option Args
  pub IsUtf8 : Args → Type 0
  pub unmarshal-marshal :
      (m : Args)
      → IsUtf8 m
      → (n : Args) × (unmarshal (marshal m) ≡ some n) × ((k : Text) → lookup k n ≡ lookup k m)

pub record Command : Type 0 where
  pub command_id : Text
  pub intent_id : Text
  pub ghost_id : Text
  pub seed_selector : Text
  pub operation : Text
  pub args : Args

unfoldable pub validate_command : Command → Result SessionError (Unit {0})
validate_command c = do
  require "command_id" c.command_id
  require "intent_id" c.intent_id
  require "ghost_id" c.ghost_id
  require "seed_selector" c.seed_selector
  require "operation" c.operation

module _ (json : Json) where
  abbrev pub args_fields : Args → List Field
  args_fields [] = []
  args_fields (a ∷ m) =
      record { id = field_args; typ = type_bytes; value = json.marshal (a ∷ m) } ∷ []

  abbrev pub command_fields : Command → List Field
  command_fields c =
      string_field field_command_id c.command_id
      ∷ string_field field_intent_id c.intent_id
      ∷ string_field field_ghost_id c.ghost_id
      ∷ string_field field_seed_selector c.seed_selector
      ∷ string_field field_operation c.operation
      ∷ args_fields c.args

  unfoldable pub encode_command_frame : ℕ → Command → Result SessionError Text
  encode_command_frame message_id c = do
    validate_command c
    encode_message message_id msg_command 0 (command_fields c)

  -- `json.Unmarshal` of the field, if there is one; the empty map if there is none.
  unfoldable pub decode_args : List Field → Result SessionError Args
  decode_args fields = elim (get_field fields field_args) [
    | none ↦ ok []
    | some f ↦ elim (json.unmarshal f.value) [ none ↦ err bad_json | some args ↦ ok args ]
  ]

  unfoldable pub decode_command_frame : Frame → Result SessionError Command
  decode_command_frame f = do
    fields ← decode_message msg_command f
    args ← decode_args fields
    ok (record {
      command_id = get_string fields field_command_id;
      intent_id = get_string fields field_intent_id;
      ghost_id = get_string fields field_ghost_id;
      seed_selector = get_string fields field_seed_selector;
      operation = get_string fields field_operation;
      args = args;
    })
