-- ===== src/Mirage/GhostClient.antt =====
-- ghost_admin_client.go: Mirage as a client of a Ghost's admin endpoint. One call dials, writes a line of
-- JSON and reads one; the network and the JSON are an interface, of which nothing is assumed.
pub mod Remote
pub mod Persist
mod Tests
use Prim.Native.String.{String}
use edgectl.Prelude.{
  ℕ, List, [], ◌∷◌, ◌++◌, map, Bool, true, false, not, ◌==◌, if◌then◌else◌, Text, codes, same,
  is_empty, trim_space, Option, none, some, Result, ok, err, ◌>>=◌, ◌>>◌, map_err,
}
use edgectl.Frame.{read_frame, default_limits}
use edgectl.Session.{SessionError, frame_error}
use edgectl.Session.Command.{Args, Json, Command, encode_command_frame}
use edgectl.Session.Control.{SeedInfo, newline}
use edgectl.Session.Event.{Event, decode_event_frame, validate_event}
use edgectl.Mirage.Server.{SpawnGhostRequest, SpawnGhostResult}

-- `ghostControlRequest`; its command is never set.
pub record ControlRequest : Type 0 where
  pub action : Text
  pub spawn : SpawnGhostRequest
  pub command_frame : Text
  pub mirage_id : Text

-- `ghostControlResponse`, with the raw JSON of its data.
pub record ControlResponse : Type 0 where
  pub is_ok : Bool
  pub error : Text
  pub payload : Text

pub record GhostAdminCommand : Type 0 where
  pub ghost_id : Text
  pub command_id : Text
  pub intent_id : Text
  pub seed_selector : Text
  pub operation : Text
  pub args : Args

-- `ghostLifecycleStatus`, with the two spellings of the key.
pub record GhostStatus : Type 0 where
  pub ghost_id : Text
  pub ghost_id_legacy : Text

pub data ClientError : Type 0 where
  addr_required bad_json path_required : ClientError
  network_error unsupported_selector : Text → ClientError
  control_failed : Text → Text → ClientError
  wire_error : SessionError → ClientError

pub record ControlWire (W : Type 0) : Type 0 where
  pub exchange : Text → Text → W → W × Result Text Text
  pub marshal_request : ControlRequest → Text
  pub unmarshal_response : Text → Option ControlResponse
  pub unmarshal_spawn : Text → Option SpawnGhostResult
  pub unmarshal_frame : Text → Option Text
  pub unmarshal_status : Text → Option GhostStatus
  pub unmarshal_seeds : Text → Option (List SeedInfo)

abbrev pub no_spawn : SpawnGhostRequest
no_spawn = record { target_name = []; admin_addr = [] }

abbrev pub request : Text → ControlRequest
request action = record { action = action; spawn = no_spawn; command_frame = []; mirage_id = [] }

-- A response's data into the variable that `out` points to, which keeps its zero value where there is none.
unfoldable pub decoded : {A : Type 0} → (Text → Option A) → A → Text → Result ClientError A
decoded unmarshal zero_value payload =
    if is_empty payload
    then ok zero_value
    else elim (unmarshal payload) [ none ↦ err bad_json | some a ↦ ok a ]

-- What becomes of the line that is read.
unfoldable pub response_data : Text → Option ControlResponse → Result ClientError Text
response_data action none = err bad_json
response_data action (some resp) =
    if resp.is_ok then ok resp.payload else err (control_failed action (trim_space resp.error))

-- The command as it is sent.
unfoldable pub outgoing_command : GhostAdminCommand → Command
outgoing_command c = record {
  command_id = trim_space c.command_id;
  intent_id = trim_space c.intent_id;
  ghost_id =
      if is_empty (trim_space c.ghost_id) then codes "ghost.local" else trim_space c.ghost_id;
  seed_selector = trim_space c.seed_selector;
  operation = trim_space c.operation;
  args = c.args;
}

unfoldable pub open_event : Text → Result ClientError Event
open_event bytes =
    map_err wire_error
      (map_err frame_error (read_frame default_limits bytes) >>= λ r. decode_event_frame r.0)

-- `ExecuteAdminCommand` around the call that posts the frame and returns the event's frame.
unfoldable pub execute_through :
    {W : Type 0}
    → Json
    → (Text → W → W × Result ClientError Text)
    → W
    → GhostAdminCommand
    → W × Result ClientError Event
execute_through json post w command =
    elim (encode_command_frame json 1 (outgoing_command command)) [
      | err e ↦ (w, err (wire_error e))
      | ok bytes ↦ let (w', r) = post bytes w in (w', r >>= open_event)
    ]

-- The fields that `ExecuteCommand` fills in.
unfoldable pub filled : ℕ → Command → Event → Event
filled now cmd event = record event {
  command_id = if is_empty event.command_id then cmd.command_id else event.command_id;
  intent_id = if is_empty event.intent_id then cmd.intent_id else event.intent_id;
  ghost_id = if is_empty event.ghost_id then cmd.ghost_id else event.ghost_id;
  seed_id = if is_empty event.seed_id then cmd.seed_selector else event.seed_id;
  timestamp_ms = if event.timestamp_ms == 0 then now else event.timestamp_ms;
}

abbrev pub admin_command_of : Command → GhostAdminCommand
admin_command_of cmd = record {
  ghost_id = trim_space cmd.ghost_id;
  command_id = trim_space cmd.command_id;
  intent_id = trim_space cmd.intent_id;
  seed_selector = trim_space cmd.seed_selector;
  operation = trim_space cmd.operation;
  args = cmd.args;
}

-- `ExecuteCommand` around the call that posts the frame.
unfoldable pub execute_command_through :
    {W : Type 0}
    → Json
    → (Text → W → W × Result ClientError Text)
    → ℕ
    → W
    → Command
    → W × Result ClientError Event
execute_command_through json post now w cmd =
    let (w', r) = execute_through json post w (admin_command_of cmd) in
    (
      w',
      r >>= λ event.
          map_err wire_error (validate_event (filled now cmd event)) >> ok (filled now cmd event),
    )

-- `Persist`: the command that writes an entry, by the seed.
unfoldable pub persist_command : Text → Text → Text → Result ClientError GhostAdminCommand
persist_command selector key value =
    let command : Text → Text → Text → GhostAdminCommand = λ operation name content. record {
      ghost_id = [];
      command_id = [];
      intent_id = codes "intent.mirage.buildlog";
      seed_selector = selector;
      operation = operation;
      args = (name, trim_space key) ∷ (content, value) ∷ [];
    } in
    if same selector (codes "seed.kv")
    then ok (command (codes "put") (codes "key") (codes "value"))
    else if same selector (codes "seed.fs")
    then if is_empty (trim_space key)
      then err path_required
      else ok (command (codes "write") (codes "path") (codes "content"))
    else err (unsupported_selector selector)

module _ {W : Type 0} (wire : ControlWire W) (admin_addr : Text) where
  unfoldable pub call : ControlRequest → W → W × Result ClientError Text
  call req w =
      let addr = trim_space admin_addr in
      if is_empty addr
      then (w, err addr_required)
      else (let (w', r) = wire.exchange addr (wire.marshal_request req ++ newline ∷ []) w in
          elim r [
            | err e ↦ (w', err (network_error e))
            | ok line ↦ (w', response_data req.action (wire.unmarshal_response line))
          ])

  unfoldable pub spawn_local_ghost : SpawnGhostRequest → W → W × Result ClientError SpawnGhostResult
  spawn_local_ghost req w =
      let (w', r) = call (record (request (codes "spawn_ghost")) { spawn = req }) w in
      (
        w',
        r
            >>= decoded wire.unmarshal_spawn
                (record { target_name = []; ghost_id = []; admin_addr = [] }),
      )

  unfoldable pub post_envelope : Text → W → W × Result ClientError Text
  post_envelope bytes w =
      let (w', r) =
        call (record (request (codes "execute_envelope")) { command_frame = bytes }) w in
      (w', r >>= decoded wire.unmarshal_frame [])

  unfoldable pub execute_admin_command : Json → W → GhostAdminCommand → W × Result ClientError Event
  execute_admin_command json w command = execute_through json post_envelope w command

  unfoldable pub execute_command : Json → ℕ → W → Command → W × Result ClientError Event
  execute_command json now w cmd = execute_command_through json post_envelope now w cmd

  unfoldable pub ghost_status : W → W × Result ClientError GhostStatus
  ghost_status w =
      let (w', r) = call (request (codes "status")) w in
      (
        w',
        r
            >>= decoded wire.unmarshal_status (record { ghost_id = []; ghost_id_legacy = [] })
            >>= λ out. ok (
                if is_empty (trim_space out.ghost_id)
                then record out { ghost_id = trim_space out.ghost_id_legacy }
                else out),
      )

  unfoldable pub list_seeds : W → W × Result ClientError (List SeedInfo)
  list_seeds w =
      let (w', r) = call (request (codes "list_seeds")) w in
      (
        w',
        r >>= decoded wire.unmarshal_seeds [] >>= λ seeds. ok (
            map
              (λ seed. record {
                id = trim_space seed.id;
                name = trim_space seed.name;
                description = trim_space seed.description;
              })
              seeds),
      )

  unfoldable pub bind_mirage : Text → W → W × Result ClientError (Unit {0})
  bind_mirage mirage_id w =
      let (w', r) =
        call (record (request (codes "bind_mirage")) { mirage_id = trim_space mirage_id }) w in
      (w', r >> ok tt)

  unfoldable pub persist : Json → Text → Text → Text → W → W × Result ClientError (Unit {0})
  persist json seed_selector key value w =
      let given = trim_space seed_selector in
      elim (persist_command (if is_empty given then codes "seed.fs" else given) key value) [
        | err e ↦ (w, err e)
        | ok command ↦ let (w', r) = execute_admin_command json w command in (w', r >> ok tt)
      ]
