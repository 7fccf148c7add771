-- ===== src/Mirage/Server.antt =====
-- server.go: lifecycle, the registry of Ghosts and the acknowledged events. Each method that holds
-- the mutex is one function; `now` is the clock in milliseconds, `X` the type of executors and `W` the
-- state that a spawner changes.
pub mod Discovery
pub mod Boundary
pub mod Steps
pub mod Lifecycle
pub mod Acks
pub mod Registry
pub mod Since
mod Tests
use edgectl.Prelude.{
  ℕ, zero, suc, ◌+◌, ◌-◌, ◌%◌, ◌^◌, List, [], ◌∷◌, ◌++◌, Bool, true, false, if◌then◌else◌, leb,
  ◌||◌, Text, codes, is_empty, trim_space, Map, lookup, insert, text_eq, keys, length, drop,
  sort_strings, Option, none, some, Result, ok, err,
}
use edgectl.Session.Control.{SeedInfo, Registration, RegistrationAck, ack_status_accepted}
use edgectl.Session.Ack.{EventAck}
use edgectl.Session.Event.{Event}
use edgectl.Session.Report.{Report}
use edgectl.Session.Command.{Json, Command}
use edgectl.Mirage.Issue.{IssueEnv, MirageError}
use edgectl.Mirage.Orchestrator.{Orchestrator, DesiredIntent, ObservedIntent, new_orchestrator}
use edgectl.Mirage.Orchestrator
use edgectl.Mirage.Orchestrator.Pass
use edgectl.Mirage.Orchestrator.Ingest
use edgectl.Mirage.Server.Discovery.{Net, enrich_seed_list_for_ghost}

pub data LifecyclePhase : Type 0 where
  boot appeared shimmering seeded : LifecyclePhase

pub data ServerError : Type 0 where
  invalid_mirage_id no_ghost_spawner : ServerError
  lifecycle_order : LifecyclePhase → LifecyclePhase → ServerError
  spawner_failed : Text → ServerError

-- `time.Time` with `IsZero` as `none`.
pub record RegisteredGhost : Type 0 where
  pub ghost_id : Text
  pub remote_addr : Text
  pub seed_list : List SeedInfo
  pub registered_at : Option ℕ
  pub last_event_at : Option ℕ
  pub event_count : ℕ
  pub connected : Bool

pub record RegisteredGhostState : Type 0 where
  pub meta : RegisteredGhost
  pub ack_by_event : Map Text EventAck

pub record SpawnGhostRequest : Type 0 where
  pub target_name : Text
  pub admin_addr : Text

pub record SpawnGhostResult : Type 0 where
  pub target_name : Text
  pub ghost_id : Text
  pub admin_addr : Text

-- `GhostSpawner`
abbrev pub Spawner : Type 0 → Type 0
Spawner W = SpawnGhostRequest → W → W × Result Text SpawnGhostResult

pub record Server (X W : Type 0) : Type 0 where
  pub mirage_id : Text
  pub phase : LifecyclePhase
  pub registry : Map Text RegisteredGhostState
  pub loop : Orchestrator X
  pub reports : List Report
  pub spawner : Option (Spawner W)

pub record LifecycleStatus : Type 0 where
  pub mirage_id : Text
  pub phase : LifecyclePhase
  pub registered_ghosts : ℕ
  pub active_intents : ℕ
  pub report_count : ℕ

-- The state that a registration finds or makes.
unfoldable pub fresh : RegisteredGhostState
fresh = record {
  meta = record {
    ghost_id = [];
    remote_addr = [];
    seed_list = [];
    registered_at = none;
    last_event_at = none;
    event_count = 0;
    connected = false;
  };
  ack_by_event = [];
}

-- The state that an event of an unregistered Ghost makes.
unfoldable pub unregistered : ℕ → Text → RegisteredGhostState
unfolding fresh
unregistered now ghost_id = record fresh {
  meta = record fresh.meta { ghost_id = ghost_id; registered_at = some now };
}

unfoldable pub found_or : RegisteredGhostState → Option RegisteredGhostState → RegisteredGhostState
found_or made none = made
found_or made (some state) = state

unfoldable pub seeds_of : Option (List SeedInfo) → List SeedInfo
seeds_of none = []
seeds_of (some seeds) = seeds

abbrev pub first_time : ℕ → Option ℕ → Option ℕ
first_time now none = some now
first_time now (some t) = some t

-- The part of `UpsertRegistration` on the Ghost's state.
unfoldable pub registered_as :
    Net → ℕ → Text → Registration → RegisteredGhostState → RegisteredGhostState
registered_as net now remote_addr reg state = record state {
  meta = record {
    ghost_id = reg.ghost_id;
    remote_addr = remote_addr;
    seed_list = enrich_seed_list_for_ghost net reg.ghost_id remote_addr (seeds_of reg.seed_list);
    registered_at = first_time now state.meta.registered_at;
    last_event_at = state.meta.last_event_at;
    event_count = state.meta.event_count;
    connected = true;
  };
}

unfoldable pub ack_of : ℕ → Text → Event → EventAck
ack_of now ghost_id event = record {
  event_id = event.event_id;
  command_id = event.command_id;
  ghost_id = ghost_id;
  ack_status = ack_status_accepted;
  ack_code = 0;
  timestamp_ms = now;
}

-- The part of `AcceptEvent` on the Ghost's state.
unfoldable pub acknowledge :
    ℕ → Text → Event → RegisteredGhostState → RegisteredGhostState × EventAck
acknowledge now ghost_id event state = elim (lookup event.event_id state.ack_by_event) [
  | some ack ↦ (state, ack)
  | none ↦
      let ack = ack_of now ghost_id event in
      (
        record state {
          meta = record state.meta {
            last_event_at = some now;
            event_count = (state.meta.event_count + 1) % 2 ^ 64;
          };
          ack_by_event = insert event.event_id ack state.ack_by_event;
        },
        ack,
      )
]

module _ {X W : Type 0} where
  abbrev pub new_server : Server X W
  new_server = record {
    mirage_id = [];
    phase = boot;
    registry = [];
    loop = new_orchestrator;
    reports = [];
    spawner = none;
  }

  unfoldable pub appear : Server X W → Text → Server X W × Result ServerError (Unit {0})
  appear s mirage_id =
      let id = trim_space mirage_id in
      if is_empty id then (s, err invalid_mirage_id) else elim s.phase [
        | boot ↦ (record s { mirage_id = id; phase = appeared }, ok tt)
        | p ↦ (s, err (lifecycle_order p appeared))
      ]

  unfoldable pub shimmer : Server X W → Server X W × Result ServerError (Unit {0})
  shimmer s = elim s.phase [
    | appeared ↦ (record s { phase = shimmering }, ok tt)
    | p ↦ (s, err (lifecycle_order p shimmering))
  ]

  unfoldable pub seed : Server X W → Server X W × Result ServerError (Unit {0})
  seed s = elim s.phase [
    | shimmering ↦ (record s { phase = seeded }, ok tt)
    | p ↦ (s, err (lifecycle_order p seeded))
  ]

  unfoldable pub status : Server X W → LifecycleStatus
  status s = record {
    mirage_id = s.mirage_id;
    phase = s.phase;
    registered_ghosts = length s.registry;
    active_intents = (Orchestrator.snapshot s.loop).intent_count;
    report_count = length s.reports;
  }

  unfoldable pub upsert_registration :
      Net → ℕ → Server X W → Text → Registration → Server X W × RegistrationAck
  upsert_registration net now s remote_addr reg =
      let state =
        registered_as net now remote_addr reg (found_or fresh (lookup reg.ghost_id s.registry)) in
      (
        record s { registry = insert reg.ghost_id state s.registry },
        record {
          status = ack_status_accepted;
          code = 0;
          message = codes "registered";
          ghost_id = reg.ghost_id;
          timestamp_ms = now;
        },
      )

  unfoldable pub mark_ghost_disconnected : Server X W → Text → Server X W
  mark_ghost_disconnected s ghost_id = elim (lookup ghost_id s.registry) [
    | none ↦ s
    | some state ↦ record s {
      registry =
          insert ghost_id
            (record state { meta = record state.meta { connected = false; remote_addr = [] } })
            s.registry;
    }
  ]

  unfoldable pub accept_event : ℕ → Server X W → Text → Event → Server X W × EventAck
  accept_event now s ghost_id event =
      let (state, ack) =
        acknowledge now ghost_id event
          (found_or (unregistered now ghost_id) (lookup ghost_id s.registry)) in
      (record s { registry = insert ghost_id state s.registry }, ack)
