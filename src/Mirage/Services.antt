-- ===== src/Mirage/Services.antt =====
-- service.go: the admin endpoints of Ghosts that Mirage knows, and the snapshots that probe them. The clients
-- are those of GhostClient; the map of endpoints is visited in the order of the model's map.
pub mod Available
mod Tests
use edgectl.Prelude.{
  ℕ, zero, suc, List, [], ◌∷◌, map, Bool, true, false, not, ◌&&◌, ◌||◌, if◌then◌else◌, Text, same,
  is_empty, trim_space, Map, lookup, insert, has, keys, sort_by, sort_strings, text_eq, Option,
  none, some, Result, ok, err,
}
use edgectl.Session.Control.{SeedInfo}
use edgectl.Mirage.Server.{RegisteredGhost, first_time}
use edgectl.Mirage.GhostClient.{
  ControlWire, ClientError, GhostStatus, bind_mirage, ghost_status, list_seeds,
}

pub record GhostRoute : Type 0 where
  pub ghost_id : Text
  pub admin_addr : Text
  pub connected : Bool

pub record AvailableService : Type 0 where
  pub seed_id : Text
  pub ghost_ids : List Text

pub data BindError : Type 0 where
  missing_endpoint : BindError
  bind_failed : ClientError → BindError

unfoldable pub bind_ghost_admin : Map Text Text → Text → Text → Map Text Text
bind_ghost_admin admins ghost_id admin_addr =
    let id = trim_space ghost_id in
    let addr = trim_space admin_addr in
    if is_empty id || is_empty addr then admins else insert id addr admins

-- The entry of a Ghost that no session registered.
unfoldable pub probed : ℕ → Text → Option RegisteredGhost → RegisteredGhost
probed now ghost_id (some g) = g
probed now ghost_id none = record {
  ghost_id = ghost_id;
  remote_addr = [];
  seed_list = [];
  registered_at = some now;
  last_event_at = none;
  event_count = 0;
  connected = false;
}

unfoldable pub resolved_id : Result ClientError GhostStatus → Text
resolved_id (ok status) = trim_space status.ghost_id
resolved_id (err _) = []

abbrev pub seeds_or : List SeedInfo → Result ClientError (List SeedInfo) → List SeedInfo
seeds_or fallback (ok seeds) = seeds
seeds_or fallback (err _) = fallback

module _ {W : Type 0} (wire : ControlWire W) where
  -- The attempts that are left after one failed with the error given.
  unfoldable pub bind_again : Text → Text → ℕ → ClientError → W → W × Result BindError (Unit {0})
  bind_again mirage_id addr zero last w = (w, err (bind_failed last))
  bind_again mirage_id addr (suc left) last w =
      let (w', r) = bind_mirage wire addr mirage_id w in
      elim r [ ok _ ↦ (w', ok tt) | err e ↦ bind_again mirage_id addr left e w' ]

  unfoldable pub bind_ghost_to_mirage : Text → Text → Text → W → W × Result BindError (Unit {0})
  bind_ghost_to_mirage mirage_id ghost_id admin_addr w =
      let addr = trim_space admin_addr in
      if is_empty (trim_space ghost_id) || is_empty addr
      then (w, err missing_endpoint)
      else (let (w', r) = bind_mirage wire addr mirage_id w in
          elim r [ ok _ ↦ (w', ok tt) | err e ↦ bind_again mirage_id addr 4 e w' ])

  -- The entry of a Ghost whose endpoint answered, or did not.
  unfoldable pub observed :
      Text → Result ClientError GhostStatus → RegisteredGhost → W → W × RegisteredGhost
  observed addr (err _) entry w = (w, record entry { remote_addr = addr; connected = false })
  observed addr (ok _) entry w =
      let (w', seeds) = list_seeds wire addr w in
      (
        w',
        record entry {
          remote_addr = addr;
          connected = true;
          seed_list = seeds_or entry.seed_list seeds;
        },
      )

  -- One turn of the loop over the endpoints.
  unfoldable pub probe_one :
      ℕ
      → Text
      → Text
      → Map Text Text
      → Map Text RegisteredGhost
      → W
      → W × Map Text Text × Map Text RegisteredGhost
  probe_one now ghost_id addr admins by_id w =
      let (w', status) = ghost_status wire addr w in
      let resolved = resolved_id status in
      let renamed = not (is_empty resolved) && not (same resolved ghost_id) in
      let id = if renamed then resolved else ghost_id in
      let (w'', entry) = observed addr status (probed now id (lookup id by_id)) w' in
      (
        w'',
        if renamed then bind_ghost_admin admins resolved addr else admins,
        insert id (record entry { registered_at = first_time now entry.registered_at }) by_id,
      )

  unfoldable pub probe_all :
      ℕ
      → List (Text × Text)
      → Map Text Text
      → Map Text RegisteredGhost
      → W
      → W × Map Text Text × Map Text RegisteredGhost
  probe_all now [] admins by_id w = (w, admins, by_id)
  probe_all now ((ghost_id, addr) ∷ bound) admins by_id w =
      let (w', admins', by_id') = probe_one now ghost_id addr admins by_id w in
      probe_all now bound admins' by_id' w'

  -- `base` is the snapshot of the registered Ghosts.
  unfoldable pub snapshot_connected_ghosts :
      ℕ → List RegisteredGhost → Map Text Text → W → W × Map Text Text × List RegisteredGhost
  snapshot_connected_ghosts now base admins w =
      let (w', admins', by_id) = probe_all now admins admins (map (λ g. (g.ghost_id, g)) base) w in
      (w', admins', sort_by (λ g. g.ghost_id) (map (λ entry. entry.1) by_id))

unfoldable pub snapshot_routing_table : List RegisteredGhost → List GhostRoute
snapshot_routing_table ghosts =
    sort_by (λ r. r.ghost_id)
      (map
        (λ g. record { ghost_id = g.ghost_id; admin_addr = g.remote_addr; connected = g.connected })
        ghosts)

abbrev pub Hosts : Type 0
Hosts = Map Text (Map Text (Unit {0}))

abbrev pub hosts_of : Option (Map Text (Unit {0})) → Map Text (Unit {0})
hosts_of none = []
hosts_of (some m) = m

unfoldable pub add_seeds : Text → List SeedInfo → Hosts → Hosts
add_seeds ghost_id [] by_seed = by_seed
add_seeds ghost_id (seed ∷ seeds) by_seed =
    let id = trim_space seed.id in
    add_seeds ghost_id seeds (
      if is_empty id
      then by_seed
      else insert id (insert ghost_id tt (hosts_of (lookup id by_seed))) by_seed)

unfoldable pub index_seeds : List RegisteredGhost → Hosts → Hosts
index_seeds [] by_seed = by_seed
index_seeds (g ∷ ghosts) by_seed = index_seeds ghosts (add_seeds g.ghost_id g.seed_list by_seed)

unfoldable pub snapshot_available_services : List RegisteredGhost → List AvailableService
snapshot_available_services ghosts =
    sort_by (λ s. s.seed_id)
      (map (λ entry. record { seed_id = entry.0; ghost_ids = sort_strings (keys entry.1) })
        (index_seeds ghosts []))
