-- ===== src/Mirage/Server/Discovery.antt =====
-- server.go: what a registration's seed list is told about the Ghost that hosts the seeds. The host
-- and port of an address are package net's, taken as an interface.
use edgectl.Prelude.{
  List, [], ◌∷◌, ◌++◌, map, Bool, true, false, ◌||◌, ◌&&◌, ◌==◌, if◌then◌else◌, Text, codes, same,
  is_empty, trim_space, Option, none, some,
}
use edgectl.Session.Control.{SeedInfo}

-- `net.SplitHostPort`, with `none` for an error, and `net.JoinHostPort`.
pub record Net : Type 0 where
  pub split_host_port : Text → Option (Text × Text)
  pub join_host_port : Text → Text → Text

-- Whether `s` begins with `p`.
unfoldable pub starts_with : Text → Text → Bool
starts_with s [] = true
starts_with [] (b ∷ p) = false
starts_with (a ∷ s) (b ∷ p) = a == b && starts_with s p

-- strings.Contains
unfoldable pub contains : Text → Text → Bool
unfolding starts_with
contains [] p = is_empty p
contains (a ∷ s) p = starts_with (a ∷ s) p || contains s p

unfoldable pub append_discovery_field : Text → Text → Text → Text
unfolding contains
append_discovery_field desc key value =
    let v = trim_space value in
    let base = trim_space desc in
    let token = key ++ v in
    if is_empty v
    then base
    else if contains base token
    then base
    else if is_empty base
    then token
    else base ++ (codes "; " ++ token)

unfoldable pub fs_seed_root_for_ghost : Text → Text
fs_seed_root_for_ghost ghost_id =
    let id = trim_space ghost_id in
    codes "local/dir/" ++ (if is_empty id then codes "ghost.local" else id)

abbrev pub loopback : Text
loopback = codes "127.0.0.1"

module _ (net : Net) where
  unfoldable pub host_from_remote_addr : Text → Text
  host_from_remote_addr remote_addr =
      let trimmed = trim_space remote_addr in
      if is_empty trimmed then loopback else elim (net.split_host_port trimmed) [
        | none ↦ trimmed
        | some (host, port) ↦ if is_empty (trim_space host) then loopback else trim_space host
      ]

  -- The switch over the seed's id.
  unfoldable pub seed_fields : Text → Text → Text → Text → Text
  seed_fields ghost_id host seed_id desc =
      if same seed_id (codes "seed.mongod")
      then (let uri =
            codes "mongodb://"
            ++ (net.join_host_port host (codes "27017") ++ codes "/?directConnection=true") in
          append_discovery_field
            (append_discovery_field (append_discovery_field desc (codes "endpoint_uri=") uri)
              (codes "host=") host)
            (codes "seed_scope=") (codes "network_service"))
      else if same seed_id (codes "seed.fs")
      then append_discovery_field
          (append_discovery_field desc (codes "path_root=") (fs_seed_root_for_ghost ghost_id))
          (codes "seed_scope=") (codes "ghost_local_filesystem")
      else if same seed_id (codes "seed.kv")
      then append_discovery_field
          (append_discovery_field desc (codes "persistence=") (codes "in_memory"))
          (codes "seed_scope=") (codes "ghost_local_cache")
      else if same seed_id (codes "seed.flow")
      then append_discovery_field
          (append_discovery_field desc (codes "seed_scope=") (codes "control_plane"))
          (codes "dispatch=") (codes "ghost_execute")
      else append_discovery_field desc (codes "seed_scope=") (codes "ghost_local")

  unfoldable pub enrich_seed : Text → Text → SeedInfo → SeedInfo
  enrich_seed ghost_id host seed = record seed {
    description =
        append_discovery_field
          (seed_fields ghost_id host (trim_space seed.id) (trim_space seed.description))
          (codes "ghost_id=") (trim_space ghost_id);
  }

  unfoldable pub enrich_seed_list_for_ghost : Text → Text → List SeedInfo → List SeedInfo
  enrich_seed_list_for_ghost ghost_id remote_addr seeds =
      map (enrich_seed ghost_id (host_from_remote_addr remote_addr)) seeds
