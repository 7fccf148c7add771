-- ===== src/Mirage/Services/Tests.antt =====
-- Two Ghosts that list the same seed.
use edgectl.Prelude.{◌≡◌, ◌||◌, refl, [], ◌∷◌, codes, Text, true, some, none}
use edgectl.Mirage.Server.{RegisteredGhost}
use edgectl.Mirage.Services.{index_seeds}
use edgectl.Mirage.Services.Available.{is_hosted, offers, is_hosted-index_seeds}

abbrev ghost : Text → RegisteredGhost
ghost id = record {
  ghost_id = id;
  remote_addr = codes "10.0.0.7";
  seed_list =
      record { id = codes " seed.kv "; name = codes "kv"; description = codes "values" } ∷ [];
  registered_at = some 1;
  last_event_at = none;
  event_count = 0;
  connected = true;
}

is_hosted-index_seeds_example :
    let ghosts = ghost (codes "a") ∷ ghost (codes "b") ∷ [] in
    is_hosted (index_seeds ghosts []) (codes "seed.kv") (codes "b")
    ≡ (offers ghosts (codes "seed.kv") (codes "b") || is_hosted [] (codes "seed.kv") (codes "b"))
is_hosted-index_seeds_example =
    is_hosted-index_seeds (ghost (codes "a") ∷ ghost (codes "b") ∷ []) [] (codes "seed.kv")
      (codes "b") refl
