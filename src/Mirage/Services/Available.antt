-- ===== src/Mirage/Services/Available.antt =====
-- The index of services: which Ghosts host a seed.
use edgectl.Prelude.{
  ◌≡◌, refl, List, [], ◌∷◌, Bool, true, false, ◌&&◌, ◌||◌, Text, same, same_iff, is_empty,
  trim_space, lookup, insert, has, lookup-insert, text_eq, Bool-cases, inl, inr, arith,
}
use edgectl.Session.Control.{SeedInfo}
use edgectl.Mirage.Server.{RegisteredGhost}
use edgectl.Mirage.Services.{Hosts, hosts_of, add_seeds, index_seeds}

unfoldable pub is_hosted : Hosts → Text → Text → Bool
is_hosted by_seed seed_id ghost_id = has ghost_id (hosts_of (lookup seed_id by_seed))

-- Whether a list of seeds names one, but for spaces around the ids.
unfoldable pub names_seed : List SeedInfo → Text → Bool
names_seed [] seed_id = false
names_seed (seed ∷ seeds) seed_id = same (trim_space seed.id) seed_id || names_seed seeds seed_id

unfoldable pub offers : List RegisteredGhost → Text → Text → Bool
offers [] seed_id ghost_id = false
offers (g ∷ ghosts) seed_id ghost_id =
    same g.ghost_id ghost_id && names_seed g.seed_list seed_id || offers ghosts seed_id ghost_id

is_hosted-insert :
    (by_seed : Hosts) (id g seed_id ghost_id : Text)
    → is_hosted (insert id (insert g tt (hosts_of (lookup id by_seed))) by_seed) seed_id ghost_id
      ≡ (same g ghost_id && same id seed_id || is_hosted by_seed seed_id ghost_id)
unfolding is_hosted has
is_hosted-insert by_seed id g seed_id ghost_id = ground (
  arith,
  lookup-insert id seed_id (insert g tt (hosts_of (lookup id by_seed))) by_seed,
  lookup-insert g ghost_id tt (hosts_of (lookup id by_seed)),
  same_iff id seed_id,
)

blank_other : (a b : Text) → is_empty a ≡ true → is_empty b ≡ false → same a b ≡ false
unfolding same
blank_other [] [] h k = k
blank_other [] (_ ∷ _) h k = refl
blank_other (_ ∷ _) b h k = absurd cc

is_hosted-add_seeds :
    (g : Text) (seeds : List SeedInfo) (by_seed : Hosts) (seed_id ghost_id : Text)
    → is_empty seed_id ≡ false
    → is_hosted (add_seeds g seeds by_seed) seed_id ghost_id
      ≡ (same g ghost_id && names_seed seeds seed_id || is_hosted by_seed seed_id ghost_id)
unfolding add_seeds names_seed
is_hosted-add_seeds g [] by_seed seed_id ghost_id h = ground arith
is_hosted-add_seeds g (seed ∷ seeds) by_seed seed_id ghost_id h =
    elim (Bool-cases (is_empty (trim_space seed.id))) [
      | inl blank ↦
          let other : same (trim_space seed.id) seed_id ≡ false =
            blank_other (trim_space seed.id) seed_id blank h in
          rw (blank, add_seeds)
            (ground (arith, other, is_hosted-add_seeds g seeds by_seed seed_id ghost_id h))
      | inr given ↦
          let id = trim_space seed.id in
          let by_seed' = insert id (insert g tt (hosts_of (lookup id by_seed))) by_seed in
          rw (given, add_seeds)
            (ground (
              arith,
              is_hosted-insert by_seed id g seed_id ghost_id,
              is_hosted-add_seeds g seeds by_seed' seed_id ghost_id h,
            ))
    ]

-- In the index of services, a Ghost hosts a seed exactly if one of the Ghosts that the snapshot has under
-- its id lists the seed, but for spaces around the seed's id. The seed's id is not blank.
pub is_hosted-index_seeds :
    (ghosts : List RegisteredGhost) (by_seed : Hosts) (seed_id ghost_id : Text)
    → is_empty seed_id ≡ false
    → is_hosted (index_seeds ghosts by_seed) seed_id ghost_id
      ≡ (offers ghosts seed_id ghost_id || is_hosted by_seed seed_id ghost_id)
unfolding index_seeds offers
is_hosted-index_seeds [] by_seed seed_id ghost_id h = refl
is_hosted-index_seeds (g ∷ ghosts) by_seed seed_id ghost_id h = ground (
  arith,
  is_hosted-index_seeds ghosts (add_seeds g.ghost_id g.seed_list by_seed) seed_id ghost_id h,
  is_hosted-add_seeds g.ghost_id g.seed_list by_seed seed_id ghost_id h,
)
