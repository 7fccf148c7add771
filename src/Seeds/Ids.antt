-- ===== src/Seeds/Ids.antt =====
-- registry.go: what a registration changes.
use edgectl.Prelude.{
  true, if◌then◌else◌, Text, same, trim_space, has, text_eq, lookup-insert, ok, none, some, ◌≡◌,
  arith,
}
use edgectl.Seeds.{Seed, Registry, validate_metadata, is_valid_id, register, resolve}

module _ {S : Type 0} where
  -- A registration that succeeds is of a seed whose id is valid without the spaces around it and was not taken; afterwards that id resolves to the seed and every other id to what it did.
  pub resolve-register :
      (r r' : Registry S) (seed : Seed S) (id : Text)
      → register r (some seed) ≡ ok r'
      → (is_valid_id (trim_space seed.metadata.id) ≡ true)
        × (resolve r seed.metadata.id ≡ none)
        × (resolve r' id ≡ (if same seed.metadata.id id then some seed else resolve r id))
  unfolding register resolve validate_metadata has
  resolve-register r r' seed id e = ground (arith, lookup-insert seed.metadata.id id seed r)
