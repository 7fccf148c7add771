-- ===== src/Seeds.antt =====
-- internal/seeds: the seed interface and the registry (types.go, registry.go). `S` is the state of
-- the host that seeds read and change; an exit code is the bit pattern of its int32.
pub mod Ids
pub mod Replies
pub mod Kv
pub mod Fs
pub mod Flow
pub mod Mongod
pub mod Install
pub mod Consistent
mod Tests
use edgectl.Prelude.{
  ℕ, zero, suc, ◌+◌, List, [], ◌∷◌, Bool, true, false, not, ◌&&◌, ◌||◌, ◌==◌, leb, if◌then◌else◌,
  Text, is_empty, trim_space, Map, lookup, insert, has, text_eq, Option, none, some, Result, ok,
  err, ◌>>=◌, ◌>>◌, length, map, sort_by,
}
use edgectl.Session.Command.{Args}

pub record SeedMetadata : Type 0 where
  pub id : Text
  pub name : Text
  pub description : Text

pub record SeedResult : Type 0 where
  pub status : Text
  pub stdout : Text
  pub stderr : Text
  pub exit_code : ℕ

-- `Execute` returns a result and perhaps an error, of which only the text is looked at.
pub record Seed (S : Type 0) : Type 0 where
  pub metadata : SeedMetadata
  pub execute : Text → Args → S → S × SeedResult × Option Text

pub data RegistryError : Type 0 where
  seed_exists seed_nil : RegistryError
  metadata_required invalid_id_format : RegistryError

abbrev pub Registry : Type 0 → Type 0
Registry S = Map Text (Seed S)

is_lower : ℕ → Bool
is_lower c = leb b'a' c && leb c b'z'

is_digit : ℕ → Bool
is_digit c = leb b'0' c && leb c b'9'

unfoldable pub is_sep : ℕ → Bool
is_sep c = c == b'.' || c == b'-' || c == b'_'

unfoldable pub is_id_byte : ℕ → Bool
unfolding is_lower is_digit is_sep
is_id_byte c = is_lower c || is_digit c || is_sep c

-- The loop of `isValidID`: whether the byte is the first one, the last separator test, and the
-- bytes that are left.
unfoldable pub valid_id_loop : Bool → Bool → Text → Bool
valid_id_loop first last_sep [] = true
valid_id_loop first last_sep (c ∷ rest) =
    let later = valid_id_loop false (is_sep c) rest in
    if not (is_id_byte c)
    then false
    else if (first || is_empty rest) && is_sep c
    then false
    else if is_sep c && last_sep
    then false
    else later

unfoldable pub is_valid_id : Text → Bool
is_valid_id id = if is_empty id then false else valid_id_loop true false id

unfoldable pub validate_metadata : SeedMetadata → Result RegistryError (Unit {0})
validate_metadata meta =
    if is_empty (trim_space meta.id)
      || is_empty (trim_space meta.name)
      || is_empty (trim_space meta.description)
    then err metadata_required
    else if not (is_valid_id (trim_space meta.id))
    then err invalid_id_format
    else ok tt

module _ {S : Type 0} where
  abbrev pub new_registry : Registry S
  new_registry = []

  -- `nil` is `none`.
  unfoldable pub register : Registry S → Option (Seed S) → Result RegistryError (Registry S)
  register r none = err seed_nil
  register r (some seed) =
      validate_metadata seed.metadata
      >> (if has seed.metadata.id r then err seed_exists else ok (insert seed.metadata.id seed r))

  -- The map's iteration order does not show, since the ids are sorted and distinct.
  unfoldable pub list_metadata : Registry S → List SeedMetadata
  unfolding sort_by
  list_metadata r = sort_by (λ m. m.id) (map (λ entry. entry.1.metadata) r)

  unfoldable pub resolve : Registry S → Text → Option (Seed S)
  resolve r id = lookup id r
