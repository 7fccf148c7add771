-- ===== src/Seeds/Kv.antt =====
-- kv/seed.go: a store of strings in memory. `quote` is strconv.Quote, which only words an error.
pub mod Refinement
pub mod Listing
use edgectl.Prelude.{
  List, [], ◌∷◌, ◌++◌, Bool, true, false, ◌||◌, ◌==◌, if◌then◌else◌, Text, codes, same, is_empty,
  trim_space, Map, lookup, insert, remove, text_eq, keys, sort_strings, join, Option, none, some, ℕ,
}
use edgectl.Session.Command.{Args}
use edgectl.Seeds.{SeedMetadata, Seed}
use edgectl.Seeds.Replies.{Reply, arg, ok_result, error_result}

abbrev pub Store : Type 0
Store = Map Text Text

abbrev pub seed_id : Text
seed_id = codes "seed.kv"

abbrev pub new_store : Store
new_store = []

unfoldable pub metadata : SeedMetadata
metadata = record {
  id = seed_id;
  name = codes "KV (temporary in-memory)";
  description = codes "Temporary key-value state storage seed for control-plane persistence";
}

abbrev pub missing_key : Reply
missing_key = (error_result (codes "missing key"), some (codes "seed.kv: missing key"))

-- `strings.HasPrefix(k, prefix)`
unfoldable pub has_prefix : Text → Text → Bool
has_prefix [] t = true
has_prefix (p ∷ ps) [] = false
has_prefix (p ∷ ps) (c ∷ cs) = if p == c then has_prefix ps cs else false

unfoldable pub keys_with : Text → Store → List Text
keys_with prefix [] = []
keys_with prefix ((k, v) ∷ m) =
    let rest = keys_with prefix m in
    if is_empty prefix || has_prefix prefix k then k ∷ rest else rest

unfoldable pub put : Store → Args → Store × Reply
put s args =
    let key = trim_space (arg (codes "key") args) in
    if is_empty key then (s, missing_key) else (
      insert key (arg (codes "value") args) s,
      (ok_result (codes "ok put key=" ++ (key ++ 10 ∷ [])), none),
    )

unfoldable pub get : Store → Args → Store × Reply
get s args =
    let key = trim_space (arg (codes "key") args) in
    if is_empty key then (s, missing_key) else elim (lookup key s) [
      | none ↦ (
        s,
        (error_result (codes "missing key=" ++ key), some (codes "seed.kv: missing key=" ++ key)),
      )
      | some val ↦ (s, (ok_result (val ++ 10 ∷ []), none))
    ]

unfoldable pub delete : Store → Args → Store × Reply
delete s args =
    let key = trim_space (arg (codes "key") args) in
    if is_empty key
    then (s, missing_key)
    else (remove key s, (ok_result (codes "ok delete key=" ++ (key ++ 10 ∷ [])), none))

unfoldable pub list : Store → Args → Store × Reply
list s args =
    let prefix = trim_space (arg (codes "prefix") args) in
    (s, (ok_result (join (10 ∷ []) (sort_strings (keys_with prefix s)) ++ 10 ∷ []), none))

unfoldable pub execute : (Text → Text) → Text → Args → Store → Store × Reply
execute quote action args s =
    let act = trim_space action in
    if same act (codes "put")
    then put s args
    else if same act (codes "get")
    then get s args
    else if same act (codes "delete")
    then delete s args
    else if same act (codes "list")
    then list s args
    else (
      s,
      (
        error_result (codes "unknown action"),
        some (codes "seed.kv: unknown action=" ++ quote action),
      ),
    )

-- The seed that a registry holds.
unfoldable pub kv_seed : (Text → Text) → Seed Store
kv_seed quote = record {
  metadata = metadata;
  execute =
      λ action args s. let (s', reply) = execute quote action args s in (s', reply.0, reply.1);
}
