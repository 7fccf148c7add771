-- ===== src/Seeds/Fs.antt =====
-- fs/seed.go: files under one root. The operations of os and filepath.WalkDir on the host are
-- parameters; the paths are lexical and are modelled.
pub mod Paths
pub mod Clean
pub mod Contained
use edgectl.Prelude.{
  ℕ, List, [], ◌∷◌, ◌++◌, Bool, true, false, ◌||◌, ◌==◌, if◌then◌else◌, Text, codes, same, is_empty,
  trim_space, sort_strings, join, Result, ok, err, ◌>>=◌, Option, none, some,
}
use edgectl.Session.Command.{Args}
use edgectl.Seeds.Replies.{Reply, arg, ok_result, error_result, status_ok}
use edgectl.Seeds.Kv.{has_prefix}
use edgectl.Seeds.{SeedMetadata, Seed}
use edgectl.Seeds.Fs.Paths.{slash, clean, join_path, is_abs, abs}

abbrev pub default_root : Text
default_root = codes "local/dir"

-- `NewSeedWithRoot`: the root that is kept.
unfoldable pub resolve_root : Text → Text
resolve_root root = let t = trim_space root in if is_empty t then default_root else t

unfoldable pub metadata : Text → SeedMetadata
metadata root = record {
  id = codes "seed.fs";
  name = codes "Filesystem";
  description =
      codes "Temporary file persistence seed scoped to "
      ++ (if is_empty (trim_space root) then default_root else trim_space root);
}

unfoldable pub is_within : Text → Text → Bool
is_within path root =
    let p = clean path in let r = clean root in same p r || has_prefix (r ++ (slash ∷ [])) p

-- `wd` is what os.Getwd answers.
unfoldable pub resolve_path : Result Text Text → Text → Text → Result Text Text
resolve_path wd root path_arg =
    let rel = trim_space path_arg in
    if is_empty rel
    then err (codes "seed.fs: missing path")
    else if is_abs rel
    then err (codes "seed.fs: absolute path not allowed")
    else (abs wd root >>= λ r.
        let p = clean (join_path r rel) in
        if is_within p r then ok p else err (codes "seed.fs: path escapes root"))

-- What filepath.WalkDir tells of a path.
pub record Entry : Type 0 where
  pub path : Text
  pub is_skipped : Bool

-- The host's files. An error is its text; that of a removal says whether the file was not there. `rel`
-- is filepath.Rel and ToSlash, `dir` filepath.Dir.
pub record Files (S : Type 0) : Type 0 where
  pub wd : S → Result Text Text
  pub dir : Text → Text
  pub rel : Text → Text → Option Text
  pub mkdir_all : Text → S → S × Option Text
  pub write_file : Text → Text → S → S × Option Text
  pub read_file : Text → S → Result Text Text
  pub remove : Text → S → S × Option (Bool × Text)
  pub walk_dir : Text → S → List Entry

abbrev pub failed : Text → Reply
failed e = (error_result e, some e)

abbrev pub done : Reply
done = (ok_result (codes "ok" ++ 10 ∷ []), none)

-- The callback of the walk, over the entries.
unfoldable pub names_with : (Text → Option Text) → Text → List Entry → List Text
names_with rel prefix [] = []
names_with rel prefix (e ∷ es) =
    let rest = names_with rel prefix es in
    if e.is_skipped then rest else elim (rel e.path) [
      | none ↦ rest
      | some name ↦ if is_empty prefix || has_prefix prefix name then name ∷ rest else rest
    ]

module _ {S : Type 0} (files : Files S) (root : Text) where
  unfoldable pub write : Text → Text → S → S × Reply
  write p content s =
      let (s', failure) = files.mkdir_all (files.dir p) s in
      elim failure [
        | some e ↦ (s', failed e)
        | none ↦
            let (s'', failure') = files.write_file p content s' in
            elim failure' [ some e ↦ (s'', failed e) | none ↦ (s'', done) ]
      ]

  unfoldable pub read : Text → S → S × Reply
  read p s = elim (files.read_file p s) [
    | err e ↦ (s, failed e)
    | ok out ↦ (s, (record { status = status_ok; stdout = out; stderr = []; exit_code = 0 }, none))
  ]

  -- A file that is not there counts as deleted.
  unfoldable pub delete : Text → S → S × Reply
  delete p s =
      let (s', failure) = files.remove p s in
      elim failure [
        | none ↦ (s', done)
        | some (was_missing, e) ↦ if was_missing then (s', done) else (s', failed e)
      ]

  unfoldable pub list : Args → S → S × Reply
  list args s = elim (abs (files.wd s) root) [
    | err e ↦ (s, failed e)
    | ok r ↦
        let names =
          names_with (files.rel r) (trim_space (arg (codes "prefix") args)) (files.walk_dir r s) in
        (s, (ok_result (join (10 ∷ []) (sort_strings names) ++ 10 ∷ []), none))
  ]

  unfoldable pub on_path : Args → S → (Text → S → S × Reply) → S × Reply
  on_path args s act = elim (resolve_path (files.wd s) root (arg (codes "path") args)) [
    | err e ↦ (s, failed e)
    | ok p ↦ act p s
  ]

  unfoldable pub execute : (Text → Text) → Text → Args → S → S × Reply
  execute quote action args s =
      let act = trim_space action in
      if same act (codes "write")
      then on_path args s (λ p. write p (arg (codes "content") args))
      else if same act (codes "read")
      then on_path args s read
      else if same act (codes "delete")
      then on_path args s delete
      else if same act (codes "list")
      then list args s
      else (s, failed (codes "seed.fs: unknown action=" ++ quote action))

  unfoldable pub fs_seed : (Text → Text) → Seed S
  fs_seed quote = record {
    metadata = metadata root;
    execute =
        λ action args s. let (s', reply) = execute quote action args s in (s', reply.0, reply.1);
  }
