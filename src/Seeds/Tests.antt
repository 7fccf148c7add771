-- ===== src/Seeds/Tests.antt =====
-- A registration, and the theorem of the registry on it.
use edgectl.Prelude.{
  err, false, ◌⊎◌, text_eq, subst, ok-injective, map, List, ◌&&◌, ◌||◌, ◌++◌, is_empty, member,
  join, All, IsSorted, Result, refl, ◌≡◌, [], ◌∷◌, codes, Text, same, trim_space, true, has, insert,
  none, some, ok,
}
use edgectl.Seeds.{
  Seed, register, validate_metadata, is_valid_id, valid_id_loop, is_id_byte, is_sep,
}
use edgectl.Seeds.Replies.{arg, ok_result}
use edgectl.Seeds.Kv.{Store, execute, has_prefix}
use edgectl.Seeds.Kv.Refinement.{Op, puts, gets, deletes, view, reply, run, spec_run, run_refines}
use edgectl.Seeds.Kv.Listing.{execute-list}
use edgectl.Seeds.Fs.{resolve_path, is_within}
use edgectl.Seeds.Fs.Paths.{
  abs, is_abs, clean, split, prepend, walk, step_up, step_into, render, join_path,
}
use edgectl.Seeds.Fs.Clean.{IsPlain}
use edgectl.Seeds.Fs.Contained.{under, resolve_path_contained}
use edgectl.Seeds.Install.Paths
use edgectl.Seeds.Install.Paths.{rel, rel_names, names_of}
use edgectl.Seeds.Install.System.{InstallError, Host, missing}
use edgectl.Seeds.Install.Methods.{InstallSpec}
use edgectl.Seeds.Install.{
  Installer, InstallerConfig, normalize_whitelist, installer_roots, new_installer, install,
}
use edgectl.Seeds.Install.Contained.{IsAllowed, install_contained}

abbrev flow : Seed Text
flow = record {
  metadata = record { id = codes "seed.flow"; name = codes "flow"; description = codes "answers" };
  execute = λ operation args w.
      (w, record { status = codes "ok"; stdout = operation; stderr = []; exit_code = 0 }, none);
}

register-flow : register [] (some flow) ≡ ok ((codes "seed.flow", flow) ∷ [])
unfolding register validate_metadata is_valid_id valid_id_loop is_id_byte is_sep trim_space has
    insert
register-flow = refl

-- The third argument of a seed's %q, on texts that need no escapes.
abbrev quoted : Text → Text
quoted t = codes "'" ++ (t ++ codes "'")

abbrev ops : List Op
ops =
    puts (codes " a ") (codes "1")
    ∷ gets (codes "a")
    ∷ deletes (codes "a")
    ∷ gets (codes "a")
    ∷ gets []
    ∷ []

run_refines_example :
    let (s', replies) = run quoted [] ops in
    let (f, answers) = spec_run (view []) ops in (view s' ≡ f) × (replies ≡ map reply answers)
run_refines_example = run_refines quoted [] ops

abbrev two_keys : Store
two_keys = (codes "b", codes "1") ∷ (codes "a", codes "2") ∷ []

execute-list_example :
    (names : List Text) × (execute quoted (codes "list") [] two_keys
      ≡ (two_keys, (ok_result (join (10 ∷ []) names ++ 10 ∷ []), none)))
    × IsSorted (λ t. t) names
    × ((k : Text)
        → member k names ≡ (
            has k two_keys
            && (is_empty (trim_space (arg (codes "prefix") []))
                || has_prefix (trim_space (arg (codes "prefix") [])) k)))
execute-list_example = execute-list quoted [] two_keys

abbrev in_home : Result Text Text
in_home = ok (codes "/home")

home-rooted : (dir : Text) → in_home ≡ ok dir → is_abs dir ≡ true
unfolding is_abs
home-rooted dir e = subst (λ d. is_abs d ≡ true) (ok-injective e) refl

root-found : abs in_home (codes "data") ≡ ok (codes "/home/data")
unfolding abs is_abs clean split prepend walk step_up step_into render join_path join same
root-found = refl

path-resolved : resolve_path in_home (codes "data") (codes "x/../y") ≡ ok (codes "/home/data/y")
unfolding resolve_path is_within trim_space has_prefix abs is_abs clean split prepend walk step_up
    step_into render join_path join same
path-resolved = refl

resolve_path_contained_example :
    (names : List Text) × All IsPlain names
    × (codes "/home/data/y" ≡ under (codes "/home/data") names)
resolve_path_contained_example =
    resolve_path_contained in_home (codes "data") (codes "x/../y") (codes "/home/data")
      (codes "/home/data/y") home-rooted root-found path-resolved

-- A host that records the folders that are made and the commands that are run.
abbrev recorder : Host (List Text)
recorder = record {
  getwd = λ s. ok (codes "/w");
  run =
      λ name args s. (name ∷ s, record { stdout = []; stderr = []; exit_code = 0; failure = none });
  mkdir_all = λ p s. (p ∷ s, none);
  stat = λ p s. missing;
  lstat = λ p s. err (codes "no such file");
  open_source = λ p s. some (codes "no such file");
  open_file = λ p perm s. (s, none);
  io_copy = λ src dst s. (s, none);
  walk_dir = λ p visit s. (s, ok tt);
  rel_path = λ base p. ok p;
  dir = λ p. p;
  parse_url = λ t. ok (record { scheme = codes "https"; host = codes "github.com"; path = t });
  equal_fold = same;
  to_lower = λ t. t;
}

abbrev config : InstallerConfig
config = record { workspace_root = []; install_root = []; whitelist = codes " seed.x " ∷ [] }

abbrev installer : Installer
installer = record {
  workspace_root = codes "/w";
  install_root = codes "/w/local/seeds";
  whitelist = (codes "seed.x", tt) ∷ [];
}

abbrev clone_x : InstallSpec
clone_x = record {
  seed_id = codes "seed.x";
  install_method = codes "github";
  repo_url = codes "r";
  branch = [];
  ref = [];
  source_path = [];
  destination = [];
  brew_package = [];
  tap = [];
  bootstrap_if_missing = false;
  bootstrap_command = [];
}

installer-made : new_installer recorder config [] ≡ (codes "/w/local/seeds" ∷ [], ok installer)
unfolding new_installer installer_roots normalize_whitelist insert Paths.is_within rel rel_names
    names_of trim_space has_prefix abs is_abs clean split prepend walk step_up step_into render
    join_path join same
installer-made = refl

install_contained_example :
    ((e : InstallError) × (install recorder installer clone_x [] ≡ ([], err e)))
    ⊎ IsAllowed recorder config installer clone_x []
install_contained_example =
    install_contained recorder config [] (codes "/w/local/seeds" ∷ []) [] installer clone_x
      (λ dir e. subst (λ d. is_abs d ≡ true) (ok-injective e) (unfold is_abs in refl))
      installer-made
