-- ===== src/Seeds/Install.antt =====
-- install.go: an installer with a whitelist, whose destinations stand under one root.
pub mod System
pub mod Paths
pub mod Methods
pub mod Brew
pub mod Within
pub mod Contained
use edgectl.Prelude.{
  ℕ, List, [], ◌∷◌, map, Bool, true, false, not, ◌==◌, if◌then◌else◌, Text, codes, same, is_empty,
  trim_space, Map, insert, has, text_eq, Option, none, some, Result, ok, err, ◌>>=◌, ◌>>◌,
}
use edgectl.Seeds.Fs.Paths.{slash, join_path, is_abs, abs, clean}
use edgectl.Seeds.Install.Paths.{is_within}
use edgectl.Seeds.Install.System.{
  InstallError, invalid_spec, sandbox_violation, not_whitelisted, unsupported_method, invalid_root,
  host_error, seed_failed, Done, Host,
}
use edgectl.Seeds.Install.Methods.{InstallSpec, install_github, install_workspace_copy}
use edgectl.Seeds.Install.Brew.{install_brew}

pub record InstallerConfig : Type 0 where
  pub workspace_root : Text
  pub install_root : Text
  pub whitelist : List Text

-- The runner is the host's.
pub record Installer : Type 0 where
  pub workspace_root : Text
  pub install_root : Text
  pub whitelist : Map Text (Unit {0})

unfoldable pub normalize_whitelist : Map Text (Unit {0}) → List Text → Map Text (Unit {0})
normalize_whitelist out [] = out
normalize_whitelist out (raw ∷ rest) =
    let id = trim_space raw in
    normalize_whitelist (if is_empty id then out else insert id tt out) rest

-- The roots of `NewInstaller`: the workspace, and where seeds are installed. `wd` is what os.Getwd answers.
unfoldable pub installer_roots :
    Result Text Text → InstallerConfig → Result InstallError (Text × Text)
installer_roots wd cfg =
    let given = trim_space cfg.workspace_root in
    let install = trim_space cfg.install_root in
    let chosen = if is_empty install then codes "local/seeds" else install in
    elim (if is_empty given then wd >>= abs wd else abs wd given) [
      | err e ↦ err (host_error e)
      | ok workspace ↦
          let root = clean (if is_abs chosen then chosen else join_path workspace chosen) in
          if is_within root (join_path workspace (codes "local"))
          then ok (workspace, root)
          else err (invalid_root root)
    ]

unfoldable pub resolve_destination : Installer → Text → Text → Result InstallError Text
resolve_destination i seed_id destination =
    let given = trim_space destination in
    let rel = if is_empty given then map (λ c. if c == b'.' then slash else c) seed_id else given in
    if is_abs rel
    then err (invalid_spec "destination must be relative")
    else let dest = clean (join_path i.install_root rel) in
      if is_within dest i.install_root
      then ok dest
      else err (sandbox_violation "destination outside install root")

module _ {S : Type 0} (host : Host S) where
  unfoldable pub new_installer : InstallerConfig → S → S × Result InstallError Installer
  new_installer cfg s = elim (installer_roots (host.getwd s) cfg) [
    | err e ↦ (s, err e)
    | ok (workspace, root) ↦
        let (s', made) = host.mkdir_all root s in
        elim made [
          | some e ↦ (s', err (host_error e))
          | none ↦ (
            s',
            ok (record {
              workspace_root = workspace;
              install_root = root;
              whitelist = normalize_whitelist [] cfg.whitelist;
            }),
          )
        ]
  ]

  -- The switch over the method.
  unfoldable pub run_method : Installer → InstallSpec → Text → S → Done S
  run_method i spec dest s =
      let chosen = host.to_lower (trim_space spec.install_method) in
      if same chosen (codes "github")
      then install_github host spec dest s
      else if same chosen (codes "workspace_copy")
      then install_workspace_copy host i.workspace_root spec dest s
      else if same chosen (codes "brew")
      then install_brew host spec s
      else (s, err (unsupported_method spec.install_method))

  unfoldable pub install : Installer → InstallSpec → S → Done S
  install i spec s =
      let seed_id = trim_space spec.seed_id in
      if is_empty seed_id
      then (s, err (invalid_spec "missing seed_id"))
      else if not (has seed_id i.whitelist)
      then (s, err (not_whitelisted seed_id))
      else elim (resolve_destination i seed_id spec.destination) [
        | err e ↦ (s, err e)
        | ok dest ↦ run_method i spec dest s
      ]

  unfoldable pub install_all : Installer → List InstallSpec → S → Done S
  install_all i [] s = (s, ok tt)
  install_all i (spec ∷ specs) s =
      let (s', r) = install i spec s in
      let later = install_all i specs s' in
      elim r [ err e ↦ (s', err (seed_failed (trim_space spec.seed_id) e)) | ok _ ↦ later ]
