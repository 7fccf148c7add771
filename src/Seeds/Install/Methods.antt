-- ===== src/Seeds/Install/Methods.antt =====
-- install.go: the three ways of installing a seed.
use edgectl.Prelude.{
  ℕ, List, [], ◌∷◌, ◌++◌, Bool, not, ◌&&◌, ◌||◌, if◌then◌else◌, Text, codes, same, is_empty,
  trim_space, none, some, Result, ok, err,
}
use edgectl.Seeds.Fs.Paths.{join_path, is_abs, abs}
use edgectl.Seeds.Install.Paths.{is_within}
use edgectl.Seeds.Install.System.{
  InstallError, invalid_spec, sandbox_violation, unsupported_repo, host_error, Done, missing, there,
  unknown, WalkEntry, Host, and_then, io, when, run_command,
}

pub record InstallSpec : Type 0 where
  pub seed_id : Text
  pub install_method : Text
  pub repo_url : Text
  pub branch : Text
  pub ref : Text
  pub source_path : Text
  pub destination : Text
  pub brew_package : Text
  pub tap : Text
  pub bootstrap_if_missing : Bool
  pub bootstrap_command : List Text

-- The string's quotation marks are byte 34.
abbrev pub default_brew_bootstrap_command : List Text
default_brew_bootstrap_command =
    codes "/bin/bash"
    ∷ codes "-c"
    ∷ (codes "NONINTERACTIVE=1 /bin/bash -c "
        ++ (34
            ∷ (codes
                  "$(curl -fsSL https://raw.githubusercontent.com/Homebrew/install/HEAD/install.sh)"
                ++ 34 ∷ [])))
    ∷ []

abbrev pub git : Text
git = codes "git"

module _ {S : Type 0} (host : Host S) where
  unfoldable pub validate_github_repo : Text → Result InstallError (Unit {0})
  validate_github_repo repo = elim (host.parse_url repo) [
    | err _ ↦ err (unsupported_repo "parse error")
    | ok u ↦
        if not (same u.scheme (codes "https")) || not (host.equal_fold u.host (codes "github.com"))
        then err (unsupported_repo "must be https://github.com/*")
        else if is_empty (trim_space u.path) || same u.path (codes "/")
        then err (unsupported_repo "missing repository path")
        else ok tt
  ]

  unfoldable pub run_git : List Text → S → Done S
  run_git args s = run_command host git args s

  abbrev in_dest : Text → List Text → List Text
  in_dest dest args = codes "-C" ∷ dest ∷ args

  -- `fetch origin ref` and `checkout FETCH_HEAD`, where there is a ref.
  unfoldable pub checkout_ref : Text → Text → S → Done S
  checkout_ref dest ref s =
      when (not (is_empty ref))
        (λ s.
          and_then (run_git (in_dest dest (codes "fetch" ∷ codes "origin" ∷ ref ∷ [])) s)
            (run_git (in_dest dest (codes "checkout" ∷ codes "FETCH_HEAD" ∷ []))))
        s

  unfoldable pub clone_args : Text → Text → Text → List Text
  clone_args branch repo dest =
      codes "clone"
      ∷ ((if is_empty branch then [] else codes "--branch" ∷ branch ∷ codes "--single-branch" ∷ [])
          ++ repo ∷ dest ∷ [])

  unfoldable pub update_clone : Text → Text → Text → S → Done S
  update_clone dest branch ref s =
      and_then (run_git (in_dest dest (codes "fetch" ∷ codes "--all" ∷ codes "--prune" ∷ [])) s)
        (λ s.
          and_then
            (when (not (is_empty branch))
              (λ s. and_then (run_git (in_dest dest (codes "checkout" ∷ branch ∷ [])) s) (
                run_git
                  (in_dest dest (codes "pull" ∷ codes "--ff-only" ∷ codes "origin" ∷ branch ∷ []))))
              s)
            (λ s. and_then (checkout_ref dest ref s) (
              when (is_empty branch && is_empty ref)
                (run_git (in_dest dest (codes "pull" ∷ codes "--ff-only" ∷ []))))))

  unfoldable pub clone_or_update : Text → Text → Text → Text → S → Done S
  clone_or_update repo branch ref dest s = elim (host.stat dest s) [
    | missing ↦ and_then (run_git (clone_args branch repo dest) s) (checkout_ref dest ref)
    | unknown e ↦ (s, err (host_error e))
    | there ↦ elim (host.stat (join_path dest (codes ".git")) s) [
      | there ↦ update_clone dest branch ref s
      | _ ↦ (s, err (invalid_spec "destination exists but is not a git repository"))
    ]
  ]

  unfoldable pub install_github : InstallSpec → Text → S → Done S
  install_github spec dest s =
      let repo = trim_space spec.repo_url in
      if is_empty repo
      then (s, err (invalid_spec "missing repo for github install"))
      else elim (validate_github_repo repo) [
        | err e ↦ (s, err e)
        | ok _ ↦
            and_then (io (host.mkdir_all (host.dir dest) s))
              (clone_or_update repo (trim_space spec.branch) (trim_space spec.ref) dest)
      ]

  unfoldable pub copy_file : Text → Text → ℕ → S → Done S
  copy_file src dst perm s = and_then (io (host.mkdir_all (host.dir dst) s)) (λ s.
      elim (host.open_source src s) [
        | some e ↦ (s, err (host_error e))
        | none ↦ and_then (io (host.open_file dst perm s)) (λ s. io (host.io_copy src dst s))
      ])

  -- The visitor that `copyDir` gives to WalkDir.
  unfoldable pub copy_entry : Text → Text → WalkEntry → S → Done S
  copy_entry src dst entry s = elim entry.walk_err [
    | some e ↦ (s, err (host_error e))
    | none ↦
        if entry.is_symlink
        then (s, err (sandbox_violation "symlinks are not allowed in source tree"))
        else elim (host.rel_path src entry.path) [
          | err e ↦ (s, err (host_error e))
          | ok rel ↦
              let target = join_path dst rel in
              if entry.is_dir then io (host.mkdir_all target s) else elim entry.info [
                | err e ↦ (s, err (host_error e))
                | ok info ↦ when info.is_regular (copy_file entry.path target info.perm) s
              ]
        ]
  ]

  unfoldable pub copy_dir : Text → Text → S → Done S
  copy_dir src dst s = host.walk_dir src (copy_entry src dst) s

  unfoldable pub allowed_workspace_source : Text → Text → Bool
  allowed_workspace_source workspace_root src_abs =
      is_within src_abs (join_path workspace_root (codes "local"))
      || is_within src_abs (join_path workspace_root (codes "local/buildlogs"))

  unfoldable pub copy_source : Text → Text → S → Done S
  copy_source src_abs dest s = elim (host.lstat src_abs s) [
    | err e ↦ (s, err (host_error e))
    | ok info ↦
        if info.is_symlink
        then (s, err (sandbox_violation "symlinks are not allowed"))
        else if info.is_dir
        then copy_dir src_abs dest s
        else copy_file src_abs dest info.perm s
  ]

  unfoldable pub install_workspace_copy : Text → InstallSpec → Text → S → Done S
  install_workspace_copy workspace_root spec dest s =
      let source = trim_space spec.source_path in
      if is_empty source
      then (s, err (invalid_spec "missing source_path for workspace_copy"))
      else elim (abs (host.getwd s)
          (if is_abs source then source else join_path workspace_root source)) [
            | err e ↦ (s, err (host_error e))
            | ok src_abs ↦
                if allowed_workspace_source workspace_root src_abs
                then copy_source src_abs dest s
                else (s, err (sandbox_violation "source"))
          ]
