-- ===== src/Seeds/Install/System.antt =====
-- What install.go asks of the operating system and of package net/url, and the errors of installs. None
-- of the host's operations is assumed to behave in any way.
use Prim.Native.String.{String}
use edgectl.Prelude.{ℕ, List, Bool, true, false, Text, Option, none, some, Result, ok, err}
use edgectl.Seeds.Mongod.{Runner}

pub data InstallError : Type 0 where
  invalid_spec sandbox_violation unsupported_repo : String → InstallError
  not_whitelisted unsupported_method invalid_root host_error : Text → InstallError
  brew_missing : InstallError
  command_failed : Text → ℕ → InstallError
  seed_failed : Text → InstallError → InstallError

-- What a step on the host returns.
abbrev pub Done : Type 0 → Type 0
Done S = S × Result InstallError (Unit {0})

-- `os.Stat`, as far as it is looked at: `os.ErrNotExist`, another error, or none.
pub data Found : Type 0 where
  missing there : Found
  unknown : Text → Found

pub record FileInfo : Type 0 where
  pub is_symlink : Bool
  pub is_dir : Bool
  pub is_regular : Bool
  pub perm : ℕ

-- What filepath.WalkDir tells its visitor: the path, its type, `walkErr` and what `d.Info` answers.
pub record WalkEntry : Type 0 where
  pub path : Text
  pub is_symlink : Bool
  pub is_dir : Bool
  pub walk_err : Option Text
  pub info : Result Text FileInfo

pub record Url : Type 0 where
  pub scheme : Text
  pub host : Text
  pub path : Text

-- A step returns `none`, or the text of its error; `rel_path` is filepath.Rel, `dir` filepath.Dir.
pub record Host (S : Type 0) : Type 0 where
  pub getwd : S → Result Text Text
  pub run : Runner S
  pub mkdir_all : Text → S → S × Option Text
  pub stat : Text → S → Found
  pub lstat : Text → S → Result Text FileInfo
  pub open_source : Text → S → Option Text
  pub open_file : Text → ℕ → S → S × Option Text
  pub io_copy : Text → Text → S → S × Option Text
  pub walk_dir : Text → (WalkEntry → S → Done S) → S → Done S
  pub rel_path : Text → Text → Result Text Text
  pub dir : Text → Text
  pub parse_url : Text → Result Text Url
  pub equal_fold : Text → Text → Bool
  pub to_lower : Text → Text

module _ {S : Type 0} where
  -- `if err := …; err != nil { return err }`
  unfoldable pub and_then : Done S → (S → Done S) → Done S
  and_then (s, err e) rest = (s, err e)
  and_then (s, ok _) rest = rest s

  unfoldable pub io : S × Option Text → Done S
  io (s, none) = (s, ok tt)
  io (s, some message) = (s, err (host_error message))

  unfoldable pub when : Bool → (S → Done S) → S → Done S
  when true act s = act s
  when false act s = (s, ok tt)

  unfoldable pub run_command : Host S → Text → List Text → S → Done S
  run_command host name args s =
      let (s', out) = host.run name args s in
      elim out.failure [
        | none ↦ (s', ok tt)
        | some _ ↦ (s', err (command_failed name out.exit_code))
      ]
