-- ===== src/Seeds/Install/Brew.antt =====
-- install.go: packages of Homebrew, which may have to be installed first.
use edgectl.Prelude.{
  List, [], ◌∷◌, not, ◌==◌, if◌then◌else◌, Text, codes, is_empty, trim_space, none, some, ok, err,
}
use edgectl.Seeds.Install.System.{
  invalid_spec, brew_missing, command_failed, Done, Host, and_then, when, run_command,
}
use edgectl.Seeds.Install.Methods.{InstallSpec, default_brew_bootstrap_command}

abbrev pub brew : Text
brew = codes "brew"

module _ {S : Type 0} (host : Host S) where
  unfoldable pub check_brew_version : S → Done S
  check_brew_version s =
      let (s', out) = host.run brew (codes "--version" ∷ []) s in
      elim out.failure [
        | none ↦ (s', ok tt)
        | some _ ↦ (
          s',
          err (if out.exit_code == 127 then brew_missing else command_failed brew out.exit_code),
        )
      ]

  -- The command that is given, or the default one, and then a second look.
  unfoldable pub run_bootstrap : List Text → S → Done S
  run_bootstrap [] s = (s, err (invalid_spec "invalid bootstrap command"))
  run_bootstrap (first ∷ args) s =
      if is_empty (trim_space first)
      then (s, err (invalid_spec "invalid bootstrap command"))
      else and_then (run_command host (trim_space first) args s) (λ s.
        let (s', r) = check_brew_version s in
        elim r [ ok _ ↦ (s', ok tt) | err _ ↦ (s', err brew_missing) ])

  unfoldable pub bootstrap_brew : InstallSpec → S → Done S
  bootstrap_brew spec s =
      if not spec.bootstrap_if_missing then (s, err brew_missing) else elim spec.bootstrap_command [
        | [] ↦ run_bootstrap default_brew_bootstrap_command s
        | first ∷ args ↦ run_bootstrap (first ∷ args) s
      ]

  unfoldable pub ensure_brew_available : InstallSpec → S → Done S
  ensure_brew_available spec s =
      let (s', r) = check_brew_version s in
      elim r [
        | ok _ ↦ (s', ok tt)
        | err brew_missing ↦ bootstrap_brew spec s'
        | err e ↦ (s', err e)
      ]

  unfoldable pub install_brew : InstallSpec → S → Done S
  install_brew spec s =
      let pkg = trim_space spec.brew_package in
      let tap = trim_space spec.tap in
      if is_empty pkg
      then (s, err (invalid_spec "missing package for brew install"))
      else and_then (ensure_brew_available spec s) (λ s.
        and_then (when (not (is_empty tap)) (run_command host brew (codes "tap" ∷ tap ∷ [])) s)
          (run_command host brew (codes "install" ∷ pkg ∷ [])))
