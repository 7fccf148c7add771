-- ===== src/Seeds/Install/Contained.antt =====
-- What install.go lets an installation touch: nothing for a seed off the whitelist, and a place under
-- the install root for the others.
use edgectl.Prelude.{
  ◌≡◌, refl, sym, ◌∙◌, subst, ◌⊎◌, List, [], ◌∷◌, map, true, ◌||◌, ◌==◌, if◌then◌else◌, Bool-cases,
  Text, codes, same, is_empty, trim_space, has, insert, lookup-insert, member, Map, text_eq, Result,
  ok, err, ◌>>=◌, Result-cases, >>=-eq-ok, inl, inr, arith,
}
use edgectl.Seeds.Fs.Paths.{slash, clean, join_path, is_abs, abs}
use edgectl.Seeds.Fs.Clean.{clean_rooted}
use edgectl.Seeds.Fs.Contained.{Rooted, join_path-Rooted, abs-Rooted, clean-Rooted, is_abs-Rooted}
use edgectl.Seeds.Install.Paths.{is_within}
use edgectl.Seeds.Install.Within.{Below, is_within-Below}
use edgectl.Seeds.Install.System.{InstallError, invalid_spec, not_whitelisted, Host}
use edgectl.Seeds.Install.Methods.{InstallSpec}
use edgectl.Seeds.Install.{
  Installer, InstallerConfig, normalize_whitelist, installer_roots, resolve_destination,
  new_installer, run_method, install,
}

resolve_destination-Below :
    (i : Installer) (seed_id destination p : Text)
    → Rooted i.install_root
    → resolve_destination i seed_id destination ≡ ok p
    → Below i.install_root p
unfolding resolve_destination
resolve_destination-Below i seed_id destination p root resolved =
    let given = trim_space destination in
    let rel = if is_empty given then map (λ c. if c == b'.' then slash else c) seed_id else given in
    let joined = join_path-Rooted i.install_root rel (is_abs-Rooted i.install_root root) in
    let parts : (p ≡ clean (join_path i.install_root rel)) × (is_within p i.install_root ≡ true) =
      ground arith in
    let fixed = parts.0 ∙ clean-Rooted (join_path i.install_root rel) joined in
    is_within-Below p i.install_root (subst Rooted (sym fixed) joined) root parts.1

abbrev workspace_of : Result Text Text → Text → Result Text Text
workspace_of wd given = if is_empty given then wd >>= abs wd else abs wd given

workspace_of-Rooted :
    (wd : Result Text Text) (given workspace : Text)
    → ((dir : Text) → wd ≡ ok dir → is_abs dir ≡ true)
    → workspace_of wd given ≡ ok workspace
    → Rooted workspace
workspace_of-Rooted wd given workspace rooted found = elim (Bool-cases (is_empty given)) [
  | inl e ↦
      let chain : (wd >>= abs wd) ≡ ok workspace = ground (arith, e) in
      let (dir, _, made) = >>=-eq-ok wd (abs wd) chain in abs-Rooted wd dir workspace rooted made
  | inr e ↦ abs-Rooted wd given workspace rooted (ground (arith, e))
]

abbrev root_of : Text → Text → Text
root_of workspace chosen = clean (if is_abs chosen then chosen else join_path workspace chosen)

root_of-Rooted : (workspace chosen : Text) → Rooted workspace → Rooted (root_of workspace chosen)
root_of-Rooted workspace chosen h = elim (Bool-cases (is_abs chosen)) [
  | inl e ↦ rw e (clean_rooted chosen e)
  | inr e ↦
      let joined = join_path-Rooted workspace chosen (is_abs-Rooted workspace h) in
      rw (e, clean-Rooted (join_path workspace chosen) joined) joined
]

-- The install root that an installer is made with is absolute.
installer_roots-Rooted :
    (wd : Result Text Text) (cfg : InstallerConfig) (workspace root : Text)
    → ((dir : Text) → wd ≡ ok dir → is_abs dir ≡ true)
    → installer_roots wd cfg ≡ ok (workspace, root)
    → Rooted root
unfolding installer_roots
installer_roots-Rooted wd cfg workspace root rooted made =
    let given = trim_space cfg.workspace_root in
    let asked = trim_space cfg.install_root in
    let chosen = if is_empty asked then codes "local/seeds" else asked in
    elim (Result-cases (workspace_of wd given)) [
      | inl (w, e) ↦
          let is_root : root_of w chosen ≡ root = ground (arith, e) in
          subst Rooted is_root (root_of-Rooted w chosen (workspace_of-Rooted wd given w rooted e))
      | inr (fault, e) ↦ absurd (ground (arith, e))
    ]

has-insert :
    (k id : Text) (m : Map Text (Unit {0})) → has k (insert id tt m) ≡ (same id k || has k m)
unfolding has
has-insert k id m = ground (arith, lookup-insert id k tt m)

has-normalize_whitelist :
    (k : Text) (out : Map Text (Unit {0})) (ids : List Text)
    → has k (normalize_whitelist out ids) ≡ true
    → (has k out || member k (map trim_space ids)) ≡ true
unfolding normalize_whitelist member
has-normalize_whitelist k out [] h = ground arith
has-normalize_whitelist k out (raw ∷ rest) h = ground (
  arith,
  has-normalize_whitelist k out rest,
  has-normalize_whitelist k (insert (trim_space raw) tt out) rest,
  has-insert k (trim_space raw) out,
)

module _ {S : Type 0} (host : Host S) where
  new_installer-Rooted :
      (cfg : InstallerConfig) (s t : S) (i : Installer)
      → ((dir : Text) → host.getwd s ≡ ok dir → is_abs dir ≡ true)
      → new_installer host cfg s ≡ (t, ok i)
      → Rooted i.install_root × (i.whitelist ≡ normalize_whitelist [] cfg.whitelist)
  unfolding new_installer
  new_installer-Rooted cfg s t i rooted made =
      elim (Result-cases (installer_roots (host.getwd s) cfg)) [
        | inl ((workspace, root), e) ↦
            let parts : (i.install_root ≡ root)
                × (i.whitelist ≡ normalize_whitelist [] cfg.whitelist) =
              ground (arith, e) in
            (
              subst Rooted (sym parts.0)
                  (installer_roots-Rooted (host.getwd s) cfg workspace root rooted e),
              parts.1,
            )
        | inr (fault, e) ↦ absurd (ground (arith, e))
      ]

  -- What an installation may be.
  pub record IsAllowed (cfg : InstallerConfig) (i : Installer) (spec : InstallSpec) (u : S)
      : Type 0 where
    pub dest : Text
    pub inside : Below i.install_root dest
    pub listed : member (trim_space spec.seed_id) (map trim_space cfg.whitelist) ≡ true
    pub done : install host i spec u ≡ run_method host i spec dest u

  install-cases :
      (i : Installer) (spec : InstallSpec) (u : S)
      → ((e : InstallError) × (install host i spec u ≡ (u, err e)))
        ⊎ ((dest : Text) × (resolve_destination i (trim_space spec.seed_id) spec.destination
              ≡ ok dest)
            × (has (trim_space spec.seed_id) i.whitelist ≡ true)
            × (install host i spec u ≡ run_method host i spec dest u))
  unfolding install
  install-cases i spec u =
      let seed_id = trim_space spec.seed_id in
      elim (Bool-cases (is_empty seed_id)) [
        | inl e ↦ inl (invalid_spec "missing seed_id", rw (install, e) refl)
        | inr e ↦ elim (Bool-cases (has seed_id i.whitelist)) [
          | inr f ↦ inl (not_whitelisted seed_id, rw (install, e, f) refl)
          | inl f ↦ elim (Result-cases (resolve_destination i seed_id spec.destination)) [
            | inr (fault, g) ↦ inl (fault, rw (install, e, f, g) refl)
            | inl (dest, g) ↦ inr (dest, g, f, rw (install, e, f, g) refl)
          ]
        ]
      ]

  -- An installation that does more than fail with the host left as it is is one of a seed on the whitelist: it is the chosen method, run with a destination that is the install root or a path below it by names that are not empty, `.` or `..` and have no slash. The installer was made where the working directory is an absolute path.
  pub install_contained :
      (cfg : InstallerConfig) (s t u : S) (i : Installer) (spec : InstallSpec)
      → ((dir : Text) → host.getwd s ≡ ok dir → is_abs dir ≡ true)
      → new_installer host cfg s ≡ (t, ok i)
      → ((e : InstallError) × (install host i spec u ≡ (u, err e))) ⊎ IsAllowed cfg i spec u
  unfolding member has
  install_contained cfg s t u i spec rooted made =
      let (root, listed) = new_installer-Rooted cfg s t i rooted made in
      let seed_id = trim_space spec.seed_id in
      elim (install-cases i spec u) [
        | inl refused ↦ inl refused
        | inr (dest, found, on_list, e) ↦ inr (record {
          dest = dest;
          inside = resolve_destination-Below i seed_id spec.destination dest root found;
          listed =
              has-normalize_whitelist seed_id [] cfg.whitelist
                (subst (λ m. has seed_id m ≡ true) listed on_list);
          done = e;
        })
      ]
