-- ===== src/Seeds/Install/Paths.antt =====
-- install.go: what lies under a root, by filepath.Rel of two absolute paths.
use edgectl.Prelude.{
  List, [], ◌∷◌, ◌++◌, map, reverse, Bool, true, false, not, ◌&&◌, ◌||◌, if◌then◌else◌, Text, same,
}
use edgectl.Seeds.Kv.{has_prefix}
use edgectl.Seeds.Fs.Paths.{slash, split, dot, dot_dot, walk, render, clean}

-- The names that filepath.Clean keeps of an absolute path.
unfoldable pub names_of : Text → List Text
names_of t = reverse (walk true [] (split t))

abbrev pub ups : List Text → List Text
ups names = map (λ name. dot_dot) names

-- The names that two paths begin with are left out; those left of the base are gone up.
unfoldable pub rel_names : List Text → List Text → List Text
rel_names [] names = names
rel_names (b ∷ bs) [] = ups (b ∷ bs)
rel_names (b ∷ bs) (n ∷ ns) =
    let rest = rel_names bs ns in if same b n then rest else ups (b ∷ bs) ++ n ∷ ns

-- filepath.Rel
unfoldable pub rel : Text → Text → Text
unfolding render rel_names names_of
rel base target = render false (rel_names (names_of base) (names_of target))

unfoldable pub is_within : Text → Text → Bool
is_within path root =
    let r = rel (clean root) (clean path) in
    same r dot || (not (has_prefix (dot_dot ++ slash ∷ []) r) && not (same r dot_dot))
