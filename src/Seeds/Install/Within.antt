-- ===== src/Seeds/Install/Within.antt =====
-- What lies within a root in the sense of install.go.
use edgectl.Prelude.{
  ◌≡◌, refl, ap, ◌∙◌, subst, ◌⊎◌, List, [], ◌∷◌, ◌++◌, reverse, true, false, ◌||◌, Bool-cases, All,
  Text, same, same_iff, join, text_eq, inl, inr, arith,
}
use mathlib.Core.List.{reverse-reverse}
use edgectl.Seeds.Kv.{has_prefix}
use edgectl.Seeds.Fs.Paths.{step_into, slash, split, dot, dot_dot, walk, render, clean}
use edgectl.Seeds.Fs.Clean.{IsPlain, walk-join, clean_fixed}
use edgectl.Seeds.Fs.Contained.{All-suffix, Rooted}
use edgectl.Seeds.Install.Paths.{names_of, ups, rel_names, rel, is_within}

-- The absolute path of some names.
abbrev pub path : List Text → Text
path names = slash ∷ join (slash ∷ []) names

names_of-path : (names : List Text) → All IsPlain names → names_of (path names) ≡ names
unfolding names_of split walk step_into
names_of-path names h = ap reverse (walk-join names h) ∙ reverse-reverse names

-- Either the base's names begin the target's, or the way goes up first.
rel_names-cases :
    (bs ns : List Text)
    → ((below : List Text) × (ns ≡ bs ++ below) × (rel_names bs ns ≡ below))
      ⊎ ((rest : List Text) × (rel_names bs ns ≡ dot_dot ∷ rest))
unfolding rel_names
rel_names-cases [] ns = inl (ns, refl, refl)
rel_names-cases (b ∷ bs) [] = inr (ups bs, refl)
rel_names-cases (b ∷ bs) (n ∷ ns) = elim (Bool-cases (same b n)) [
  | inr e ↦ inr (ups bs ++ n ∷ ns, rw (rel_names, e) refl)
  | inl e ↦ elim (rel_names-cases bs ns) [
    | inl (below, p, q) ↦ inl (below, cc ((same_iff b n).0 e, p), rw (rel_names, e) q)
    | inr (rest, q) ↦ inr (rest, rw (rel_names, e) q)
  ]
]

-- A way that goes up is not within.
up_render :
    (rest : List Text)
    → same (render false (dot_dot ∷ rest)) dot ≡ false
      × ((has_prefix (dot_dot ++ slash ∷ []) (render false (dot_dot ∷ rest))
            || same (render false (dot_dot ∷ rest)) dot_dot)
          ≡ true)
unfolding render same has_prefix join
up_render [] = (refl, refl)
up_render (n ∷ ns) = (refl, refl)

-- The two paths are cleaned already.
rel-path :
    (bs ns : List Text)
    → All IsPlain bs
    → All IsPlain ns
    → rel (clean (path bs)) (clean (path ns)) ≡ render false (rel_names bs ns)
unfolding rel
rel-path bs ns h k =
    rw (clean_fixed bs h, clean_fixed ns k, rel, names_of-path bs h, names_of-path ns k) refl

is_within-path :
    (bs ns : List Text)
    → All IsPlain bs
    → All IsPlain ns
    → is_within (path ns) (path bs) ≡ true
    → (below : List Text) × (ns ≡ bs ++ below)
unfolding is_within
is_within-path bs ns h k inside = elim (rel_names-cases bs ns) [
  | inl (below, p, _) ↦ (below, p)
  | inr (rest, q) ↦
      let e = rel-path bs ns h k ∙ ap (render false) q in
      absurd (ground (arith, e, up_render rest, inside))
]

-- A path below another, both of them of plain names.
pub record Below (root p : Text) : Type 0 where
  pub above : List Text
  pub below : List Text
  pub root_names : root ≡ path above
  pub names : p ≡ path (above ++ below)
  pub plain : All IsPlain below

pub is_within-Below :
    (p root : Text) → Rooted p → Rooted root → is_within p root ≡ true → Below root p
is_within-Below p root (ns, k, is_p) (bs, h, is_root) inside =
    let (below, e) = is_within-path bs ns h k (
      subst (λ t. is_within (path ns) t ≡ true) is_root
        (subst (λ t. is_within t root ≡ true) is_p inside)) in
    record {
      above = bs;
      below = below;
      root_names = is_root;
      names = is_p ∙ ap path e;
      plain = All-suffix bs below (subst (All IsPlain) e k);
    }
