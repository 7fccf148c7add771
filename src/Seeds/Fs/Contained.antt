-- ===== src/Seeds/Fs/Contained.antt =====
-- Paths that fs/seed.go resolves stay under the root.
use edgectl.Prelude.{
  Result, ok, ◌>>=◌, trim_space, ok-injective, >>=-eq-ok, ◌≡◌, refl, sym, ap, ◌∙◌, subst, length,
  length-append, List, [], ◌∷◌, ◌++◌, append_assoc, true, ◌||◌, ◌==◌, ==_iff, Bool-cases, All, Text,
  same, same_iff, join, inl, inr, arith,
}
use edgectl.Seeds.Kv.{has_prefix}
use edgectl.Seeds.Fs.{resolve_path, is_within}
use edgectl.Seeds.Fs.Paths.{abs, join_path, slash, split, is_abs, clean}
use edgectl.Seeds.Fs.Clean.{
  IsPlain, split-append, join-split, split-cons, split-join, NoSlash-plain, clean_rooted,
  clean_fixed,
}

-- The path of a name in a folder, and so on down.
abbrev pub under : Text → List Text → Text
under root [] = root
under root (n ∷ ns) = root ++ (slash ∷ join (slash ∷ []) (n ∷ ns))

pub has_prefix-append : (a b : Text) → has_prefix a b ≡ true → (rest : Text) × (b ≡ a ++ rest)
unfolding has_prefix
has_prefix-append [] b h = (b, refl)
has_prefix-append (c ∷ a) [] h = cc
has_prefix-append (c ∷ a) (d ∷ b) h = elim (Bool-cases (c == d)) [
  | inl e ↦
      let (rest, f) = has_prefix-append a b (ground (arith, e)) in
      (rest, ground (arith, (==_iff c d).0 e))
  | inr e ↦ absurd (ground (arith, e))
]

pub All-suffix : (xs ys : List Text) → All IsPlain (xs ++ ys) → All IsPlain ys
All-suffix [] ys h = h
All-suffix (x ∷ xs) ys (h, hs) = All-suffix xs ys hs

-- What stands behind a prefix of a cleaned path that ends at a slash is plain names.
behind-IsPlain :
    (above names : List Text) (rest : Text)
    → All IsPlain names
    → slash ∷ join (slash ∷ []) names ≡ (slash ∷ join (slash ∷ []) above) ++ (slash ∷ rest)
    → All IsPlain (split rest)
unfolding join split
behind-IsPlain above [] rest h e =
    absurd (omega (arith, ap length e, length-append (join (slash ∷ []) above) (slash ∷ rest)))
behind-IsPlain above (n ∷ ns) rest h e =
    let inner : join (slash ∷ []) (n ∷ ns) ≡ join (slash ∷ []) above ++ (slash ∷ rest) = cc in
    let pieces : n ∷ ns ≡ split (join (slash ∷ []) above) ++ split rest =
      sym (split-join n ns h.0.unsplit (NoSlash-plain ns h.1))
      ∙ ap split inner
      ∙ split-append (join (slash ∷ []) above) rest in
    All-suffix (split (join (slash ∷ []) above)) (split rest) (subst (All IsPlain) pieces h)

abbrev pub Rooted : Text → Type 0
Rooted t = (names : List Text) × All IsPlain names × (t ≡ slash ∷ join (slash ∷ []) names)

pub join_path-Rooted : (dir t : Text) → is_abs dir ≡ true → Rooted (join_path dir t)
unfolding is_abs join_path
join_path-Rooted [] t h = cc
join_path-Rooted (c ∷ s) t h = clean_rooted ((c ∷ s) ++ (slash ∷ t)) h

pub abs-Rooted :
    (wd : Result Text Text) (root r : Text)
    → ((dir : Text) → wd ≡ ok dir → is_abs dir ≡ true)
    → abs wd root ≡ ok r
    → Rooted r
unfolding abs
abs-Rooted wd root r rooted found = elim (Bool-cases (is_abs root)) [
  | inl h ↦ let e : clean root ≡ r = ground (arith, h) in subst Rooted e (clean_rooted root h)
  | inr h ↦
      let chain : (wd >>= λ dir. ok (join_path dir root)) ≡ ok r = ground (arith, h) in
      let (dir, is_dir, e) = >>=-eq-ok wd _ chain in
      subst Rooted (ok-injective e) (join_path-Rooted dir root (rooted dir is_dir))
]

resolve_path_parts :
    (wd : Result Text Text) (root path_arg r p : Text)
    → abs wd root ≡ ok r
    → resolve_path wd root path_arg ≡ ok p
    → (p ≡ clean (join_path r (trim_space path_arg))) × (is_within p r ≡ true)
unfolding resolve_path
resolve_path_parts wd root path_arg r p found resolved = ground arith

pub clean-Rooted : (t : Text) → Rooted t → clean t ≡ t
clean-Rooted t (names, plain, e) = rw e (clean_fixed names plain)

pub is_abs-Rooted : (t : Text) → Rooted t → is_abs t ≡ true
unfolding is_abs
is_abs-Rooted t (names, plain, e) = rw e refl

-- What lies within a root lies under it by plain names.
is_within-under :
    (p r : Text)
    → Rooted p
    → Rooted r
    → is_within p r ≡ true
    → (names : List Text) × All IsPlain names × (p ≡ under r names)
unfolding is_within
is_within-under p r (names, plain, is_p) (above, plain', is_r) inside =
    let whole : (same p r || has_prefix (r ++ (slash ∷ [])) p) ≡ true =
      sym (rw (clean-Rooted p (names, plain, is_p), clean-Rooted r (above, plain', is_r)) refl)
      ∙ inside in
    elim (Bool-cases (same p r)) [
      | inl e ↦ ([], tt, (same_iff p r).0 e)
      | inr e ↦
          let (rest, f) = has_prefix-append (r ++ (slash ∷ [])) p (ground (arith, e)) in
          let behind : p ≡ r ++ (slash ∷ rest) = f ∙ append_assoc r (slash ∷ []) rest in
          let (q, qs, pieces) = split-cons rest in
          let plain'' =
            behind-IsPlain above names rest plain
              (sym is_p ∙ behind ∙ ap (λ t. t ++ (slash ∷ rest)) is_r) in
          (
            q ∷ qs,
            subst (All IsPlain) pieces plain'',
            behind
                ∙ ap (λ t. r ++ (slash ∷ t))
                    (sym (join-split rest) ∙ ap (join (slash ∷ [])) pieces),
          )
    ]

-- A path that a client's request resolves to is the root, or the root followed by a slash and plain names: none of them is empty, `.` or `..`, or has a slash. The working directory is an absolute path.
pub resolve_path_contained :
    (wd : Result Text Text) (root path_arg r p : Text)
    → ((dir : Text) → wd ≡ ok dir → is_abs dir ≡ true)
    → abs wd root ≡ ok r
    → resolve_path wd root path_arg ≡ ok p
    → (names : List Text) × All IsPlain names × (p ≡ under r names)
resolve_path_contained wd root path_arg r p rooted found resolved =
    let root_ok = abs-Rooted wd root r rooted found in
    let (is_p, inside) = resolve_path_parts wd root path_arg r p found resolved in
    let joined = join_path-Rooted r (trim_space path_arg) (is_abs-Rooted r root_ok) in
    let fixed = clean-Rooted (join_path r (trim_space path_arg)) joined in
    is_within-under p r (subst Rooted (sym fixed ∙ sym is_p) joined) root_ok inside
