-- ===== src/Seeds/Fs/Clean.antt =====
-- filepath.Clean on rooted paths: the names that it leaves, and the paths that it leaves as they are.
use edgectl.Prelude.{
  ℕ, ◌≡◌, ◌≢◌, refl, sym, ap, ◌∙◌, subst, All-append, List, [], ◌∷◌, ◌++◌, append-nil, append_assoc,
  reverse, true, false, ◌==◌, ==_iff, Bool-cases, All, Text, same, is_empty, join, inl, inr, arith,
}
use mathlib.Core.List.{reverse-reverse, reverse-cons}
use edgectl.Seeds.Fs.Paths.{
  slash, split, prepend, is_abs, dot, dot_dot, step_up, step_into, walk, render, clean,
}

-- A name of a file or directory.
pub record IsPlain (name : Text) : Type 0 where
  pub something : is_empty name ≡ false
  pub here : same name dot ≡ false
  pub up : same name dot_dot ≡ false
  pub unsplit : All (λ c. (c == slash) ≡ false) name

abbrev NoSlash : Text → Type 0
NoSlash t = All (λ c. (c == slash) ≡ false) t

prepend-append : (c : ℕ) (ps qs : List Text) → ps ≢ [] → prepend c (ps ++ qs) ≡ prepend c ps ++ qs
unfolding prepend
prepend-append c [] qs h = absurd (h refl)
prepend-append c (p ∷ ps) qs h = refl

pub split-cons : (t : Text) → (p : Text) × (ps : List Text) × (split t ≡ p ∷ ps)
unfolding split
split-cons [] = ([], [], refl)
split-cons (c ∷ t) =
    let (p, ps, e) = split-cons t in
    elim (Bool-cases (c == slash)) [
      | inl at ↦ ([], split t, rw (split, at) refl)
      | inr off ↦ (c ∷ p, ps, rw (split, off, e, prepend) refl)
    ]

split-ne-nil : (t : Text) → split t ≢ []
split-ne-nil t e = let (p, ps, f) = split-cons t in cc (e, f)

-- A slash separates the pieces before it from those behind it.
pub split-append : (a b : Text) → split (a ++ (slash ∷ b)) ≡ split a ++ split b
unfolding split
split-append [] b = refl
split-append (c ∷ a) b =
    ground (arith, split-append a b, prepend-append c (split a) (split b), split-ne-nil a)

join-prepend :
    (c : ℕ) (ps : List Text) → join (slash ∷ []) (prepend c ps) ≡ c ∷ join (slash ∷ []) ps
unfolding join prepend
join-prepend c [] = refl
join-prepend c (p ∷ []) = refl
join-prepend c (p ∷ q ∷ ps) = refl

pub join-split : (t : Text) → join (slash ∷ []) (split t) ≡ t
unfolding join split
join-split [] = refl
join-split (c ∷ t) =
    let (p, ps, e) = split-cons t in
    elim (Bool-cases (c == slash)) [
      | inl at ↦
          rw (split, at, e, join)
            (ap (λ u. slash ∷ u) (ap (join (slash ∷ [])) (sym e) ∙ join-split t)
              ∙ rw ((==_iff c slash).0 at) refl)
      | inr off ↦ rw (split, off, join-prepend) (ap (λ u. c ∷ u) (join-split t))
    ]

split_unsplit : (t : Text) → NoSlash t → split t ≡ t ∷ []
unfolding split prepend
split_unsplit [] h = refl
split_unsplit (c ∷ t) (h, hs) = rw (split, h, split_unsplit t hs, prepend) refl

pub split-join :
    (name : Text) (names : List Text)
    → NoSlash name
    → All NoSlash names
    → split (join (slash ∷ []) (name ∷ names)) ≡ name ∷ names
unfolding join
split-join name [] h hs = split_unsplit name h
split-join name (n ∷ names) h (k, hs) =
    rw (split-append, split_unsplit name h) (ap (λ ns. name ∷ ns) (split-join n names k hs))

-- Each piece has no slash.
NoSlash-split : (t : Text) → All NoSlash (split t)
unfolding split prepend
NoSlash-split [] = (tt, tt)
NoSlash-split (c ∷ t) =
    let (p, ps, e) = split-cons t in
    let ih : All NoSlash (p ∷ ps) = subst (All NoSlash) e (NoSlash-split t) in
    elim (Bool-cases (c == slash)) [
      | inl at ↦ rw (split, at) (tt, NoSlash-split t)
      | inr off ↦ rw (split, off, e, prepend) ((off, ih.0), ih.1)
    ]

step_into_plain : (above : List Text) (c : Text) → IsPlain c → step_into true above c ≡ c ∷ above
unfolding step_into
step_into_plain above c h = rw (step_into, h.something, h.here, h.up) refl

walk_plain : (above cs : List Text) → All IsPlain cs → walk true above cs ≡ reverse cs ++ above
unfolding walk
walk_plain above [] h = refl
walk_plain above (c ∷ cs) (h, hs) =
    rw (walk, step_into_plain above c h, walk_plain (c ∷ above) cs hs, reverse-cons, append_assoc)
      refl

step_into-IsPlain :
    (above : List Text) (c : Text)
    → NoSlash c
    → All IsPlain above
    → All IsPlain (step_into true above c)
unfolding step_into step_up
step_into-IsPlain [] c h hs = ground arith
step_into-IsPlain (d ∷ above) c h hs = ground arith

walk-IsPlain :
    (above cs : List Text) → All NoSlash cs → All IsPlain above → All IsPlain (walk true above cs)
unfolding walk
walk-IsPlain above [] h hs = hs
walk-IsPlain above (c ∷ cs) (h, hs) k =
    walk-IsPlain (step_into true above c) cs hs (step_into-IsPlain above c h k)

All-reverse : (cs : List Text) → All IsPlain cs → All IsPlain (reverse cs)
All-reverse [] h = tt
All-reverse (c ∷ cs) (h, hs) =
    rw reverse-cons (All-append IsPlain (reverse cs) (c ∷ []) (All-reverse cs hs) (h, tt))

-- A rooted path is cleaned to plain names under the root.
pub clean_rooted :
    (t : Text)
    → is_abs t ≡ true
    → (names : List Text) × All IsPlain names × (clean t ≡ slash ∷ join (slash ∷ []) names)
unfolding clean render
clean_rooted t rooted =
    let names = reverse (walk true [] (split t)) in
    (
      names,
      All-reverse (walk true [] (split t)) (walk-IsPlain [] (split t) (NoSlash-split t) tt),
      rw (clean, rooted) refl,
    )

pub NoSlash-plain : (cs : List Text) → All IsPlain cs → All NoSlash cs
NoSlash-plain [] h = tt
NoSlash-plain (c ∷ cs) (h, hs) = (h.unsplit, NoSlash-plain cs hs)

pub walk-join :
    (names : List Text)
    → All IsPlain names
    → walk true [] (split (join (slash ∷ []) names)) ≡ reverse names
unfolding join walk step_into split
walk-join [] h = refl
walk-join (n ∷ ns) h =
    rw (split-join n ns h.0.unsplit (NoSlash-plain ns h.1), walk_plain [] (n ∷ ns) h)
      (append-nil (reverse (n ∷ ns)))

-- Such a path is left as it is.
pub clean_fixed :
    (names : List Text)
    → All IsPlain names
    → clean (slash ∷ join (slash ∷ []) names) ≡ slash ∷ join (slash ∷ []) names
unfolding clean is_abs split walk step_into render
clean_fixed names h =
    ap (λ ns. slash ∷ join (slash ∷ []) ns) (rw (walk-join names h) (reverse-reverse names))
