-- ===== src/Prelude/Sorting.antt =====
-- `sort.Strings`, `sort.Slice` by a field that is a string, `strings.Join` and the keys of a map.
use mathlib.Core.Path.{◌≡◌, refl, ap, ◌∙◌}
use mathlib.Core.Bool.{Bool, true, false, ◌&&◌, ◌||◌}
use mathlib.Core.List.{List, [], ◌∷◌, ◌++◌, Perm}
use mathlib.Core.List.Perm
use native.Mathlib.Omega.{arith}
use edgectl.Prelude.Tests.{ltb, ◌==◌, if◌then◌else◌, Bool-cases}
use mathlib.Core.Logic.{inl, inr}
use edgectl.Prelude.Lists.{All}
use edgectl.Prelude.Texts.{Text, same}
use edgectl.Prelude.Maps.{Map}

-- Strings in the byte order of Go's `<=`.
unfoldable pub text_le : Text → Text → Bool
text_le [] t = true
text_le (a ∷ s) [] = false
text_le (a ∷ s) (b ∷ t) = ltb a b || (a == b && text_le s t)

text_le_total : (s t : Text) → text_le s t ≡ false → text_le t s ≡ true
unfolding text_le
text_le_total [] t h = ground arith
text_le_total (a ∷ s) [] h = ground arith
text_le_total (a ∷ s) (b ∷ t) h = ground (arith, text_le_total s t)

text_le_trans : (s t u : Text) → text_le s t ≡ true → text_le t u ≡ true → text_le s u ≡ true
unfolding text_le
text_le_trans [] t u h k = ground arith
text_le_trans (a ∷ s) [] u h k = ground arith
text_le_trans (a ∷ s) (b ∷ t) [] h k = ground arith
text_le_trans (a ∷ s) (b ∷ t) (c ∷ u) h k = ground (arith, text_le_trans s t u)

pub text_le_antisymm : (s t : Text) → text_le s t ≡ true → text_le t s ≡ true → s ≡ t
unfolding text_le
text_le_antisymm [] [] h k = refl
text_le_antisymm [] (b ∷ t) h k = ground arith
text_le_antisymm (a ∷ s) [] h k = ground arith
text_le_antisymm (a ∷ s) (b ∷ t) h k = ground (arith, text_le_antisymm s t)

-- The keys of a map, in the order of its entries.
unfoldable pub keys {ℓ κ} : {K : Type ℓ} {V : Type κ} → Map K V → List K
keys [] = []
keys ((k, v) ∷ m) = k ∷ keys m

unfoldable pub join : Text → List Text → Text
join sep [] = []
join sep (t ∷ []) = t
join sep (t ∷ u ∷ us) = t ++ (sep ++ join sep (u ∷ us))

module _ {ℓ} {A : Type ℓ} (key : A → Text) where
  unfoldable pub insert_by : A → List A → List A
  insert_by x [] = x ∷ []
  insert_by x (y ∷ ys) =
      let rest = insert_by x ys in if text_le (key x) (key y) then x ∷ y ∷ ys else y ∷ rest

  unfoldable pub sort_by : List A → List A
  unfolding insert_by
  sort_by [] = []
  sort_by (x ∷ xs) = insert_by x (sort_by xs)

  -- Each element is at most as large as every later one.
  abbrev pub IsSorted : List A → Type 0
  IsSorted [] = Unit {0}
  IsSorted (x ∷ xs) = All (λ y. text_le (key x) (key y) ≡ true) xs × IsSorted xs

  All-trans :
      (t u : Text) (xs : List A)
      → text_le t u ≡ true
      → All (λ y. text_le u (key y) ≡ true) xs
      → All (λ y. text_le t (key y) ≡ true) xs
  All-trans t u [] h k = tt
  All-trans t u (x ∷ xs) h (k, ks) = (text_le_trans t u (key x) h k, All-trans t u xs h ks)

  All-insert_by :
      (t : Text) (x : A) (xs : List A)
      → text_le t (key x) ≡ true
      → All (λ y. text_le t (key y) ≡ true) xs
      → All (λ y. text_le t (key y) ≡ true) (insert_by x xs)
  unfolding insert_by
  All-insert_by t x [] h k = (h, tt)
  All-insert_by t x (y ∷ ys) h (k, ks) = elim (Bool-cases (text_le (key x) (key y))) [
    | inl e ↦ rw (insert_by, e) (h, (k, ks))
    | inr e ↦ rw (insert_by, e) (k, All-insert_by t x ys h ks)
  ]

  insert_by-IsSorted : (x : A) (xs : List A) → IsSorted xs → IsSorted (insert_by x xs)
  unfolding insert_by
  insert_by-IsSorted x [] h = (tt, tt)
  insert_by-IsSorted x (y ∷ ys) (k, h) = elim (Bool-cases (text_le (key x) (key y))) [
    | inl e ↦ rw (insert_by, e) ((e, All-trans (key x) (key y) ys e k), (k, h))
    | inr e ↦
        rw (insert_by, e)
          (
            All-insert_by (key y) x ys (text_le_total (key x) (key y) e) k,
            insert_by-IsSorted x ys h,
          )
  ]

  insert_by-perm : (x : A) (xs : List A) → Perm (insert_by x xs) (x ∷ xs)
  unfolding insert_by
  insert_by-perm x [] = Perm.rfl
  insert_by-perm x (y ∷ ys) = elim (Bool-cases (text_le (key x) (key y))) [
    | inl e ↦ rw (insert_by, e) Perm.rfl
    | inr e ↦ rw (insert_by, e) (Perm.trans (Perm.cons y (insert_by-perm x ys)) (Perm.swap x y ys))
  ]

  pub sort_by-IsSorted : (xs : List A) → IsSorted (sort_by xs)
  unfolding sort_by
  sort_by-IsSorted [] = tt
  sort_by-IsSorted (x ∷ xs) = insert_by-IsSorted x (sort_by xs) (sort_by-IsSorted xs)

  pub sort_by-perm : (xs : List A) → Perm (sort_by xs) xs
  unfolding sort_by
  sort_by-perm [] = Perm.rfl
  sort_by-perm (x ∷ xs) = Perm.trans (insert_by-perm x (sort_by xs)) (Perm.cons x (sort_by-perm xs))

unfoldable pub sort_strings : List Text → List Text
unfolding sort_by
sort_strings ts = sort_by (λ t. t) ts

-- Whether a string is in a list.
unfoldable pub member : Text → List Text → Bool
member k [] = false
member k (t ∷ ts) = same t k || member k ts

member-insert_by :
    (k t : Text) (ts : List Text) → member k (insert_by (λ u. u) t ts) ≡ (same t k || member k ts)
unfolding member insert_by
member-insert_by k t [] = refl
member-insert_by k t (u ∷ us) = ground (arith, member-insert_by k t us)

pub member-sort_strings : (k : Text) (ts : List Text) → member k (sort_strings ts) ≡ member k ts
unfolding member sort_strings sort_by
member-sort_strings k [] = refl
member-sort_strings k (t ∷ ts) =
    member-insert_by k t (sort_by (λ u. u) ts) ∙ ap (λ b. same t k || b) (member-sort_strings k ts)
