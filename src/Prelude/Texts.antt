-- ===== src/Prelude/Texts.antt =====
-- Go strings as lists of bytes: equality and `strings.TrimSpace`.
-- A Unicode space is recognised by the bytes of its UTF-8 form, from either end of the string.
use Prim.Native.Nat.{ℕ, zero, suc}
use Prim.Native.Char.{code}
use Prim.Native.String.{String}
use mathlib.Core.Path.{◌≡◌, refl, ap, ◌∙◌}
use mathlib.Core.Logic.{◌↔◌}
use mathlib.Core.Bool.{Bool, true, false, ◌&&◌, ◌||◌}
use mathlib.Core.List.{List, [], ◌∷◌, ◌++◌, reverse, reverse-append, reverse-reverse}
use native.Mathlib.Omega.{arith}
use edgectl.Prelude.Tests.{leb, ◌==◌, if◌then◌else◌}

abbrev pub Text : Type 0
Text = List ℕ

-- The bytes of an ASCII literal.
abbrev pub codes : String → Text
codes String.[] = []
codes (String.◌∷◌ c s) = code c ∷ codes s

-- `a == b` on strings.
unfoldable pub same : Text → Text → Bool
same [] [] = true
same (a ∷ s) (b ∷ t) = a == b && same s t
same _ _ = false

pub same_iff : (s t : Text) → (same s t ≡ true) ↔ (s ≡ t)
unfolding same
same_iff [] [] = ground arith
same_iff [] (b ∷ t) = ground arith
same_iff (a ∷ s) [] = ground arith
same_iff (a ∷ s) (b ∷ t) = ground (arith, same_iff s t)

pub same_refl : (s : Text) → same s s ≡ true
same_refl s = (same_iff s s).1 refl

abbrev pub is_empty : Text → Bool
is_empty [] = true
is_empty (_ ∷ _) = false

-- unicode.IsSpace on one byte: '\t' '\n' '\v' '\f' '\r' ' '.
unfoldable pub is_space_byte : ℕ → Bool
is_space_byte b = leb 9 b && leb b 13 || b == 32

-- U+0085 and U+00A0.
unfoldable pub is_space_pair : ℕ → ℕ → Bool
is_space_pair a b = a == 0xc2 && (b == 0x85 || b == 0xa0)

-- U+1680, U+2000 to U+200A, U+2028, U+2029, U+202F, U+205F and U+3000.
unfoldable pub is_space_triple : ℕ → ℕ → ℕ → Bool
is_space_triple a b c =
    (a == 0xe1 && b == 0x9a && c == 0x80)
    || (a == 0xe2 && b == 0x80 && (leb 0x80 c && leb c 0x8a || c == 0xa8 || c == 0xa9 || c == 0xaf))
    || (a == 0xe2 && b == 0x81 && c == 0x9f)
    || (a == 0xe3 && b == 0x80 && c == 0x80)

-- How many bytes the space at the front takes; 0 where there is none.
unfoldable pub front_space : Text → ℕ
unfolding is_space_byte is_space_pair is_space_triple
front_space [] = 0
front_space (a ∷ []) = if is_space_byte a then 1 else 0
front_space (a ∷ b ∷ []) = if is_space_byte a then 1 else if is_space_pair a b then 2 else 0
front_space (a ∷ b ∷ c ∷ s) =
    if is_space_byte a
    then 1
    else if is_space_pair a b
    then 2
    else if is_space_triple a b c
    then 3
    else 0

-- The same at the back, of a string that is given reversed.
unfoldable pub back_space : Text → ℕ
unfolding is_space_byte is_space_pair is_space_triple
back_space [] = 0
back_space (a ∷ []) = if is_space_byte a then 1 else 0
back_space (a ∷ b ∷ []) = if is_space_byte a then 1 else if is_space_pair b a then 2 else 0
back_space (a ∷ b ∷ c ∷ s) =
    if is_space_byte a
    then 1
    else if is_space_pair b a
    then 2
    else if is_space_triple c b a
    then 3
    else 0

-- Drops the spaces at the front; `k` bytes of the current one are still to be dropped.
unfoldable pub strip : (Text → ℕ) → ℕ → Text → Text
strip width k [] = []
strip width (suc k) (c ∷ s) = strip width k s
strip width zero (c ∷ s) = elim (width (c ∷ s)) [ zero ↦ c ∷ s | suc w ↦ strip width w s ]

-- strings.TrimSpace
unfoldable pub trim_space : Text → Text
unfolding strip front_space back_space
trim_space s = reverse (strip back_space 0 (reverse (strip front_space 0 s)))

-- What is left has no space at its front.
module _ (width : Text → ℕ) (width_nil : width [] ≡ 0) where
  width-strip : (k : ℕ) (s : Text) → width (strip width k s) ≡ 0
  unfolding strip
  width-strip k [] = width_nil
  width-strip (suc k) (c ∷ s) = width-strip k s
  width-strip zero (c ∷ s) =
      elim (width (c ∷ s))
          as (λ n.
            width (c ∷ s) ≡ n → width (elim n [ zero ↦ c ∷ s | suc w ↦ strip width w s ]) ≡ 0) [
              | zero ↦ λ e. e
              | suc w ↦ λ e. width-strip w s
            ]
        refl

  pub strip_fixed : (s : Text) → width s ≡ 0 → strip width 0 s ≡ s
  unfolding strip
  strip_fixed [] h = refl
  strip_fixed (c ∷ s) h = rw (h, strip)

  -- What `strip` drops is a prefix.
  strip_suffix : (k : ℕ) (s : Text) → (p : Text) × (s ≡ p ++ strip width k s)
  unfolding strip
  strip_suffix k [] = ([], refl)
  strip_suffix (suc k) (c ∷ s) = let (p, e) = strip_suffix k s in (c ∷ p, ap (λ t. c ∷ t) e)
  strip_suffix zero (c ∷ s) =
      elim (width (c ∷ s))
        as (λ n. (p : Text) × (c ∷ s ≡ p ++ elim n [ zero ↦ c ∷ s | suc w ↦ strip width w s ])) [
          | zero ↦ ([], refl)
          | suc w ↦ let (p, e) = strip_suffix w s in (c ∷ p, ap (λ t. c ∷ t) e)
        ]

-- A string that begins with no space has no prefix that does.
front_space-append : (s t : Text) → front_space (s ++ t) ≡ 0 → front_space s ≡ 0
unfolding front_space
front_space-append [] t h = refl
front_space-append (a ∷ []) [] h = h
front_space-append (a ∷ []) (x ∷ []) h = ground arith
front_space-append (a ∷ []) (x ∷ y ∷ t) h = ground arith
front_space-append (a ∷ b ∷ []) [] h = h
front_space-append (a ∷ b ∷ []) (x ∷ t) h = ground arith
front_space-append (a ∷ b ∷ c ∷ s) t h = h

front_space-trim_space : (s : Text) → front_space (trim_space s) ≡ 0
unfolding trim_space
front_space-trim_space s =
    let left = strip front_space 0 s in
    let (p, e) = strip_suffix back_space refl 0 (reverse left) in
    let kept = reverse (strip back_space 0 (reverse left)) in
    front_space-append kept (reverse p) (
      rw (← reverse-append p (strip back_space 0 (reverse left)), ← e, reverse-reverse)
        (width-strip front_space refl 0 s))

back_space-trim_space : (s : Text) → back_space (reverse (trim_space s)) ≡ 0
unfolding trim_space
back_space-trim_space s =
    rw reverse-reverse (width-strip back_space refl 0 (reverse (strip front_space 0 s)))

-- Trimming once is enough.
pub trim_space_idem : (s : Text) → trim_space (trim_space s) ≡ trim_space s
unfolding trim_space
trim_space_idem s =
    let t = trim_space s in
    ap (λ r. reverse (strip back_space 0 (reverse r)))
      (strip_fixed front_space refl t (front_space-trim_space s))
    ∙ ap reverse (strip_fixed back_space refl (reverse t) (back_space-trim_space s))
    ∙ reverse-reverse t
