-- ===== src/Prelude/Solid.antt =====
-- Strings that begin with a printable ASCII byte are not blank.
use Prim.Native.Nat.{ℕ, zero, suc, ◌≤◌, ◌<◌}
use mathlib.Core.Path.{◌≡◌, refl, sym, ap, ◌∙◌}
use mathlib.Core.Bool.{true, false}
use mathlib.Core.Logic.{inl, inr, ◌⊎◌}
use mathlib.Core.List.{List, [], ◌∷◌, reverse, reverse-append, reverse-reverse}
use native.Mathlib.Omega.{arith}
use edgectl.Prelude.Tests.{Bool-cases}
use edgectl.Prelude.Lists.{All, take, All-append}
use edgectl.Prelude.Texts.{
  Text, is_empty, trim_space, strip, front_space, back_space, is_space_byte, is_space_pair,
  is_space_triple, strip_fixed,
}

-- The bytes that a space's encoding is made of are at most 0x20 or at least 0x80.
abbrev IsSpaceByte : ℕ → Type 0
IsSpaceByte b = (b ≤ 0x20) ⊎ (0x80 ≤ b)

back_space_bytes :
    (c w : ℕ) (s : Text) → back_space (c ∷ s) ≡ suc w → IsSpaceByte c × All IsSpaceByte (take w s)
unfolding back_space is_space_byte is_space_pair is_space_triple
back_space_bytes c zero [] e = ground arith
back_space_bytes c zero (a ∷ []) e = ground arith
back_space_bytes c zero (a ∷ b ∷ s) e = ground arith
back_space_bytes c (suc zero) [] e = ground arith
back_space_bytes c (suc zero) (a ∷ []) e = ground arith
back_space_bytes c (suc zero) (a ∷ b ∷ s) e = ground arith
back_space_bytes c (suc (suc w)) [] e = ground arith
back_space_bytes c (suc (suc w)) (a ∷ []) e = ground arith
back_space_bytes c (suc (suc zero)) (a ∷ b ∷ s) e = ground arith
back_space_bytes c (suc (suc (suc w))) (a ∷ b ∷ s) e = ground arith

-- A string that is stripped away is made of such bytes.
strip_away :
    (k : ℕ) (s : Text) → All IsSpaceByte (take k s) → strip back_space k s ≡ [] → All IsSpaceByte s
unfolding strip
strip_away k [] h e = tt
strip_away (suc k) (c ∷ s) h e = (h.0, strip_away k s h.1 e)
strip_away zero (c ∷ s) h e =
    elim (back_space (c ∷ s))
        as (λ n.
          back_space (c ∷ s) ≡ n
          → elim n [ zero ↦ c ∷ s | suc w ↦ strip back_space w s ] ≡ []
          → All IsSpaceByte (c ∷ s)) [
            | zero ↦ λ _ none_left. cc
            | suc w ↦ λ width left.
                let (first, others) = back_space_bytes c w s width in
                (first, strip_away w s others left)
          ]
      refl e

All-reverse {ℓ κ} : {A : Type ℓ} (P : A → Type κ) (xs : List A) → All P xs → All P (reverse xs)
All-reverse P [] h = tt
All-reverse P (x ∷ xs) h =
    rw (reverse-append (x ∷ []) xs)
      (All-append P (reverse xs) (x ∷ []) (All-reverse P xs h.1) (h.0, tt))

reverse-nil : (s : Text) → reverse s ≡ [] → s ≡ []
reverse-nil s e = sym (reverse-reverse s) ∙ ap reverse e

is_empty-nil : (s : Text) → is_empty s ≡ true → s ≡ []
is_empty-nil [] e = refl
is_empty-nil (c ∷ s) e = cc

no_front_space : (c : ℕ) (s : Text) → 0x20 < c → c < 0x80 → front_space (c ∷ s) ≡ 0
unfolding front_space is_space_byte is_space_pair is_space_triple
no_front_space c [] lo hi = ground arith
no_front_space c (a ∷ []) lo hi = ground arith
no_front_space c (a ∷ b ∷ s) lo hi = ground arith

-- A string whose first byte is printable ASCII does not trim to nothing.
pub solid_head : (c : ℕ) (s : Text) → 0x20 < c → c < 0x80 → is_empty (trim_space (c ∷ s)) ≡ false
unfolding trim_space front_space
solid_head c s lo hi = elim (Bool-cases (is_empty (trim_space (c ∷ s)))) [
  | inr kept ↦ kept
  | inl blank ↦
      let front = strip_fixed front_space refl (c ∷ s) (no_front_space c s lo hi) in
      let gone = is_empty-nil (trim_space (c ∷ s)) blank in
      let away : strip back_space 0 (reverse (c ∷ s)) ≡ [] = reverse-nil _ (rw front at gone) in
      let bytes =
        All-reverse IsSpaceByte (reverse (c ∷ s)) (strip_away 0 (reverse (c ∷ s)) tt away) in
      let own : All IsSpaceByte (c ∷ s) = rw reverse-reverse at bytes in
      absurd (omega (arith, own.0))
]
