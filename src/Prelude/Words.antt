-- ===== src/Prelude/Words.antt =====
-- Bytes, and `encoding/binary`'s big-endian words of a given number of bytes.
use Prim.Native.Nat.{ℕ, zero, suc, ◌+◌, ◌*◌, ◌/◌, ◌%◌, ◌^◌, ◌<◌}
use mathlib.Core.Path.{◌≡◌, refl, ◌∙◌}
use mathlib.Core.List.{List, [], ◌∷◌, ◌++◌}
use native.Mathlib.Omega.{arith}
use native.Mathlib.Nat.{pow-suc}
use edgectl.Prelude.Lists.{length, length-append, All, All-append}

abbrev pub IsByte : ℕ → Type 0
IsByte b = b < 256

-- `PutUint16`, `PutUint32`, `PutUint64` at widths 2, 4 and 8.
unfoldable pub put_be : ℕ → ℕ → List ℕ
put_be zero n = []
put_be (suc k) n = put_be k (n / 256) ++ n % 256 ∷ []

-- `Uint16`, `Uint32`, `Uint64` of a slice of that many bytes.
be_from : ℕ → List ℕ → ℕ
be_from acc [] = acc
be_from acc (b ∷ bs) = be_from (acc * 256 + b) bs

unfoldable pub get_be : List ℕ → ℕ
unfolding be_from
get_be bs = be_from 0 bs

be_from-append :
    (acc : ℕ) (bs : List ℕ) (b : ℕ) → be_from acc (bs ++ b ∷ []) ≡ be_from acc bs * 256 + b
unfolding be_from
be_from-append acc [] b = refl
be_from-append acc (c ∷ bs) b = be_from-append (acc * 256 + c) bs b

pub length-put_be : (k n : ℕ) → length (put_be k n) ≡ k
unfolding put_be
length-put_be zero n = refl
length-put_be (suc k) n =
    omega (arith, length-append (put_be k (n / 256)) (n % 256 ∷ []), length-put_be k (n / 256))

pub put_be-IsByte : (k n : ℕ) → All IsByte (put_be k n)
unfolding put_be
put_be-IsByte zero n = tt
put_be-IsByte (suc k) n =
    All-append IsByte (put_be k (n / 256)) (n % 256 ∷ []) (put_be-IsByte k (n / 256)) (omega arith)

be_from-put_be : (k n : ℕ) → n < 256 ^ k → be_from 0 (put_be k n) ≡ n
unfolding put_be
be_from-put_be zero n h = unfold be_from in omega arith
be_from-put_be (suc k) n h =
    be_from-append 0 (put_be k (n / 256)) (n % 256)
    ∙ omega (arith, be_from-put_be k (n / 256) (omega (arith, pow-suc 256 k)))

-- A word that fits its width is read back.
pub get_be-put_be : (k n : ℕ) → n < 256 ^ k → get_be (put_be k n) ≡ n
unfolding get_be
get_be-put_be k n h = be_from-put_be k n h

-- Two, four and eight bytes are written back as they were read.
module _ (a b : ℕ) (ha : a < 256) (hb : b < 256) where
  pub put_be-get_be_two : put_be 2 (get_be (a ∷ b ∷ [])) ≡ a ∷ b ∷ []
  unfolding put_be get_be
  put_be-get_be_two = ground arith

  pub get_be_two-lt : get_be (a ∷ b ∷ []) < 2 ^ 16
  unfolding get_be
  get_be_two-lt = omega arith

  pub put_be-get_be_four :
      (c d : ℕ) → c < 256 → d < 256 → put_be 4 (get_be (a ∷ b ∷ c ∷ d ∷ [])) ≡ a ∷ b ∷ c ∷ d ∷ []
  unfolding put_be get_be
  put_be-get_be_four c d hc hd = ground arith

  pub get_be_four-lt : (c d : ℕ) → c < 256 → d < 256 → get_be (a ∷ b ∷ c ∷ d ∷ []) < 2 ^ 32
  unfolding get_be
  get_be_four-lt c d hc hd = omega arith
