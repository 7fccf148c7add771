-- ===== src/Prelude/Decimal.antt =====
-- `%d` of a number: its decimal digits.
use Prim.Native.Nat.{ℕ, zero, suc, ◌+◌, ◌*◌, ◌/◌, ◌%◌, ◌<◌, ◌-◌}
use mathlib.Core.Path.{◌≡◌, refl, sym, ap, ◌∙◌}
use mathlib.Core.List.{[], ◌∷◌, ◌++◌}
use native.Mathlib.Omega.{arith}
use edgectl.Prelude.Tests.{ltb, if◌then◌else◌}
use edgectl.Prelude.Texts.{Text}

decimal_loop : ℕ → ℕ → Text
decimal_loop zero n = []
decimal_loop (suc fuel) n =
    let front = decimal_loop fuel (n / 10) in (if ltb n 10 then [] else front) ++ (48 + n % 10) ∷ []

-- A number has at most as many digits as itself and one more, so that many rounds are enough.
unfoldable pub decimal : ℕ → Text
unfolding decimal_loop
decimal n = decimal_loop (n + 1) n

value_from : ℕ → Text → ℕ
value_from acc [] = acc
value_from acc (d ∷ ds) = value_from (acc * 10 + (d - 48)) ds

value_from-append :
    (acc : ℕ) (ds : Text) (d : ℕ)
    → value_from acc (ds ++ d ∷ []) ≡ value_from acc ds * 10 + (d - 48)
unfolding value_from
value_from-append acc [] d = refl
value_from-append acc (e ∷ ds) d = value_from-append (acc * 10 + (e - 48)) ds d

value-decimal_loop : (fuel n : ℕ) → n < fuel → value_from 0 (decimal_loop fuel n) ≡ n
unfolding decimal_loop value_from
value-decimal_loop zero n h = absurd (omega arith)
value-decimal_loop (suc fuel) n h = ground (
  arith,
  value_from-append 0 [] (48 + n % 10),
  value_from-append 0 (decimal_loop fuel (n / 10)) (48 + n % 10),
  value-decimal_loop fuel (n / 10),
)

-- Different numbers have different digits.
pub decimal-injective : (m n : ℕ) → decimal m ≡ decimal n → m ≡ n
unfolding decimal
decimal-injective m n e =
    sym (value-decimal_loop (m + 1) m (omega arith))
    ∙ ap (value_from 0) e
    ∙ value-decimal_loop (n + 1) n (omega arith)
