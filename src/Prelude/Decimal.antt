-- ===== src/Prelude/Decimal.antt =====
-- The verbs %d and %09d of fmt.Sprintf.
use Prim.Native.Nat.{ℕ, zero, suc, ◌+◌, ◌*◌, ◌/◌, ◌%◌, ◌^◌, ◌<◌}
use Prim.Native.Char.{Char, char, code, IsScalar}
use Prim.Native.String.{String}
use mathlib.Core.Bool.{true}
use mathlib.Core.Path.{◌≡◌, ap}
use native.Mathlib.Omega.{arith}
use senior_backend_order_ing.Prelude.Tests.{ltb, ◌==◌, if◌then◌else◌}
use senior_backend_order_ing.Prelude.Int.{ℤ, pos, negsuc}

pub is_scalar : (n : ℕ) → IsScalar (48 + n % 10)
is_scalar n = ground arith

digit : ℕ → Char
digit n = char (48 + n % 10) (is_scalar n)

digit_inj : (a b : ℕ) → a < 10 → b < 10 → digit a ≡ digit b → a ≡ b
unfolding digit
digit_inj a b small small' e = let codes : 48 + a % 10 ≡ 48 + b % 10 = ap code e in omega arith

-- The `k` lowest digits of a number, before a text.
unfoldable pub low_digits : ℕ → ℕ → String → String
unfolding digit
low_digits zero n rest = rest
low_digits (suc k) n rest = low_digits k (n / 10) (String.◌∷◌ (digit (n % 10)) rest)

-- All digits of a number, before a text. A number has at most as many digits as it counts, and one.
unfoldable pub all_digits : ℕ → ℕ → String → String
unfolding digit
all_digits zero n rest = rest
all_digits (suc fuel) n rest =
    let more = all_digits fuel (n / 10) (String.◌∷◌ (digit (n % 10)) rest) in
    if n / 10 == 0 then String.◌∷◌ (digit (n % 10)) rest else more

-- `%d`
unfoldable pub decimal : ℤ → String
unfolding all_digits
decimal (pos n) = all_digits (suc n) n ""
decimal (negsuc n) = String.◌∷◌ "-" (all_digits (suc (suc n)) (suc n) "")

-- `%09d` of a number that is not negative
unfoldable pub padded : ℕ → String
unfolding low_digits all_digits
padded n = if ltb n (10 ^ 9) then low_digits 9 n "" else all_digits (suc n) n ""

power_of_ten : ℕ → ℕ
power_of_ten zero = 1
power_of_ten (suc k) = 10 * power_of_ten k

low_digits_inj :
    (k a b : ℕ) (s t : String)
    → a < power_of_ten k
    → b < power_of_ten k
    → low_digits k a s ≡ low_digits k b t
    → (a ≡ b) × (s ≡ t)
unfolding low_digits power_of_ten
low_digits_inj zero a b s t small small' e = (omega arith, e)
low_digits_inj (suc k) a b s t small small' e =
    let (high, rest) =
      low_digits_inj k (a / 10) (b / 10) (String.◌∷◌ (digit (a % 10)) s)
        (String.◌∷◌ (digit (b % 10)) t) (omega arith) (omega arith) e in
    let first : digit (a % 10) ≡ digit (b % 10) = cc rest in
    let low = digit_inj (a % 10) (b % 10) (omega arith) (omega arith) first in
    (omega arith, cc rest)

-- Numbers of at most nine digits are told apart by their padded text.
pub padded_inj : (a b : ℕ) → a < 10 ^ 9 → b < 10 ^ 9 → padded a ≡ padded b → a ≡ b
unfolding padded power_of_ten
padded_inj a b small small' e =
    let a_small : ltb a (10 ^ 9) ≡ true = ground arith in
    let b_small : ltb b (10 ^ 9) ≡ true = ground arith in
    let e' : low_digits 9 a "" ≡ low_digits 9 b "" = rw (a_small, b_small) at e in
    (low_digits_inj 9 a b "" "" (omega arith) (omega arith) e').0
