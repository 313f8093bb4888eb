-- ===== src/Prelude/Digits.antt =====
-- The native operations on binary digits, from the lowest digit on: `bit_and` and `bit_xor`.
use Prim.Native.Nat.{
  ℕ, zero, suc, ◌+◌, ◌*◌, ◌/◌, ◌%◌, ◌≤◌, ◌<◌, min, differ, digits, bitwise, bit_and, bit_xor,
  bit_and-bitwise, bit_xor-bitwise,
}
use mathlib.Core.Path.{◌≡◌, refl}
use native.Mathlib.Omega.{arith}

module _ (rest : ℕ → ℕ) (join : ℕ → ℕ → ℕ) where
  -- More turns than the first number has digits change nothing.
  digits_enough : (turns a b : ℕ) → a ≤ turns → digits rest join turns a b ≡ digits rest join a a b
  digits_enough turns a b h = enough turns a a b h (omega arith)
    where
      enough : (n m x y : ℕ) → x ≤ n → x ≤ m → digits rest join n x y ≡ digits rest join m x y
      enough zero zero x y k l = refl
      enough zero (suc m) zero y k l = refl
      enough (suc n) zero zero y k l = refl
      enough (suc n) (suc m) zero y k l = refl
      enough zero m (suc x) y k l = absurd (omega (arith, k))
      enough n zero (suc x) y k l = absurd (omega (arith, l))
      enough (suc n) (suc m) (suc x) y k l =
          omega (arith, enough n m (suc x / 2) (y / 2) (omega (arith, k)) (omega (arith, l)))

  -- One turn for a first number that is not 0.
  bitwise_turn :
      (a b : ℕ)
      → bitwise rest join (suc a) b
        ≡ bitwise rest join (suc a / 2) (b / 2) * 2 + join (suc a % 2) (b % 2)
  bitwise_turn a b = omega (arith, digits_enough a (suc a / 2) (b / 2) (omega arith))

pub zero-bit_xor : (b : ℕ) → bit_xor 0 b ≡ b
zero-bit_xor b = bit_xor-bitwise 0 b

pub zero-bit_and : (b : ℕ) → bit_and 0 b ≡ 0
zero-bit_and b = bit_and-bitwise 0 b

differ_of_digits : (x y : ℕ) → x < 2 → y < 2 → differ x y ≡ (x + y) % 2
differ_of_digits zero zero h k = refl
differ_of_digits zero (suc zero) h k = refl
differ_of_digits (suc zero) zero h k = refl
differ_of_digits (suc zero) (suc zero) h k = refl
differ_of_digits (suc (suc x)) y h k = absurd (omega (arith, h))
differ_of_digits x (suc (suc y)) h k = absurd (omega (arith, k))

pub lowest-bit_xor : (x y : ℕ) → bit_xor x y ≡ (x % 2 + y % 2) % 2 + bit_xor (x / 2) (y / 2) * 2
lowest-bit_xor zero y = omega (arith, zero-bit_xor (y / 2), zero-bit_xor y)
lowest-bit_xor (suc n) y =
    let turn = bitwise_turn (λ x. x) differ n y in
    let halves = bit_xor-bitwise (suc n / 2) (y / 2) in
    let digit = differ_of_digits (suc n % 2) (y % 2) (omega arith) (omega arith) in
    omega (arith, digit, halves, turn, bit_xor-bitwise (suc n) y)

pub lowest-bit_and : (x y : ℕ) → bit_and x y ≡ min (x % 2) (y % 2) + bit_and (x / 2) (y / 2) * 2
lowest-bit_and zero y = omega (arith, zero-bit_and (y / 2), zero-bit_and y)
lowest-bit_and (suc n) y =
    let turn = bitwise_turn (λ x. 0) min n y in
    let halves = bit_and-bitwise (suc n / 2) (y / 2) in
    omega (arith, halves, turn, bit_and-bitwise (suc n) y)
