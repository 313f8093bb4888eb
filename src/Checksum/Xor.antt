-- ===== src/Checksum/Xor.antt =====
-- The laws of `bit_xor`, which stand on its lowest digit.
use Prim.Native.Nat.{bit_xor}
use server_communication.Prelude.Digits.{zero-bit_xor, lowest-bit_xor}
use server_communication.Prelude.{ℕ, zero, suc, ◌+◌, ◌*◌, ◌/◌, ◌%◌, ◌≤◌, ◌<◌, ◌≡◌, refl, ap, arith}

pub half-bit_xor : (a b : ℕ) → bit_xor a b / 2 ≡ bit_xor (a / 2) (b / 2)
half-bit_xor a b = omega (arith, lowest-bit_xor a b)

pub odd-bit_xor : (a b : ℕ) → bit_xor a b % 2 ≡ (a % 2 + b % 2) % 2
odd-bit_xor a b = omega (arith, lowest-bit_xor a b)

bit_xor_assoc_fuel : (n a b c : ℕ) → a ≤ n → bit_xor (bit_xor a b) c ≡ bit_xor a (bit_xor b c)
bit_xor_assoc_fuel n zero b c h = rw (zero-bit_xor b, zero-bit_xor (bit_xor b c)) refl
bit_xor_assoc_fuel zero (suc a) b c h = absurd (omega (arith, h))
bit_xor_assoc_fuel (suc n) (suc a) b c h =
    let s = bit_xor_assoc_fuel n (suc a / 2) (b / 2) (c / 2) (omega (arith, h)) in
    let p = lowest-bit_xor (bit_xor (suc a) b) c in
    let q = lowest-bit_xor (suc a) (bit_xor b c) in
    let r = ap (λ x. bit_xor x (c / 2)) (half-bit_xor (suc a) b) in
    let t = ap (λ x. bit_xor (suc a / 2) x) (half-bit_xor b c) in
    omega (arith, s, p, q, r, t, odd-bit_xor (suc a) b, odd-bit_xor b c)

pub bit_xor_assoc : (a b c : ℕ) → bit_xor (bit_xor a b) c ≡ bit_xor a (bit_xor b c)
bit_xor_assoc a b c = bit_xor_assoc_fuel a a b c (omega arith)

bit_xor-zero : (n a : ℕ) → a ≤ n → bit_xor a 0 ≡ a
bit_xor-zero n zero h = zero-bit_xor 0
bit_xor-zero zero (suc a) h = absurd (omega (arith, h))
bit_xor-zero (suc n) (suc a) h =
    omega (arith, lowest-bit_xor (suc a) 0, bit_xor-zero n (suc a / 2) (omega (arith, h)))

-- `a` shifted to the left by `n` digits.
abbrev pub shifted : ℕ → ℕ → ℕ
shifted zero a = a
shifted (suc n) a = shifted n a * 2

-- Digits that do not meet are joined by a sum.
pub bit_xor_low : (n a b : ℕ) → b < shifted n 1 → bit_xor (shifted n a) b ≡ shifted n a + b
bit_xor_low zero a zero h = omega (arith, bit_xor-zero a a (omega arith))
bit_xor_low zero a (suc b) h = absurd (omega (arith, h))
bit_xor_low (suc n) a b h = omega (
  arith,
  lowest-bit_xor (shifted n a * 2) b,
  ap (λ x. bit_xor x (b / 2)) {x = shifted n a * 2 / 2} {y = shifted n a} (omega arith),
  bit_xor_low n a (b / 2) (omega (arith, h)),
)

pub bit_xor_lt : (n a b : ℕ) → a < shifted n 1 → b < shifted n 1 → bit_xor a b < shifted n 1
bit_xor_lt zero zero b h k = omega (arith, zero-bit_xor b, k)
bit_xor_lt zero (suc a) b h k = absurd (omega (arith, h))
bit_xor_lt (suc n) a b h k =
    omega (
      arith,
      lowest-bit_xor a b,
      bit_xor_lt n (a / 2) (b / 2) (omega (arith, h)) (omega (arith, k)),
    )
