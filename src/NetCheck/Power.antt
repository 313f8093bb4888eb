-- ===== src/NetCheck/Power.antt =====
-- The test of a power of two by the digits that a number shares with the one before it.
use Prim.Native.Nat.{bit_and}
use server_communication.Prelude.Digits.{zero-bit_and, lowest-bit_and}
use server_communication.Prelude.{
  ℕ, zero, suc, ◌+◌, ◌-◌, ◌*◌, ◌/◌, ◌≤◌, ◌<◌, ◌≡◌, ◌⊎◌, inl, inr, ap, arith,
}

bit_and_self : (n a : ℕ) → a ≤ n → bit_and a a ≡ a
bit_and_self n zero h = zero-bit_and 0
bit_and_self zero (suc a) h = absurd (omega (arith, h))
bit_and_self (suc n) (suc a) h =
    omega (arith, lowest-bit_and (suc a) (suc a), bit_and_self n (suc a / 2) (omega (arith, h)))

-- 2 to the power `k`.
abbrev pub power : ℕ → ℕ
power zero = 1
power (suc k) = power k * 2

parity : (a : ℕ) → (a ≡ a / 2 * 2) ⊎ (a ≡ a / 2 * 2 + 1)
parity a = ground arith

pub power_found : (n a : ℕ) → 0 < a → a ≤ n → bit_and a (a - 1) ≡ 0 → (k : ℕ) × (a ≡ power k)
power_found zero a p h e = absurd (omega (arith, p, h))
power_found (suc n) a p h e = elim (parity a) [
  | inl even ↦
      let half = lowest-bit_and a (a - 1) in
      let same =
        ap (λ x. bit_and (a / 2) x) {x = (a - 1) / 2} {y = a / 2 - 1} (omega (arith, even, p)) in
      let (k, q) =
        power_found n (a / 2) (omega (arith, even, p)) (omega (arith, even, p, h))
          (omega (arith, half, same, e)) in
      (suc k, omega (arith, even, q))
  | inr odd ↦
      let half = lowest-bit_and a (a - 1) in
      let same = ap (λ x. bit_and (a / 2) x) {x = (a - 1) / 2} {y = a / 2} (omega (arith, odd)) in
      (0, omega (arith, odd, half, same, bit_and_self (a / 2) (a / 2) (omega arith), e))
]

power-positive : (k : ℕ) → 0 < power k
power-positive zero = omega arith
power-positive (suc k) = omega (arith, power-positive k)

pub power_shares : (k : ℕ) → bit_and (power k) (power k - 1) ≡ 0
power_shares zero = omega (arith, lowest-bit_and 1 0, zero-bit_and 0)
power_shares (suc k) =
    let p = power-positive k in
    omega (
      arith,
      lowest-bit_and (power k * 2) (power k * 2 - 1),
      ap (λ x. bit_and x ((power k * 2 - 1) / 2)) {x = power k * 2 / 2} {y = power k} (omega arith),
      ap (λ x. bit_and (power k) x) {x = (power k * 2 - 1) / 2} {y = power k - 1}
          (omega (arith, p)),
      power_shares k,
    )
