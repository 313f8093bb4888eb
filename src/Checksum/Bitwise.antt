-- ===== src/Checksum/Bitwise.antt =====
-- src/util/CRC16.h: the table against the division that it stands for, digit by digit.
use Prim.Native.Nat.{bit_xor}
use server_communication.Prelude.{
  AreBytes, ℕ, zero, suc, ◌+◌, ◌*◌, ◌/◌, ◌%◌, ◌<◌, ◌≡◌, refl, ap, ◌∙◌, sym, Bool, true, false, ◌&&◌,
  List, [], ◌∷◌, arith, ◌==◌, ==_iff, if◌then◌else◌, Bool-cases, inl, inr,
}
use server_communication.Checksum.{crc_tbl, entry, crc_step, crc_from, calc_crc_all}
use server_communication.Checksum.Xor.{
  bit_xor_assoc, half-bit_xor, odd-bit_xor, shifted, bit_xor_low, bit_xor_lt,
}

-- One digit of the division by x^16 + x^15 + x^2 + 1, with the lowest digit first.
abbrev pub divide : ℕ → ℕ
divide x = if x % 2 == 1 then bit_xor (x / 2) 0xa001 else x / 2

abbrev pub divides : ℕ → ℕ → ℕ
divides zero x = x
divides (suc n) x = divides n (divide x)

-- A byte joins the lowest eight digits, which are then divided out.
abbrev pub reference : ℕ → List ℕ → ℕ
reference crc [] = crc
reference crc (x ∷ xs) = reference (divides 8 (bit_xor crc x)) xs

abbrev same_below : (ℕ → ℕ) → ℕ → List ℕ → ℕ → Bool
same_below f zero tbl i = true
same_below f (suc n) [] i = false
same_below f (suc n) (x ∷ xs) i = x == f i && same_below f n xs (suc i)

same_below_sound :
    (f : ℕ → ℕ) (n : ℕ) (tbl : List ℕ) (i j : ℕ)
    → same_below f n tbl i ≡ true
    → j < n
    → entry tbl j ≡ f (i + j)
same_below_sound f zero tbl i j h lt = absurd (omega (arith, lt))
same_below_sound f (suc n) [] i j h lt = ground arith
same_below_sound f (suc n) (x ∷ xs) i zero h lt =
    (==_iff x (f i)).0 (ground arith) ∙ ap f (omega arith)
same_below_sound f (suc n) (x ∷ xs) i (suc j) h lt =
    same_below_sound f n xs (suc i) j (ground arith) (omega (arith, lt)) ∙ ap f (omega arith)

table : same_below (divides 8) 256 crc_tbl 0 ≡ true
table = refl

entry-crc_tbl : (i : ℕ) → i < 256 → entry crc_tbl i ≡ divides 8 i
entry-crc_tbl i h =
    same_below_sound (divides 8) 256 crc_tbl 0 i table h ∙ ap (divides 8) (omega arith)

digit : (a b : ℕ) → bit_xor (a * 2) b % 2 ≡ b % 2
digit a b = omega (arith, odd-bit_xor (a * 2) b)

double_half : (a : ℕ) → a * 2 / 2 ≡ a
double_half a = omega arith

above : (a b : ℕ) → bit_xor (a * 2) b / 2 ≡ bit_xor a (b / 2)
above a b = half-bit_xor (a * 2) b ∙ ap (λ x. bit_xor x (b / 2)) (double_half a)

-- Digits above the one that is divided out only move down.
divide-bit_xor : (a b : ℕ) → divide (bit_xor (a * 2) b) ≡ bit_xor a (divide b)
divide-bit_xor a b = elim (Bool-cases (b % 2 == 1)) [
  | inl e ↦ rw (digit a b, above a b, e) (bit_xor_assoc a (b / 2) 0xa001)
  | inr e ↦ rw (digit a b, above a b, e) refl
]

divides-bit_xor : (n a b : ℕ) → divides n (bit_xor (shifted n a) b) ≡ bit_xor a (divides n b)
divides-bit_xor zero a b = refl
divides-bit_xor (suc n) a b =
    ap (divides n) (divide-bit_xor (shifted n a) b) ∙ divides-bit_xor n a (divide b)

crc_step-reference : (crc byte : ℕ) → byte < 256 → crc_step crc byte ≡ divides 8 (bit_xor crc byte)
unfolding crc_step
crc_step-reference crc byte h =
    let split =
      ap (λ x. bit_xor x byte) {x = crc} {y = bit_xor (shifted 8 (crc / 256)) (crc % 256)}
        (omega (arith, bit_xor_low 8 (crc / 256) (crc % 256) (omega arith))) in
    ap (bit_xor (crc / 256)) (
      entry-crc_tbl (bit_xor (crc % 256) byte)
        (bit_xor_lt 8 (crc % 256) byte (omega arith) (omega (arith, h))))
    ∙ sym (divides-bit_xor 8 (crc / 256) (bit_xor (crc % 256) byte))
    ∙ ap (divides 8) (sym (bit_xor_assoc (shifted 8 (crc / 256)) (crc % 256) byte) ∙ sym split)

crc_from-reference :
    (crc : ℕ) (bytes : List ℕ) → AreBytes bytes → crc_from crc bytes ≡ reference crc bytes
unfolding crc_from
crc_from-reference crc [] h = refl
crc_from-reference crc (x ∷ xs) h =
    ap (λ c. crc_from c xs) (crc_step-reference crc x h.0)
    ∙ crc_from-reference (divides 8 (bit_xor crc x)) xs h.1

-- For bytes below 256, the checksum by the table is the remainder that the division digit by digit
-- leaves, from the same start.
pub calc_crc_all-reference :
    (bytes : List ℕ) → AreBytes bytes → calc_crc_all bytes ≡ reference 0xffff bytes
unfolding calc_crc_all
calc_crc_all-reference bytes h = crc_from-reference 0xffff bytes h
