-- ===== src/NetCheck.antt =====
-- src/SetNetwork.cpp: CheckNetConfig, whether an address, a mask and a gateway may be set. What `inet_addr`
-- makes of a text is a parameter, as are the bytes in memory, up to a 0, after the three of a
-- section: a section of three digits has no end of its own.
pub mod Power
pub mod Mask
mod Tests
use Prim.Native.Nat.{bit_and}
use server_communication.Prelude.{
  ℕ, zero, suc, ◌+◌, ◌-◌, ◌*◌, ◌%◌, ◌^◌, Bool, true, false, ◌&&◌, ◌||◌, not, List, [], ◌∷◌, ◌++◌,
  Option, none, some, ltb, leb, ◌==◌, ◌>>=◌, if◌then◌else◌, length,
}

-- `isdigit`
abbrev pub is_digit : ℕ → Bool
is_digit c = leb 48 c && leb c 57

-- `section`: the digits of the four parts.
pub record Sections : Type 0 where
  pub s0 : List ℕ
  pub s1 : List ℕ
  pub s2 : List ℕ
  pub s3 : List ℕ

abbrev pub no_sections : Sections
no_sections = record { s0 = []; s1 = []; s2 = []; s3 = [] }

-- `section[dotIndex][chIndex] = c`, where `chIndex` is the number of digits so far.
pub put_digit : Sections → ℕ → ℕ → Sections
put_digit s zero c = record s { s0 = s.s0 ++ (c ∷ []) }
put_digit s (suc zero) c = record s { s1 = s.s1 ++ (c ∷ []) }
put_digit s (suc (suc zero)) c = record s { s2 = s.s2 ++ (c ∷ []) }
put_digit s (suc (suc (suc i))) c = record s { s3 = s.s3 ++ (c ∷ []) }

-- The loop that cuts the text at the dots: `dotIndex` and the sections at its end, or an early return.
pub cut_sections : Sections → ℕ → ℕ → List ℕ → Option (ℕ × Sections)
unfolding put_digit
cut_sections s dot ch [] = some (dot, s)
cut_sections s dot ch (c ∷ cs) = elim (c == 46) [
  | true ↦ cut_sections s (suc dot) 0 cs
  | false ↦ elim (is_digit c && not (ltb 3 dot) && not (ltb 2 ch)) [
    | true ↦ cut_sections (put_digit s dot c) dot (suc ch) cs
    | false ↦ none
  ]
]

-- `atoi`: the number that the digits at the start make, after the number `n`.
pub atoi_from : ℕ → List ℕ → ℕ
atoi_from n [] = n
atoi_from n (c ∷ cs) = let more = atoi_from (n * 10 + (c - 48)) cs in if is_digit c then more else n

abbrev pub octet : List ℕ → ℕ
octet digits = atoi_from 0 digits

-- `atoi(section[i])`
abbrev pub atoi_section : List ℕ → List ℕ → ℕ
atoi_section after digits = octet (if length digits == 3 then digits ++ after else digits)

-- `SUBNETFLAG`
abbrev pub limit : Bool → ℕ
limit subnet = if subnet then 256 else 255

-- The tests of the numbers, and that not all of them are 0.
pub numbers_ok : (ℕ → List ℕ) → Bool → Sections → Bool
unfolding atoi_from
numbers_ok after subnet s =
    ltb (atoi_section (after 3) s.s3) (limit subnet)
    && not (length s.s3 == 0)
    && ltb (atoi_section (after 2) s.s2) (limit subnet)
    && not (length s.s2 == 0)
    && ltb (atoi_section (after 1) s.s1) (limit subnet)
    && not (length s.s1 == 0)
    && ltb (atoi_section (after 0) s.s0) (limit subnet)
    && not (length s.s0 == 0)
    && not (
        atoi_section (after 0) s.s0 == 0
        && atoi_section (after 1) s.s1 == 0
        && atoi_section (after 2) s.s2 == 0
        && atoi_section (after 3) s.s3 == 0)

-- The sections of an address with exactly three dots.
pub sections_of : List ℕ → Option Sections
unfolding cut_sections
sections_of text = do
  cut ← cut_sections no_sections 0 0 text
  if cut.0 == 3 then some cut.1 else none

-- `~hostsP1 + 1`
abbrev pub hosts : ℕ → ℕ
hosts mask = (2 ^ 32 - mask) % 2 ^ 32

-- `(hostsP1 & (hostsP1 - 1)) == 0`
abbrev pub is_power : ℕ → Bool
is_power h = bit_and h ((h + (2 ^ 32 - 1)) % 2 ^ 32) == 0

-- `sscanf("%u.%u.%u.%u")`, and the sum of the shifted numbers, as a `DP_U32`.
unfoldable pub address : List ℕ → ℕ
unfolding sections_of atoi_from
address text = elim (sections_of text) [
  | none ↦ 0
  | some s ↦ (octet s.s3 + octet s.s2 * 256 + octet s.s1 * 65536 + octet s.s0 * 16777216) % 2 ^ 32
]

module _ (after : ℕ → List ℕ) (inet_none : List ℕ → Bool) where
  -- `checkIP`
  unfoldable pub check_ip : List ℕ → Bool → Bool
  unfolding sections_of numbers_ok
  check_ip text subnet = elim (sections_of text) [
    | none ↦ false
    | some s ↦ numbers_ok after subnet s && (subnet || not (inet_none text))
  ]

  -- `checkSubnet`
  unfoldable pub check_subnet : List ℕ → List ℕ → Bool
  unfolding check_ip address
  check_subnet ip subnet =
      check_ip ip false && check_ip subnet true && is_power (hosts (address subnet))

  -- `checkGateway`
  unfoldable pub check_gateway : List ℕ → List ℕ → List ℕ → Bool
  unfolding check_ip check_subnet address
  check_gateway ip subnet gateway =
      check_ip ip false
      && check_subnet ip subnet
      && check_ip gateway false
      && bit_and (address ip) (address subnet) == bit_and (address gateway) (address subnet)
