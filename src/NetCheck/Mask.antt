-- ===== src/NetCheck/Mask.antt =====
-- src/SetNetwork.cpp: the masks that checkSubnet takes.
use Prim.Native.Nat.{bit_and}
use server_communication.Prelude.{
  ℕ, ◌+◌, ◌-◌, ◌*◌, ◌%◌, ◌^◌, ◌<◌, ◌≡◌, ◌↔◌, refl, ap, sym, ◌∙◌, Bool, true, false, ◌&&◌, not, List,
  [], arith, ltb, ◌==◌, length, append_nil, Bool-cases, Option-cases, inl, inr, ==_iff,
}
use server_communication.NetCheck.{
  Sections, octet, atoi_section, numbers_ok, sections_of, check_ip, address, hosts, is_power,
  check_subnet,
}
use server_communication.NetCheck.Power.{power, power_found, power_shares}

-- A section of three digits that is followed by a 0 in memory is read as its digits.
atoi_section-octet : (after digits : List ℕ) → after ≡ [] → atoi_section after digits ≡ octet digits
atoi_section-octet after digits h = elim (Bool-cases (length digits == 3)) [
  | inl e ↦ rw (e, h, append_nil digits) refl
  | inr e ↦ rw e refl
]

-- The number that four octets make.
abbrev joined : ℕ → ℕ → ℕ → ℕ → ℕ
joined a b c d = (d + c * 256 + b * 65536 + a * 16777216) % 2 ^ 32

joined-range :
    (a b c d : ℕ)
    → a < 256
    → b < 256
    → c < 256
    → d < 256
    → (a == 0 && b == 0 && c == 0 && d == 0) ≡ false
    → (0 < joined a b c d) × (joined a b c d < 2 ^ 32)
joined-range a b c d p q r s h = ground arith

and_middle : (a b c : Bool) → (a && b && c) ≡ true → (a ≡ true) × (b ≡ true) × (c ≡ true)
and_middle a b c h = ground arith

tests-range :
    (a b c d : ℕ) (p q r s : Bool)
    → (ltb d 256
        && not p
        && ltb c 256
        && not q
        && ltb b 256
        && not r
        && ltb a 256
        && not s
        && not (a == 0 && b == 0 && c == 0 && d == 0))
      ≡ true
    → (0 < joined a b c d) × (joined a b c d < 2 ^ 32)
tests-range a b c d p q r s h =
    joined-range a b c d (ground arith) (ground arith) (ground arith) (ground arith) (ground arith)

-- Shared digits of a number and the one before it, for a number given as a sum.
mask-power :
    (m h : ℕ)
    → h + m ≡ 2 ^ 32
    → 0 < h
    → (bit_and h (h - 1) == 0) ≡ true
    → (k : ℕ) × (m + power k ≡ 2 ^ 32)
mask-power m h e p t =
    let (k, q) = power_found h h p (omega arith) ((==_iff (bit_and h (h - 1)) 0).0 t) in
    (k, omega (arith, e, q))

power-mask : (m h k : ℕ) → h + m ≡ 2 ^ 32 → m + power k ≡ 2 ^ 32 → (bit_and h (h - 1) == 0) ≡ true
power-mask m h k e q =
    (==_iff (bit_and h (h - 1)) 0).1
      (ap (λ x. bit_and x (x - 1)) {x = h} {y = power k} (omega (arith, e, q)) ∙ power_shares k)

-- What `hosts` and the number before it are, for a mask that is not 0.
hosts-range :
    (m : ℕ)
    → 0 < m
    → m < 2 ^ 32
    → (hosts m + m ≡ 2 ^ 32) × (0 < hosts m) × ((hosts m + (2 ^ 32 - 1)) % 2 ^ 32 ≡ hosts m - 1)
hosts-range m p l = (omega (arith, p, l), omega (arith, p, l), omega (arith, p, l))

is_power_mask :
    (m : ℕ)
    → (0 < m) × (m < 2 ^ 32)
    → (is_power (hosts m) ≡ true) ↔ ((k : ℕ) × (m + power k ≡ 2 ^ 32))
is_power_mask m (p, l) =
    let (e, g, f) = hosts-range m p l in
    let before = ap (λ x. bit_and (hosts m) x == 0) f in
    (
      λ t. mask-power m (hosts m) e g (sym before ∙ t),
      λ (k, q). before ∙ power-mask m (hosts m) k e q,
    )

module _ (after : ℕ → List ℕ) (inet_none : List ℕ → Bool) (ends : (i : ℕ) → after i ≡ []) where
  numbers_ok-range :
      (s : Sections)
      → numbers_ok after true s ≡ true
      → (0 < joined (octet s.s0) (octet s.s1) (octet s.s2) (octet s.s3))
        × (joined (octet s.s0) (octet s.s1) (octet s.s2) (octet s.s3) < 2 ^ 32)
  unfolding numbers_ok
  numbers_ok-range s h =
      let g =
        rw
          (
            atoi_section-octet (after 0) s.s0 (ends 0),
            atoi_section-octet (after 1) s.s1 (ends 1),
            atoi_section-octet (after 2) s.s2 (ends 2),
            atoi_section-octet (after 3) s.s3 (ends 3),
          )
          at h in
      tests-range (octet s.s0) (octet s.s1) (octet s.s2) (octet s.s3) (length s.s3 == 0)
        (length s.s2 == 0) (length s.s1 == 0) (length s.s0 == 0) g

  check_ip-range :
      (text : List ℕ)
      → check_ip after inet_none text true ≡ true
      → (0 < address text) × (address text < 2 ^ 32)
  unfolding check_ip address
  check_ip-range text h = elim (Option-cases (sections_of text)) [
    | inl e ↦ ground (arith, rw (e, check_ip) at h)
    | inr (s, e) ↦ rw (e, address) (numbers_ok-range s (ground (arith, rw (e, check_ip) at h)))
  ]

  -- A mask is taken, where the three digits of a section are followed by a 0 in memory, exactly when the
  -- address and the mask are well-formed and the mask, as a number of 32 bits, is what a power of
  -- two lacks of 2^32: ones and then zeros.
  pub check_subnet-power :
      (ip subnet : List ℕ)
      → (check_subnet after inet_none ip subnet ≡ true) ↔ (
          (check_ip after inet_none ip false ≡ true)
          × (check_ip after inet_none subnet true ≡ true)
          × ((k : ℕ) × (address subnet + power k ≡ 2 ^ 32)))
  unfolding check_subnet
  check_subnet-power ip subnet = (
    λ h.
        let m =
          and_middle (check_ip after inet_none ip false) (check_ip after inet_none subnet true) _
            h in
        (m.0, m.1, (is_power_mask (address subnet) (check_ip-range subnet m.1)).0 m.2),
    λ (i, m, k). rw (i, m) ((is_power_mask (address subnet) (check_ip-range subnet m)).1 k),
  )
