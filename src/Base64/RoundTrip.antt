-- ===== src/Base64/RoundTrip.antt =====
-- What is written as Base64 is read back.
use server_communication.Prelude.{
  AreBytes, ℕ, ◌+◌, ◌*◌, ◌/◌, ◌%◌, ◌<◌, ◌≡◌, ◌∙◌, refl, ap, false, List, [], ◌∷◌, arith, ◌==◌,
  length,
}
use server_communication.Base64.{
  to_base64, from_base64, pad, write_base64, skip_pads, read_groups, read_base64, sextet0, sextet1,
  sextet2, sextet3, byte0, byte1, byte2,
}

from-to : (v : ℕ) → v < 64 → from_base64 (to_base64 v) ≡ v
unfolding from_base64 to_base64
from-to v h = ground arith

to-ne-pad : (v : ℕ) → (to_base64 v == pad) ≡ false
unfolding to_base64
to-ne-pad v = ground arith

-- The characters without the padding.
plain : List ℕ → List ℕ
plain [] = []
plain (x ∷ []) = to_base64 (sextet0 x) ∷ (to_base64 ((x * 16) % 64) ∷ [])
plain (x ∷ (y ∷ [])) =
    to_base64 (sextet0 x) ∷ (to_base64 (sextet1 x y) ∷ (to_base64 ((y * 4) % 64) ∷ []))
plain (x ∷ (y ∷ (z ∷ rest))) =
    to_base64 (sextet0 x)
    ∷ (to_base64 (sextet1 x y) ∷ (to_base64 (sextet2 y z) ∷ (to_base64 (sextet3 z) ∷ plain rest)))

skip_one :
    (v : ℕ) (cs ds : List ℕ) → skip_pads cs ≡ ds → skip_pads (to_base64 v ∷ cs) ≡ to_base64 v ∷ ds
unfolding skip_pads
skip_one v cs [] h = rw (h, skip_pads) (rw (to-ne-pad v) refl)
skip_one v cs (e ∷ es) h = rw (h, skip_pads) refl

skip-write : (bs : List ℕ) → skip_pads (write_base64 bs) ≡ plain bs
unfolding skip_pads write_base64 plain
skip-write [] = refl
skip-write (x ∷ []) =
    skip_one (sextet0 x) (to_base64 ((x * 16) % 64) ∷ (pad ∷ (pad ∷ []))) _
      (skip_one ((x * 16) % 64) (pad ∷ (pad ∷ [])) [] refl)
skip-write (x ∷ (y ∷ [])) =
    skip_one (sextet0 x) (to_base64 (sextet1 x y) ∷ (to_base64 ((y * 4) % 64) ∷ (pad ∷ []))) _ (
      skip_one (sextet1 x y) (to_base64 ((y * 4) % 64) ∷ (pad ∷ [])) _
        (skip_one ((y * 4) % 64) (pad ∷ []) [] refl))
skip-write (x ∷ (y ∷ (z ∷ rest))) =
    skip_one (sextet0 x)
      (to_base64 (sextet1 x y)
        ∷ (to_base64 (sextet2 y z) ∷ (to_base64 (sextet3 z) ∷ write_base64 rest)))
      _
      (skip_one (sextet1 x y)
        (to_base64 (sextet2 y z) ∷ (to_base64 (sextet3 z) ∷ write_base64 rest)) _
        (skip_one (sextet2 y z) (to_base64 (sextet3 z) ∷ write_base64 rest) _
          (skip_one (sextet3 z) (write_base64 rest) (plain rest) (skip-write rest))))

byte0-eq : (x y : ℕ) → x < 256 → y < 256 → byte0 (sextet0 x) (sextet1 x y) ≡ x
byte0-eq x y h g = omega arith

byte1-eq : (x y z : ℕ) → x < 256 → y < 256 → z < 256 → byte1 (sextet1 x y) (sextet2 y z) ≡ y
byte1-eq x y z h g k = omega arith

byte2-eq : (y z : ℕ) → y < 256 → z < 256 → byte2 (sextet2 y z) (sextet3 z) ≡ z
byte2-eq y z g k = omega arith

byte0_last : (x : ℕ) → x < 256 → byte0 (sextet0 x) ((x * 16) % 64) ≡ x
byte0_last x h = omega arith

byte1_last : (x y : ℕ) → x < 256 → y < 256 → byte1 (sextet1 x y) ((y * 4) % 64) ≡ y
byte1_last x y h g = omega arith

read-plain : (bs : List ℕ) → AreBytes bs → read_groups (plain bs) ≡ bs
unfolding read_groups plain
read-plain [] h = refl
read-plain (x ∷ []) h =
    rw (from-to (sextet0 x) (omega (arith, h.0)), from-to ((x * 16) % 64) (omega arith))
      (ap (λ a. a ∷ []) (byte0_last x h.0))
read-plain (x ∷ (y ∷ [])) h =
    rw
      (
        from-to (sextet0 x) (omega (arith, h.0)),
        from-to (sextet1 x y) (omega arith),
        from-to ((y * 4) % 64) (omega arith),
      )
      (rw (byte0-eq x y h.0 h.1.0, byte1_last x y h.0 h.1.0) refl)
read-plain (x ∷ (y ∷ (z ∷ rest))) h =
    rw
      (
        from-to (sextet0 x) (omega (arith, h.0)),
        from-to (sextet1 x y) (omega arith),
        from-to (sextet2 y z) (omega arith),
        from-to (sextet3 z) (omega arith),
      )
      (rw (byte0-eq x y h.0 h.1.0, byte1-eq x y z h.0 h.1.0 h.1.1.0, byte2-eq y z h.1.0 h.1.1.0)
        (ap (λ r. x ∷ (y ∷ (z ∷ r))) (read-plain rest h.1.1.1)))

-- Bytes written as Base64 are read back as they were.
pub read-write_base64 : (bs : List ℕ) → AreBytes bs → read_base64 (write_base64 bs) ≡ bs
unfolding read_base64
read-write_base64 bs h = ap read_groups (skip-write bs) ∙ read-plain bs h

-- What is written has the length that the functions reserve for it.
pub length-write_base64 : (bs : List ℕ) → length (write_base64 bs) ≡ (length bs + 2) / 3 * 4
unfolding write_base64
length-write_base64 [] = refl
length-write_base64 (x ∷ []) = refl
length-write_base64 (x ∷ (y ∷ [])) = refl
length-write_base64 (x ∷ (y ∷ (z ∷ rest))) = omega (arith, length-write_base64 rest)
