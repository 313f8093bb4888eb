-- ===== src/Checksum/Tests.antt =====
-- The checksum of the digits 1 to 9, and an instance of the theorem.
use server_communication.Prelude.{ℕ, ◌≡◌, refl, List, [], ◌∷◌, arith}
use server_communication.Checksum.{calc_crc_all}
use server_communication.Checksum.Bitwise.{reference, calc_crc_all-reference}

abbrev nine_digits : List ℕ
nine_digits = 0x31 ∷ (0x32 ∷ (0x33 ∷ (0x34 ∷ (0x35 ∷ (0x36 ∷ (0x37 ∷ (0x38 ∷ (0x39 ∷ []))))))))

run_digits : calc_crc_all nine_digits ≡ 0x4b37
unfolding calc_crc_all
run_digits = refl

calc_crc_all-reference_example : calc_crc_all nine_digits ≡ reference 0xffff nine_digits
calc_crc_all-reference_example = calc_crc_all-reference nine_digits (ground arith)
