-- ===== src/NetCheck/Tests.antt =====
-- Addresses, masks and gateways that are taken or refused, and an instance of the theorem.
use server_communication.Prelude.{
  bytes_of, ℕ, ◌+◌, ◌^◌, ◌≡◌, ◌↔◌, refl, Bool, true, false, List, [], ◌∷◌,
}
use server_communication.NetCheck.{check_ip, check_subnet, check_gateway, address}
use server_communication.NetCheck.Power.{power}
use server_communication.NetCheck.Mask.{check_subnet-power}

-- Memory with a 0 after each section, and with a digit.
abbrev zeros : ℕ → List ℕ
zeros i = []

abbrev digits : ℕ → List ℕ
digits i = 55 ∷ []

abbrev valid : List ℕ → Bool
valid text = false

abbrev home : List ℕ
home = bytes_of "192.168.1.10"

run_subnet :
    (check_subnet zeros valid home (bytes_of "255.255.255.0") ≡ true)
    × (check_subnet zeros valid home (bytes_of "255.255.240.0") ≡ true)
    × (check_subnet zeros valid home (bytes_of "255.0.255.0") ≡ false)
    × (check_subnet zeros valid home (bytes_of "255.255.255") ≡ false)
unfolding check_subnet
run_subnet = (refl, refl, refl, refl)

run_gateway :
    (check_gateway zeros valid home (bytes_of "255.255.255.0") (bytes_of "192.168.1.1") ≡ true)
    × (check_gateway zeros valid home (bytes_of "255.255.255.0") (bytes_of "192.168.2.1") ≡ false)
unfolding check_gateway
run_gateway = (refl, refl)

-- The same address is refused where a digit happens to stand after a section in memory.
run_overrun : (check_ip zeros valid home false ≡ true) × (check_ip digits valid home false ≡ false)
unfolding check_ip
run_overrun = (refl, refl)

check_subnet-power_example : (check_subnet zeros valid home (bytes_of "255.255.255.0") ≡ true) ↔ (
    (check_ip zeros valid home false ≡ true)
    × (check_ip zeros valid (bytes_of "255.255.255.0") true ≡ true)
    × ((k : ℕ) × (address (bytes_of "255.255.255.0") + power k ≡ 2 ^ 32)))
check_subnet-power_example =
    check_subnet-power zeros valid (λ i. refl) home (bytes_of "255.255.255.0")
