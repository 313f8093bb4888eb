-- ===== src/IniFile/Tests.antt =====
-- Settings in small files, and an instance of the theorem.
use server_communication.Prelude.{
  bytes_of, ℕ, zero, suc, ◌≡◌, refl, true, none, some, List, [], ◌∷◌, arith,
}
use server_communication.IniFile.{read_ini_conf_file, set_ini_conf_file, section_text}
use server_communication.IniFile.Fresh.{read-set_ini_conf_file}

abbrev two_sections : List ℕ
two_sections = bytes_of "[A]\n;x=0\nx=1\n[NETWORK]\nipaddr=1.2\nmask=5\n"

run_read :
    read_ini_conf_file (some two_sections) (bytes_of "NETWORK") (bytes_of "mask") 8
    ≡ some (true, bytes_of "5")
unfolding read_ini_conf_file
run_read = refl

-- A key of the section is changed in its place.
run_change :
    set_ini_conf_file (some two_sections) (bytes_of "NETWORK") (bytes_of "ipaddr") (bytes_of "9")
    ≡ some (bytes_of "[A]\n;x=0\nx=1\n[NETWORK]\nipaddr=9\nmask=5\n")
unfolding set_ini_conf_file
run_change = refl

-- A new key goes before the others of its section.
run_new_key :
    set_ini_conf_file (some two_sections) (bytes_of "A") (bytes_of "y") (bytes_of "2")
    ≡ some (bytes_of "[A]\ny=2\n;x=0\nx=1\n[NETWORK]\nipaddr=1.2\nmask=5\n")
unfolding set_ini_conf_file
run_new_key = refl

run_new_section :
    set_ini_conf_file (some (bytes_of "[A]\n")) (bytes_of "B") (bytes_of "y") (bytes_of "2")
    ≡ some (bytes_of "[A]\n\n[B]\ny=2\n")
unfolding set_ini_conf_file
run_new_section = refl

-- A section whose name begins that of the one asked for is taken for it, and so is a key.
run_prefix :
    read_ini_conf_file (some (bytes_of "[NET]\nip=7\n")) (bytes_of "NETWORK") (bytes_of "ipaddr") 8
    ≡ some (true, bytes_of "7")
unfolding read_ini_conf_file
run_prefix = refl

-- A file of 1024 bytes or more is taken for an empty one.
abbrev repeat : ℕ → List ℕ
repeat zero = []
repeat (suc n) = 59 ∷ repeat n

run_too_big :
    set_ini_conf_file (some (repeat 1024)) (bytes_of "B") (bytes_of "y") (bytes_of "2")
    ≡ some (bytes_of "[B]\ny=2\n")
unfolding set_ini_conf_file
run_too_big = refl

abbrev fresh_text : List ℕ
fresh_text = section_text (bytes_of "NETWORK") (bytes_of "ipaddr") (bytes_of "10.0.0.1")

read-set_ini_conf_file_example :
    (set_ini_conf_file none (bytes_of "NETWORK") (bytes_of "ipaddr") (bytes_of "10.0.0.1")
      ≡ some fresh_text)
    × (set_ini_conf_file (some []) (bytes_of "NETWORK") (bytes_of "ipaddr") (bytes_of "10.0.0.1")
        ≡ some fresh_text)
    × (read_ini_conf_file (some fresh_text) (bytes_of "NETWORK") (bytes_of "ipaddr") 16
        ≡ some (true, bytes_of "10.0.0.1"))
read-set_ini_conf_file_example =
    read-set_ini_conf_file (bytes_of "NETWORK") 105 (bytes_of "paddr") (bytes_of "10.0.0.1") 16
      (ground arith) refl (ground arith) (ground arith) (ground arith) (ground arith)
