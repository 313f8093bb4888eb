-- ===== src/Utf8/Tests.antt =====
-- Strings that is_str_utf8 takes or refuses, and an instance of the theorem.
use server_communication.Prelude.{ℕ, ◌≡◌, ◌↔◌, refl, true, false, List, [], ◌∷◌}
use server_communication.Utf8.{is_str_utf8}
use server_communication.Utf8.Grammar.{Chars, is_str_utf8-Chars}

-- "a", and the two bytes of U+4E2D's three that a cut would leave.
run_words :
    (is_str_utf8 (0x61 ∷ (0xe4 ∷ (0xb8 ∷ (0xad ∷ [])))) ≡ true)
    × (is_str_utf8 (0x61 ∷ (0xe4 ∷ (0xb8 ∷ []))) ≡ false)
    × (is_str_utf8 (0xb8 ∷ []) ≡ false)
unfolding is_str_utf8
run_words = (refl, refl, refl)

-- The byte 0xff passes as the first of five.
run_beyond : is_str_utf8 (0xff ∷ (0x80 ∷ (0x80 ∷ (0x80 ∷ (0x80 ∷ []))))) ≡ true
unfolding is_str_utf8
run_beyond = refl

abbrev word : List ℕ
word = 0x61 ∷ (0xe4 ∷ (0xb8 ∷ (0xad ∷ [])))

is_str_utf8-Chars_example : (is_str_utf8 word ≡ true) ↔ Chars 0 word
is_str_utf8-Chars_example = is_str_utf8-Chars word
