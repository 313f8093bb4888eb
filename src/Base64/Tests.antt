-- ===== src/Base64/Tests.antt =====
-- `Man` is `TWFu`, `Ma` is `TWE=`.
use server_communication.Prelude.{ℕ, some, ◌≡◌, refl, List, [], ◌∷◌, arith, length}
use server_communication.Base64.{
  to_base64, write_base64, get_base64_length, write_base64_buffer, write_base64_string,
  read_base64_string,
}
use server_communication.Base64.Strings.{read-write_base64_string}

abbrev man : List ℕ
man = 77 ∷ (97 ∷ (110 ∷ []))

abbrev ma : List ℕ
ma = 77 ∷ (97 ∷ [])

writes_man : write_base64 man ≡ 84 ∷ (87 ∷ (70 ∷ (117 ∷ [])))
unfolding to_base64 write_base64
writes_man = refl

writes_ma : write_base64 ma ≡ 84 ∷ (87 ∷ (69 ∷ (61 ∷ [])))
unfolding to_base64 write_base64
writes_ma = refl

-- A buffer that is too short gets nothing.
runs_short : write_base64_buffer ma 3 ≡ some []
unfolding write_base64_buffer
runs_short = refl

read-write_base64_string_example :
    (text : List ℕ) × (write_base64_string ma ≡ some text)
    × (read_base64_string text ≡ some ma)
    × (get_base64_length 2 ≡ some (length text))
read-write_base64_string_example =
    read-write_base64_string ma (omega arith, (omega arith, tt)) (omega arith)
