-- ===== src/Base64.antt =====
-- src/util/Base64ToUtf8.cpp: bytes to Base64 and back, by the functions on streams. Where the source
-- joins bits by `|`, the parts share none, and the join is a sum; a shift is a product or a quotient.
pub mod RoundTrip
pub mod Strings
mod Tests
use server_communication.Prelude.{
  ℕ, zero, suc, ◌||◌, ◌+◌, ◌-◌, ◌*◌, ◌/◌, ◌%◌, Bool, true, false, ◌&&◌, ◌^◌, Option, none, some,
  ◌>>=◌, List, [], ◌∷◌, ltb, leb, ◌==◌, if◌then◌else◌, length,
}

-- `TO_BASE64`: the letters, the small letters, the digits, `+`, `/`.
pub to_base64 : ℕ → ℕ
to_base64 v =
    if ltb v 26
    then 65 + v
    else if ltb v 52
    then 71 + v
    else if ltb v 62
    then v - 4
    else if v == 62
    then 43
    else 47

-- `FROM_BASE64`: 0 for a character that is none of them.
pub from_base64 : ℕ → ℕ
from_base64 c =
    if leb 65 c && leb c 90
    then c - 65
    else if leb 97 c && leb c 122
    then c - 71
    else if leb 48 c && leb c 57
    then c + 4
    else if c == 43
    then 62
    else if c == 47
    then 63
    else 0

-- `=`
abbrev pub pad : ℕ
pad = 61

-- The characters of a group, from its bytes: `data[ii] >> 2`, and so on, `& 0x3f`.
abbrev pub sextet0 : ℕ → ℕ
sextet0 x = x / 4

abbrev pub sextet1 : ℕ → ℕ → ℕ
sextet1 x y = (x * 16 + y / 16) % 64

abbrev pub sextet2 : ℕ → ℕ → ℕ
sextet2 y z = (y * 4 + z / 64) % 64

abbrev pub sextet3 : ℕ → ℕ
sextet3 z = z % 64

-- `WriteBase64`
pub write_base64 : List ℕ → List ℕ
unfolding to_base64
write_base64 [] = []
write_base64 (x ∷ []) = to_base64 (sextet0 x) ∷ (to_base64 ((x * 16) % 64) ∷ (pad ∷ (pad ∷ [])))
write_base64 (x ∷ (y ∷ [])) =
    to_base64 (sextet0 x) ∷ (to_base64 (sextet1 x y) ∷ (to_base64 ((y * 4) % 64) ∷ (pad ∷ [])))
write_base64 (x ∷ (y ∷ (z ∷ rest))) =
    to_base64 (sextet0 x)
    ∷ (to_base64 (sextet1 x y)
        ∷ (to_base64 (sextet2 y z) ∷ (to_base64 (sextet3 z) ∷ write_base64 rest)))

-- The value of an `int`; none where the calculation overflows, which C++ leaves undefined.
unfoldable pub in_int : ℕ → Option ℕ
in_int n = if ltb n (2 ^ 31) then some n else none

-- `GetBase64LengthFromBinaryLength`
unfoldable pub get_base64_length : ℕ → Option ℕ
unfolding in_int
get_base64_length bytes = if bytes == 0 then some 0 else in_int ((bytes + 2) / 3 * 4)

-- The loop that skips `=` at the end.
pub skip_pads : List ℕ → List ℕ
skip_pads [] = []
skip_pads (c ∷ cs) = elim (skip_pads cs) [
  | [] ↦ if c == pad then [] else c ∷ []
  | e ∷ es ↦ c ∷ (e ∷ es)
]

-- The bytes of a group, of type `uint8_t`.
abbrev pub byte0 : ℕ → ℕ → ℕ
byte0 a b = (a * 4 + b / 16) % 256

abbrev pub byte1 : ℕ → ℕ → ℕ
byte1 b c = (b * 16 + c / 4) % 256

abbrev pub byte2 : ℕ → ℕ → ℕ
byte2 c d = (c * 64 + d) % 256

-- The loop over groups of four and the `switch` over what is left.
pub read_groups : List ℕ → List ℕ
unfolding from_base64
read_groups [] = []
read_groups (a ∷ []) = []
read_groups (a ∷ (b ∷ [])) = byte0 (from_base64 a) (from_base64 b) ∷ []
read_groups (a ∷ (b ∷ (c ∷ []))) =
    byte0 (from_base64 a) (from_base64 b) ∷ (byte1 (from_base64 b) (from_base64 c) ∷ [])
read_groups (a ∷ (b ∷ (c ∷ (d ∷ rest)))) =
    byte0 (from_base64 a) (from_base64 b)
    ∷ (byte1 (from_base64 b) (from_base64 c)
        ∷ (byte2 (from_base64 c) (from_base64 d) ∷ read_groups rest))

-- `ReadBase64`
pub read_base64 : List ℕ → List ℕ
unfolding skip_pads read_groups
read_base64 cs = read_groups (skip_pads cs)

-- `WriteBase64` into a buffer of so many bytes: what is written there. Its loop is that on streams.
unfoldable pub write_base64_buffer : List ℕ → ℕ → Option (List ℕ)
unfolding write_base64 in_int
write_base64_buffer bytes encoded_bytes = do
  written ← in_int ((length bytes + 2) / 3 * 4)
  some (if length bytes == 0 || ltb encoded_bytes written then [] else write_base64 bytes)

-- The contents of a buffer of so many zeros after the bytes were written to its start.
pub overwritten : ℕ → List ℕ → List ℕ
overwritten zero xs = xs
overwritten (suc n) [] = 0 ∷ overwritten n []
overwritten (suc n) (x ∷ xs) = x ∷ overwritten n xs

-- `WriteBase64` into a string.
unfoldable pub write_base64_string : List ℕ → Option (List ℕ)
unfolding write_base64_buffer overwritten get_base64_length
write_base64_string bytes = do
  len ← get_base64_length (length bytes)
  out ← write_base64_buffer bytes len
  some (overwritten len out)

-- `GetBinaryLengthFromBase64Length`
unfoldable pub get_binary_length : List ℕ → Option ℕ
unfolding skip_pads in_int
get_binary_length cs = do n ← in_int (length (skip_pads cs) * 3); some (n / 4)

-- `ReadBase64` into a buffer of so many bytes: what is written there.
unfoldable pub read_base64_buffer : List ℕ → ℕ → Option (List ℕ)
unfolding skip_pads read_groups in_int
read_base64_buffer cs decoded_bytes =
    let from = skip_pads cs in
    if length from == 0 || decoded_bytes == 0 then some [] else (do
      n ← in_int (length from * 3)
      some (if ltb decoded_bytes (n / 4) then [] else read_groups from))

-- `ReadBase64` into a string.
unfoldable pub read_base64_string : List ℕ → Option (List ℕ)
unfolding read_base64_buffer get_binary_length overwritten
read_base64_string cs = do
  len ← get_binary_length cs
  out ← read_base64_buffer cs len
  some (overwritten len out)
