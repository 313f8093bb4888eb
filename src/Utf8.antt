-- ===== src/Utf8.antt =====
-- src/util/Public.cpp: is_str_utf8, whether a string is UTF-8. `chr & 0xC0` keeps the two highest of
-- eight digits, so that it is 0x80 for the bytes from 0x80 to 0xbf.
pub mod Grammar
mod Tests
use server_communication.Prelude.{
  ℕ, zero, suc, ◌-◌, ◌/◌, Bool, true, false, ◌&&◌, Option, none, some, List, [], ◌∷◌, ltb, leb,
  ◌==◌, if◌then◌else◌,
}

-- `nBytes` for a first byte from 0x80 on; none where the function returns false.
pub lead : ℕ → Option ℕ
lead chr =
    if leb 0xfc chr && leb chr 0xfd
    then some 6
    else if leb 0xf8 chr
    then some 5
    else if leb 0xf0 chr
    then some 4
    else if leb 0xe0 chr
    then some 3
    else if leb 0xc0 chr
    then some 2
    else none

-- A turn of the loop: `nBytes` after it, none where the function returns false.
pub utf8_step : ℕ → ℕ → Option ℕ
unfolding lead
utf8_step zero chr =
    if leb 0x80 chr then elim (lead chr) [ none ↦ none | some n ↦ some (n - 1) ] else some 0
utf8_step (suc n) chr = if chr / 64 == 2 then some n else none

pub utf8_from : ℕ → List ℕ → Bool
unfolding utf8_step
utf8_from n [] = n == 0
utf8_from n (x ∷ xs) = elim (utf8_step n x) [ none ↦ false | some m ↦ utf8_from m xs ]

-- `is_str_utf8`, on the bytes before the terminator.
unfoldable pub is_str_utf8 : List ℕ → Bool
unfolding utf8_from
is_str_utf8 bytes = utf8_from 0 bytes
