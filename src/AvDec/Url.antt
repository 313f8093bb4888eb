-- ===== src/AvDec/Url.antt =====
-- src/LogicHandle.cpp: `strcpy` of the url of a request, which has 256 bytes, into `au8Url` of a decoder,
-- which has 128. What does not fit goes into the fields behind it, by the packed layout of
-- src/protocol/dp_m2s_prot.h, with enumerations and `DP_BOOL` of 4 bytes: 11 bytes of the union, which the
-- server makes longer than the client, 4 of `stAdec`, and then `stVdec`, whose switches start at 143.
use server_communication.Prelude.{
  ℕ, zero, suc, ◌+◌, ◌*◌, ◌/◌, ◌%◌, ◌≤◌, ◌<◌, ◌≡◌, refl, ap, Bool, true, false, List, [], ◌∷◌, ltb,
  leb, ◌==◌, if◌then◌else◌, length, take, arith,
}
use server_communication.AvDec.{AvDec}

-- A byte behind the start of `au8Url`: of the text, its zero, or as it was.
abbrev nth : ℕ → List ℕ → ℕ
nth i [] = 0
nth zero (x ∷ xs) = x
nth (suc i) (x ∷ xs) = nth i xs

abbrev byte_after : List ℕ → ℕ → ℕ → ℕ
byte_after url i old = if leb i (length url) then nth i url else old

-- A word of four bytes from there, the lowest first.
abbrev word_after : List ℕ → ℕ → ℕ → ℕ
word_after url i old =
    byte_after url i (old % 256)
    + byte_after url (i + 1) (old / 256 % 256) * 256
    + byte_after url (i + 2) (old / 65536 % 256) * 65536
    + byte_after url (i + 3) (old / 16777216 % 256) * 16777216

-- A `DP_BOOL` of four bytes, of which the lowest is 1 where it is true. No byte of the text is 0.
abbrev pub flag_after : List ℕ → ℕ → Bool → Bool
flag_after url i old = if ltb i (length url) then true else if i == length url then false else old

-- `strcpy` into `au8Url`, of which `url` has the bytes before the first zero in the field. `osd_id` is
-- 0 where `stOsd` does not show the text of an id any more. The text ends within its 256 bytes, so that
-- `stSwms` is not reached.
abbrev pub copy_url : List ℕ → AvDec → AvDec
copy_url url d = record d {
  url = take 128 url;
  crop_on = flag_after url 143 d.crop_on;
  osd = flag_after url 151 d.osd;
  swms = flag_after url 155 d.swms;
  crop = record {
    x = word_after url 195 d.crop.x;
    y = word_after url 199 d.crop.y;
    width = word_after url 203 d.crop.width;
    height = word_after url 207 d.crop.height;
  };
  osd_id = if leb 231 (length url) then 0 else d.osd_id;
}

-- The text and its zero have room in the field.
abbrev pub UrlFits : List ℕ → Type 0
UrlFits url = length url < 128

take_short : (n : ℕ) (xs : List ℕ) → length xs ≤ n → take n xs ≡ xs
take_short zero [] h = refl
take_short zero (x ∷ xs) h = absurd (omega (arith, h))
take_short (suc n) [] h = refl
take_short (suc n) (x ∷ xs) h = ap (λ (zs : List ℕ). x ∷ zs) (take_short n xs (omega (arith, h)))

pub copy_url_fits : (url : List ℕ) (d : AvDec) → UrlFits url → (copy_url url d).url ≡ url
copy_url_fits url d h = take_short 128 url (omega (arith, h))
