-- ===== src/Base64/Strings.antt =====
-- src/util/Base64ToUtf8.cpp: the functions on strings, which size their result themselves.
use server_communication.Prelude.{
  AreBytes, ℕ, zero, suc, ◌+◌, ◌-◌, ◌*◌, ◌/◌, ◌^◌, ◌<◌, ◌≤◌, sym, inl, inr, Bool-cases, some, ◌≡◌,
  refl, ap, ◌∙◌, false, ◌||◌, List, [], ◌∷◌, length, arith, ltb, ◌==◌, ne-false, if◌then◌else◌,
}
use server_communication.Base64.{
  pad, in_int, write_base64, get_base64_length, skip_pads, read_groups, read_base64,
  write_base64_buffer, overwritten, write_base64_string, get_binary_length, read_base64_buffer,
  read_base64_string,
}
use server_communication.Base64.RoundTrip.{read-write_base64, length-write_base64}

overwritten_all : (n : ℕ) (xs : List ℕ) → length xs ≡ n → overwritten n xs ≡ xs
unfolding overwritten
overwritten_all zero xs h = refl
overwritten_all (suc n) [] h = absurd (omega (arith, h))
overwritten_all (suc n) (x ∷ xs) h = ap (λ ys. x ∷ ys) (overwritten_all n xs (omega (arith, h)))

length-read_groups : (cs : List ℕ) → length (read_groups cs) ≡ length cs * 3 / 4
unfolding read_groups
length-read_groups [] = refl
length-read_groups (a ∷ []) = refl
length-read_groups (a ∷ (b ∷ [])) = refl
length-read_groups (a ∷ (b ∷ (c ∷ []))) = refl
length-read_groups (a ∷ (b ∷ (c ∷ (d ∷ rest)))) = omega (arith, length-read_groups rest)

overwritten_empty : (n : ℕ) (xs : List ℕ) → length xs ≡ n → n ≡ 0 → overwritten n [] ≡ xs
unfolding overwritten
overwritten_empty n [] h z = rw z refl
overwritten_empty n (x ∷ xs) h z = absurd (omega (arith, h, z))

length-skip_pads : (cs : List ℕ) → length (skip_pads cs) ≤ length cs
unfolding skip_pads
length-skip_pads [] = omega arith
length-skip_pads (c ∷ cs) =
    elim (skip_pads cs)
        as (λ (ds : List ℕ).
          length ds ≤ length cs
          → length (elim ds [ [] ↦ if c == pad then [] else c ∷ [] | e ∷ es ↦ c ∷ (e ∷ es) ])
            ≤ suc (length cs)) [ [] ↦ λ k. ground arith | e ∷ es ↦ λ k. omega (arith, k) ]
      (length-skip_pads cs)

in_int-small : (n : ℕ) → n < 2 ^ 31 → in_int n ≡ some n
unfolding in_int
in_int-small n h = ground (arith, h)

get_base64_length-small : (n : ℕ) → n < 2 ^ 29 - 1 → get_base64_length n ≡ some ((n + 2) / 3 * 4)
unfolding get_base64_length
get_base64_length-small zero h = refl
get_base64_length-small (suc n) h =
    rw (ne-false (suc n) 0 (omega arith)) (in_int-small ((suc n + 2) / 3 * 4) (omega (arith, h)))

write_base64_string-write_base64 :
    (bytes : List ℕ)
    → length bytes < 2 ^ 29 - 1
    → write_base64_string bytes ≡ some (write_base64 bytes)
unfolding write_base64_string write_base64_buffer overwritten
write_base64_string-write_base64 [] h = refl
write_base64_string-write_base64 (x ∷ xs) h =
    let len = (length (x ∷ xs) + 2) / 3 * 4 in
    let room : ltb len len ≡ false = ground arith in
    let some_byte : (length (x ∷ xs) == 0) ≡ false = ground arith in
    rw
      (
        get_base64_length-small (length (x ∷ xs)) h,
        write_base64_buffer,
        in_int-small len (omega (arith, h)),
        some_byte,
        room,
      )
      (ap some (overwritten_all len (write_base64 (x ∷ xs)) (length-write_base64 (x ∷ xs))))

-- For characters whose number times 3 is an `int`.
read_base64_string-read_base64 :
    (cs : List ℕ)
    → length (skip_pads cs) * 3 < 2 ^ 31
    → read_base64_string cs ≡ some (read_base64 cs)
unfolding read_base64_string read_base64_buffer read_base64 get_binary_length
read_base64_string-read_base64 cs h =
    let from = skip_pads cs in
    let len = length from * 3 / 4 in
    let reads = in_int-small (length from * 3) h in
    let room : ltb len len ≡ false = ground arith in
    elim (Bool-cases (length from == 0 || len == 0)) [
      | inl none_left ↦
          rw (reads, none_left)
            (ap some
              (overwritten_empty len (read_groups from) (length-read_groups from) (ground arith)))
      | inr some_left ↦
          rw (reads, some_left, room)
            (ap some (overwritten_all len (read_groups from) (length-read_groups from)))
    ]

-- Bytes below 256, fewer than 2^29 - 1, so that no calculation overflows, that are written as Base64 into
-- a string, and read from it into a string, come back; the string has the length that
-- `GetBase64LengthFromBinaryLength` says.
pub read-write_base64_string :
    (bytes : List ℕ)
    → AreBytes bytes
    → length bytes < 2 ^ 29 - 1
    → (text : List ℕ) × (write_base64_string bytes ≡ some text)
      × (read_base64_string text ≡ some bytes)
      × (get_base64_length (length bytes) ≡ some (length text))
read-write_base64_string bytes h b =
    let text = write_base64 bytes in
    let size = length-write_base64 bytes in
    (
      text,
      write_base64_string-write_base64 bytes b,
      read_base64_string-read_base64 text (omega (arith, b, size, length-skip_pads text))
          ∙ ap some (read-write_base64 bytes h),
      get_base64_length-small (length bytes) b ∙ ap some (sym size),
    )
