-- ===== src/Utf8/Grammar.antt =====
-- src/util/Public.cpp: the strings that is_str_utf8 accepts.
use server_communication.Prelude.{
  ℕ, zero, suc, ◌≤◌, ◌<◌, ◌≡◌, ◌↔◌, refl, true, some, List, [], ◌∷◌, arith, ltb, Option-cases, inl,
  inr, ◌⊎◌, sym, ◌∙◌, some-injective, Bool-cases, ltb→lt,
}
use server_communication.Utf8.{lead, utf8_step, utf8_from, is_str_utf8}

-- A first byte, with the number of bytes that follow it.
pub data Lead : ℕ → ℕ → Type 0 where
  ascii : {x : ℕ} → x < 0x80 → Lead x 0
  two : {x : ℕ} → 0xc0 ≤ x → x < 0xe0 → Lead x 1
  three : {x : ℕ} → 0xe0 ≤ x → x < 0xf0 → Lead x 2
  four : {x : ℕ} → 0xf0 ≤ x → x < 0xf8 → Lead x 3
  five : {x : ℕ} → 0xf8 ≤ x → x < 0xfc → Lead x 4
  six : {x : ℕ} → 0xfc ≤ x → x < 0xfe → Lead x 5
  -- The bytes 0xfe and 0xff, which start nothing in any version of UTF-8.
  beyond : {x : ℕ} → 0xfe ≤ x → Lead x 4

-- So many bytes that follow a first byte, and then characters.
pub data Chars : ℕ → List ℕ → Type 0 where
  done : Chars 0 []
  first : {n x : ℕ} {xs : List ℕ} → Lead x n → Chars n xs → Chars 0 (x ∷ xs)
  more : {n x : ℕ} {xs : List ℕ} → 0x80 ≤ x → x < 0xc0 → Chars n xs → Chars (suc n) (x ∷ xs)

le_or : (x n : ℕ) → (x < n) ⊎ (n ≤ x)
le_or x n = elim (Bool-cases (ltb x n)) [ inl e ↦ inl (ltb→lt x n e) | inr e ↦ inr (ground arith) ]

Lead-step : {x n : ℕ} → Lead x n → utf8_step 0 x ≡ some n
unfolding utf8_step lead
Lead-step (Lead.ascii h) = ground arith
Lead-step (Lead.two h k) = ground arith
Lead-step (Lead.three h k) = ground arith
Lead-step (Lead.four h k) = ground arith
Lead-step (Lead.five h k) = ground arith
Lead-step (Lead.six h k) = ground arith
Lead-step (Lead.beyond h) = ground arith

more-step : {x : ℕ} (n : ℕ) → 0x80 ≤ x → x < 0xc0 → utf8_step (suc n) x ≡ some n
unfolding utf8_step
more-step n h k = ground arith

Chars-utf8_from : {n : ℕ} {xs : List ℕ} → Chars n xs → utf8_from n xs ≡ true
unfolding utf8_from
Chars-utf8_from Chars.done = refl
Chars-utf8_from (Chars.first l c) = rw (Lead-step l, utf8_from) (Chars-utf8_from c)
Chars-utf8_from (Chars.more h k c) = rw (more-step _ h k, utf8_from) (Chars-utf8_from c)

-- The classes of a byte, in order.
Lead-high : (x : ℕ) → 0xf0 ≤ x → (n : ℕ) × Lead x n
Lead-high x h = elim (le_or x 0xf8) [
  | inl a ↦ (3, Lead.four h a)
  | inr a ↦ elim (le_or x 0xfc) [
    | inl b ↦ (4, Lead.five a b)
    | inr b ↦ elim (le_or x 0xfe) [ inl c ↦ (5, Lead.six b c) | inr c ↦ (4, Lead.beyond c) ]
  ]
]

Lead-wide : (x : ℕ) → 0xc0 ≤ x → (n : ℕ) × Lead x n
Lead-wide x h = elim (le_or x 0xe0) [
  | inl a ↦ (1, Lead.two h a)
  | inr a ↦ elim (le_or x 0xf0) [ inl b ↦ (2, Lead.three a b) | inr b ↦ Lead-high x b ]
]

Lead-cases : (x : ℕ) → ((n : ℕ) × Lead x n) ⊎ ((0x80 ≤ x) × (x < 0xc0))
Lead-cases x = elim (le_or x 0x80) [
  | inl a ↦ inl (0, Lead.ascii a)
  | inr a ↦ elim (le_or x 0xc0) [ inl b ↦ inr (a, b) | inr b ↦ inl (Lead-wide x b) ]
]

utf8_step-Lead : (x m : ℕ) → utf8_step 0 x ≡ some m → Lead x m
unfolding utf8_step lead
utf8_step-Lead x m e = elim (Lead-cases x) [
  | inl (n, l) ↦ rw (some-injective (sym e ∙ Lead-step l)) l
  | inr (a, b) ↦ ground arith
]

utf8_step-more : (n x m : ℕ) → utf8_step (suc n) x ≡ some m → (n ≡ m) × (0x80 ≤ x) × (x < 0xc0)
unfolding utf8_step
utf8_step-more n x m e = ground arith

step-Chars : (n x m : ℕ) (xs : List ℕ) → utf8_step n x ≡ some m → Chars m xs → Chars n (x ∷ xs)
step-Chars zero x m xs e c = Chars.first (utf8_step-Lead x m e) c
step-Chars (suc n) x m xs e c = let (p, h, k) = utf8_step-more n x m e in Chars.more h k (rw p c)

utf8_from-Chars : (n : ℕ) (xs : List ℕ) → utf8_from n xs ≡ true → Chars n xs
unfolding utf8_from
utf8_from-Chars zero [] h = Chars.done
utf8_from-Chars (suc n) [] h = ground arith
utf8_from-Chars n (x ∷ xs) h = elim (Option-cases (utf8_step n x)) [
  | inl e ↦ ground (arith, rw (e, utf8_from) at h)
  | inr (m, e) ↦ step-Chars n x m xs e (utf8_from-Chars m xs (rw (e, utf8_from) at h))
]

-- A string is accepted exactly when it is a sequence of characters of one to six bytes: a first byte
-- of its class, and as many bytes from 0x80 to 0xbf as that class says, where 0xfe and 0xff count as
-- first bytes of five.
pub is_str_utf8-Chars : (bytes : List ℕ) → (is_str_utf8 bytes ≡ true) ↔ Chars 0 bytes
unfolding is_str_utf8
is_str_utf8-Chars bytes = (utf8_from-Chars 0 bytes, λ c. Chars-utf8_from c)
