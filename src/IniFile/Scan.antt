-- ===== src/IniFile/Scan.antt =====
-- src/IniConfigFile.cpp: where the loops of parse_file stop.
use server_communication.Prelude.{
  ℕ, zero, suc, ◌+◌, ◌-◌, ◌≤◌, ◌≡◌, refl, ap, sym, ◌∙◌, Bool, true, false, ◌&&◌, not, Option, none,
  some, List, [], ◌∷◌, ◌++◌, arith, length, ◌==◌, ltb, lt→ltb, if◌then◌else◌,
}
use server_communication.IniFile.{
  Cursor, Line, skip_to, strncmp_same, scan_line, equals_sign, up_to_eof,
}

-- A test holds of every byte.
abbrev pub All : (ℕ → Bool) → List ℕ → Type 0
All p [] = Unit {0}
All p (x ∷ xs) = (p x ≡ true) × All p xs

pub All-append : (p : ℕ → Bool) (xs ys : List ℕ) → All p xs → All p ys → All p (xs ++ ys)
All-append p [] ys h k = k
All-append p (x ∷ xs) ys h k = (h.0, All-append p xs ys h.1 k)

pub All-weaken :
    (p q : ℕ → Bool) (xs : List ℕ) → ((x : ℕ) → p x ≡ true → q x ≡ true) → All p xs → All q xs
All-weaken p q [] f h = tt
All-weaken p q (x ∷ xs) f h = (f x h.0, All-weaken p q xs f h.1)

-- The byte before the place after `xs`.
abbrev pub last_of : ℕ → List ℕ → ℕ
last_of before [] = before
last_of before (x ∷ xs) = last_of x xs

cursor_eq :
    {i j before : ℕ} {rest : List ℕ}
    → i ≡ j
    → Path Cursor
        (record { i = i; before = before; rest = rest })
        (record { i = j; before = before; rest = rest })
cursor_eq {before = b} {rest = r} e = ap (λ n. record { i = n; before = b; rest = r }) e

false_of_not : (b : Bool) → not b ≡ true → b ≡ false
false_of_not true h = ground arith
false_of_not false h = refl

pub skip_to-append :
    (stop : ℕ → Bool) (i before : ℕ) (xs : List ℕ) (y : ℕ) (ys : List ℕ)
    → All (λ x. not (stop x)) xs
    → stop y ≡ true
    → skip_to stop i before (xs ++ (y ∷ ys))
      ≡ record { i = i + length xs; before = last_of before xs; rest = y ∷ ys }
unfolding skip_to
skip_to-append stop i before [] y ys h k = rw k (cursor_eq (omega arith))
skip_to-append stop i before (x ∷ xs) y ys h k =
    rw (false_of_not (stop x) h.0)
      (skip_to-append stop (suc i) x xs y ys h.1 k ∙ cursor_eq (omega arith))

pub strncmp_same-append :
    (n : ℕ) (xs ys : List ℕ) → length xs ≡ n → strncmp_same n (xs ++ ys) xs ≡ true
unfolding strncmp_same
strncmp_same-append zero xs ys e = refl
strncmp_same-append (suc n) [] ys e = absurd (omega (arith, e))
strncmp_same-append (suc n) (x ∷ xs) ys e =
    ground (arith, strncmp_same-append n xs ys (omega (arith, e)))

pub strncmp_same-prefix :
    (n : ℕ) (xs ys : List ℕ) → length xs ≡ n → strncmp_same n xs (xs ++ ys) ≡ true
unfolding strncmp_same
strncmp_same-prefix zero xs ys e = refl
strncmp_same-prefix (suc n) [] ys e = absurd (omega (arith, e))
strncmp_same-prefix (suc n) (x ∷ xs) ys e =
    ground (arith, strncmp_same-prefix n xs ys (omega (arith, e)))

line_eq :
    {start end a b c d : ℕ}
    → a ≡ b
    → c ≡ d
    → Path
        (Option Line)
        (some (record { key_s = start; key_e = a; value_s = c; value_e = end }))
        (some (record { key_s = start; key_e = b; value_s = d; value_e = end }))
line_eq {start} {end} {a} {b} {c} {d} p q =
    ap (λ n. some (record { key_s = start; key_e = n; value_s = c; value_e = end })) p
    ∙ ap (λ n. some (record { key_s = start; key_e = b; value_s = n; value_e = end })) q

further-eq :
    (a b c d : Bool) (found further : Option Line)
    → a ≡ true
    → b ≡ true
    → c ≡ false
    → (if a && b then if c && d then found else further else none) ≡ further
further-eq a b c d found further p q r = rw (p, q, r) refl

-- The name before the first `=`, which is not empty.
pub scan_line-append :
    (key : List ℕ) (start : ℕ) (text : List ℕ) (end j : ℕ) (x : ℕ) (xs zs : List ℕ)
    → All (λ x. not (x == equals_sign)) (x ∷ xs)
    → strncmp_same (suc j + length xs - start) key text ≡ true
    → suc j + length xs ≤ end
    → scan_line key start text end j ((x ∷ xs) ++ (equals_sign ∷ zs))
      ≡ some (record {
        key_s = start;
        key_e = j + length xs;
        value_s = suc (suc j) + length xs;
        value_e = end;
      })
unfolding scan_line
scan_line-append key start text end j x [] zs h m l =
    rw
      (
        lt→ltb j end (omega (arith, l)),
        h.0,
        sym (
              ap (λ n. strncmp_same n key text) {x = suc j + 0 - start} {y = suc j - start}
                (omega arith))
            ∙ m,
      )
      (line_eq (omega arith) (omega arith))
scan_line-append key start text end j x (y ∷ ys) zs h m l =
    further-eq (ltb j end) (not (x == equals_sign)) (y == equals_sign) _ _ _
      (lt→ltb j end (omega (arith, l))) h.0 (false_of_not (y == equals_sign) h.1.0)
    ∙ scan_line-append key start text end (suc j) y ys zs h.1
        (sym (
            ap (λ n. strncmp_same n key text) {x = suc j + suc (length ys) - start}
              {y = suc (suc j) + length ys - start} (omega arith))
          ∙ m)
        (omega (arith, l))
    ∙ line_eq (omega arith) (omega arith)

pub up_to_eof-All : (xs : List ℕ) → All (λ x. not (x == 0xff)) xs → up_to_eof xs ≡ xs
up_to_eof-All [] h = refl
up_to_eof-All (x ∷ xs) h =
    rw (false_of_not (x == 0xff) h.0) (ap (λ ys. x ∷ ys) (up_to_eof-All xs h.1))
