-- ===== src/Prelude/Lists.antt =====
-- Lists measured by native numbers, and vectors of numbers: membership, the search and the
-- erasure of the standard library's `find` and `erase`, and the comparison of vectors.
use Prim.Native.Nat.{ℕ, zero, suc, ◌+◌}
use mathlib.Core.Path.{◌≡◌, refl}
use mathlib.Core.Logic.{◌≢◌}
use mathlib.Core.Bool.{Bool, true, false, ◌&&◌, ◌||◌}
use mathlib.Core.List.{List, [], ◌∷◌, ◌++◌}
use native.Mathlib.Omega.{arith}
use server_communication.Prelude.Tests.{◌==◌, if◌then◌else◌}

module _ {ℓ} {A : Type ℓ} where
  abbrev pub length : List A → ℕ
  length [] = 0
  length (x ∷ xs) = suc (length xs)

  pub length-append : (xs ys : List A) → length (xs ++ ys) ≡ length xs + length ys
  length-append [] ys = omega arith
  length-append (x ∷ xs) ys = omega (arith, length-append xs ys)

  abbrev pub take : ℕ → List A → List A
  take zero xs = []
  take (suc n) [] = []
  take (suc n) (x ∷ xs) = x ∷ take n xs

  abbrev pub drop : ℕ → List A → List A
  drop zero xs = xs
  drop (suc n) [] = []
  drop (suc n) (x ∷ xs) = drop n xs

-- `std::find(v.begin(), v.end(), a) != v.end()`
abbrev pub contains : List ℕ → ℕ → Bool
contains [] a = false
contains (x ∷ xs) a = x == a || contains xs a

-- `v.erase(std::find(v.begin(), v.end(), a))`: the first entry goes.
abbrev pub erase_first : List ℕ → ℕ → List ℕ
erase_first [] a = []
erase_first (x ∷ xs) a = if x == a then xs else x ∷ erase_first xs a

-- `operator ==` of vectors.
abbrev pub same_list : List ℕ → List ℕ → Bool
same_list [] [] = true
same_list [] (y ∷ ys) = false
same_list (x ∷ xs) [] = false
same_list (x ∷ xs) (y ∷ ys) = x == y && same_list xs ys

pub same_list→eq : (xs ys : List ℕ) → same_list xs ys ≡ true → xs ≡ ys
same_list→eq [] [] h = refl
same_list→eq [] (y ∷ ys) h = ground arith
same_list→eq (x ∷ xs) [] h = ground arith
same_list→eq (x ∷ xs) (y ∷ ys) h = ground (arith, same_list→eq xs ys)

pub same_list_refl : (xs : List ℕ) → same_list xs xs ≡ true
same_list_refl [] = refl
same_list_refl (x ∷ xs) = ground (arith, same_list_refl xs)

-- No entry occurs twice.
abbrev pub Distinct : List ℕ → Type 0
Distinct [] = Unit {0}
Distinct (x ∷ xs) = (contains xs x ≡ false) × Distinct xs

pub contains-append :
    (xs ys : List ℕ) (a : ℕ) → contains (xs ++ ys) a ≡ (contains xs a || contains ys a)
contains-append [] ys a = refl
contains-append (x ∷ xs) ys a = ground (arith, contains-append xs ys a)

pub Distinct-append_one :
    (xs : List ℕ) (a : ℕ) → Distinct xs → contains xs a ≡ false → Distinct (xs ++ (a ∷ []))
Distinct-append_one [] a d h = (refl, tt)
Distinct-append_one (x ∷ xs) a d h =
    (ground (arith, contains-append xs (a ∷ []) x), Distinct-append_one xs a d.1 (ground arith))

pub erase_first-append_self :
    (xs : List ℕ) (a : ℕ) → contains xs a ≡ false → erase_first (xs ++ (a ∷ [])) a ≡ xs
erase_first-append_self [] a h = ground arith
erase_first-append_self (x ∷ xs) a h = ground (arith, erase_first-append_self xs a)

pub contains-erase_first_ne :
    (xs : List ℕ) (a b : ℕ) → b ≢ a → contains (erase_first xs a) b ≡ contains xs b
contains-erase_first_ne [] a b n = refl
contains-erase_first_ne (x ∷ xs) a b n = ground (arith, contains-erase_first_ne xs a b n)

pub contains-erase_first_self :
    (xs : List ℕ) (a : ℕ) → Distinct xs → contains (erase_first xs a) a ≡ false
contains-erase_first_self [] a d = refl
contains-erase_first_self (x ∷ xs) a d = ground (arith, contains-erase_first_self xs a d.1)

pub Distinct-erase_first : (xs : List ℕ) (a : ℕ) → Distinct xs → Distinct (erase_first xs a)
Distinct-erase_first [] a d = tt
Distinct-erase_first (x ∷ xs) a d =
    ground (arith, Distinct-erase_first xs a d.1, contains-erase_first_ne xs a x)
