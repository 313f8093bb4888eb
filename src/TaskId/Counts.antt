-- ===== src/TaskId/Counts.antt =====
-- How many ids of a pool are in use, against the counters of `_mOutCodecTaskIDBeUsed`.
use server_communication.Prelude.{
  ℕ, ◌+◌, ◌≤◌, ◌≡◌, refl, true, false, List, [], ◌∷◌, ◌++◌, none, some, arith, if◌then◌else◌,
  length, contains, erase_first, same_list, Distinct, contains-append, contains-erase_first_ne,
  contains-erase_first_self, same_list→eq, same_list_refl,
}
use server_communication.TaskId.{count_of, set_count, find_free}

unfoldable pub used_in : List ℕ → List ℕ → ℕ
used_in [] used = 0
used_in (x ∷ xs) used = (if contains used x then 1 else 0) + used_in xs used

pub used_in-le-length : (pool used : List ℕ) → used_in pool used ≤ length pool
unfolding used_in
used_in-le-length [] used = omega arith
used_in-le-length (x ∷ xs) used = ground (arith, used_in-le-length xs used)

-- The search fails only where the whole pool is in use.
pub find_free-none :
    (pool used : List ℕ) → find_free pool used ≡ none → used_in pool used ≡ length pool
unfolding used_in find_free
find_free-none [] used h = refl
find_free-none (x ∷ xs) used h = ground (arith, find_free-none xs used)

pub find_free-some :
    (pool used : List ℕ) (id : ℕ)
    → find_free pool used ≡ some id
    → (contains pool id ≡ true) × (contains used id ≡ false)
unfolding find_free
find_free-some [] used id h = ground arith
find_free-some (x ∷ xs) used id h = ground (arith, find_free-some xs used id)

pub used_in-append_other :
    (pool used : List ℕ) (id : ℕ)
    → contains pool id ≡ false
    → used_in pool (used ++ (id ∷ [])) ≡ used_in pool used
unfolding used_in
used_in-append_other [] used id h = refl
used_in-append_other (x ∷ xs) used id h =
    ground (arith, contains-append used (id ∷ []) x, used_in-append_other xs used id)

pub used_in-append_self :
    (pool used : List ℕ) (id : ℕ)
    → Distinct pool
    → contains pool id ≡ true
    → contains used id ≡ false
    → used_in pool (used ++ (id ∷ [])) ≡ used_in pool used + 1
unfolding used_in
used_in-append_self [] used id d h f = ground arith
used_in-append_self (x ∷ xs) used id d h f = ground (
  arith,
  contains-append used (id ∷ []) x,
  used_in-append_other xs used id,
  used_in-append_self xs used id d.1,
)

pub used_in-erase_other :
    (pool used : List ℕ) (id : ℕ)
    → contains pool id ≡ false
    → used_in pool (erase_first used id) ≡ used_in pool used
unfolding used_in
used_in-erase_other [] used id h = refl
used_in-erase_other (x ∷ xs) used id h =
    ground (arith, contains-erase_first_ne used id x, used_in-erase_other xs used id)

pub used_in-erase_self :
    (pool used : List ℕ) (id : ℕ)
    → Distinct pool
    → Distinct used
    → contains pool id ≡ true
    → contains used id ≡ true
    → used_in pool (erase_first used id) + 1 ≡ used_in pool used
unfolding used_in
used_in-erase_self [] used id d du h f = ground arith
used_in-erase_self (x ∷ xs) used id d du h f = ground (
  arith,
  contains-erase_first_ne used id x,
  contains-erase_first_self used id du,
  used_in-erase_other xs used id,
  used_in-erase_self xs used id d.1 du,
)

pub count_of-set_count :
    (m : List (List ℕ × ℕ)) (p q : List ℕ) (n : ℕ)
    → count_of (set_count m p n) q ≡ (if same_list p q then n else count_of m q)
unfolding count_of set_count
count_of-set_count [] p q n = refl
count_of-set_count ((r, k) ∷ m) p q n = ground (
  arith,
  count_of-set_count m p q n,
  same_list→eq r p,
  same_list→eq r q,
  same_list→eq p q,
  same_list_refl p,
  same_list_refl q,
  same_list_refl r,
)
