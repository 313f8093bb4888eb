-- ===== src/Window/Stack/Numbers.antt =====
-- The table of priorities as a list: `from lo k` is lo, lo + 1, …, lo + k - 1.
use server_communication.Prelude.{
  ℕ, zero, suc, ◌+◌, ◌^◌, ◌<◌, ◌≡◌, refl, sym, ap, ◌∙◌, List, [], ◌∷◌, ◌++◌, some, arith, length,
}
use server_communication.Window.{insert_sorted, sort, back, pop_back, new_priority}

unfoldable pub from : ℕ → ℕ → List ℕ
from lo zero = []
from lo (suc k) = lo ∷ from (suc lo) k

pub from-append_next : (lo k : ℕ) → from lo k ++ ((lo + k) ∷ []) ≡ from lo (suc k)
unfolding from
from-append_next lo zero = ap (λ x. x ∷ []) (omega arith)
from-append_next lo (suc k) =
    ap (λ xs. lo ∷ xs)
      (rw (← from-append_next (suc lo) k) (ap (λ x. from (suc lo) k ++ (x ∷ [])) (omega arith)))

insert_sorted-from : (lo k : ℕ) → insert_sorted lo (from (suc lo) k) ≡ lo ∷ from (suc lo) k
unfolding from insert_sorted
insert_sorted-from lo zero = refl
insert_sorted-from lo (suc k) = ground arith

pub sort-from : (lo k : ℕ) → sort (from lo k) ≡ from lo k
unfolding from sort
sort-from lo zero = refl
sort-from lo (suc k) = rw (sort-from (suc lo) k) (insert_sorted-from lo k)

pub back-from : (lo k : ℕ) → back (from lo (suc k)) ≡ some (lo + k)
unfolding from back
back-from lo zero = ap some (omega arith)
back-from lo (suc k) = back-from (suc lo) k ∙ ap some (omega arith)

pub pop_back-from : (lo k : ℕ) → pop_back (from lo (suc k)) ≡ from lo k
unfolding from pop_back
pop_back-from lo zero = refl
pop_back-from lo (suc k) = ap (λ xs. lo ∷ xs) (pop_back-from (suc lo) k)

pub new_priority-from : (k : ℕ) → k < 2 ^ 32 → new_priority (from 0 k) ≡ k
unfolding from back
new_priority-from zero b = refl
new_priority-from (suc k) b = rw (back-from 0 k) (omega arith)

pub from_empty : (lo k : ℕ) → [] ≡ from lo k → k ≡ 0
unfolding from
from_empty lo zero e = refl
from_empty lo (suc k) e = ground (arith, e)

pub length-from : (lo k : ℕ) → length (from lo k) ≡ k
unfolding from
length-from lo zero = refl
length-from lo (suc k) = ap suc (length-from (suc lo) k)

pub from_injective : (lo k j : ℕ) → from lo k ≡ from lo j → k ≡ j
from_injective lo k j e = sym (length-from lo k) ∙ (ap length e ∙ length-from lo j)
