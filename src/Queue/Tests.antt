-- ===== src/Queue/Tests.antt =====
-- The queue over a buffer that is a list, and instances of the theorems.
use server_communication.Prelude.{
  ℕ, suc, ◌-◌, ◌<◌, ◌≡◌, refl, Option, none, some, List, [], ◌∷◌, ◌++◌, length, drop, ◌==◌, arith,
}
use server_communication.Queue.{
  CircularBuffer, IsCircularBuffer, Queue, put, take, Step, Reach, start,
}
use server_communication.Queue.Wakeup.{Reach-take}
use server_communication.Queue.Order.{IsOrdered, Reach-IsOrdered}

abbrev first : List ℕ → Option ℕ
first [] = none
first (x ∷ xs) = some x

abbrev list_buffer : CircularBuffer ℕ
list_buffer = record {
  Buffer = ℕ × List ℕ;
  push_back = λ b x. (b.0, drop (suc (length b.1) - b.0) (b.1 ++ (x ∷ [])));
  pop_front = λ b. (b.0, drop 1 b.1);
  front = λ b. first b.1;
  empty = λ b. length b.1 == 0;
  full = λ b. length b.1 == b.0;
  size = λ b. length b.1;
  capacity = λ b. b.0;
  view = λ b. b.1;
}

first-cons : (xs : List ℕ) (x : ℕ) (ys : List ℕ) → xs ≡ x ∷ ys → first xs ≡ some x
first-cons xs x ys e = rw e refl

list_buffer_laws : IsCircularBuffer list_buffer
list_buffer_laws = record {
  view-push_back = λ b x. refl;
  capacity-push_back = λ b x. refl;
  view-pop_front = λ b. refl;
  capacity-pop_front = λ b. refl;
  front-view = λ b x xs e. first-cons b.1 x xs e;
  empty-view = λ b. refl;
  full-view = λ b. refl;
  size-view = λ b. refl;
}

abbrev Q : Type 0
Q = Queue list_buffer

abbrev fresh : ℕ → Q
fresh cap = start list_buffer (cap, [])

abbrev waiting : ℕ → ℕ → Q → Q
waiting s r q = record q { sleeping = s; running = r }

-- A taker finds the queue empty and sleeps.
one_sleeps : (max n : ℕ) → 0 < n → Reach list_buffer n (fresh max) (waiting 1 0 (fresh max))
unfolding take
one_sleeps max n h =
    Reach.next {r = waiting 0 1 (fresh max)} (Reach.next Reach.here (Step.calling h refl))
      (Step.turning (ground arith) refl)

both_sleep : Reach list_buffer 2 (fresh 3) (waiting 2 0 (fresh 3))
unfolding take
both_sleep =
    Reach.next {r = waiting 1 1 (fresh 3)}
      (Reach.next (one_sleeps 3 2 (ground arith)) (Step.calling (ground arith) refl))
      (Step.turning (ground arith) refl)

one_entry : Q
one_entry = record { buffer = (3, 7 ∷ []); sleeping = 1; running = 1; puts = 7 ∷ []; taken = [] }

then_put : Reach list_buffer 2 (fresh 3) one_entry
unfolding one_entry put
then_put = Reach.next both_sleep (Step.putting 7 refl)

Reach-take_example :
    Step list_buffer 2 one_entry (take list_buffer one_entry)
    × ((take list_buffer one_entry).taken ≡ one_entry.taken ++ (7 ∷ []))
    × ((take list_buffer one_entry).buffer.1 ≡ [])
unfolding one_entry
Reach-take_example =
    Reach-take list_buffer list_buffer_laws 3 2 (ground arith) (3, []) one_entry 7 [] refl refl
      then_put (ground arith) refl

Reach-IsOrdered_example : IsOrdered list_buffer list_buffer_laws 3 2 one_entry
Reach-IsOrdered_example =
    Reach-IsOrdered list_buffer list_buffer_laws 3 2 (3, []) refl refl then_put

-- With a capacity of 1, the number of takers here, the entry that fills the queue wakes nobody.
asleep : Q
asleep = record { buffer = (1, 7 ∷ []); sleeping = 1; running = 0; puts = 7 ∷ []; taken = [] }

lost_wakeup : Reach list_buffer 1 (fresh 1) asleep
unfolding asleep put
lost_wakeup = Reach.next (one_sleeps 1 1 (ground arith)) (Step.putting 7 refl)
