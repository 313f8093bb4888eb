-- ===== src/Queue.antt =====
-- src/CircleBoundedQueue.h: the bounded queue between the driver's callback, which puts, and the threads
-- that take. `boost::circular_buffer` is a parameter; a step is what a thread does while it has the
-- mutex, and the threads that wait for `notEmpty_` are counted.
pub mod Wakeup
pub mod Order
mod Tests
use server_communication.Prelude.{
  ℕ, zero, suc, ◌+◌, ◌-◌, ◌≤◌, ◌<◌, ◌≡◌, Bool, true, false, not, Option, none, some, List, [], ◌∷◌,
  ◌++◌, length, drop, ltb, ◌==◌, if◌then◌else◌,
}

-- The members of `boost::circular_buffer<A>` that the queue calls; `view` is the sequence of its
-- entries, from the front on.
pub record CircularBuffer (A : Type 0) : Type 1 where
  pub Buffer : Type 0
  pub push_back : Buffer → A → Buffer
  pub pop_front : Buffer → Buffer
  pub front : Buffer → Option A
  pub empty : Buffer → Bool
  pub full : Buffer → Bool
  pub size : Buffer → ℕ
  pub capacity : Buffer → ℕ
  pub view : Buffer → List A

-- What its documentation says of them: a full buffer drops its front when it takes another entry.
pub record IsCircularBuffer {A : Type 0} (B : CircularBuffer A) : Type 0 where
  pub view-push_back :
      (b : B.Buffer) (x : A)
      → B.view (B.push_back b x)
        ≡ drop (suc (length (B.view b)) - B.capacity b) (B.view b ++ (x ∷ []))
  pub capacity-push_back : (b : B.Buffer) (x : A) → B.capacity (B.push_back b x) ≡ B.capacity b
  pub view-pop_front : (b : B.Buffer) → B.view (B.pop_front b) ≡ drop 1 (B.view b)
  pub capacity-pop_front : (b : B.Buffer) → B.capacity (B.pop_front b) ≡ B.capacity b
  pub front-view : (b : B.Buffer) (x : A) (xs : List A) → B.view b ≡ x ∷ xs → B.front b ≡ some x
  pub empty-view : (b : B.Buffer) → B.empty b ≡ (length (B.view b) == 0)
  pub full-view : (b : B.Buffer) → B.full b ≡ (length (B.view b) == B.capacity b)
  pub size-view : (b : B.Buffer) → B.size b ≡ length (B.view b)

module _ {A : Type 0} (B : CircularBuffer A) where
  -- The queue, the takers that wait and those that will have the mutex next, and two histories: what
  -- was put, and what `take` returned.
  pub record Queue : Type 0 where
    pub buffer : B.Buffer
    pub sleeping : ℕ
    pub running : ℕ
    pub puts : List A
    pub taken : List A

  -- `notEmpty_.notify()`: one of those that wait runs again, if there is one.
  pub notify : Queue → Queue
  notify q = elim q.sleeping [
    | zero ↦ q
    | suc n ↦ record q { sleeping = n; running = suc q.running }
  ]

  -- `put`
  unfoldable pub put : Queue → A → Queue
  unfolding notify
  put q x =
      let q' = record q { buffer = B.push_back q.buffer x; puts = q.puts ++ (x ∷ []) } in
      if not (B.full q'.buffer) then notify q' else q'

  -- What `take` returned, if anything.
  abbrev pub returned : Option A → List A
  returned none = []
  returned (some x) = x ∷ []

  -- A turn of `while (queue_.empty())` of `take`, by a taker that has the mutex: it waits, or it
  -- leaves the loop, pops the front and returns it. Nobody waits for `notFull_`.
  unfoldable pub take : Queue → Queue
  take q =
      if B.empty q.buffer
      then record q { sleeping = suc q.sleeping; running = q.running - 1 }
      else record q {
        buffer = B.pop_front q.buffer;
        running = q.running - 1;
        taken = q.taken ++ returned (B.front q.buffer);
      }

  -- What can happen next, with at most `n` takers: a put; another taker calls `take`; one that runs
  -- gets the mutex; one that waits wakes up by itself, which the condition variable may do.
  pub data Step (n : ℕ) (q : Queue) (r : Queue) : Type 0 where
    putting : (x : A) → r ≡ put q x → Step n q r
    calling : q.sleeping + q.running < n → r ≡ record q { running = suc q.running } → Step n q r
    turning : 0 < q.running → r ≡ take q → Step n q r
    waking :
        (m : ℕ)
        → q.sleeping ≡ suc m
        → r ≡ record q { sleeping = m; running = suc q.running }
        → Step n q r

  -- `CircleBoundedQueue(maxSize)`, over a fresh buffer.
  abbrev pub start : B.Buffer → Queue
  start b = record { buffer = b; sleeping = 0; running = 0; puts = []; taken = [] }

  pub data Reach (n : ℕ) (q : Queue) : Queue → Type 0 where
    here : Reach n q q
    next : {r s : Queue} → Reach n q r → Step n r s → Reach n q s
