-- ===== src/Idle/Sorted.antt =====
-- src/ServerHandle.cpp and src/BaseServerHandle.cpp: the order of the connections, and what the timer ends.
use server_communication.Prelude.{
  ℕ, ◌+◌, ◌*◌, ◌≤◌, ◌≡◌, refl, Bool, ◌&&◌, List, [], ◌∷◌, ◌++◌, arith, ◌==◌, if◌then◌else◌,
  append_nil, Bool-cases, inl, inr,
}
use server_communication.Idle.{
  Entry, on_up, on_down, moved, on_receive, on_lost, is_idle, on_timer, Reach,
}

-- The times do not decrease from `low` on, and are at most `high`.
abbrev pub IsSorted : ℕ → ℕ → List Entry → Type 0
IsSorted low high [] = Unit {0}
IsSorted low high (e ∷ l) = (low ≤ e.last) × (e.last ≤ high) × IsSorted e.last high l

-- The connections that a look at every entry finds idle.
abbrev pub idle_ones : ℕ → ℕ → List Entry → List ℕ
idle_ones seconds now [] = []
idle_ones seconds now (e ∷ l) =
    let further = idle_ones seconds now l in
    if e.alive && e.connected && is_idle seconds now e then e.conn ∷ further else further

IsSorted-low :
    (low low' high : ℕ) (l : List Entry) → low' ≤ low → IsSorted low high l → IsSorted low' high l
IsSorted-low low low' high [] h s = tt
IsSorted-low low low' high (e ∷ l) h s = (omega (arith, h, s.0), s.1, s.2)

IsSorted-high :
    (low high high' : ℕ) (l : List Entry)
    → high ≤ high'
    → IsSorted low high l
    → IsSorted low high' l
IsSorted-high low high high' [] h s = tt
IsSorted-high low high high' (e ∷ l) h s =
    (s.0, omega (arith, h, s.1), IsSorted-high e.last high high' l h s.2)

on_down-IsSorted :
    (conn low high : ℕ) (l : List Entry) → IsSorted low high l → IsSorted low high (on_down conn l)
unfolding on_down
on_down-IsSorted conn low high [] s = tt
on_down-IsSorted conn low high (e ∷ l) s = elim (Bool-cases (e.conn == conn)) [
  | inl c ↦ rw c (IsSorted-low e.last low high l s.0 s.2)
  | inr c ↦ rw c (s.0, s.1, on_down-IsSorted conn e.last high l s.2)
]

-- An entry with the latest time at the end.
append-IsSorted :
    (low high : ℕ) (l : List Entry) (e : Entry)
    → low ≤ high
    → e.last ≡ high
    → IsSorted low high l
    → IsSorted low high (l ++ (e ∷ []))
append-IsSorted low high [] e h q s = (omega (arith, h, q), omega (arith, q), tt)
append-IsSorted low high (d ∷ l) e h q s = (s.0, s.1, append-IsSorted d.last high l e s.1 q s.2)

on_lost-IsSorted :
    (conn low high : ℕ) (alive : Bool) (l : List Entry)
    → IsSorted low high l
    → IsSorted low high (on_lost conn alive l)
unfolding on_lost
on_lost-IsSorted conn low high alive [] s = tt
on_lost-IsSorted conn low high alive (e ∷ l) s = elim (Bool-cases (e.conn == conn)) [
  | inl c ↦ rw c s
  | inr c ↦ rw c (s.0, s.1, on_lost-IsSorted conn e.last high alive l s.2)
]

append-moved :
    (conn low high : ℕ) (xs l : List Entry)
    → low ≤ high
    → IsSorted low high xs
    → IsSorted low high (xs ++ moved conn high l)
unfolding moved
append-moved conn low high xs [] h s = rw (append_nil xs) s
append-moved conn low high xs (e ∷ l) h s = elim (Bool-cases (e.conn == conn)) [
  | inl c ↦ rw c (append-IsSorted low high xs (record e { last = high }) h refl s)
  | inr c ↦ rw c (append-moved conn low high xs l h s)
]

on_receive-IsSorted :
    (conn low high : ℕ) (l : List Entry)
    → low ≤ high
    → IsSorted low high l
    → IsSorted low high (on_receive conn high l)
unfolding on_receive
on_receive-IsSorted conn low high l h s =
    append-moved conn low high (on_down conn l) l h (on_down-IsSorted conn low high l s)

-- Where no time lies ahead, the timer only takes entries out.
on_timer-IsSorted :
    (seconds low now : ℕ) (l : List Entry)
    → IsSorted low now l
    → IsSorted low now (on_timer seconds now l).0
unfolding on_timer
on_timer-IsSorted seconds low now [] s = tt
on_timer-IsSorted seconds low now (e ∷ l) s = ground (
  arith,
  on_timer-IsSorted seconds e.last now l,
  IsSorted-low e.last low now (on_timer seconds now l).0,
)

Reach-IsSorted : {seconds now : ℕ} {l : List Entry} → Reach seconds now l → IsSorted 0 now l
unfolding on_up
Reach-IsSorted Reach.start = tt
Reach-IsSorted (Reach.up {now} {l} conn time r h) =
    append-IsSorted 0 time l _ (omega arith) refl (IsSorted-high 0 now time l h (Reach-IsSorted r))
Reach-IsSorted (Reach.down {now} {l} conn r) = on_down-IsSorted conn 0 now l (Reach-IsSorted r)
Reach-IsSorted (Reach.receive {now} {l} conn time r h) =
    on_receive-IsSorted conn 0 time l (omega arith)
      (IsSorted-high 0 now time l h (Reach-IsSorted r))
Reach-IsSorted (Reach.lost {now} {l} conn alive r) =
    on_lost-IsSorted conn 0 now alive l (Reach-IsSorted r)
Reach-IsSorted {seconds} (Reach.tick {now} {l} time r h) =
    on_timer-IsSorted seconds 0 time l (IsSorted-high 0 now time l h (Reach-IsSorted r))

idle_ones-none :
    (seconds now low high : ℕ) (l : List Entry)
    → IsSorted low high l
    → now ≤ low + seconds * 1000000
    → idle_ones seconds now l ≡ []
idle_ones-none seconds now low high [] s h = refl
idle_ones-none seconds now low high (e ∷ l) s h =
    ground (arith, idle_ones-none seconds now e.last high l s.2)

on_timer-idle_ones :
    (seconds now low : ℕ) (l : List Entry)
    → IsSorted low now l
    → (on_timer seconds now l).1 ≡ idle_ones seconds now l
unfolding on_timer
on_timer-idle_ones seconds now low [] s = refl
on_timer-idle_ones seconds now low (e ∷ l) s = ground (
  arith,
  on_timer-idle_ones seconds now e.last l s.2,
  idle_ones-none seconds now e.last now l s.2,
)

-- Whatever connections came, sent or went before, at times that do not decrease, a tick of the timer
-- at a time that is not earlier shuts down exactly the live and connected ones whose last message is
-- longer ago than the limit, although it stops at the first that is not idle.
pub Reach-idle_ones :
    {now : ℕ} {l : List Entry} (seconds time : ℕ)
    → Reach seconds now l
    → now ≤ time
    → (on_timer seconds time l).1 ≡ idle_ones seconds time l
Reach-idle_ones {now} {l} seconds time r h =
    on_timer-idle_ones seconds time 0 l (IsSorted-high 0 now time l h (Reach-IsSorted r))
