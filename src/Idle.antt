-- ===== src/Idle.antt =====
-- src/ServerHandle.cpp and src/BaseServerHandle.cpp: the list of connections in the order of their last
-- message, and the timer that ends the idle ones. Times are microseconds.
pub mod Sorted
mod Tests
use server_communication.Prelude.{
  ℕ, ◌+◌, ◌-◌, ◌*◌, ◌≤◌, ◌≡◌, Bool, true, false, List, [], ◌∷◌, ◌++◌, ltb, ◌==◌, if◌then◌else◌,
}

-- An entry of `connectionList_` with the `Node` in the context of its connection: whether the
-- connection is still there and connected, and `lastReceiveTime`.
pub record Entry : Type 0 where
  pub conn : ℕ
  pub alive : Bool
  pub connected : Bool
  pub last : ℕ

-- The first branch of `onConnection`, at a time `now`.
unfoldable pub on_up : ℕ → ℕ → List Entry → List Entry
on_up conn now l = l ++ (record { conn = conn; alive = true; connected = true; last = now } ∷ [])

-- `connectionList_.erase(node.position)`
unfoldable pub on_down : ℕ → List Entry → List Entry
on_down conn [] = []
on_down conn (e ∷ l) = if e.conn == conn then l else e ∷ on_down conn l

-- The entry of a connection with a new time, for the end of the list.
pub moved : ℕ → ℕ → List Entry → List Entry
moved conn time [] = []
moved conn time (e ∷ l) =
    if e.conn == conn then record e { last = time } ∷ [] else moved conn time l

-- The end of `onMessage`: the new time, and `splice` to the end of the list.
unfoldable pub on_receive : ℕ → ℕ → List Entry → List Entry
unfolding on_down moved
on_receive conn time l = on_down conn l ++ moved conn time l

-- The object of a connection is destroyed, or it is no longer connected: not by the list itself.
unfoldable pub on_lost : ℕ → Bool → List Entry → List Entry
on_lost conn alive [] = []
on_lost conn alive (e ∷ l) =
    if e.conn == conn
    then record e { alive = alive; connected = false } ∷ l
    else e ∷ on_lost conn alive l

-- `age > _idleSeconds`
abbrev pub is_idle : ℕ → ℕ → Entry → Bool
is_idle seconds now e = ltb (e.last + seconds * 1000000) now

-- `onTimer`: the list after it, and the connections that are shut down.
unfoldable pub on_timer : ℕ → ℕ → List Entry → List Entry × List ℕ
on_timer seconds now [] = ([], [])
on_timer seconds now (e ∷ l) =
    let further = on_timer seconds now l in
    if e.alive
    then if is_idle seconds now e
      then (e ∷ further.0, if e.connected then e.conn ∷ further.1 else further.1)
      else if ltb now e.last
      then (record e { last = now } ∷ further.0, further.1)
      else (e ∷ l, [])
    else further

-- The events on the thread of the loop, each at a time that is not before that of the event before.
pub data Reach (seconds : ℕ) : ℕ → List Entry → Type 0 where
  start : Reach seconds 0 []
  up :
      {now : ℕ} {l : List Entry} (conn time : ℕ)
      → Reach seconds now l
      → now ≤ time
      → Reach seconds time (on_up conn time l)
  down :
      {now : ℕ} {l : List Entry} (conn : ℕ)
      → Reach seconds now l
      → Reach seconds now (on_down conn l)
  receive :
      {now : ℕ} {l : List Entry} (conn time : ℕ)
      → Reach seconds now l
      → now ≤ time
      → Reach seconds time (on_receive conn time l)
  lost :
      {now : ℕ} {l : List Entry} (conn : ℕ) (alive : Bool)
      → Reach seconds now l
      → Reach seconds now (on_lost conn alive l)
  tick :
      {now : ℕ} {l : List Entry} (time : ℕ)
      → Reach seconds now l
      → now ≤ time
      → Reach seconds time (on_timer seconds time l).0
