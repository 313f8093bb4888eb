-- ===== src/Idle/Tests.antt =====
-- A run of the list of connections, and an instance of the theorem.
use server_communication.Prelude.{ℕ, ◌*◌, ◌≡◌, refl, List, [], ◌∷◌, arith}
use server_communication.Idle.{Entry, Reach, on_up, on_receive, on_timer}
use server_communication.Idle.Sorted.{idle_ones, Reach-idle_ones}

abbrev second : ℕ
second = 1000000

-- Two connections come, and the first sends a message after the second came.
two_connections : List Entry
unfolding on_up on_receive
two_connections = on_receive 1 (3 * second) (on_up 2 (2 * second) (on_up 1 second []))

two_connections-Reach : Reach 5 (3 * second) two_connections
unfolding two_connections
two_connections-Reach =
    Reach.receive 1 (3 * second)
      (Reach.up 2 (2 * second) (Reach.up 1 second Reach.start (ground arith)) (ground arith))
      (ground arith)

-- At 7.5 seconds only the second is idle.
run_tick : (on_timer 5 7500000 two_connections).1 ≡ 2 ∷ []
unfolding on_timer two_connections
run_tick = refl

Reach-idle_ones_example :
    (on_timer 5 7500000 two_connections).1 ≡ idle_ones 5 7500000 two_connections
Reach-idle_ones_example = Reach-idle_ones 5 7500000 two_connections-Reach (ground arith)
