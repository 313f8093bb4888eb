-- ===== src/Codec/Tries.antt =====
-- src/UnixSockClientData.cpp: the tries to connect.
use server_communication.Prelude.{
  ℕ, zero, suc, ◌+◌, ◌≤◌, ◌≡◌, refl, Bool, true, false, List, [], ◌∷◌, ◌++◌, arith,
}
use server_communication.Codec.{ConnectAnswer, Act, connect_loop}

-- The answers that end the tries.
abbrev pub joins : ConnectAnswer → Bool
joins ConnectAnswer.connected = true
joins ConnectAnswer.is_connected = true
joins ConnectAnswer.interrupted = false
joins ConnectAnswer.refused = false
joins ConnectAnswer.odd = false

-- One of the first so many answers, from `k` on, ends them.
abbrev pub any_joins : (ℕ → ConnectAnswer) → ℕ → ℕ → Bool
any_joins answer zero k = false
any_joins answer (suc n) k =
    let rest = any_joins answer n (suc k) in elim (joins (answer k)) [ true ↦ true | false ↦ rest ]

pub connect_loop-any_joins :
    (answer : ℕ → ConnectAnswer) (n k : ℕ)
    → (connect_loop answer (suc n) k).0 ≡ any_joins answer n k
unfolding connect_loop
connect_loop-any_joins answer zero k = refl
connect_loop-any_joins answer (suc n) k = ground (arith, connect_loop-any_joins answer n (suc k))

-- The calls of a kind.
abbrev pub calls : (Act → Bool) → List Act → ℕ
calls p [] = 0
calls p (a ∷ xs) = elim (p a) [ true ↦ suc (calls p xs) | false ↦ calls p xs ]

abbrev pub is_connect : Act → Bool
is_connect Act.connect_call = true
is_connect _ = false

abbrev pub is_send : Act → Bool
is_send Act.send_call = true
is_send _ = false

abbrev pub is_recv : Act → Bool
is_recv Act.recv_call = true
is_recv _ = false

abbrev pub is_close : Act → Bool
is_close Act.close_call = true
is_close _ = false

pub calls-append :
    (p : Act → Bool) (xs ys : List Act) → calls p (xs ++ ys) ≡ calls p xs + calls p ys
calls-append p [] ys = omega arith
calls-append p (a ∷ xs) ys = ground (arith, calls-append p xs ys)

-- The connecting makes no other call than to connect and to sleep, at most so many to connect.
pub connect_loop-calls :
    (answer : ℕ → ConnectAnswer) (n k : ℕ)
    → (calls is_connect (connect_loop answer (suc n) k).1 ≤ n)
      × (calls is_send (connect_loop answer (suc n) k).1 ≡ 0)
      × (calls is_recv (connect_loop answer (suc n) k).1 ≡ 0)
      × (calls is_close (connect_loop answer (suc n) k).1 ≡ 0)
unfolding connect_loop
connect_loop-calls answer zero k = ground arith
connect_loop-calls answer (suc n) k = ground (arith, connect_loop-calls answer n (suc k))
