-- ===== src/Codec.antt =====
-- src/UnixSockClientData.cpp: a message to the codec over its Unix socket: onlySendMsg and both
-- doSendCommand. What the operating system answers to `connect`, `select`, `send` and `recv` is a
-- parameter; `acts` lists the calls. An `int` is its pattern of 32 bits, so -1 is `minus_one`.
pub mod Ack
mod Tries
pub mod Delivery
pub mod Exchange
pub mod Packet
mod Reading
mod Tests
use server_communication.Prelude.{
  ℕ, zero, suc, Bool, true, false, Option, none, some, List, [], ◌∷◌, ◌++◌, length, ◌==◌,
  if◌then◌else◌,
}
use server_communication.ErrorCode.{
  communicate_abnormal, communicate_abnormal_timeout, communicate_connection, communicate_send,
  communicate_select,
}

-- `connect`: 0, -1 with EISCONN, -1 with EINTR, -1 with another error, another result.
pub data ConnectAnswer : Type 0 where
  connected : ConnectAnswer
  is_connected : ConnectAnswer
  interrupted : ConnectAnswer
  refused : ConnectAnswer
  odd : ConnectAnswer

-- `select` for writing: 0, negative, positive; in the last case `send` fails or takes some bytes.
pub data WriteAnswer : Type 0 where
  write_timeout : WriteAnswer
  write_failed : WriteAnswer
  send_failed : WriteAnswer
  sent : ℕ → WriteAnswer

-- `select` for reading: 0, negative, positive; in the last case `recv` fails or gives some bytes.
pub data ReadAnswer : Type 0 where
  read_timeout : ReadAnswer
  read_failed : ReadAnswer
  recv_failed : ReadAnswer
  received : List ℕ → ReadAnswer

-- The answers: to the tries to connect, to the one write, to the turns of the reading loop.
pub record Kernel : Type 0 where
  pub tries : ℕ → ConnectAnswer
  pub write : WriteAnswer
  pub reads : ℕ → ReadAnswer

pub data Act : Type 0 where
  connect_call : Act
  sleep_call : Act
  send_call : Act
  recv_call : Act
  close_call : Act

abbrev pub minus_one : ℕ
minus_one = 0xffffffff

-- What a function returns, and its calls on the socket.
pub record Done : Type 0 where
  pub code : ℕ
  pub acts : List Act

abbrev pub result_of : Option Done → Option ℕ
result_of none = none
result_of (some done) = some done.code

-- `SocketLayer::CloseSock(sock); return code;` after the calls `acts`.
abbrev pub close_and_return : List Act → ℕ → Done
close_and_return acts code = record { code = code; acts = acts ++ (close_call ∷ []) }

-- `while ((--retrycount) > 0)`: whether the socket is connected, and the calls. `k` tries were made.
pub connect_loop : (ℕ → ConnectAnswer) → ℕ → ℕ → Bool × List Act
connect_loop answer zero k = (false, [])
connect_loop answer (suc zero) k = (false, [])
connect_loop answer (suc (suc n)) k =
    let rest = connect_loop answer (suc n) (suc k) in
    elim (answer k) [
      | connected ↦ (true, connect_call ∷ [])
      | is_connected ↦ (true, connect_call ∷ [])
      | interrupted ↦ (rest.0, connect_call ∷ rest.1)
      | refused ↦ (rest.0, connect_call ∷ (sleep_call ∷ rest.1))
      | odd ↦ (rest.0, connect_call ∷ rest.1)
    ]

-- The write: an early return when `send` fails or takes nothing, and `wbytes` otherwise.
pub write_bytes : WriteAnswer → Option ℕ
write_bytes write_timeout = some 0
write_bytes write_failed = some 0
write_bytes send_failed = none
write_bytes (sent n) = if n == 0 then none else some n

abbrev pub write_acts : WriteAnswer → List Act
write_acts write_timeout = []
write_acts write_failed = []
write_acts send_failed = send_call ∷ []
write_acts (sent n) = send_call ∷ []

-- `onlySendMsg`
pub only_send_msg : Kernel → Done
unfolding connect_loop write_bytes
only_send_msg k =
    let (joined, acts) = connect_loop k.tries 30 0 in
    let acts' = acts ++ write_acts k.write in
    if joined
    then elim (write_bytes k.write) [
      | none ↦ close_and_return acts' communicate_send
      | some wbytes ↦ close_and_return acts' wbytes
    ]
    else close_and_return acts communicate_abnormal

-- `_cb`, which the object may have or not.
abbrev pub Callback : Type 0
Callback = Option (List ℕ → ℕ → ℕ)

-- After a `recv` that did not fail: `return _cb(_buffer, rbytes)`, or 0 without a callback; -1 when
-- the codec closed the connection.
abbrev pub answer_of : Callback → List ℕ → ℕ
answer_of cb [] = minus_one
answer_of none (x ∷ xs) = 0
answer_of (some f) (x ∷ xs) = f (x ∷ xs) (length (x ∷ xs))

-- A turn of the reading loop: what it returns, or `rest`, the further turns.
abbrev pub read_turn : Callback → List Act → Option Done → ReadAnswer → Option Done
read_turn cb acts rest ReadAnswer.read_timeout =
    some (close_and_return acts communicate_abnormal_timeout)
read_turn cb acts rest ReadAnswer.read_failed = some (close_and_return acts communicate_select)
read_turn cb acts rest ReadAnswer.recv_failed = rest
read_turn cb acts rest (ReadAnswer.received bytes) =
    some (close_and_return (acts ++ (recv_call ∷ [])) (answer_of cb bytes))

-- `while (1)` of the reading: none when the fuel is used up. `k` turns were made before.
pub read_loop : ℕ → (ℕ → ReadAnswer) → Callback → ℕ → List Act → Option Done
read_loop zero answer cb k acts = none
read_loop (suc fuel) answer cb k acts =
    read_turn cb acts (read_loop fuel answer cb (suc k) (acts ++ (recv_call ∷ []))) (answer k)

-- After the write: `wbytes != len` ends it, otherwise comes the reading.
abbrev pub after_write : ℕ → List Act → Option Done → Option ℕ → Option Done
after_write len acts reading none = some (close_and_return acts communicate_send)
after_write len acts reading (some wbytes) =
    if wbytes == len then reading else some (close_and_return acts communicate_send)

-- The body that both `doSendCommand` have, with the number that `retrycount` starts with.
pub exchange : ℕ → ℕ → Kernel → Callback → ℕ → Option Done
unfolding connect_loop write_bytes read_loop
exchange retrycount fuel k cb len =
    let (joined, acts) = connect_loop k.tries retrycount 0 in
    let acts' = acts ++ write_acts k.write in
    if joined
    then after_write len acts' (read_loop fuel k.reads cb 0 acts') (write_bytes k.write)
    else some (close_and_return acts communicate_connection)

-- `doSendCommand(pData, len)`
unfoldable pub do_send_command : ℕ → Kernel → Callback → ℕ → Option Done
unfolding exchange
do_send_command fuel k cb len = exchange 60 fuel k cb len

-- `doSendCommand(pData, len, p8Path)`
unfoldable pub do_send_command_to : ℕ → Kernel → Callback → ℕ → Option Done
unfolding exchange
do_send_command_to fuel k cb len = exchange 100 fuel k cb len
