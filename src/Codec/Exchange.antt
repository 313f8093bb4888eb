-- ===== src/Codec/Exchange.antt =====
-- src/UnixSockClientData.cpp: a message to the codec and its answer, doSendCommand.
use server_communication.Prelude.{
  ℕ, zero, suc, ◌+◌, ◌≤◌, ◌<◌, ◌≡◌, ◌≢◌, refl, Option, none, some, List, [], ◌∷◌, ◌++◌, sym, ap,
  arith, Bool-cases, inl, inr, some-injective, ◌==◌,
}
use server_communication.Codec.{
  Kernel, ConnectAnswer, WriteAnswer, ReadAnswer, Act, Done, Callback, connect_loop, write_bytes,
  write_acts, read_turn, read_loop, exchange, close_and_return, after_write,
}
use server_communication.Codec.Reading.{read_loop_total}
use server_communication.Codec.Tries.{
  calls, is_connect, is_send, is_close, calls-append, connect_loop-calls,
}

-- The calls of a socket that is still open: at most one message, at most `n` tries to connect.
abbrev pub IsOpen : ℕ → List Act → Type 0
IsOpen n acts = (calls is_close acts ≡ 0) × (calls is_send acts ≤ 1) × (calls is_connect acts ≤ n)

-- A socket that is closed once, at the end.
abbrev pub IsClosed : ℕ → Done → Type 0
IsClosed n done =
    (before : List Act) × (done.acts ≡ before ++ (Act.close_call ∷ [])) × IsOpen n before

-- Another write or read of an open socket.
IsOpen-append :
    (n : ℕ) (acts more : List Act)
    → IsOpen n acts
    → calls is_close more ≡ 0
    → calls is_send acts + calls is_send more ≤ 1
    → calls is_connect more ≡ 0
    → IsOpen n (acts ++ more)
IsOpen-append n acts more h c s t = ground (
  arith,
  calls-append is_close acts more,
  calls-append is_send acts more,
  calls-append is_connect acts more,
)

write_acts-calls :
    (w : WriteAnswer)
    → (calls is_close (write_acts w) ≡ 0)
      × (calls is_send (write_acts w) ≤ 1)
      × (calls is_connect (write_acts w) ≡ 0)
write_acts-calls WriteAnswer.write_timeout = ground arith
write_acts-calls WriteAnswer.write_failed = ground arith
write_acts-calls WriteAnswer.send_failed = ground arith
write_acts-calls (WriteAnswer.sent m) = ground arith

IsOpen-recv : (n : ℕ) (acts : List Act) → IsOpen n acts → IsOpen n (acts ++ (Act.recv_call ∷ []))
IsOpen-recv n acts h = ground (arith, IsOpen-append n acts (Act.recv_call ∷ []))

IsOpen-connect : (n : ℕ) (answer : ℕ → ConnectAnswer) → IsOpen n (connect_loop answer (suc n) 0).1
IsOpen-connect n answer = ground (arith, connect_loop-calls answer n 0)

IsOpen-write :
    (n : ℕ) (answer : ℕ → ConnectAnswer) (w : WriteAnswer)
    → IsOpen n ((connect_loop answer (suc n) 0).1 ++ write_acts w)
IsOpen-write n answer w = ground (
  arith,
  IsOpen-append n (connect_loop answer (suc n) 0).1 (write_acts w),
  write_acts-calls w,
  connect_loop-calls answer n 0,
)

close_and_return-IsClosed :
    (n : ℕ) (acts : List Act) (code : ℕ) (done : Done)
    → IsOpen n acts
    → close_and_return acts code ≡ done
    → IsClosed n done
close_and_return-IsClosed n acts code done h e = (acts, sym (ap (λ d. d.acts) e), h)

read_turn-IsClosed :
    (n : ℕ) (cb : Callback) (acts : List Act) (rest : Option Done) (r : ReadAnswer) (done : Done)
    → IsOpen n acts
    → (rest ≡ some done → IsClosed n done)
    → read_turn cb acts rest r ≡ some done
    → IsClosed n done
read_turn-IsClosed n cb acts rest ReadAnswer.read_timeout done h f e =
    close_and_return-IsClosed n acts _ done h (some-injective e)
read_turn-IsClosed n cb acts rest ReadAnswer.read_failed done h f e =
    close_and_return-IsClosed n acts _ done h (some-injective e)
read_turn-IsClosed n cb acts rest ReadAnswer.recv_failed done h f e = f e
read_turn-IsClosed n cb acts rest (ReadAnswer.received bytes) done h f e =
    close_and_return-IsClosed n _ _ done (IsOpen-recv n acts h) (some-injective e)

read_loop-IsClosed :
    (n fuel : ℕ) (answer : ℕ → ReadAnswer) (cb : Callback) (k : ℕ) (acts : List Act) (done : Done)
    → IsOpen n acts
    → read_loop fuel answer cb k acts ≡ some done
    → IsClosed n done
unfolding read_loop
read_loop-IsClosed n zero answer cb k acts done h e = ground arith
read_loop-IsClosed n (suc fuel) answer cb k acts done h e =
    read_turn-IsClosed n cb acts _ (answer k) done h
      (read_loop-IsClosed n fuel answer cb (suc k) _ done (IsOpen-recv n acts h)) e

after_write-IsClosed :
    (n len : ℕ) (acts : List Act) (reading : Option Done) (w : Option ℕ) (done : Done)
    → IsOpen n acts
    → (reading ≡ some done → IsClosed n done)
    → after_write len acts reading w ≡ some done
    → IsClosed n done
after_write-IsClosed n len acts reading none done h f e =
    close_and_return-IsClosed n acts _ done h (some-injective e)
after_write-IsClosed n len acts reading (some wbytes) done h f e =
    elim (Bool-cases (wbytes == len)) [
      | inl b ↦ f (rw b at e)
      | inr b ↦ close_and_return-IsClosed n acts _ done h (some-injective (rw b at e))
    ]

-- A `doSendCommand` that starts with `retrycount` at `n + 1` and returns has closed its socket
-- exactly once, as its last call, after at most `n` calls of `connect` and at most one `send`,
-- whatever the operating system answers and whatever the callback is.
pub exchange-IsClosed :
    (n fuel : ℕ) (k : Kernel) (cb : Callback) (len : ℕ) (done : Done)
    → exchange (suc n) fuel k cb len ≡ some done
    → IsClosed n done
unfolding exchange
exchange-IsClosed n fuel k cb len done e = elim (Bool-cases (connect_loop k.tries (suc n) 0).0) [
  | inr j ↦
      close_and_return-IsClosed n _ _ done (IsOpen-connect n k.tries) (some-injective (rw j at e))
  | inl j ↦
      let h = IsOpen-write n k.tries k.write in
      after_write-IsClosed n len _ _ (write_bytes k.write) done h
        (read_loop-IsClosed n fuel k.reads cb 0 _ done h) (rw j at e)
]

after_write-some :
    (len : ℕ) (acts : List Act) (reading : Option Done) (w : Option ℕ)
    → (done : Done) × (reading ≡ some done)
    → (done : Done) × (after_write len acts reading w ≡ some done)
after_write-some len acts reading none h = (_, refl)
after_write-some len acts reading (some wbytes) h = elim (Bool-cases (wbytes == len)) [
  | inl b ↦ rw b h
  | inr b ↦ rw b (_, refl)
]

zero_add : (m : ℕ) → 0 + m ≡ m
zero_add m = omega arith

-- A `doSendCommand` returns, whatever the system answers to the other calls, as soon as one of its
-- turns to read, the one numbered `m`, is not a failed `recv`: `m + 1` turns are enough.
pub exchange_returns :
    (n fuel m : ℕ) (k : Kernel) (cb : Callback) (len : ℕ)
    → m < fuel
    → k.reads m ≢ ReadAnswer.recv_failed
    → (done : Done) × (exchange (suc n) fuel k cb len ≡ some done)
unfolding exchange
exchange_returns n fuel m k cb len lt h = elim (Bool-cases (connect_loop k.tries (suc n) 0).0) [
  | inr j ↦ rw j (_, refl)
  | inl j ↦ rw j (
      after_write-some len _ _ (write_bytes k.write)
        (read_loop_total fuel k.reads cb 0 m _ lt (rw (zero_add m) h)))
]
