-- ===== src/Codec/Reading.antt =====
-- src/UnixSockClientData.cpp: what the reading loop of doSendCommand makes of the answers.
use server_communication.Prelude.{
  ℕ, zero, suc, ◌+◌, ◌<◌, ◌≡◌, ◌≢◌, refl, Option, none, some, List, ◌>>=◌, arith,
}
use server_communication.ErrorCode.{communicate_abnormal_timeout, communicate_select}
use server_communication.Codec.{
  ReadAnswer, Act, Done, Callback, result_of, read_turn, read_loop, answer_of,
}

-- The first answer to the reading, of those of the next `fuel` turns, that is not a failed `recv`.
abbrev pub first_read : ℕ → (ℕ → ReadAnswer) → ℕ → Option ReadAnswer
first_read zero answer k = none
first_read (suc fuel) answer k =
    let rest = first_read fuel answer (suc k) in
    elim (answer k) [ ReadAnswer.recv_failed ↦ rest | r ↦ some r ]

-- What `doSendCommand` returns for such an answer.
abbrev pub read_code : Callback → ReadAnswer → Option ℕ
read_code cb ReadAnswer.read_timeout = some communicate_abnormal_timeout
read_code cb ReadAnswer.read_failed = some communicate_select
read_code cb ReadAnswer.recv_failed = none
read_code cb (ReadAnswer.received bytes) = some (answer_of cb bytes)

read_turn-code :
    (cb : Callback) (acts : List Act) (rest : Option Done) (later : Option ReadAnswer)
    (r : ReadAnswer)
    → result_of rest ≡ (later >>= read_code cb)
    → result_of (read_turn cb acts rest r)
      ≡ (elim r [ ReadAnswer.recv_failed ↦ later | r ↦ some r ] >>= read_code cb)
read_turn-code cb acts rest later ReadAnswer.read_timeout h = refl
read_turn-code cb acts rest later ReadAnswer.read_failed h = refl
read_turn-code cb acts rest later ReadAnswer.recv_failed h = h
read_turn-code cb acts rest later (ReadAnswer.received bytes) h = refl

pub read_loop-first_read :
    (fuel : ℕ) (answer : ℕ → ReadAnswer) (cb : Callback) (k : ℕ) (acts : List Act)
    → result_of (read_loop fuel answer cb k acts) ≡ (first_read fuel answer k >>= read_code cb)
unfolding read_loop
read_loop-first_read zero answer cb k acts = refl
read_loop-first_read (suc fuel) answer cb k acts =
    read_turn-code cb acts _ _ (answer k) (read_loop-first_read fuel answer cb (suc k) _)

read_turn-some :
    (cb : Callback) (acts : List Act) (rest : Option Done) (r : ReadAnswer)
    → r ≢ ReadAnswer.recv_failed
    → (done : Done) × (read_turn cb acts rest r ≡ some done)
read_turn-some cb acts rest ReadAnswer.read_timeout h = (_, refl)
read_turn-some cb acts rest ReadAnswer.read_failed h = (_, refl)
read_turn-some cb acts rest ReadAnswer.recv_failed h = absurd (h refl)
read_turn-some cb acts rest (ReadAnswer.received bytes) h = (_, refl)

add_zero : (k : ℕ) → k + 0 ≡ k
add_zero k = omega arith

add_suc : (k m : ℕ) → k + suc m ≡ suc k + m
add_suc k m = omega arith

read_turn-rest :
    (cb : Callback) (acts : List Act) (rest : Option Done) (r : ReadAnswer)
    → (done : Done) × (rest ≡ some done)
    → (done : Done) × (read_turn cb acts rest r ≡ some done)
read_turn-rest cb acts rest ReadAnswer.read_timeout h = (_, refl)
read_turn-rest cb acts rest ReadAnswer.read_failed h = (_, refl)
read_turn-rest cb acts rest ReadAnswer.recv_failed h = h
read_turn-rest cb acts rest (ReadAnswer.received bytes) h = (_, refl)

-- The loop returns in the turn of an answer that is not a failed `recv`, or before.
pub read_loop_total :
    (fuel : ℕ) (answer : ℕ → ReadAnswer) (cb : Callback) (k m : ℕ) (acts : List Act)
    → m < fuel
    → answer (k + m) ≢ ReadAnswer.recv_failed
    → (done : Done) × (read_loop fuel answer cb k acts ≡ some done)
unfolding read_loop
read_loop_total zero answer cb k m acts lt h = absurd (omega (arith, lt))
read_loop_total (suc fuel) answer cb k zero acts lt h =
    read_turn-some cb acts _ (answer k) (rw (add_zero k) at h)
read_loop_total (suc fuel) answer cb k (suc m) acts lt h =
    read_turn-rest cb acts _ (answer k)
      (read_loop_total fuel answer cb (suc k) m _ (omega (arith, lt)) (rw (add_suc k m) at h))
