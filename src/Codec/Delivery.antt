-- ===== src/Codec/Delivery.antt =====
-- src/NodeInfo.cpp and src/NodeInfo.h: when a setting counts as done, sendToCodecAndRecv with recvCB.
use server_communication.Prelude.{
  ℕ, suc, ◌<◌, ◌≡◌, ◌≢◌, ◌↔◌, ◌∙◌, refl, sym, ap, true, Option, none, some, List, [], ◌∷◌, ◌>>=◌,
  ◌==◌, length, arith, inl, inr, Bool-cases, some-injective, ==_iff, ==_refl, ne-false,
}
use server_communication.Codec.{
  Kernel, WriteAnswer, ReadAnswer, Act, Done, result_of, connect_loop, write_bytes, after_write,
  exchange, do_send_command, answer_of,
}
use server_communication.Codec.Ack.{
  recv_cb, send_to_codec_and_recv, head_tag, packet_len, command_id, u32_success, packet_head,
  cmd_butt,
}
use server_communication.Codec.Reading.{first_read, read_code, read_loop-first_read}
use server_communication.Codec.Tries.{any_joins, connect_loop-any_joins}

-- An answer of the codec that says that the setting is done.
abbrev pub IsGoodAck : List ℕ → Type 0
IsGoodAck bytes =
    (head_tag bytes ≡ packet_head)
    × (packet_len bytes ≡ length bytes)
    × (command_id bytes ≢ cmd_butt)
    × (u32_success bytes ≡ 0)

recv_cb-success : (bytes : List ℕ) → recv_cb bytes (length bytes) ≡ 0 → IsGoodAck bytes
unfolding recv_cb
recv_cb-success bytes e = ground arith

recv_cb-IsGoodAck : (bytes : List ℕ) → IsGoodAck bytes → recv_cb bytes (length bytes) ≡ 0
unfolding recv_cb
recv_cb-IsGoodAck bytes h = ground arith

-- One of `n` tries connected, the message went out whole, and such an answer came back.
abbrev pub IsDelivered : ℕ → ℕ → Kernel → ℕ → Type 0
IsDelivered n fuel k len =
    (any_joins k.tries n 0 ≡ true)
    × (k.write ≡ WriteAnswer.sent len)
    × ((bytes : List ℕ) × (first_read fuel k.reads 0 ≡ some (ReadAnswer.received bytes))
        × IsGoodAck bytes)

read_code-success :
    (r : ReadAnswer)
    → read_code (some recv_cb) r ≡ some 0
    → (bytes : List ℕ) × (r ≡ ReadAnswer.received bytes) × IsGoodAck bytes
read_code-success ReadAnswer.read_timeout e = ground arith
read_code-success ReadAnswer.read_failed e = ground arith
read_code-success ReadAnswer.recv_failed e = ground arith
read_code-success (ReadAnswer.received []) e = ground arith
read_code-success (ReadAnswer.received (x ∷ xs)) e =
    (x ∷ xs, refl, recv_cb-success (x ∷ xs) (some-injective e))

reading-success :
    (o : Option ReadAnswer)
    → (o >>= read_code (some recv_cb)) ≡ some 0
    → (bytes : List ℕ) × (o ≡ some (ReadAnswer.received bytes)) × IsGoodAck bytes
reading-success none e = ground arith
reading-success (some r) e =
    let (bytes, q, good) = read_code-success r e in (bytes, ap some q, good)

sent-success :
    (len : ℕ) (acts : List Act) (reading : Option Done) (n : ℕ)
    → result_of (after_write len acts reading (some n)) ≡ some 0
    → (WriteAnswer.sent n ≡ WriteAnswer.sent len) × (result_of reading ≡ some 0)
sent-success len acts reading n e = elim (Bool-cases (n == len)) [
  | inl b ↦ (ap WriteAnswer.sent ((==_iff n len).0 b), rw b at e)
  | inr b ↦ ground (arith, rw b at e)
]

after_write-success :
    (len : ℕ) (acts : List Act) (reading : Option Done) (w : WriteAnswer)
    → 0 < len
    → result_of (after_write len acts reading (write_bytes w)) ≡ some 0
    → (w ≡ WriteAnswer.sent len) × (result_of reading ≡ some 0)
unfolding write_bytes
after_write-success len acts reading WriteAnswer.write_timeout h e = ground arith
after_write-success len acts reading WriteAnswer.write_failed h e = ground arith
after_write-success len acts reading WriteAnswer.send_failed h e = ground arith
after_write-success len acts reading (WriteAnswer.sent n) h e = elim (Bool-cases (n == 0)) [
  | inl z ↦ ground (arith, rw z at e)
  | inr z ↦ sent-success len acts reading n (rw z at e)
]

IsGoodAck-answer : (bytes : List ℕ) → IsGoodAck bytes → answer_of (some recv_cb) bytes ≡ 0
IsGoodAck-answer [] h = absurd (omega (arith, h.0))
IsGoodAck-answer (x ∷ xs) h = recv_cb-IsGoodAck (x ∷ xs) h

exchange-success :
    (n fuel : ℕ) (k : Kernel) (len : ℕ)
    → 0 < len
    → result_of (exchange (suc n) fuel k (some recv_cb) len) ≡ some 0
    → IsDelivered n fuel k len
unfolding exchange
exchange-success n fuel k len h e = elim (Bool-cases (connect_loop k.tries (suc n) 0).0) [
  | inl j ↦
      let (w, r) = after_write-success len _ _ k.write h (rw j at e) in
      (
        sym (connect_loop-any_joins k.tries n 0) ∙ j,
        w,
        reading-success (first_read fuel k.reads 0)
            (sym (read_loop-first_read fuel k.reads (some recv_cb) 0 _) ∙ r),
      )
  | inr j ↦ ground (arith, rw j at e)
]

after_write-sent :
    (len : ℕ) (acts : List Act) (reading : Option Done) (w : WriteAnswer)
    → 0 < len
    → w ≡ WriteAnswer.sent len
    → after_write len acts reading (write_bytes w) ≡ reading
unfolding write_bytes
after_write-sent len acts reading w h e = rw (e, ne-false len 0 (omega arith), ==_refl len) refl

IsDelivered-exchange :
    (n fuel : ℕ) (k : Kernel) (len : ℕ)
    → 0 < len
    → IsDelivered n fuel k len
    → result_of (exchange (suc n) fuel k (some recv_cb) len) ≡ some 0
unfolding exchange
IsDelivered-exchange n fuel k len h (j, w, (bytes, r, good)) =
    rw (connect_loop-any_joins k.tries n 0 ∙ j) (
      ap result_of (after_write-sent len _ _ k.write h w)
      ∙ read_loop-first_read fuel k.reads (some recv_cb) 0 _
      ∙ ap (λ o. o >>= read_code (some recv_cb)) r
      ∙ ap some (IsGoodAck-answer bytes good))

-- A setting is taken as done, for a message that is not empty, exactly when one of the 59 tries
-- connects, the whole message is sent, and the first answer to the reading that is not a failed
-- `recv` is a packet with the right head tag, whose length is its own, whose command is not
-- the number `DP_M2S_CMD_BUTT`, and which reports success.
pub send_to_codec_and_recv-IsDelivered :
    (fuel : ℕ) (k : Kernel) (len : ℕ)
    → 0 < len
    → (result_of (send_to_codec_and_recv fuel k len) ≡ some 0) ↔ IsDelivered 59 fuel k len
unfolding send_to_codec_and_recv do_send_command
send_to_codec_and_recv-IsDelivered fuel k len h =
    (exchange-success 59 fuel k len h, IsDelivered-exchange 59 fuel k len h)
