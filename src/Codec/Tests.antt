-- ===== src/Codec/Tests.antt =====
-- Runs of the exchange with the codec, and instances of the theorems.
use server_communication.Prelude.{
  ℕ, zero, suc, ◌≡◌, ◌↔◌, refl, true, false, none, some, List, [], ◌∷◌, arith,
}
use server_communication.ErrorCode.{communicate_abnormal, communicate_connection, task_id_notexist}
use server_communication.Codec.{
  Kernel, ConnectAnswer, WriteAnswer, ReadAnswer, Act, Done, result_of, exchange, only_send_msg,
  do_send_command_to,
}
use server_communication.Codec.Ack.{
  recv_cb, ack_with, send_to_codec_and_recv, send_codec_info, set_av_info,
}
use server_communication.Codec.Exchange.{IsClosed, exchange-IsClosed, exchange_returns}
use server_communication.Codec.Delivery.{IsDelivered, send_to_codec_and_recv-IsDelivered}

-- The codec listens at the third try, and answers after one interrupted `recv`.
abbrev late : ℕ → ConnectAnswer
late zero = ConnectAnswer.refused
late (suc zero) = ConnectAnswer.interrupted
late (suc (suc n)) = ConnectAnswer.connected

abbrev one_answer : List ℕ → ℕ → ReadAnswer
one_answer bytes zero = ReadAnswer.recv_failed
one_answer bytes (suc n) = ReadAnswer.received bytes

abbrev answering : List ℕ → Kernel
answering bytes = record { tries = late; write = WriteAnswer.sent 40; reads = one_answer bytes }

abbrev deaf : Kernel
deaf = record {
  tries = λ n. ConnectAnswer.refused;
  write = WriteAnswer.write_timeout;
  reads = λ n. ReadAnswer.read_timeout;
}

-- A codec that takes no message: the write is never ready.
abbrev full : Kernel
full = record {
  tries = late;
  write = WriteAnswer.write_timeout;
  reads = λ n. ReadAnswer.read_timeout;
}

abbrev done_ack : List ℕ
done_ack = ack_with 9 14 0

abbrev late_acts : List Act
late_acts =
    Act.connect_call
    ∷ (Act.sleep_call
        ∷ (Act.connect_call
            ∷ (Act.connect_call
                ∷ (Act.send_call ∷ (Act.recv_call ∷ (Act.recv_call ∷ (Act.close_call ∷ [])))))))

run_done :
    exchange 60 2 (answering done_ack) (some recv_cb) 40
    ≡ some (record { code = 0; acts = late_acts })
unfolding exchange recv_cb
run_done = refl

run_refused :
    result_of (send_to_codec_and_recv 2 (answering (ack_with 9 14 task_id_notexist)) 40)
    ≡ some task_id_notexist
unfolding send_to_codec_and_recv
run_refused = refl

run_deaf : result_of (do_send_command_to 2 deaf none 40) ≡ some communicate_connection
unfolding do_send_command_to
run_deaf = refl

-- Nobody listens: the call without an answer fails, but one that the codec does not read gives 0.
run_only : ((only_send_msg deaf).code ≡ communicate_abnormal) × ((only_send_msg full).code ≡ 0)
unfolding only_send_msg
run_only = (refl, refl)

-- A message without an answer counts as done, even when it does not go out.
run_no_reply : send_codec_info 1 deaf 0 40 ≡ some 0
unfolding send_codec_info
run_no_reply = refl

run_vector :
    (set_av_info 2 (answering done_ack ∷ (answering done_ack ∷ [])) 40 ≡ some true)
    × (set_av_info 2 (answering done_ack ∷ (deaf ∷ [])) 40 ≡ some false)
unfolding set_av_info
run_vector = (refl, refl)

exchange-IsClosed_example : IsClosed 59 (record { code = 0; acts = late_acts })
exchange-IsClosed_example = exchange-IsClosed 59 2 (answering done_ack) (some recv_cb) 40 _ run_done

exchange_returns_example :
    (done : Done) × (exchange 60 2 (answering done_ack) (some recv_cb) 40 ≡ some done)
exchange_returns_example =
    exchange_returns 59 2 1 (answering done_ack) (some recv_cb) 40 (ground arith) (ground arith)

send_to_codec_and_recv-IsDelivered_example :
    (result_of (send_to_codec_and_recv 2 (answering done_ack) 40) ≡ some 0)
    ↔ IsDelivered 59 2 (answering done_ack) 40
send_to_codec_and_recv-IsDelivered_example =
    send_to_codec_and_recv-IsDelivered 2 (answering done_ack) 40 (ground arith)
