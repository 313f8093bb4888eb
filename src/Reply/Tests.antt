-- ===== src/Reply/Tests.antt =====
-- A node and its replies.
use server_communication.Prelude.{
  ℕ, ◌≡◌, refl, List, [], ◌∷◌, ◌++◌, some, length, take, drop, arith,
}
use server_communication.Codec.Ack.{u32_bytes}
use server_communication.Dispatch.{parser_data_head}
use server_communication.Reply.{
  Sender, zeros, common_reply, reply_clear, reply_get_info, reply_set_info, keys_bytes, words_bytes,
}
use server_communication.Reply.Framing.{IsFramed, reply_get_info-IsFramed, reply_clear_overruns}

abbrev node : Sender
node = record { ip = 0xc0a80105; dev_type = 0x2001; dev_id = 77 ∷ (50 ∷ (83 ∷ [])) }

abbrev heap : List ℕ
heap = 7 ∷ (7 ∷ (7 ∷ (7 ∷ (7 ∷ (7 ∷ (7 ∷ (7 ∷ (9 ∷ []))))))))

common_reply_size : length (common_reply node 6 256 0) ≡ 41
unfolding common_reply zeros
common_reply_size = refl

reply_set_info_size : length (reply_set_info node ((65 ∷ []) ∷ []) (0 ∷ [])) ≡ 89
unfolding reply_set_info keys_bytes words_bytes zeros
reply_set_info_size = refl

reply_get_info-IsFramed_example : IsFramed 0x02 (reply_get_info node 0x1002 0x8802 (1 ∷ (2 ∷ [])))
reply_get_info-IsFramed_example =
    reply_get_info-IsFramed node 0x1002 0x8802 (1 ∷ (2 ∷ [])) (omega arith) (omega arith)

reply_clear_overruns_example :
    (parser_data_head (reply_clear node heap 1 (258 ∷ []) (0x8501 ∷ []))
      ≡ some (some (record { command_id = 0x0b; package_type = 1; pack_len = 49 })))
    × (length (reply_clear node heap 1 (258 ∷ []) (0x8501 ∷ [])) ≡ 57)
    × (drop 41 (reply_clear node heap 1 (258 ∷ []) (0x8501 ∷ []))
        ≡ take 8 heap ++ (u32_bytes 258 ++ u32_bytes 0x8501))
reply_clear_overruns_example =
    reply_clear_overruns node heap 1 258 0x8501 [] [] (omega arith) (omega arith) refl (omega arith)
      (omega arith)
