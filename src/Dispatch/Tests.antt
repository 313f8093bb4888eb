-- ===== src/Dispatch/Tests.antt =====
-- Packets of 20 bytes, a head alone: one that closes a window, one that opens a sound.
use server_communication.Prelude.{
  ℕ, zero, suc, ◌≡◌, refl, true, List, [], ◌∷◌, ◌++◌, map, some, none, arith,
}
use server_communication.Dispatch.{
  RemoteCmd, close_window, byte_at, word_at, read_head, parser_data_head, cmd_of,
  parser_data_package, has_handler, turns, on_message,
}
use server_communication.Dispatch.Cut.{IsCut, on_message-IsCut, on_message_total}

abbrev zeros : ℕ → List ℕ → List ℕ
zeros zero xs = xs
zeros (suc n) xs = 0 ∷ zeros n xs

abbrev head_of : ℕ → List ℕ
head_of command = 0xf1 ∷ (0xf0 ∷ zeros 13 (20 ∷ (0 ∷ (command ∷ (0 ∷ (0 ∷ []))))))

abbrev closing : List ℕ
closing = head_of 0x06

abbrev sounding : List ℕ
sounding = head_of 0x07

reads : parser_data_package 0 closing ≡ some (close_window, 20)
unfolding byte_at word_at read_head parser_data_head cmd_of parser_data_package
reads = refl

reads_two : parser_data_package 0 (closing ++ sounding) ≡ some (close_window, 20)
unfolding byte_at word_at read_head parser_data_head cmd_of parser_data_package
reads_two = refl

handled : has_handler close_window ≡ true
unfolding has_handler
handled = refl

-- A head with a wrong tag ends the loop.
wrong_tag : on_message (zeros 20 []) ≡ some []
unfolding byte_at word_at read_head parser_data_head parser_data_package turns on_message
wrong_tag = refl

-- Too few bytes for a head.
too_short : on_message (0xf1 ∷ (0xf0 ∷ [])) ≡ none
unfolding byte_at word_at read_head parser_data_head parser_data_package turns on_message
too_short = refl

on_message-IsCut_example :
    (ps : List (List ℕ)) × IsCut 20 (closing ++ sounding) ps
    × (on_message (closing ++ sounding) ≡ some (map (λ q. (close_window, q)) ps))
on_message-IsCut_example =
    on_message-IsCut (closing ++ sounding) close_window 20 reads_two (omega arith) handled

on_message_total_example : (tasks : List (RemoteCmd × List ℕ)) × (on_message closing ≡ some tasks)
on_message_total_example = on_message_total closing (omega arith)
