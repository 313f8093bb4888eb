-- ===== src/Setting/Tests.antt =====
-- Settings of encoders, and instances of the theorems.
use server_communication.Prelude.{◌≡◌, refl, true, [], ◌∷◌, some, arith}
use server_communication.Prelude.Int.{pos}
use server_communication.ErrorCode
use server_communication.Saving.Info.{EncInfo}
use server_communication.Saving.Write.{write_enc}
use server_communication.Saving.Tree.{trees, trees-IsJson}
use server_communication.Saving.Tests.{camera, camera-EncFits}
use server_communication.Reply.{Sender}
use server_communication.Setting.{
  EncCodec, counted, refused, drop_first, replace_enc, replace_encs, read_settings,
  set_av_enc_info_by_json, set_json_info,
}
use server_communication.Setting.Replaced.{others, known}
use server_communication.Setting.Emptied.{failed_reply, set_json_info_empties}
use server_communication.Setting.Written.{
  written, read_settings-written, set_av_enc_info_by_json-written,
}

-- Another encoder, which the node has before this one.
abbrev second : EncInfo
second = record camera { tsk_id = pos 1300 }

-- The encoder of `camera` as the node has it.
abbrev old : EncInfo
old = record camera { bind = record camera.bind { bind_number = 0x2002 } }

abbrev good_codec : EncCodec
good_codec = record { set_all = λ es. true; get_all = λ tasks. counted 2 (second ∷ (camera ∷ [])) }

abbrev silent_codec : EncCodec
silent_codec = record { set_all = λ es. true; get_all = λ tasks. refused 0xe001 }

abbrev request : trees.Value
request = trees.put "Codec AV Enc" (trees.array (write_enc trees camera trees.null ∷ [])) trees.null

set_av_enc_info_by_json-written_example :
    set_av_enc_info_by_json trees good_codec "Codec AV Enc" request (old ∷ (second ∷ []))
    ≡ some (record { ret = 0; encs = second ∷ (camera ∷ []); saves = second ∷ (camera ∷ []) })
unfolding others known written
set_av_enc_info_by_json-written_example =
    set_av_enc_info_by_json-written trees trees-IsJson good_codec "Codec AV Enc" request
      (old ∷ (second ∷ [])) (camera ∷ []) (camera-EncFits, tt) refl (refl, tt) (refl, (refl, tt))
      refl (λ e. ground arith) refl

readable : read_settings trees (trees.items (trees.get "Codec AV Enc" request)) ≡ some (camera ∷ [])
unfolding written
readable = read_settings-written trees trees-IsJson (camera ∷ []) (camera-EncFits, tt)

abbrev node : Sender
node = record { ip = 0xc0a80105; dev_type = 0x2001; dev_id = [] }

set_json_info_empties_example :
    (set_json_info trees node silent_codec "Codec AV Enc" (67 ∷ []) (trees.write request) (old ∷ [])
      ≡ some (record {
        reply = failed_reply trees silent_codec "Codec AV Enc" node (67 ∷ []) ∷ [];
        done = record { ret = 0xe001; encs = []; saves = [] };
      }))
    × (set_json_info trees node silent_codec "Codec AV Enc" (67 ∷ []) (trees.write request) []
        ≡ some (record {
          reply = failed_reply trees silent_codec "Codec AV Enc" node (67 ∷ []) ∷ [];
          done = record { ret = ErrorCode.task_param_illegal; encs = []; saves = [] };
        }))
unfolding replace_encs replace_enc drop_first
set_json_info_empties_example =
    set_json_info_empties trees silent_codec "Codec AV Enc" node (67 ∷ []) (trees.write request)
      (trees.write request) request request (old ∷ []) (camera ∷ []) (camera ∷ []) 0xe001 refl refl
      readable refl (λ e. ground arith) refl (omega arith) refl refl readable refl
