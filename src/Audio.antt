-- ===== src/Audio.antt =====
-- src/LogicHandle.cpp: the sounds of an output node. `openAudio` opens a sound on an output or, where
-- the output plays one already, gives its decoder to the new task; `closeAudio` closes one. Log lines
-- are left out.
pub mod Sounds
mod Tests
use server_communication.Prelude.{
  ℕ, Bool, true, false, List, [], ◌∷◌, ◌++◌, Option, none, some, get_or, ltb, ◌==◌, if◌then◌else◌,
}
use server_communication.Prelude.Maps.{find, insert, erase}
use server_communication.ErrorCode
use server_communication.AvDec.Url.{copy_url}
use server_communication.AvDec.{AvDec, BindType, adec2ao, adec2ao_vdec2vo, find_dec, set_dec}
use server_communication.TaskId.{
  TaskIds, audio_task, get_new_codec_task_id, remove_codec_task_id, set_server_task_id,
}
use server_communication.Window.{last_task_id}
use server_communication.Window.Clear.{find_third}

-- What a handler sends: to the codec, to the files of `TaskRestore`, to the third party.
pub data AudioOutput : Type 0 where
  set_avdec : AvDec → AudioOutput
  save_avdec : AvDec → AudioOutput
  save_audio : ℕ → ℕ → ℕ → AudioOutput
  save_close_audio : ℕ → AudioOutput
  reply_open_audio : ℕ → ℕ → AudioOutput
  reply_close_audio : ℕ → ℕ → AudioOutput

-- The tables of `NodeInfo` that the handlers use; `ao_codec` is `_mAODevIDCodecID`.
pub record AudioNode : Type 0 where
  pub ids : TaskIds
  pub decs : List AvDec
  pub ao_codec : List (ℕ × ℕ)
  pub sent : List AudioOutput

-- What `openAudio` reads of `_sRemote_OpenAudio`. `rtsp_url` has the bytes before the zero that ends it
-- within its 256 bytes.
pub record OpenAudio : Type 0 where
  pub task_id : ℕ
  pub rtsp_url : List ℕ
  pub ao_chn_id : ℕ

-- `DP_M2S_AO_DEV_LINEOUT0_HI3536` is 0, `DP_M2S_AO_DEV_HDMI0_HI3536` 1.
unfoldable pub ao_dev_of : ℕ → Option ℕ
ao_dev_of chn = if chn == 0x20 then some 1 else if chn == 0x30 then some 0 else none

abbrev pub is_adec2ao : BindType → Bool
is_adec2ao adec2ao = true
is_adec2ao _ = false

-- `updateThirdTaskIDCodecTaskid`
pub update_third_codec : List (ℕ × ℕ) → ℕ → ℕ → List (ℕ × ℕ)
update_third_codec m third id = elim (find_third m id) [
  | none ↦ insert third id m
  | some old ↦ insert third id (erase old m)
]

abbrev pub emit_audio : List AudioOutput → AudioNode → AudioNode
emit_audio out n = record n { sent = n.sent ++ out }

abbrev pub put_audio : ℕ → AvDec → AudioNode → AudioNode
put_audio id d n = record n { decs = set_dec id d n.decs }

-- `if (RecoverTask)`
abbrev pub saved_audio : OpenAudio → ℕ → ℕ → AvDec → AudioNode → AudioNode
saved_audio req id ao d n = emit_audio (save_avdec d ∷ (save_audio req.task_id id ao ∷ [])) n

-- The sound of a window goes and its picture stays; a sound alone goes.
abbrev pub muted : AvDec → AvDec
muted d = elim d.bind_type [
  | adec2ao_vdec2vo ↦ record d { s8_open = 2 }
  | adec2ao ↦ record d { s8_open = 0 }
  | _ ↦ d
]

module _ (codec : AvDec → ℕ) where
  -- The output plays the decoder `id` already. The id that is saved is 0 here.
  pub shift_audio : AudioNode → OpenAudio → ℕ → ℕ → AudioNode × ℕ
  unfolding update_third_codec
  shift_audio n req ao id = elim (find_dec id n.decs) [
    | none ↦ (n, ErrorCode.task_id_notexist)
    | some d ↦
        let stopped = record d { s8_open = 0 } in
        let n1 = emit_audio (set_avdec stopped ∷ []) (put_audio id stopped n) in
        let d' = record (copy_url req.rtsp_url stopped) {
          s8_open = if is_adec2ao d.bind_type then 1 else 0;
          ao_dev = ao;
        } in
        let n2 = emit_audio (set_avdec d' ∷ []) (put_audio id d' n1) in
        let ids' = record n.ids {
          third_codec = update_third_codec n.ids.third_codec req.task_id id;
        } in
        if codec stopped == 0
        then if codec d' == 0
          then (saved_audio req 0 ao d' (record n2 { ids = ids' }), ErrorCode.success)
          else (n2, ErrorCode.communicate_abnormal_inner)
        else (n1, ErrorCode.communicate_abnormal_inner)
  ]

  pub new_audio : AudioNode → OpenAudio → ℕ → AudioNode × ℕ
  new_audio n req ao =
      let (ids', id) = get_new_codec_task_id n.ids req.task_id audio_task in
      let n' = record n { ids = ids' } in
      if ltb last_task_id id then (n', id) else elim (find_dec id n.decs) [
        | none ↦ (n', ErrorCode.task_id_notexist)
        | some d ↦
            let d' = record (copy_url req.rtsp_url d) { s8_open = 1; udp = true; ao_dev = ao } in
            let n1 = emit_audio (set_avdec d' ∷ []) (put_audio id d' n') in
            if codec d' == 0
            then (
              saved_audio req id ao d' (record n1 { ao_codec = insert ao id n.ao_codec }),
              ErrorCode.success,
            )
            else (n1, ErrorCode.communicate_abnormal_inner)
      ]

  -- The body of the `do … while (0)`, with the code that it leaves in `success`.
  pub open_audio_body : AudioNode → OpenAudio → AudioNode × ℕ
  unfolding ao_dev_of shift_audio new_audio
  open_audio_body n req = elim (find n.ids.third_codec req.task_id) [
    | some _ ↦ (n, ErrorCode.success)
    | none ↦ elim (ao_dev_of req.ao_chn_id) [
      | none ↦ (n, ErrorCode.task_param_illegal)
      | some ao ↦ elim (find n.ao_codec ao) [
        | some id ↦ shift_audio n req ao id
        | none ↦ new_audio n req ao
      ]
    ]
  ]

  -- `openAudio`
  pub open_audio : AudioNode → OpenAudio → AudioNode
  unfolding open_audio_body
  open_audio n req =
      let (n', code) = open_audio_body n req in
      emit_audio (reply_open_audio req.task_id code ∷ []) n'

  -- `closeAudio`, with the channel of the request; `stale` is what the variable for the output holds
  -- where the channel is none of the two, which the source leaves unset.
  pub close_audio : ℕ → AudioNode → ℕ → ℕ → AudioNode
  unfolding ao_dev_of
  close_audio stale n third chn =
      let id = set_server_task_id n.ids third in
      if id == ErrorCode.task_id_notexist
      then emit_audio (reply_close_audio third ErrorCode.task_id_notexist ∷ []) n
      else elim (find_dec id n.decs) [
        | none ↦ emit_audio (reply_close_audio third ErrorCode.success ∷ []) n
        | some d ↦
            let d' = muted d in
            let n1 = emit_audio (set_avdec d' ∷ []) (put_audio id d' n) in
            let saves =
              save_avdec d'
              ∷ (save_close_audio third ∷ (reply_close_audio third ErrorCode.success ∷ [])) in
            if codec d' == 0
            then emit_audio saves (record n1 {
              ids = if is_adec2ao d.bind_type then remove_codec_task_id n.ids third else n.ids;
              ao_codec = erase (get_or stale (ao_dev_of chn)) n.ao_codec;
            })
            else emit_audio (reply_close_audio third ErrorCode.communicate_abnormal_inner ∷ []) n1
      ]
