-- ===== src/Start/Init.antt =====
-- src/NodeInfo.cpp: initAVDec and initOutAVDec, the decoders that an output node starts with, and
-- src/TaskRestore.cpp: getAVDecJson and getThirdInfo, on what the saved files hold.
use server_communication.Prelude.{
  ℕ, zero, suc, Bool, true, false, List, [], ◌∷◌, ◌++◌, Option, none, some, ltb, ◌>>=◌,
  if◌then◌else◌, map,
}
use server_communication.Prelude.Maps.{insert}
use server_communication.AvDec.{
  AvDec, BindType, ai2aenc, adec2ao, vi2venc, vdec2vo, ai2aenc_vi2venc, adec2ao_vdec2vo,
}
use server_communication.Codec.{Kernel}
use server_communication.Codec.Ack.{set_av_info}
use server_communication.Start.{Started, set_output_task_id_in_map}

-- `memset(avdec, 0, sizeof(DP_M2S_AVDEC_INFO_S))`
abbrev pub zeroed : AvDec
zeroed = record {
  tsk_id = 0;
  bind_type = BindType.ai2ao;
  ao_dev = 0;
  vo_dev = 0;
  s8_open = 0;
  url = [];
  udp = false;
  osd = false;
  osd_id = 0;
  crop_on = false;
  crop = record { x = 0; y = 0; width = 0; height = 0 };
  swms = false;
  swms_chn = 0;
  priority = 0;
  rect = record { x = 0; y = 0; width = 0; height = 0 };
}

-- The bind type of an id; none where `initAVDec` returns at once.
unfoldable pub bind_type_of : ℕ → Option BindType
bind_type_of id =
    if ltb id 256
    then some ai2aenc
    else if ltb id 512
    then some adec2ao
    else if ltb id 1024
    then some vi2venc
    else if ltb id 1280
    then some vdec2vo
    else if ltb id 1536
    then some ai2aenc_vi2venc
    else if ltb id 1792
    then some adec2ao_vdec2vo
    else none

-- `initAVDec`, for an id that is not negative. `DP_M2S_AO_DEV_HDMI0_HI3536` is 1 and
-- `DP_M2S_VO_DEV_HDMI0_HI3536` is 0. `bUDP` of the client is set, and then cleared with the fields of
-- the server, which stand in the same memory.
unfoldable pub init_av_dec : AvDec → ℕ → AvDec
unfolding bind_type_of
init_av_dec d id = elim (bind_type_of id) [
  | none ↦ d
  | some b ↦ record zeroed { tsk_id = id; bind_type = b; ao_dev = 1 }
]

-- `for (taskID = from; …; taskID++)` over so many ids; `*avDec` is used again in each turn.
unfoldable pub init_decs : AvDec → ℕ → ℕ → List AvDec
unfolding init_av_dec
init_decs d from zero = []
init_decs d from (suc n) = init_av_dec d from ∷ init_decs (init_av_dec d from) (suc from) n

-- The ids from 256 to 257 and from 1536 to 1551.
unfoldable pub first_decs : List AvDec
unfolding init_decs
first_decs = init_decs zeroed 256 2 ++ init_decs (init_av_dec zeroed 257) 1536 16

-- `getAVDecJson`: the decoders that the file holds, if it can be parsed and holds any.
unfoldable pub recover_decs : Option (List AvDec) → List AvDec → List AvDec
recover_decs none ds = ds
recover_decs (some []) ds = ds
recover_decs (some (e ∷ es)) ds = e ∷ es

insert_all : List (ℕ × ℕ) → List (ℕ × ℕ) → List (ℕ × ℕ)
insert_all [] m = m
insert_all ((k, v) ∷ l) m = insert_all l (insert k v m)

-- `getThirdInfo`, as to `_mOutThirdCodecTaskID`: the pairs of a task of the third party and a codec
-- task id that the file of the windows holds, and that of the sounds.
unfoldable pub restore_third :
    Option (List (ℕ × ℕ)) → Option (List (ℕ × ℕ)) → List (ℕ × ℕ) → List (ℕ × ℕ)
unfolding insert_all
restore_third none none m = m
restore_third none (some l) m = insert_all l m
restore_third (some k) none m = insert_all k []
restore_third (some k) (some l) m = insert_all l (insert_all k [])

-- What the files of `TaskRestore` hold.
pub record Saved : Type 0 where
  pub decs : Option (List AvDec)
  pub windows : Option (List (ℕ × ℕ))
  pub sounds : Option (List (ℕ × ℕ))

-- The members that `initOutAVDec` sets, where it gets so far.
abbrev pub with_third : Saved → Started → Started
with_third saved s = record s {
  ids = record s.ids { third_codec = restore_third saved.windows saved.sounds s.ids.third_codec };
}

-- `initOutAVDec`, with `RecoverTask` set: the codec answers the first message about a decoder by
-- `answer`, and the one after the recovery by `again`. None where the fuel of an exchange is used up, or
-- the channels run out.
unfoldable pub init_out_avdec :
    ℕ → (AvDec → Kernel) → (AvDec → Kernel) → ℕ → Saved → Option (Bool × Option Started)
unfolding first_decs recover_decs restore_third set_av_info set_output_task_id_in_map
init_out_avdec fuel answer again len saved = do
  set ← set_av_info fuel (map answer first_decs) len
  elim set [
    | false ↦ some (false, none)
    | true ↦ do
      let ds = recover_decs saved.decs first_decs
      restored ← set_av_info fuel (map again ds) len
      elim restored [
        | false ↦ some (false, none)
        | true ↦ do s ← set_output_task_id_in_map ds; some (true, some (with_third saved s))
      ]
  ]
