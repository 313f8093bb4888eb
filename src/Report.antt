-- ===== src/Report.antt =====
-- src/LogicHandle.cpp: getInfo of an output node, with Get_OutputVideoChnInfo, which lists the outputs
-- and the windows, and Get_OutputAudioChnInfo, which lists the outputs for sound and what they play.
pub mod Windows
pub mod Sounds
mod Tests
use server_communication.Prelude.{
  ℕ, suc, ◌+◌, ◌%◌, Bool, true, false, List, [], ◌∷◌, ◌++◌, Option, none, some, ◌==◌, if◌then◌else◌,
  length,
}
use server_communication.Prelude.Maps.{find}
use server_communication.ErrorCode
use server_communication.Crop.{SrcVideo}
use server_communication.AvDec.{AvDec, Rect, find_dec}
use server_communication.Codec.Ack.{bytes16, u32_bytes}
use server_communication.Window.Clear.{find_third}
use server_communication.Reply.{Sender, field, reply_get_info}

-- What is read of `DP_M2S_VO_INFO_S`: the device and `bEnable`.
pub record VoInfo : Type 0 where
  pub vo_dev : ℕ
  pub enabled : Bool

-- What is read of `DP_M2S_AO_INFO_S`: the device and `u8Vol`.
pub record AoInfo : Type 0 where
  pub ao_dev : ℕ
  pub volume : ℕ

-- `_sVideoTaskInfo`
pub record VideoTask : Type 0 where
  pub vo_chn : ℕ
  pub task_id : ℕ
  pub z_index : ℕ
  pub stream_status : ℕ
  pub src : SrcVideo
  pub dst : Rect
  pub url : List ℕ

-- `_sAudioTaskInfo`, whose source is written as a constant where there is one.
pub record AudioTask : Type 0 where
  pub task_id : ℕ
  pub stream_status : ℕ
  pub url : List ℕ
  pub src_audio : List ℕ
  pub ao_chn : ℕ

-- The tables of `NodeInfo` that are read: the outputs, the url of the echo of each (the encoders, by the
-- device of their output), mute and volume of the outputs for sound, the tasks of the third party,
-- the windows, their sources, the codec tasks of the outputs for sound, the decoders.
pub record Tables : Type 0 where
  pub vo_infos : List VoInfo
  pub ao_infos : List AoInfo
  pub echoes : List (ℕ × List ℕ)
  pub ao_audio : List (ℕ × (ℕ × ℕ))
  pub third_codec : List (ℕ × ℕ)
  pub swms_dec : List (ℕ × AvDec)
  pub third_src : List (ℕ × SrcVideo)
  pub ao_codec : List (ℕ × ℕ)
  pub decs : List AvDec

-- `DP_URL_LEN`
abbrev pub long_url_len : ℕ
long_url_len = 256

-- `aoAudioInfo->operator[](DP_M2S_AO_DEV_HDMI0_HI3536)`, zeros where there is no entry; the entry of zeros
-- that this call adds to the table is not kept.
abbrev pub hdmi_audio : Tables → ℕ × ℕ
hdmi_audio t = elim (find t.ao_audio 1) [ none ↦ (0, 0) | some a ↦ a ]

abbrev enabled_byte : Bool → ℕ
enabled_byte true = 1
enabled_byte false = 0

-- `_sSingleVoChnInfo` of the output HDMI0: `ID_VO_CHN_VIDEOOUT1` is 0x60, `ID_AO_CHN_VIDEOOUT1` 0x20.
pub vo_bytes : Tables → VoInfo → List ℕ
vo_bytes t v = elim (find t.echoes v.vo_dev) [
  | none ↦
      (enabled_byte v.enabled ∷ (0x60 ∷ [])) ++ (field long_url_len [] ++ (0x20 ∷ (0 ∷ (0 ∷ []))))
  | some url ↦
      (enabled_byte v.enabled ∷ (0x60 ∷ []))
      ++ (field long_url_len url
          ++ (0x20 ∷ ((hdmi_audio t).0 % 256 ∷ ((hdmi_audio t).1 % 256 ∷ []))))
]

-- The loop over the outputs; none where one is not HDMI0.
unfoldable pub list_outputs : Tables → List VoInfo → Option (List ℕ)
list_outputs t [] = some []
list_outputs t (v ∷ vs) = elim (list_outputs t vs) [
  | none ↦ none
  | some rest ↦ if v.vo_dev == 0 then some (vo_bytes t v ++ rest) else none
]

abbrev src_bytes : SrcVideo → List ℕ
src_bytes s =
    bytes16 s.video_width
    ++ (bytes16 s.video_height
        ++ (bytes16 s.start_x ++ (bytes16 s.start_y ++ (bytes16 s.end_x ++ bytes16 s.end_y))))

abbrev dst_bytes : Rect → List ℕ
dst_bytes r = bytes16 r.width ++ (bytes16 r.height ++ (bytes16 r.x ++ bytes16 r.y))

-- `sizeof(_sVideoTaskInfo)` bytes.
pub task_bytes : VideoTask → List ℕ
task_bytes v =
    (v.vo_chn ∷ [])
    ++ (u32_bytes v.task_id
        ++ ((v.z_index % 256 ∷ (v.stream_status % 256 ∷ []))
            ++ (src_bytes v.src ++ (dst_bytes v.dst ++ field long_url_len v.url))))

-- What an `_sVideoTaskInfo` holds after the turn for a decoder, or the code of an error.
pub data Turn : Type 0 where
  filled : VideoTask → Turn
  refused : ℕ → Turn

-- The members for a shown window.
abbrev pub place_window : AvDec → VideoTask → VideoTask
place_window d v = record v { vo_chn = 0x60; z_index = d.priority; dst = d.rect }

-- The address and the source, which stays as it was where the table has none.
abbrev pub name_source : Tables → AvDec → VideoTask → VideoTask
name_source t d v = elim (find t.third_src v.task_id) [
  | none ↦ record v { url = d.url }
  | some s ↦ record v { url = d.url; src = s }
]

-- A turn of the loop over the windows, on the structure that all turns share.
unfoldable pub window_turn : Tables → AvDec → VideoTask → Turn
window_turn t d v = elim (find_third t.third_codec d.tsk_id) [
  | none ↦ refused ErrorCode.task_id_notexist
  | some third ↦
      if d.swms
      then (if d.vo_dev == 0
          then filled (name_source t d (place_window d (record v { task_id = third })))
          else refused ErrorCode.vo_id_invalid)
      else filled (name_source t d (record v { task_id = third }))
]

-- The bytes of the windows, or the code of the first error.
pub data Listing : Type 0 where
  listed : List ℕ → Listing
  failed : ℕ → Listing

abbrev pub before : List ℕ → Listing → Listing
before bytes (listed rest) = listed (bytes ++ rest)
before bytes (failed code) = failed code

unfoldable pub list_windows : Tables → List (ℕ × AvDec) → VideoTask → Listing
list_windows t [] v = listed []
list_windows t ((chn, d) ∷ ds) v = elim (window_turn t d v) [
  | refused code ↦ failed code
  | filled v' ↦ before (task_bytes v') (list_windows t ds v')
]

-- `Property_Get_OutputVideoChnInfo` and `Property_Get_OutputAudioChnInfo`
abbrev pub property_output_video : ℕ
property_output_video = 0x1002

abbrev pub property_output_audio : ℕ
property_output_audio = 0x1003

-- `Get_OutputVideoChnInfo`; `fresh` is the structure as it comes from `new`, which sets no member.
unfoldable pub get_output_video_chn_info : Sender → VideoTask → Tables → List ℕ
get_output_video_chn_info me fresh t =
    if length t.vo_infos == 0
    then reply_get_info me property_output_video ErrorCode.state_abnormal []
    else elim (list_outputs t t.vo_infos) [
      | none ↦ reply_get_info me property_output_video ErrorCode.vo_id_invalid []
      | some outputs ↦ elim (list_windows t t.swms_dec fresh) [
        | failed code ↦ reply_get_info me property_output_video code []
        | listed windows ↦
            reply_get_info me property_output_video 0
              ((length t.vo_infos % 256 ∷ (length t.swms_dec % 256 ∷ [])) ++ (outputs ++ windows))
      ]
    ]

-- `_sSingleAoChnInfo`
pub record AoChn : Type 0 where
  pub mute : ℕ
  pub chn : ℕ
  pub volume : ℕ
  pub audio_in : ℕ
  pub task : AudioTask

-- `_sAudioTaskInfo()`
abbrev pub no_task : AudioTask
no_task = record {
  task_id = 0;
  stream_status = 0;
  url = [];
  src_audio = 0 ∷ (0 ∷ (0 ∷ (0 ∷ [])));
  ao_chn = 0;
}

-- `SampleRate_AUDIO_44K`, 16 bits, stereo, `AUDIO_ENCODE_AAC`
abbrev pub stereo_aac : List ℕ
stereo_aac = 44 ∷ (16 ∷ (1 ∷ (3 ∷ [])))

-- `ID_AO_CHN_LINEOUT1` and `ID_AO_CHN_VIDEOOUT1`
unfoldable pub ao_chn_of : ℕ → Option ℕ
ao_chn_of dev = if dev == 0 then some 0x30 else if dev == 1 then some 0x20 else none

-- The codec task that plays on an output, with its decoder and its task of the third party.
unfoldable pub playing : Tables → ℕ → Option (AvDec × ℕ)
playing t dev = elim (find t.ao_codec dev) [
  | none ↦ none
  | some codec ↦ elim (find_dec codec t.decs) [
    | none ↦ none
    | some d ↦ elim (find_third t.third_codec codec) [ none ↦ none | some third ↦ some (d, third) ]
  ]
]

-- A turn of the loop over the outputs for sound: the entry, and the task that all turns share.
unfoldable pub sound_turn : Tables → AoInfo → ℕ → AudioTask → AoChn × AudioTask
sound_turn t a chn shared = elim (playing t a.ao_dev) [
  | none ↦ (record { mute = 0; chn = chn; volume = a.volume; audio_in = 0; task = shared }, shared)
  | some (d, third) ↦
      let task : AudioTask = record {
        task_id = third;
        stream_status = 1;
        url = d.url;
        src_audio = stereo_aac;
        ao_chn = chn;
      } in
      (record { mute = 1; chn = chn; volume = a.volume; audio_in = 1; task = task }, task)
]

-- The loop over the outputs for sound; none where one is not known.
unfoldable pub list_sounds : Tables → List AoInfo → AudioTask → Option (List AoChn)
list_sounds t [] shared = some []
list_sounds t (a ∷ others) shared = elim (ao_chn_of a.ao_dev) [
  | none ↦ none
  | some chn ↦ elim (list_sounds t others (sound_turn t a chn shared).1) [
    | none ↦ none
    | some rest ↦ some ((sound_turn t a chn shared).0 ∷ rest)
  ]
]

-- `sizeof(_sSingleAoChnInfo)` bytes.
pub ao_bytes : AoChn → List ℕ
ao_bytes c =
    (c.mute ∷ (c.chn ∷ (c.volume % 256 ∷ (c.audio_in ∷ []))))
    ++ (u32_bytes c.task.task_id
        ++ ((c.task.stream_status ∷ [])
            ++ (field long_url_len c.task.url ++ (c.task.src_audio ++ (c.task.ao_chn ∷ [])))))

pub all_ao_bytes : List AoChn → List ℕ
unfolding ao_bytes
all_ao_bytes [] = []
all_ao_bytes (c ∷ cs) = ao_bytes c ++ all_ao_bytes cs

-- `Get_OutputAudioChnInfo`
unfoldable pub get_output_audio_chn_info : Sender → Tables → List ℕ
get_output_audio_chn_info me t =
    if length t.ao_infos == 0
    then reply_get_info me property_output_audio ErrorCode.state_abnormal []
    else elim (list_sounds t t.ao_infos no_task) [
      | none ↦ reply_get_info me property_output_audio ErrorCode.ao_id_invalid []
      | some cs ↦
          reply_get_info me property_output_audio 0
            ((length t.ao_infos % 256 ∷ []) ++ all_ao_bytes cs)
    ]

-- `getInfo`, in the build for output nodes: the other properties are answered by nothing.
unfoldable pub get_info : Sender → VideoTask → Tables → ℕ → Option (List ℕ)
get_info me fresh t property =
    if property == property_output_video
    then some (get_output_video_chn_info me fresh t)
    else if property == property_output_audio
    then some (get_output_audio_chn_info me t)
    else none
