-- ===== src/Saving/Info.antt =====
-- src/protocol/dp_m2s_prot.h: what is saved of a decoder and of an encoder (`DP_M2S_AVDEC_INFO_S`,
-- `DP_M2S_AVENC_INFO_S`). A structure with a type and a union is a data type with a constructor for each
-- type that src/TaskRestore.cpp knows, and one for the types of which it saves the type alone. An
-- enumeration is its number, a field of text the bytes up to its first zero, which
-- stands in the field: a text that fills its field is read past its end, and is outside of this model.
use server_communication.Prelude.{ℕ, Bool, List}
use server_communication.Prelude.Int.{ℤ}

-- `DP_M2S_SOURCE_RELATION_S`
pub record Source : Type 0 where
  pub mod_id : ℕ
  pub dev_id : ℕ
  pub chn_id : ℕ

-- `DP_M2S_BIND_S`
pub record Bind : Type 0 where
  pub st_in : Source
  pub st_out : Source

-- `DP_M2S_AVBIND_ATTR_S`
pub record AvBind : Type 0 where
  pub bind_number : ℕ
  pub audio : Bind
  pub video : Bind

-- `DP_M2S_RTSP_SERVER_ATTR_S`
pub record RtspServer : Type 0 where
  pub opened : Bool
  pub udp : Bool
  pub multicast : Bool
  pub conn_timeout : ℤ
  pub conn_max : ℤ
  pub conn_nums : ℤ
  pub url : List ℕ

-- `DP_M2S_RTSP_CLIENT_ATTR_S`
pub record RtspClient : Type 0 where
  pub s8_open : ℤ
  pub udp : Bool
  pub multicast : Bool
  pub conn_timeout : ℤ
  pub url : List ℕ

-- `DP_M2S_STREAM_ATTR_S`
pub data Stream : Type 0 where
  rtsp_server : RtspServer → Stream
  rtsp_client : RtspClient → Stream
  other_stream : ℕ → Stream

-- `DP_M2S_SIZE_S`
pub record Size : Type 0 where
  pub width : ℕ
  pub height : ℕ

-- `DP_M2S_RECT_S`, `DP_M2S_CROP_ATTR_S`
pub record Area : Type 0 where
  pub x : ℤ
  pub y : ℤ
  pub width : ℕ
  pub height : ℕ

-- `DP_M2S_ALG_H264ENC_ATTR_S`
pub record H264Enc : Type 0 where
  pub frm_rate : ℕ
  pub size : Size
  pub rc_mode : ℕ
  pub bitrate : ℕ
  pub profile : ℕ
  pub gop : ℕ
  pub sf : ℕ
  pub tf : ℕ

-- `DP_M2S_ALG_H264DEC_ATTR_S`
pub record H264Dec : Type 0 where
  pub profile : ℕ
  pub size : Size

-- `DP_M2S_ALG_AACENC_ATTR_S`
pub record AacEnc : Type 0 where
  pub bitrate : ℕ
  pub adts : Bool

-- `DP_M2S_ALG_ATTR_S`, as that of a video
pub data Alg : Type 0 where
  h264_enc : H264Enc → Alg
  h264_dec : H264Dec → Alg
  aac_enc : AacEnc → Alg
  aac_dec : Bool → Alg
  other_alg : ℕ → Alg

-- `DP_M2S_AENC_ATTR_S`: of the sound of an encoder one type alone is saved with its union.
pub data Aenc : Type 0 where
  aac : AacEnc → Aenc
  other_aenc : ℕ → Aenc

-- `DP_M2S_ZOOM_RATIO_S`
pub record Ratio : Type 0 where
  pub x_ratio : ℕ
  pub y_ratio : ℕ
  pub w_ratio : ℕ
  pub h_ratio : ℕ

-- `DP_M2S_ZOOM_ATTR_S`
pub data Zoom : Type 0 where
  zoom_rect : Area → Zoom
  zoom_ratio : Ratio → Zoom
  other_zoom : ℕ → Zoom

-- The union of `DP_M2S_OSD_ATTR_S`
pub data OsdText : Type 0 where
  osd_pic : List ℕ → OsdText
  osd_string : List ℕ → ℕ → OsdText
  other_osd : ℕ → OsdText

-- `DP_M2S_OSD_ATTR_S`
pub record Osd : Type 0 where
  pub shown : OsdText
  pub disp_mode : ℕ
  pub point_x : ℤ
  pub point_y : ℤ

-- `DP_M2S_SWMS_ATTR_S`
pub record Swms : Type 0 where
  pub vo_dev : ℕ
  pub swms_chn : ℕ
  pub priority : ℕ
  pub rect : Area

-- `DP_M2S_VDEC_ATTR_S`
pub record Vdec : Type 0 where
  pub crop_on : Bool
  pub zoom_on : Bool
  pub osd_on : Bool
  pub swms_on : Bool
  pub alg : Alg
  pub crop : Area
  pub zoom : Zoom
  pub osd : Osd
  pub swms : Swms

-- `DP_M2S_AVDEC_INFO_S`
pub record DecInfo : Type 0 where
  pub tsk_id : ℤ
  pub bind : AvBind
  pub stream : Stream
  pub adec : ℕ
  pub vdec : Vdec

-- `DP_M2S_VENC_ATTR_S`
pub record Venc : Type 0 where
  pub crop_on : Bool
  pub zoom_on : Bool
  pub osd_on : Bool
  pub alg : Alg
  pub crop : Area
  pub zoom : Zoom
  pub osd : Osd

-- `DP_M2S_AVENC_INFO_S`
pub record EncInfo : Type 0 where
  pub tsk_id : ℤ
  pub bind : AvBind
  pub stream : Stream
  pub aenc : Aenc
  pub venc : Venc
