-- ===== src/Saving/Fits.antt =====
-- The values that the fields of the saved structures hold: the ranges of src/protocol/dp_sd_type.h, texts
-- that end with their zero in their fields, since the source reads them up to a zero, and other types than those whose unions are saved.
use server_communication.Prelude.{ℕ, ◌^◌, ◌<◌, ◌≡◌, ◌≢◌, List, [], ◌∷◌, length}
use server_communication.Prelude.Int.{ℤ, pos, negsuc, IsS32}
use server_communication.Saving.Info.{
  Source, Bind, AvBind, RtspServer, RtspClient, Stream, rtsp_server, rtsp_client, other_stream,
  Size, Area, H264Enc, H264Dec, Alg, h264_enc, h264_dec, aac_enc, aac_dec, other_alg, Aenc, aac,
  other_aenc, Ratio, Zoom, zoom_rect, zoom_ratio, other_zoom, OsdText, osd_pic, osd_string,
  other_osd, Osd, Swms, Vdec, DecInfo, Venc, EncInfo,
}
use server_communication.Saving.Read.{url_len, osd_string_len, osd_pic_path_len}

abbrev pub IsU32 : ℕ → Type 0
IsU32 n = n < 2 ^ 32

-- A `DP_S8`
abbrev pub IsS8 : ℤ → Type 0
IsS8 (pos n) = n < 128
IsS8 (negsuc n) = n < 128

abbrev pub SourceFits : Source → Type 0
SourceFits s = IsU32 s.mod_id × IsU32 s.dev_id × IsU32 s.chn_id

abbrev pub BindFits : Bind → Type 0
BindFits b = SourceFits b.st_in × SourceFits b.st_out

abbrev pub AvBindFits : AvBind → Type 0
AvBindFits b = IsU32 b.bind_number × BindFits b.audio × BindFits b.video

abbrev pub ServerFits : RtspServer → Type 0
ServerFits s =
    IsS32 s.conn_timeout × IsS32 s.conn_max × IsS32 s.conn_nums × (length s.url < url_len)

abbrev pub ClientFits : RtspClient → Type 0
ClientFits c = IsS8 c.s8_open × IsS32 c.conn_timeout × (length c.url < url_len)

abbrev pub StreamFits : Stream → Type 0
StreamFits (rtsp_server s) = ServerFits s
StreamFits (rtsp_client c) = ClientFits c
StreamFits (other_stream n) = IsU32 n × (n ≢ 0) × (n ≢ 1)

-- `s8Open` is 0 to 3 by its description.
abbrev pub NotNegative : Stream → Type 0
NotNegative (rtsp_client c) = (n : ℕ) × (c.s8_open ≡ pos n)
NotNegative _ = Unit {0}

abbrev pub SizeFits : Size → Type 0
SizeFits s = IsU32 s.width × IsU32 s.height

abbrev pub AreaFits : Area → Type 0
AreaFits a = IsS32 a.x × IsS32 a.y × IsU32 a.width × IsU32 a.height

abbrev pub H264EncFits : H264Enc → Type 0
H264EncFits e =
    IsU32 e.frm_rate
    × SizeFits e.size
    × IsU32 e.rc_mode
    × IsU32 e.bitrate
    × IsU32 e.profile
    × IsU32 e.gop
    × (e.sf < 2 ^ 16)
    × (e.tf < 2 ^ 16)

abbrev pub H264DecFits : H264Dec → Type 0
H264DecFits d = IsU32 d.profile × SizeFits d.size

abbrev pub AlgFits : Alg → Type 0
AlgFits (h264_enc e) = H264EncFits e
AlgFits (h264_dec d) = H264DecFits d
AlgFits (aac_enc e) = IsU32 e.bitrate
AlgFits (aac_dec b) = Unit {0}
AlgFits (other_alg n) = IsU32 n × (n ≢ 0) × (n ≢ 1) × (n ≢ 4) × (n ≢ 5)

abbrev pub AencFits : Aenc → Type 0
AencFits (aac e) = IsU32 e.bitrate
AencFits (other_aenc n) = IsU32 n × (n ≢ 4)

abbrev pub RatioFits : Ratio → Type 0
RatioFits r = IsU32 r.x_ratio × IsU32 r.y_ratio × IsU32 r.w_ratio × IsU32 r.h_ratio

abbrev pub ZoomFits : Zoom → Type 0
ZoomFits (zoom_rect a) = AreaFits a
ZoomFits (zoom_ratio r) = RatioFits r
ZoomFits (other_zoom n) = IsU32 n × (n ≢ 0) × (n ≢ 1)

abbrev pub OsdTextFits : OsdText → Type 0
OsdTextFits (osd_pic s) = length s < osd_pic_path_len
OsdTextFits (osd_string s color) = (length s < osd_string_len) × IsU32 color
OsdTextFits (other_osd n) = IsU32 n × (n ≢ 0) × (n ≢ 1)

abbrev pub OsdFits : Osd → Type 0
OsdFits o = OsdTextFits o.shown × IsU32 o.disp_mode × IsS32 o.point_x × IsS32 o.point_y

abbrev pub SwmsFits : Swms → Type 0
SwmsFits s = IsU32 s.vo_dev × IsU32 s.swms_chn × IsU32 s.priority × AreaFits s.rect

pub record VdecFits (d : Vdec) : Type 0 where
  pub alg_fits : AlgFits d.alg
  pub crop_fits : AreaFits d.crop
  pub zoom_fits : ZoomFits d.zoom
  pub osd_fits : OsdFits d.osd
  pub swms_fits : SwmsFits d.swms

pub record DecFits (i : DecInfo) : Type 0 where
  pub tsk_id_fits : IsS32 i.tsk_id
  pub bind_fits : AvBindFits i.bind
  pub stream_fits : StreamFits i.stream
  pub not_negative : NotNegative i.stream
  pub adec_fits : IsU32 i.adec
  pub vdec_fits : VdecFits i.vdec

pub record VencFits (e : Venc) : Type 0 where
  pub alg_fits : AlgFits e.alg
  pub crop_fits : AreaFits e.crop
  pub zoom_fits : ZoomFits e.zoom
  pub osd_fits : OsdFits e.osd

pub record EncFits (i : EncInfo) : Type 0 where
  pub tsk_id_fits : IsS32 i.tsk_id
  pub bind_fits : AvBindFits i.bind
  pub stream_fits : StreamFits i.stream
  pub aenc_fits : AencFits i.aenc
  pub venc_fits : VencFits i.venc

abbrev pub AllFit : List DecInfo → Type 0
AllFit [] = Unit {0}
AllFit (i ∷ is) = DecFits i × AllFit is
