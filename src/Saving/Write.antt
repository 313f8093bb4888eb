-- ===== src/Saving/Write.antt =====
-- src/TaskRestore.cpp: `avDECENC2JsonValue` for a decoder and for an encoder. The assignments to members
-- of one structure are a function of their own; `at k f` applies one to the member `k` of a value. A text
-- ends with its zero in its field, as the source, which reads it up to a zero, needs.
use Prim.Native.String.{String}
use server_communication.Prelude.{ℕ, Bool, true, false}
use server_communication.Prelude.Int.{pos}
use server_communication.Saving.Json.{Json}
use server_communication.Saving.Info.{
  Source, Bind, AvBind, RtspServer, RtspClient, Stream, rtsp_server, rtsp_client, other_stream,
  Size, Area, H264Enc, H264Dec, AacEnc, Alg, h264_enc, h264_dec, aac_enc, aac_dec, other_alg, Aenc,
  aac, other_aenc, Ratio, Zoom, zoom_rect, zoom_ratio, other_zoom, OsdText, osd_pic, osd_string,
  other_osd, Osd, Swms, Vdec, DecInfo, Venc, EncInfo,
}

infixl 5 ◌|>◌
abbrev pub ◌|>◌ : {A : Type 0} → A → (A → A) → A
x |> f = f x

-- The number of a `DP_BOOL`
unfoldable pub bit : Bool → ℕ
bit true = 1
bit false = 0

module _ (J : Json) where
  open J use {Value, num, text, get, put}

  abbrev pub at : String → (Value → Value) → Value → Value
  at k f v = put k (f (get k v)) v

  abbrev pub uint : ℕ → Value
  uint n = num (pos n)

  abbrev pub flag : Bool → Value
  flag b = num (pos (bit b))

  unfoldable pub write_source : Source → Value → Value
  write_source s v =
      v
      |> put "ModId" (uint s.mod_id)
      |> put "u32DevId" (uint s.dev_id)
      |> put "u32ChnId" (uint s.chn_id)

  unfoldable pub write_bind : Bind → Value → Value
  write_bind b v = v |> at "stIn" (write_source b.st_in) |> at "stOut" (write_source b.st_out)

  unfoldable pub write_av_bind : AvBind → Value → Value
  write_av_bind b v =
      v
      |> put "enBindType" (uint b.bind_number)
      |> at "stAudio" (write_bind b.audio)
      |> at "stVideo" (write_bind b.video)

  unfoldable pub write_server : RtspServer → Value → Value
  write_server s v =
      v
      |> put "bOpen" (flag s.opened)
      |> put "bUDP" (flag s.udp)
      |> put "bMulticast" (flag s.multicast)
      |> put "s32ConnTimeout" (num s.conn_timeout)
      |> put "s32ConnMax" (num s.conn_max)
      |> put "s32ConnNums" (num s.conn_nums)
      |> put "au8Url" (text s.url)

  unfoldable pub write_client : RtspClient → Value → Value
  write_client c v =
      v
      |> put "s8Open" (num c.s8_open)
      |> put "bUDP" (flag c.udp)
      |> put "bMulticast" (flag c.multicast)
      |> put "s32ConnTimeout" (num c.conn_timeout)
      |> put "au8Url" (text c.url)

  -- `DP_M2S_STREAM_RTSP_SERVER` is 0 and `DP_M2S_STREAM_RTSP_CLIENT` is 1.
  unfoldable pub write_stream : Stream → Value → Value
  write_stream (rtsp_server s) v =
      v |> put "enType" (uint 0) |> at "_rtsp" (at "stRtspServer" (write_server s))
  write_stream (rtsp_client c) v =
      v |> put "enType" (uint 1) |> at "_rtsp" (at "stRtspClient" (write_client c))
  write_stream (other_stream n) v = v |> put "enType" (uint n)

  unfoldable pub write_size : Size → Value → Value
  write_size s v = v |> put "u32Width" (uint s.width) |> put "u32Height" (uint s.height)

  unfoldable pub write_area : Area → Value → Value
  write_area a v =
      v
      |> put "s32X" (num a.x)
      |> put "s32Y" (num a.y)
      |> put "u32Width" (uint a.width)
      |> put "u32Height" (uint a.height)

  unfoldable pub write_h264_enc : H264Enc → Value → Value
  write_h264_enc e v =
      v
      |> put "u32FrmRate" (uint e.frm_rate)
      |> at "stSize" (write_size e.size)
      |> put "enRcMode" (uint e.rc_mode)
      |> put "u32Bitrate" (uint e.bitrate)
      |> put "enProfile" (uint e.profile)
      |> put "u32Gop" (uint e.gop)
      |> put "u16SF" (uint e.sf)
      |> put "u16TF" (uint e.tf)

  unfoldable pub write_h264_dec : H264Dec → Value → Value
  write_h264_dec d v = v |> put "enProfile" (uint d.profile) |> at "stSize" (write_size d.size)

  unfoldable pub write_aac_enc : AacEnc → Value → Value
  write_aac_enc e v = v |> put "u32Bitrate" (uint e.bitrate) |> put "bAdts" (flag e.adts)

  -- `DP_M2S_ALG_H264_ENC` is 0, `DP_M2S_ALG_H264_DEC` 1, `DP_M2S_ALG_AAC_ENC` 4, `DP_M2S_ALG_AAC_DEC` 5.
  unfoldable pub write_alg : Alg → Value → Value
  write_alg (h264_enc e) v = v |> put "enAlg" (uint 0) |> at "stH264Enc" (write_h264_enc e)
  write_alg (h264_dec d) v =
      v |> put "enAlg" (uint 1) |> put "enAlg" (uint 1) |> at "stH264Dec" (write_h264_dec d)
  write_alg (aac_enc e) v = v |> put "enAlg" (uint 4) |> at "stAACEnc" (write_aac_enc e)
  write_alg (aac_dec b) v = v |> put "enAlg" (uint 5) |> at "stAACDec" (put "bAdts" (flag b))
  write_alg (other_alg n) v = v |> put "enAlg" (uint n)

  unfoldable pub write_aenc : Aenc → Value → Value
  write_aenc (aac e) v = v |> put "enAlg" (uint 4) |> at "stAACEnc" (write_aac_enc e)
  write_aenc (other_aenc n) v = v |> put "enAlg" (uint n)

  unfoldable pub write_ratio : Ratio → Value → Value
  write_ratio r v =
      v
      |> put "u32XRatio" (uint r.x_ratio)
      |> put "u32YRatio" (uint r.y_ratio)
      |> put "u32WRatio" (uint r.w_ratio)
      |> put "u32HRatio" (uint r.h_ratio)

  -- `DP_M2S_ZOOM_RECT` is 0 and `DP_M2S_ZOOM_RATIO` is 1.
  unfoldable pub write_zoom : Zoom → Value → Value
  write_zoom (zoom_rect a) v = v |> put "enType" (uint 0) |> at "stRect" (write_area a)
  write_zoom (zoom_ratio r) v = v |> put "enType" (uint 1) |> at "stRatio" (write_ratio r)
  write_zoom (other_zoom n) v = v |> put "enType" (uint n)

  -- `DP_M2S_OSD_PIC` is 0 and `DP_M2S_OSD_STRING` is 1.
  unfoldable pub write_osd_text : OsdText → Value → Value
  write_osd_text (osd_pic s) v = v |> put "enType" (uint 0) |> put "au8PicPath" (text s)
  write_osd_text (osd_string s color) v =
      v
      |> put "enType" (uint 1)
      |> at "stStr" (put "au8Str" (text s))
      |> at "stStr" (put "u32Color" (uint color))
  write_osd_text (other_osd n) v = v |> put "enType" (uint n)

  unfoldable pub write_osd : Osd → Value → Value
  write_osd o v =
      write_osd_text o.shown v
      |> put "enDispMode" (uint o.disp_mode)
      |> at "stPoint" (put "s32X" (num o.point_x))
      |> at "stPoint" (put "s32Y" (num o.point_y))

  unfoldable pub write_swms : Swms → Value → Value
  write_swms s v =
      v
      |> put "enVoDevId" (uint s.vo_dev)
      |> put "u32SwmsChn" (uint s.swms_chn)
      |> put "u32Priority" (uint s.priority)
      |> at "stRect" (write_area s.rect)

  unfoldable pub write_vdec : Vdec → Value → Value
  write_vdec d v =
      v
      |> put "bCrop" (flag d.crop_on)
      |> put "bZoom" (flag d.zoom_on)
      |> put "bOsd" (flag d.osd_on)
      |> put "bSwms" (flag d.swms_on)
      |> at "stAlg" (write_alg d.alg)
      |> at "stCrop" (write_area d.crop)
      |> at "stZoom" (write_zoom d.zoom)
      |> at "stOsd" (write_osd d.osd)
      |> at "stSwms" (write_swms d.swms)

  -- `avDECENC2JsonValue(DP_M2S_AVDEC_INFO_S &, Json::Value &)`
  unfoldable pub write_dec : DecInfo → Value → Value
  write_dec i v =
      v
      |> put "s32TskId" (num i.tsk_id)
      |> at "AvBindAttr" (write_av_bind i.bind)
      |> at "stStream" (write_stream i.stream)
      |> at "stAdec" (put "enAlg" (uint i.adec))
      |> at "stVdec" (write_vdec i.vdec)

  unfoldable pub write_venc : Venc → Value → Value
  write_venc e v =
      v
      |> put "bCrop" (flag e.crop_on)
      |> put "bZoom" (flag e.zoom_on)
      |> put "bOsd" (flag e.osd_on)
      |> at "stAlg" (write_alg e.alg)
      |> at "stCrop" (write_area e.crop)
      |> at "stZoom" (write_zoom e.zoom)
      |> at "stOsd" (write_osd e.osd)

  -- `avDECENC2JsonValue(DP_M2S_AVENC_INFO_S &, Json::Value &)`
  unfoldable pub write_enc : EncInfo → Value → Value
  write_enc i v =
      v
      |> put "s32TskId" (num i.tsk_id)
      |> at "stAvBind" (write_av_bind i.bind)
      |> at "stStream" (write_stream i.stream)
      |> at "stAenc" (at "stAlg" (write_aenc i.aenc))
      |> at "stVenc" (write_venc i.venc)
