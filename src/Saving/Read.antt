-- ===== src/Saving/Read.antt =====
-- src/TaskRestore.cpp: `jsonValue2AVDec`, and `jsonValue2AVEnc` into memory that is zero. None where the
-- library throws, or a text is longer than its field and overwrites what follows.
use Prim.Native.String.{String}
use server_communication.Prelude.{
  ℕ, ◌-◌, ◌%◌, ◌^◌, Bool, true, not, List, [], ◌∷◌, Option, none, some, ltb, leb, ◌==◌, ◌>>=◌,
  if◌then◌else◌, length,
}
use server_communication.Prelude.Int.{ℤ, pos, negsuc}
use server_communication.Saving.Json.{Json}
use server_communication.Saving.Info.{
  Source, Bind, AvBind, RtspServer, RtspClient, Stream, rtsp_server, rtsp_client, other_stream,
  Size, Area, H264Enc, H264Dec, AacEnc, Alg, h264_enc, h264_dec, aac_enc, aac_dec, other_alg, Aenc,
  aac, other_aenc, Ratio, Zoom, zoom_rect, zoom_ratio, other_zoom, OsdText, osd_pic, osd_string,
  other_osd, Osd, Swms, Vdec, DecInfo, Venc, EncInfo,
}

-- The conversion of a 32-bit integer to `DP_S8`.
abbrev pub to_s8 : ℤ → ℤ
to_s8 (pos n) = if ltb (n % 256) 128 then pos (n % 256) else negsuc (255 - n % 256)
to_s8 (negsuc n) = if ltb (n % 256) 128 then negsuc (n % 256) else pos (255 - n % 256)

-- `DP_BOOL`
abbrev pub truth : ℤ → Bool
truth (pos n) = not (n == 0)
truth (negsuc n) = true

-- `DP_M2S_URL_LEN`, `DP_M2S_OSD_STRING_LEN` and `DP_M2S_OSD_PIC_PATH_LEN`
abbrev pub url_len : ℕ
url_len = 128

abbrev pub osd_string_len : ℕ
osd_string_len = 32

abbrev pub osd_pic_path_len : ℕ
osd_pic_path_len = 64

module _ (J : Json) where
  open J use {Value, get, items, as_int, as_uint, as_text}

  abbrev pub int_at : String → Value → Option ℤ
  int_at k v = as_int (get k v)

  abbrev pub uint_at : String → Value → Option ℕ
  uint_at k v = as_uint (get k v)

  abbrev pub bool_at : String → Value → Option Bool
  bool_at k v = do z ← as_int (get k v); some (truth z)

  abbrev pub uint_bool_at : String → Value → Option Bool
  uint_bool_at k v = do n ← as_uint (get k v); some (truth (pos n))

  -- `memset` and `memcpy` into a field of so many bytes.
  abbrev pub text_at : ℕ → String → Value → Option (List ℕ)
  text_at room k v = do s ← as_text (get k v); if leb (length s) room then some s else none

  unfoldable pub read_source : Value → Option Source
  read_source v = do
    m ← uint_at "ModId" v
    d ← uint_at "u32DevId" v
    c ← uint_at "u32ChnId" v
    some (record { mod_id = m; dev_id = d; chn_id = c })

  unfoldable pub read_bind : Value → Option Bind
  read_bind v = do
    i ← read_source (get "stIn" v)
    o ← read_source (get "stOut" v)
    some (record { st_in = i; st_out = o })

  unfoldable pub read_av_bind : Value → Option AvBind
  read_av_bind v = do
    b ← uint_at "enBindType" v
    a ← read_bind (get "stAudio" v)
    w ← read_bind (get "stVideo" v)
    some (record { bind_number = b; audio = a; video = w })

  -- A decoder's `bMulticast` is read by `asUInt`, an encoder's by `asInt`.
  unfoldable pub read_server : (String → Value → Option Bool) → Value → Option RtspServer
  read_server multicast_at v = do
    o ← bool_at "bOpen" v
    u ← bool_at "bUDP" v
    m ← multicast_at "bMulticast" v
    t ← int_at "s32ConnTimeout" v
    x ← int_at "s32ConnMax" v
    n ← int_at "s32ConnNums" v
    s ← text_at url_len "au8Url" v
    some (record {
      opened = o;
      udp = u;
      multicast = m;
      conn_timeout = t;
      conn_max = x;
      conn_nums = n;
      url = s;
    })

  -- A decoder's `s8Open` is read by `asUInt`, an encoder's by `asInt`.
  unfoldable pub read_client :
      (String → Value → Option ℤ) → (String → Value → Option Bool) → Value → Option RtspClient
  read_client open_at multicast_at v = do
    o ← open_at "s8Open" v
    u ← bool_at "bUDP" v
    m ← multicast_at "bMulticast" v
    t ← int_at "s32ConnTimeout" v
    s ← text_at url_len "au8Url" v
    some (record { s8_open = to_s8 o; udp = u; multicast = m; conn_timeout = t; url = s })

  read_stream_of :
      (String → Value → Option ℤ) → (String → Value → Option Bool) → ℕ → Value → Option Stream
  unfolding read_server read_client
  read_stream_of open_at multicast_at t v =
      if t == 0
      then (do
        s ← read_server multicast_at (get "stRtspServer" (get "_rtsp" v))
        some (rtsp_server s))
      else if t == 1
      then (do
        c ← read_client open_at multicast_at (get "stRtspClient" (get "_rtsp" v))
        some (rtsp_client c))
      else some (other_stream t)

  unfoldable pub read_stream :
      (String → Value → Option ℤ) → (String → Value → Option Bool) → Value → Option Stream
  unfolding read_stream_of
  read_stream open_at multicast_at v = do
    t ← uint_at "enType" v
    read_stream_of open_at multicast_at t v

  unfoldable pub read_size : Value → Option Size
  read_size v = do
    w ← uint_at "u32Width" v
    h ← uint_at "u32Height" v
    some (record { width = w; height = h })

  unfoldable pub read_area : Value → Option Area
  read_area v = do
    a ← int_at "s32X" v
    b ← int_at "s32Y" v
    w ← uint_at "u32Width" v
    h ← uint_at "u32Height" v
    some (record { x = a; y = b; width = w; height = h })

  unfoldable pub read_h264_enc : Value → Option H264Enc
  unfolding read_size
  read_h264_enc v = do
    f ← uint_at "u32FrmRate" v
    s ← read_size (get "stSize" v)
    r ← uint_at "enRcMode" v
    b ← uint_at "u32Bitrate" v
    p ← uint_at "enProfile" v
    g ← uint_at "u32Gop" v
    a ← uint_at "u16SF" v
    c ← uint_at "u16TF" v
    some (record {
      frm_rate = f;
      size = s;
      rc_mode = r;
      bitrate = b;
      profile = p;
      gop = g;
      sf = a % 2 ^ 16;
      tf = c % 2 ^ 16;
    })

  unfoldable pub read_h264_dec : Value → Option H264Dec
  unfolding read_size
  read_h264_dec v = do
    p ← uint_at "enProfile" v
    s ← read_size (get "stSize" v)
    some (record { profile = p; size = s })

  unfoldable pub read_aac_enc : Value → Option AacEnc
  read_aac_enc v = do
    b ← uint_at "u32Bitrate" v
    a ← bool_at "bAdts" v
    some (record { bitrate = b; adts = a })

  read_alg_of : ℕ → Value → Option Alg
  unfolding read_h264_enc read_h264_dec read_aac_enc
  read_alg_of t v =
      if t == 0
      then (do e ← read_h264_enc (get "stH264Enc" v); some (h264_enc e))
      else if t == 1
      then (do d ← read_h264_dec (get "stH264Dec" v); some (h264_dec d))
      else if t == 4
      then (do e ← read_aac_enc (get "stAACEnc" v); some (aac_enc e))
      else if t == 5
      then (do b ← bool_at "bAdts" (get "stAACDec" v); some (aac_dec b))
      else some (other_alg t)

  unfoldable pub read_alg : Value → Option Alg
  unfolding read_alg_of
  read_alg v = do t ← uint_at "enAlg" v; read_alg_of t v

  read_aenc_of : ℕ → Value → Option Aenc
  unfolding read_aac_enc
  read_aenc_of t v =
      if t == 4 then (do e ← read_aac_enc (get "stAACEnc" v); some (aac e)) else some (other_aenc t)

  unfoldable pub read_aenc : Value → Option Aenc
  unfolding read_aenc_of
  read_aenc v = do t ← uint_at "enAlg" v; read_aenc_of t v

  unfoldable pub read_ratio : Value → Option Ratio
  read_ratio v = do
    a ← uint_at "u32XRatio" v
    b ← uint_at "u32YRatio" v
    w ← uint_at "u32WRatio" v
    h ← uint_at "u32HRatio" v
    some (record { x_ratio = a; y_ratio = b; w_ratio = w; h_ratio = h })

  read_zoom_of : ℕ → Value → Option Zoom
  unfolding read_area read_ratio
  read_zoom_of t v =
      if t == 0
      then (do a ← read_area (get "stRect" v); some (zoom_rect a))
      else if t == 1
      then (do r ← read_ratio (get "stRatio" v); some (zoom_ratio r))
      else some (other_zoom t)

  unfoldable pub read_zoom : Value → Option Zoom
  unfolding read_zoom_of
  read_zoom v = do t ← uint_at "enType" v; read_zoom_of t v

  read_osd_text_of : ℕ → Value → Option OsdText
  read_osd_text_of t v =
      if t == 0
      then (do s ← text_at osd_pic_path_len "au8PicPath" v; some (osd_pic s))
      else if t == 1
      then (do
        s ← text_at osd_string_len "au8Str" (get "stStr" v)
        c ← uint_at "u32Color" (get "stStr" v)
        some (osd_string s c))
      else some (other_osd t)

  unfoldable pub read_osd_text : Value → Option OsdText
  unfolding read_osd_text_of
  read_osd_text v = do t ← uint_at "enType" v; read_osd_text_of t v

  unfoldable pub read_osd : Value → Option Osd
  unfolding read_osd_text
  read_osd v = do
    s ← read_osd_text v
    m ← uint_at "enDispMode" v
    a ← int_at "s32X" (get "stPoint" v)
    b ← int_at "s32Y" (get "stPoint" v)
    some (record { shown = s; disp_mode = m; point_x = a; point_y = b })

  unfoldable pub read_swms : Value → Option Swms
  unfolding read_area
  read_swms v = do
    d ← uint_at "enVoDevId" v
    c ← uint_at "u32SwmsChn" v
    p ← uint_at "u32Priority" v
    r ← read_area (get "stRect" v)
    some (record { vo_dev = d; swms_chn = c; priority = p; rect = r })

  unfoldable pub read_vdec : Value → Option Vdec
  unfolding read_alg read_area read_zoom read_osd read_swms
  read_vdec v = do
    c ← bool_at "bCrop" v
    z ← bool_at "bZoom" v
    o ← bool_at "bOsd" v
    s ← bool_at "bSwms" v
    a ← read_alg (get "stAlg" v)
    area ← read_area (get "stCrop" v)
    zoomed ← read_zoom (get "stZoom" v)
    shown ← read_osd (get "stOsd" v)
    joined ← read_swms (get "stSwms" v)
    some (record {
      crop_on = c;
      zoom_on = z;
      osd_on = o;
      swms_on = s;
      alg = a;
      crop = area;
      zoom = zoomed;
      osd = shown;
      swms = joined;
    })

  abbrev pub dec_open_at : String → Value → Option ℤ
  dec_open_at k v = do n ← as_uint (get k v); some (pos n)

  -- A turn of the loop of `jsonValue2AVDec`.
  unfoldable pub read_dec : Value → Option DecInfo
  unfolding read_av_bind read_bind read_source read_stream read_vdec
  read_dec v = do
    i ← int_at "s32TskId" v
    b ← read_av_bind (get "AvBindAttr" v)
    s ← read_stream dec_open_at uint_bool_at (get "stStream" v)
    a ← uint_at "enAlg" (get "stAdec" v)
    d ← read_vdec (get "stVdec" v)
    some (record { tsk_id = i; bind = b; stream = s; adec = a; vdec = d })

  unfoldable pub read_all : {A : Type 0} → (Value → Option A) → List Value → Option (List A)
  read_all f [] = some []
  read_all f (v ∷ vs) = do a ← f v; l ← read_all f vs; some (a ∷ l)

  -- `jsonValue2AVDec`: the list is kept where the file holds no decoder.
  unfoldable pub read_decs : String → Value → List DecInfo → Option (List DecInfo)
  unfolding read_all read_dec
  read_decs title v old = elim (items (get title v)) [
    | [] ↦ some old
    | x ∷ xs ↦ read_all read_dec (x ∷ xs)
  ]

  unfoldable pub read_venc : Value → Option Venc
  unfolding read_alg read_area read_zoom read_osd
  read_venc v = do
    c ← bool_at "bCrop" v
    z ← bool_at "bZoom" v
    o ← bool_at "bOsd" v
    a ← read_alg (get "stAlg" v)
    area ← read_area (get "stCrop" v)
    zoomed ← read_zoom (get "stZoom" v)
    shown ← read_osd (get "stOsd" v)
    some (record {
      crop_on = c;
      zoom_on = z;
      osd_on = o;
      alg = a;
      crop = area;
      zoom = zoomed;
      osd = shown;
    })

  -- `jsonValue2AVEnc(Json::Value, DP_M2S_AVENC_INFO_S &)`
  unfoldable pub read_enc : Value → Option EncInfo
  unfolding read_av_bind read_bind read_source read_stream read_aenc read_venc
  read_enc v = do
    i ← int_at "s32TskId" v
    b ← read_av_bind (get "stAvBind" v)
    s ← read_stream int_at bool_at (get "stStream" v)
    a ← read_aenc (get "stAlg" (get "stAenc" v))
    e ← read_venc (get "stVenc" v)
    some (record { tsk_id = i; bind = b; stream = s; aenc = a; venc = e })
