-- ===== src/Saving/Parts.antt =====
-- Each structure that was written to an empty value is read back.
use Prim.Native.String.{String}
use server_communication.Prelude.{◌^◌, ◌<◌, ◌≡◌, refl, ap, Bool, true, false, Option, some, arith}
use server_communication.Prelude.Int.{ℤ, pos, negsuc}
use server_communication.Saving.Json.{Json, IsJson}
use server_communication.Saving.Info.{
  Source, Bind, AvBind, RtspServer, RtspClient, Stream, rtsp_server, rtsp_client, other_stream,
  Size, Area, H264Enc, H264Dec, AacEnc, Alg, h264_enc, h264_dec, aac_enc, aac_dec, other_alg, Aenc,
  aac, other_aenc, Ratio, Zoom, zoom_rect, zoom_ratio, other_zoom, OsdText, osd_pic, osd_string,
  other_osd, Osd, Swms,
}
use server_communication.Saving.Write.{
  bit, flag, write_source, write_bind, write_av_bind, write_server, write_client, write_stream,
  write_size, write_area, write_h264_enc, write_h264_dec, write_aac_enc, write_alg, write_aenc,
  write_ratio, write_zoom, write_osd_text, write_osd, write_swms,
}
use server_communication.Saving.Read.{
  truth, to_s8, uint_bool_at, bool_at, read_source, read_bind, read_av_bind, read_server,
  read_client, read_stream, read_size, read_area, read_h264_enc, read_h264_dec, read_aac_enc,
  read_alg, read_aenc, read_ratio, read_zoom, read_osd_text, read_osd, read_swms,
}
use server_communication.Saving.Fits.{
  IsU32, IsS8, SourceFits, BindFits, AvBindFits, ServerFits, ClientFits, StreamFits, SizeFits,
  AreaFits, H264EncFits, H264DecFits, AlgFits, AencFits, RatioFits, ZoomFits, OsdTextFits, OsdFits,
  SwmsFits,
}

to_s8_small : (z : ℤ) → IsS8 z → to_s8 z ≡ z
to_s8_small (pos n) h = ground arith
to_s8_small (negsuc n) h = ground arith

pub bit-small : (b : Bool) → bit b < 2 ^ 31
unfolding bit
bit-small true = omega arith
bit-small false = omega arith

pub truth-bit : (b : Bool) → truth (pos (bit b)) ≡ b
unfolding bit
truth-bit true = refl
truth-bit false = refl

module _ (J : Json) (law : IsJson J) where
  open J use {null, get, put}

  read-write_source : (s : Source) → SourceFits s → read_source J (write_source J s null) ≡ some s
  unfolding read_source write_source
  read-write_source s f = grind (arith, law.as_uint-num, law.get-put)

  read-write_bind : (b : Bind) → BindFits b → read_bind J (write_bind J b null) ≡ some b
  unfolding read_bind write_bind
  read-write_bind b f = grind (arith, law.get-put, law.get-null, read-write_source)

  pub read-write_av_bind :
      (b : AvBind) → AvBindFits b → read_av_bind J (write_av_bind J b null) ≡ some b
  unfolding read_av_bind write_av_bind
  read-write_av_bind b f =
      grind (arith, law.get-put, law.get-null, law.as_uint-num, read-write_bind)

  read-write_size : (s : Size) → SizeFits s → read_size J (write_size J s null) ≡ some s
  unfolding read_size write_size
  read-write_size s f = grind (arith, law.as_uint-num, law.get-put)

  pub read-write_area : (a : Area) → AreaFits a → read_area J (write_area J a null) ≡ some a
  unfolding read_area write_area
  read-write_area a f = grind (arith, law.as_int-num, law.as_uint-num, law.get-put)

  read-write_h264_enc :
      (e : H264Enc) → H264EncFits e → read_h264_enc J (write_h264_enc J e null) ≡ some e
  unfolding read_h264_enc write_h264_enc
  read-write_h264_enc e f =
      grind (arith, law.get-put, law.get-null, law.as_uint-num, read-write_size)

  read-write_h264_dec :
      (d : H264Dec) → H264DecFits d → read_h264_dec J (write_h264_dec J d null) ≡ some d
  unfolding read_h264_dec write_h264_dec
  read-write_h264_dec d f =
      grind (arith, law.get-put, law.get-null, law.as_uint-num, read-write_size)

  read-write_aac_enc :
      (e : AacEnc) → IsU32 e.bitrate → read_aac_enc J (write_aac_enc J e null) ≡ some e
  unfolding read_aac_enc write_aac_enc
  read-write_aac_enc e f =
      grind (arith, law.get-put, law.as_uint-num, law.as_int-num, bit-small, truth-bit)

  pub read-write_alg : (a : Alg) → AlgFits a → read_alg J (write_alg J a null) ≡ some a
  unfolding read_alg write_alg
  read-write_alg (h264_enc e) f =
      grind (arith, law.get-put, law.get-null, law.as_uint-num, read-write_h264_enc)
  read-write_alg (h264_dec d) f =
      grind (arith, law.get-put, law.get-null, law.as_uint-num, read-write_h264_dec)
  read-write_alg (aac_enc e) f =
      grind (arith, law.get-put, law.get-null, law.as_uint-num, read-write_aac_enc)
  read-write_alg (aac_dec b) f =
      grind
        (arith, law.get-put, law.get-null, law.as_uint-num, law.as_int-num, bit-small, truth-bit)
  read-write_alg (other_alg n) f = grind (arith, law.get-put, law.as_uint-num)

  pub read-write_aenc : (a : Aenc) → AencFits a → read_aenc J (write_aenc J a null) ≡ some a
  unfolding read_aenc write_aenc
  read-write_aenc (aac e) f =
      grind (arith, law.get-put, law.get-null, law.as_uint-num, read-write_aac_enc)
  read-write_aenc (other_aenc n) f = grind (arith, law.get-put, law.as_uint-num)

  read-write_ratio : (r : Ratio) → RatioFits r → read_ratio J (write_ratio J r null) ≡ some r
  unfolding read_ratio write_ratio
  read-write_ratio r f = grind (arith, law.get-put, law.as_uint-num)

  pub read-write_zoom : (z : Zoom) → ZoomFits z → read_zoom J (write_zoom J z null) ≡ some z
  unfolding read_zoom write_zoom
  read-write_zoom (zoom_rect a) f =
      grind (arith, law.get-put, law.get-null, law.as_uint-num, read-write_area)
  read-write_zoom (zoom_ratio r) f =
      grind (arith, law.get-put, law.get-null, law.as_uint-num, read-write_ratio)
  read-write_zoom (other_zoom n) f = grind (arith, law.get-put, law.as_uint-num)

  pub read-write_swms : (s : Swms) → SwmsFits s → read_swms J (write_swms J s null) ≡ some s
  unfolding read_swms write_swms
  read-write_swms s f = grind (arith, law.get-put, law.get-null, law.as_uint-num, read-write_area)

  read-write_osd_text :
      (o : OsdText) (v : J.Value)
      → get "stStr" v ≡ null
      → OsdTextFits o
      → read_osd_text J (write_osd_text J o v) ≡ some o
  unfolding read_osd_text write_osd_text
  read-write_osd_text (osd_pic s) v e f =
      grind (arith, law.get-put, law.as_uint-num, law.as_text-text)
  read-write_osd_text (osd_string s color) v e f =
      grind (arith, law.get-put, law.get-null, law.as_uint-num, law.as_text-text)
  read-write_osd_text (other_osd n) v e f = grind (arith, law.get-put, law.as_uint-num)

  pub read-write_osd : (o : Osd) → OsdFits o → read_osd J (write_osd J o null) ≡ some o
  unfolding read_osd write_osd
  read-write_osd o f =
      grind (arith, law.get-put, law.get-null, law.as_uint-num, law.as_int-num, read-write_osd_text)

  -- A way to read `bMulticast` that reads a flag.
  abbrev ReadsFlag : (String → J.Value → Option Bool) → Type 0
  ReadsFlag read = (k : String) (v : J.Value) (b : Bool) → get k v ≡ flag J b → read k v ≡ some b

  pub bool_at-ReadsFlag : ReadsFlag (bool_at J)
  bool_at-ReadsFlag k v b e =
      rw (e, law.as_int-num (pos (bit b)) (bit-small b)) (ap some (truth-bit b))

  pub uint_bool_at-ReadsFlag : ReadsFlag (uint_bool_at J)
  uint_bool_at-ReadsFlag k v b e =
      rw (e, law.as_uint-num (bit b) (omega (arith, bit-small b))) (ap some (truth-bit b))

  module _ (multicast_at : String → J.Value → Option Bool) (reads : ReadsFlag multicast_at) where
    read-write_server :
        (s : RtspServer)
        → ServerFits s
        → read_server J multicast_at (write_server J s null) ≡ some s
    unfolding read_server write_server
    read-write_server s f =
        let flag_read =
          reads "bMulticast" (write_server J s null) s.multicast (grind (arith, law.get-put)) in
        grind (arith, law.get-put, law.as_int-num, law.as_text-text, bit-small, truth-bit)

    module _ (open_at : String → J.Value → Option ℤ) (c : RtspClient)
        (opens : (v : J.Value)
          → get "s8Open" v ≡ J.num c.s8_open
          → open_at "s8Open" v ≡ some c.s8_open) where
      read-write_client :
          ClientFits c → read_client J open_at multicast_at (write_client J c null) ≡ some c
      unfolding read_client write_client
      read-write_client f =
          let flag_read =
            reads "bMulticast" (write_client J c null) c.multicast (grind (arith, law.get-put)) in
          let open_read = opens (write_client J c null) (grind (arith, law.get-put)) in
          grind (
            arith, law.get-put, law.as_int-num, law.as_text-text, bit-small, truth-bit, to_s8_small,
          )

    pub read-write_stream :
        (open_at : String → J.Value → Option ℤ) (s : Stream)
        → StreamFits s
        → ((c : RtspClient)
            → s ≡ rtsp_client c
            → (v : J.Value) → get "s8Open" v ≡ J.num c.s8_open
            → open_at "s8Open" v ≡ some c.s8_open)
        → read_stream J open_at multicast_at (write_stream J s null) ≡ some s
    unfolding read_stream write_stream
    read-write_stream open_at (rtsp_server s) f opens =
        grind (arith, law.get-put, law.get-null, law.as_uint-num, read-write_server)
    read-write_stream open_at (rtsp_client c) f opens =
        let client = read-write_client open_at c (opens c refl) f in
        grind (arith, law.get-put, law.get-null, law.as_uint-num)
    read-write_stream open_at (other_stream n) f opens = grind (arith, law.get-put, law.as_uint-num)
