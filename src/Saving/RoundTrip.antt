-- ===== src/Saving/RoundTrip.antt =====
-- What src/TaskRestore.cpp writes of a decoder or an encoder is read back, and so is a list of decoders.
use Prim.Native.String.{String}
use text.Mathlib.TextPositions.{eq_refl}
use mathlib.Core.Path.{subst}
use server_communication.Prelude.{◌≡◌, ◌>>=◌, refl, List, [], ◌∷◌, some, map, arith}
use server_communication.Prelude.Int.{ℤ, pos, negsuc, IsS32}
use server_communication.Saving.Json.{Json, IsJson}
use server_communication.Saving.Info.{RtspClient, Stream, rtsp_client, Vdec, DecInfo, Venc, EncInfo}
use server_communication.Saving.Write.{write_vdec, write_dec, write_venc, write_enc}
use server_communication.Saving.Read.{
  int_at, bool_at, uint_bool_at, dec_open_at, read_vdec, read_dec, read_all, read_decs, read_venc,
  read_enc,
}
use server_communication.Saving.Fits.{
  IsS8, StreamFits, NotNegative, VdecFits, DecFits, VencFits, EncFits, AllFit,
}
use server_communication.Saving.Parts.{
  bit-small, truth-bit, bool_at-ReadsFlag, uint_bool_at-ReadsFlag, read-write_av_bind,
  read-write_stream, read-write_area, read-write_alg, read-write_aenc, read-write_zoom,
  read-write_osd, read-write_swms,
}

IsS8-IsS32 : (z : ℤ) → IsS8 z → IsS32 z
IsS8-IsS32 (pos n) h = omega arith
IsS8-IsS32 (negsuc n) h = omega arith

module _ (J : Json) (law : IsJson J) where
  open J use {null, get, put, array, parse}

  read-write_vdec : (d : Vdec) → VdecFits d → read_vdec J (write_vdec J d null) ≡ some d
  unfolding read_vdec write_vdec
  read-write_vdec d f =
      let alg_read = read-write_alg J law d.alg f.alg_fits in
      let crop_read = read-write_area J law d.crop f.crop_fits in
      let zoom_read = read-write_zoom J law d.zoom f.zoom_fits in
      let osd_read = read-write_osd J law d.osd f.osd_fits in
      let swms_read = read-write_swms J law d.swms f.swms_fits in
      grind (arith, law.get-put, law.get-null, law.as_int-num, bit-small, truth-bit)

  dec_open :
      (s : Stream)
      → StreamFits s
      → NotNegative s
      → (c : RtspClient) → s ≡ rtsp_client c
      → (v : J.Value) → get "s8Open" v ≡ J.num c.s8_open
      → dec_open_at J "s8Open" v ≡ some c.s8_open
  dec_open s f p c e v h =
      let (n, same) = subst NotNegative e p in
      let fit = subst StreamFits e f in rw (h, same) (grind (arith, law.as_uint-num))

  -- A decoder that was saved is read back: for fields that hold values of their types, texts that end
  -- with their zero in their fields, no negative `s8Open`, and unions of the types that the code knows.
  pub read-write_dec : (i : DecInfo) → DecFits i → read_dec J (write_dec J i null) ≡ some i
  unfolding read_dec write_dec
  read-write_dec i f =
      let bind_read = read-write_av_bind J law i.bind f.bind_fits in
      let stream_read =
        read-write_stream J law (uint_bool_at J) (uint_bool_at-ReadsFlag J law) (dec_open_at J)
          i.stream f.stream_fits (dec_open i.stream f.stream_fits f.not_negative) in
      let vdec_read = read-write_vdec i.vdec f.vdec_fits in
      grind (arith, law.get-put, law.get-null, law.as_int-num, law.as_uint-num)

  read-write_all :
      (is : List DecInfo)
      → AllFit is
      → read_all J (read_dec J) (map (λ i. write_dec J i null) is) ≡ some is
  unfolding read_all
  read-write_all [] f = refl
  read-write_all (i ∷ is) f = rw (read-write_dec i f.0, read-write_all is f.1) refl

  -- A file that the library parses to a value into which decoders, at least one, were written in an array
  -- under the title gives them back in order, whatever the codec said before: for fields that hold
  -- values of their types, texts that end with their zero in their fields, no negative `s8Open`, and
  -- unions of the types that the code knows.
  pub read-write_decs :
      (file : J.File) (title : String) (i : DecInfo) (is old : List DecInfo)
      → AllFit (i ∷ is)
      → parse file ≡ some (put title (array (map (λ d. write_dec J d null) (i ∷ is))) null)
      → (parse file >>= (λ v. read_decs J title v old)) ≡ some (i ∷ is)
  unfolding read_decs
  read-write_decs file title i is old f p =
      rw
        (
          p,
          law.get-put title title (array (map (λ d. write_dec J d null) (i ∷ is))) null,
          eq_refl title,
          law.items-array (map (λ d. write_dec J d null) (i ∷ is)),
          read_decs,
        )
        (read-write_all (i ∷ is) f)

  read-write_venc : (e : Venc) → VencFits e → read_venc J (write_venc J e null) ≡ some e
  unfolding read_venc write_venc
  read-write_venc e f =
      let alg_read = read-write_alg J law e.alg f.alg_fits in
      let crop_read = read-write_area J law e.crop f.crop_fits in
      let zoom_read = read-write_zoom J law e.zoom f.zoom_fits in
      let osd_read = read-write_osd J law e.osd f.osd_fits in
      grind (arith, law.get-put, law.get-null, law.as_int-num, bit-small, truth-bit)

  enc_open :
      (s : Stream)
      → StreamFits s
      → (c : RtspClient) → s ≡ rtsp_client c
      → (v : J.Value) → get "s8Open" v ≡ J.num c.s8_open
      → int_at J "s8Open" v ≡ some c.s8_open
  enc_open s f c e v h =
      let fit = subst StreamFits e f in
      rw (h, int_at) (law.as_int-num c.s8_open (IsS8-IsS32 c.s8_open fit.0))

  -- An encoder that was saved is read back into memory that was zero: for fields that hold values of their
  -- types, texts that end with their zero in their fields, and unions of the types that the code knows.
  pub read-write_enc : (i : EncInfo) → EncFits i → read_enc J (write_enc J i null) ≡ some i
  unfolding read_enc write_enc
  read-write_enc i f =
      let bind_read = read-write_av_bind J law i.bind f.bind_fits in
      let stream_read =
        read-write_stream J law (bool_at J) (bool_at-ReadsFlag J law) (int_at J) i.stream
          f.stream_fits (enc_open i.stream f.stream_fits) in
      let aenc_read = read-write_aenc J law i.aenc f.aenc_fits in
      let venc_read = read-write_venc i.venc f.venc_fits in
      grind (arith, law.get-put, law.get-null, law.as_int-num, law.as_uint-num)
