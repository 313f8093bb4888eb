-- ===== src/AvDec.antt =====
-- src/protocol/dp_m2s_prot.h: the decoders of the codec (`DP_M2S_AVDEC_INFO_S`), as far as the node
-- reads or writes them, and src/LogicHandle.h: the search of a decoder by its task id.
pub mod Counts
pub mod Url
use server_communication.Prelude.{
  ℕ, ◌+◌, ◌-◌, ◌%◌, ◌^◌, Bool, true, false, ◌&&◌, ◌||◌, List, [], ◌∷◌, Option, none, some, leb,
  ◌==◌, if◌then◌else◌, map,
}

-- `DP_M2S_AVBIND_TYPE_E`
pub data BindType : Type 0 where
  ai2ao ai2aenc adec2ao vi2vo vi2venc vdec2vo ai2aenc_vi2venc adec2ao_vdec2vo : BindType

-- `DP_M2S_RECT_S` and `DP_M2S_CROP_ATTR_S`
pub record Rect : Type 0 where
  pub x : ℕ
  pub y : ℕ
  pub width : ℕ
  pub height : ℕ

-- `url` has the bytes of `au8Url` before its first zero. `bOsd`, `stOsd`: the text shows a task id, `"ID: %d"`, and the number alone is kept.
pub record AvDec : Type 0 where
  pub tsk_id : ℕ
  pub bind_type : BindType
  pub ao_dev : ℕ
  pub vo_dev : ℕ
  pub s8_open : ℕ
  pub url : List ℕ
  pub udp : Bool
  pub osd : Bool
  pub osd_id : ℕ
  pub crop_on : Bool
  pub crop : Rect
  pub swms : Bool
  pub swms_chn : ℕ
  pub priority : ℕ
  pub rect : Rect

-- `find_if(…, bind2nd(findAVDecEncInfoByCodecID(), id))`
unfoldable pub find_dec : ℕ → List AvDec → Option AvDec
find_dec id [] = none
find_dec id (d ∷ ds) = if d.tsk_id == id then some d else find_dec id ds

-- The iterator that the search gave is written through.
unfoldable pub set_dec : ℕ → AvDec → List AvDec → List AvDec
set_dec id d' [] = []
set_dec id d' (d ∷ ds) = if d.tsk_id == id then d' ∷ ds else d ∷ set_dec id d' ds

-- A loop over all decoders but the one of the iterator (`itP != it`).
unfoldable pub map_others : (AvDec → AvDec) → ℕ → List AvDec → List AvDec
map_others f id [] = []
map_others f id (d ∷ ds) = if d.tsk_id == id then d ∷ map f ds else f d ∷ map_others f id ds

-- The test of the loops that renumber the windows above the one that moved or went.
abbrev pub is_above : ℕ → AvDec → Bool
is_above origin d = d.swms && leb origin d.priority

-- `u32Priority -= 1` on a `DP_U32`, for the windows above; some loops also set `bUDP`.
abbrev pub lower : Bool → ℕ → AvDec → AvDec
lower set_udp origin d =
    if is_above origin d
    then record d { priority = (d.priority + (2 ^ 32 - 1)) % 2 ^ 32; udp = set_udp || d.udp }
    else d

-- The decoders that such a loop changes, as it leaves them, in order.
lowered : Bool → ℕ → List AvDec → List AvDec
lowered set_udp origin [] = []
lowered set_udp origin (d ∷ ds) =
    let rest = lowered set_udp origin ds in
    if is_above origin d then lower set_udp origin d ∷ rest else rest

pub lowered_others : Bool → ℕ → ℕ → List AvDec → List AvDec
unfolding lowered
lowered_others set_udp origin id [] = []
lowered_others set_udp origin id (d ∷ ds) =
    let rest = lowered_others set_udp origin id ds in
    if d.tsk_id == id
    then lowered set_udp origin ds
    else if is_above origin d
    then lower set_udp origin d ∷ rest
    else rest
