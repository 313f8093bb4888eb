-- ===== src/Crop.antt =====
-- src/LogicHandle.cpp: `DP_MediaClient_CheckCropDateIsIegitimate`, in the build for output nodes,
-- and the crop that a request asks for.
mod Rules
pub mod Tests
use server_communication.Prelude.{
  ℕ, ◌+◌, ◌-◌, ◌/◌, ◌%◌, ◌^◌, Bool, true, false, ◌&&◌, ◌||◌, not, Option, none, some, ltb, ◌==◌,
  if◌then◌else◌,
}
use server_communication.AvDec.{Rect}

-- `DP_M2S_VIDEO_SYNC_E`
pub data VideoSync : Type 0 where
  sync_720p60 sync_1080p60 sync_4k30 sync_butt : VideoSync

-- The width and the height of the picture.
unfoldable pub screen : VideoSync → Option (ℕ × ℕ)
screen sync_720p60 = some (1280, 720)
screen sync_1080p60 = some (1920, 1080)
screen sync_4k30 = some (3840, 2160)
screen sync_butt = none

-- `DP_M2S_H264D_MIN_WIDTH` and the other limits of the decoder.
abbrev pub min_width : ℕ
min_width = 64

abbrev pub max_width : ℕ
max_width = 3840

abbrev pub min_height : ℕ
min_height = 64

abbrev pub max_height : ℕ
max_height = 2160

-- `DP_MediaClient_CheckCropDateIsIegitimate`
unfoldable pub crop_is_legitimate : Rect → VideoSync → Bool
unfolding screen
crop_is_legitimate crop sync = elim (screen sync) [
  | none ↦ false
  | some (width, height) ↦
      if not (crop.x % 2 == 0) || not (crop.y % 2 == 0)
      then false
      else if not (crop.width % 2 == 0) || not (crop.height % 4 == 0)
      then false
      else if ltb crop.width min_width || ltb max_width crop.width
      then false
      else if ltb crop.height min_height || ltb max_height crop.height
      then false
      else if ltb crop.width (width / 16)
      then false
      else if ltb crop.height (height / 16)
      then false
      else true
]

-- `_sSrcVideoInfo`
pub record SrcVideo : Type 0 where
  pub video_width : ℕ
  pub video_height : ℕ
  pub start_x : ℕ
  pub start_y : ℕ
  pub end_x : ℕ
  pub end_y : ℕ

-- The difference of two `DP_U16` is an `int`, which a `DP_U32` takes modulo 2^32.
abbrev sub_u32 : ℕ → ℕ → ℕ
sub_u32 a b = (a + 2 ^ 32 - b) % 2 ^ 32

-- The crop of the handlers: from the corners that the request names.
unfoldable pub crop_of : SrcVideo → Rect
crop_of src = record {
  x = src.start_x;
  y = src.start_y;
  width = sub_u32 src.end_x src.start_x;
  height = sub_u32 src.end_y src.start_y;
}
