-- ===== src/Crop/Tests.antt =====
-- The crop check on a few rectangles.
use server_communication.Prelude.{ℕ, ◌+◌, ◌≤◌, ◌≡◌, ◌↔◌, refl, true, false, some, arith}
use server_communication.AvDec.{Rect}
use server_communication.Crop.{
  sync_1080p60, sync_butt, screen, crop_is_legitimate, SrcVideo, crop_of,
}
use server_communication.Crop.Rules.{Legitimate, crop_is_legitimate_iff, crop_of_ordered}

abbrev pub whole : SrcVideo
whole = record {
  video_width = 1920;
  video_height = 1080;
  start_x = 0;
  start_y = 0;
  end_x = 1920;
  end_y = 1080;
}

abbrev whole_crop : Rect
whole_crop = record { x = 0; y = 0; width = 1920; height = 1080 }

passes : crop_is_legitimate (crop_of whole) sync_1080p60 ≡ true
unfolding crop_of crop_is_legitimate
passes = refl

no_sync : crop_is_legitimate whole_crop sync_butt ≡ false
unfolding crop_is_legitimate
no_sync = refl

odd : crop_is_legitimate (record whole_crop { x = 1 }) sync_1080p60 ≡ false
unfolding crop_is_legitimate
odd = refl

crop_is_legitimate_iff_example :
    (crop_is_legitimate whole_crop sync_1080p60 ≡ true)
    ↔ ((w : ℕ) × (h : ℕ) × (screen sync_1080p60 ≡ some (w, h)) × Legitimate whole_crop w h)
crop_is_legitimate_iff_example = crop_is_legitimate_iff whole_crop sync_1080p60

crop_of_ordered_example :
    (whole.start_x + 64 ≤ whole.end_x)
    × (whole.start_y + 64 ≤ whole.end_y)
    × (whole.start_x + (crop_of whole).width ≡ whole.end_x)
    × (whole.start_y + (crop_of whole).height ≡ whole.end_y)
crop_of_ordered_example =
    crop_of_ordered whole sync_1080p60 (omega arith) (omega arith) (omega arith) (omega arith)
      passes
