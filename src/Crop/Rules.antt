-- ===== src/Crop/Rules.antt =====
-- The crop check against the rules of the decoder, written as arithmetic.
use server_communication.Prelude.{
  ℕ, ◌+◌, ◌/◌, ◌%◌, ◌^◌, ◌≤◌, ◌<◌, ◌≡◌, ◌↔◌, inl, inr, true, some, arith, Option-cases,
}
use server_communication.AvDec.{Rect}
use server_communication.Crop.{
  VideoSync, screen, crop_is_legitimate, SrcVideo, crop_of, min_width, max_width, min_height,
  max_height,
}

-- Even corner and width, a height in fours, a size within the decoder's, and at least a sixteenth
-- of the picture each way.
abbrev pub Legitimate : Rect → ℕ → ℕ → Type 0
Legitimate crop width height =
    (crop.x % 2 ≡ 0)
    × (crop.y % 2 ≡ 0)
    × (crop.width % 2 ≡ 0)
    × (crop.height % 4 ≡ 0)
    × (min_width ≤ crop.width)
    × (crop.width ≤ max_width)
    × (min_height ≤ crop.height)
    × (crop.height ≤ max_height)
    × (width / 16 ≤ crop.width)
    × (height / 16 ≤ crop.height)

crop_sound :
    (crop : Rect) (sync : VideoSync) (w h : ℕ)
    → screen sync ≡ some (w, h)
    → crop_is_legitimate crop sync ≡ true
    → Legitimate crop w h
unfolding crop_is_legitimate
crop_sound crop sync w h e c = ground arith

crop_complete :
    (crop : Rect) (sync : VideoSync) (w h : ℕ)
    → screen sync ≡ some (w, h)
    → Legitimate crop w h
    → crop_is_legitimate crop sync ≡ true
unfolding crop_is_legitimate
crop_complete crop sync w h e l = ground arith

-- The check passes exactly where the sync is one of the three supported ones and the crop keeps the
-- decoder's rules: corner and width even, height a multiple of 4, width 64 to 3840, height 64 to
-- 2160, and each at least a sixteenth of the picture's.
pub crop_is_legitimate_iff :
    (crop : Rect) (sync : VideoSync)
    → (crop_is_legitimate crop sync ≡ true)
      ↔ ((w : ℕ) × (h : ℕ) × (screen sync ≡ some (w, h)) × Legitimate crop w h)
unfolding crop_is_legitimate
crop_is_legitimate_iff crop sync = elim (Option-cases (screen sync)) [
  | inl e ↦ (λ c. ground arith, λ l. cc (e, l.2))
  | inr ((w, h), e) ↦
      (λ c. (w, h, e, crop_sound crop sync w h e c), λ l. crop_complete crop sync l.0 l.1 l.2 l.3)
]

-- A request whose corners are `DP_U16` passes the check only where its end lies past its start by
-- at least 64 each way; then the crop is the distance of the corners and nothing wrapped.
pub crop_of_ordered :
    (src : SrcVideo) (sync : VideoSync)
    → src.start_x < 2 ^ 16
    → src.start_y < 2 ^ 16
    → src.end_x < 2 ^ 16
    → src.end_y < 2 ^ 16
    → crop_is_legitimate (crop_of src) sync ≡ true
    → (src.start_x + 64 ≤ src.end_x)
      × (src.start_y + 64 ≤ src.end_y)
      × (src.start_x + (crop_of src).width ≡ src.end_x)
      × (src.start_y + (crop_of src).height ≡ src.end_y)
unfolding crop_of
crop_of_ordered src sync a b c d h =
    let l = (crop_is_legitimate_iff (crop_of src) sync).0 h in omega (arith, l.3)
