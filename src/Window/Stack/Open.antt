-- ===== src/Window/Stack/Open.antt =====
-- `openAndMoveWindow` for a new task, and the stack of windows.
use server_communication.Prelude.{
  ℕ, ◌+◌, ◌^◌, ◌<◌, ◌≤◌, ◌≡◌, ◌≢◌, ◌∙◌, inr, refl, true, false, ◌||◌, [], ◌∷◌, ◌++◌, none, some,
  arith, ◌==◌, suc, ap, contains, length, le-ltb-false,
}
use server_communication.Prelude.Maps.{find}
use server_communication.AvDec.Url.{copy_url}
use server_communication.AvDec.{AvDec, find_dec, set_dec}
use server_communication.AvDec.Counts.{
  Words-set_dec, find_dec-tsk_id, find_dec-set_dec, find_dec-set_dec_ne, set_dec-set_dec,
}
use server_communication.Crop.{crop_of}
use server_communication.TaskId.{TaskIds, audio_and_video_task, get_new_codec_task_id}
use server_communication.TaskId.Counts.{used_in}
use server_communication.TaskId.Invariant.{IsValid, in_pool_small}
use server_communication.TaskId.Alloc.{get_new_codec_task_id-IsValid}
use server_communication.TaskId.Grant.{get_new_codec_task_id-Answers}
use server_communication.Window.{
  Node, OpenRequest, rect_of, can_show, put, sort, new_priority, vo_chn_videoout1, vo_dev_hdmi0,
  last_task_id,
}
use server_communication.Window.OpenMove.{open_show, place_with, place, open_and_move_window}
use server_communication.Window.Stack.{IsStack, Stacked, Linked, EachOnce-show}
use server_communication.Window.Stack.Numbers.{from, from-append_next, sort-from, new_priority-from}

-- The task holds a codec task id that was unused, whose decoder shows the window on top.
pub record IsOpened (k : ℕ) (n : Node) (req : OpenRequest) (n' : Node) : Type 0 where
  pub id : ℕ
  pub unused : contains n.ids.all_used id ≡ false
  pub held : find n'.ids.third_codec req.task_id ≡ some id
  pub valid : IsValid n'.ids
  pub stacked : Stacked (k + 1) n'
  pub window : AvDec
  pub found : find_dec id n'.decs ≡ some window
  pub on_top : window.priority ≡ k
  pub shown : window.swms ≡ true
  pub placed : window.rect ≡ rect_of req.dst
  pub cropped : window.crop ≡ crop_of req.src
  pub others : (j : ℕ) → j ≢ id → find_dec j n'.decs ≡ find_dec j n.decs

pub grown : (k : ℕ) → sort (from 0 k ++ (k ∷ [])) ≡ from 0 (k + 1)
grown k =
    ap (λ x. sort (from 0 k ++ (x ∷ []))) (omega arith)
    ∙ (ap sort (from-append_next 0 k) ∙ (sort-from 0 (suc k) ∙ ap (from 0) (omega arith)))

module _ (codec : AvDec → ℕ) (n : Node) (req : OpenRequest) (k id : ℕ) (d : AvDec)
    (f : find_dec id n.decs ≡ some d) (h : d.swms ≡ false) (v : Stacked k n)
    (small : k + 1 < 2 ^ 32) where
  abbrev tagged : AvDec
  tagged = record d { osd = false; osd_id = id; udp = true }

  abbrev pub dressed : AvDec
  dressed = record (copy_url req.rtsp_url (record tagged { vo_dev = vo_dev_hdmi0; s8_open = 2 })) {
    swms = true;
    rect = rect_of req.dst;
  }

  abbrev pub window_at : ℕ → AvDec
  window_at p = record dressed { priority = p; crop_on = true; crop = crop_of req.src }

  pub tag : d.tsk_id ≡ id
  tag = find_dec-tsk_id id d n.decs f

  pub priority-eq : new_priority n.win_priority ≡ k
  priority-eq = rw v.ordered (new_priority-from k (omega (arith, small)))

  pub shown-IsStack : IsStack (k + 1) (from 0 (k + 1)) (set_dec id (window_at k) n.decs)
  shown-IsStack = record {
    ordered = refl;
    each_once = EachOnce-show k id d (window_at k) n.decs f h refl refl v.each_once;
    words = Words-set_dec id (window_at k) n.decs (omega (arith, small)) v.words;
    small = small;
  }

  abbrev Done : Node → Type 0
  Done r =
      (r.win_priority ≡ from 0 (k + 1))
      × (r.decs ≡ set_dec id (window_at k) n.decs)
      × (r.ids ≡ n.ids)

  open_show-Done :
      ((e : AvDec) → codec e ≡ 0) → Done (open_show codec (put id dressed n) req id dressed)
  unfolding open_show
  open_show-Done accepts = rw (accepts (window_at (new_priority n.win_priority))) (
      rw priority-eq (
        ap (λ w. sort (w ++ (k ∷ []))) v.ordered ∙ grown k,
        set_dec-set_dec id dressed (window_at k) n.decs tag,
        refl,
      ))

  place-Done :
      ((e : AvDec) → codec e ≡ 0)
      → id ≤ last_task_id
      → can_show n (crop_of req.src) ≡ true
      → (req.vo_chn_id == vo_chn_videoout1) ≡ true
      → Done (place codec n req true id)
  unfolding place_with place
  place-Done accepts b c o =
      rw (le-ltb-false id last_task_id b, place) (rw f (rw c (rw o (open_show-Done accepts))))

-- Where a request of a new task can succeed: an id is left, and every id of the pool has a decoder.
pub record CanOpen (n : Node) (req : OpenRequest) : Type 0 where
  pub valid : IsValid n.ids
  pub linked : Linked n
  pub absent : find n.ids.third_codec req.task_id ≡ none
  pub id_left : used_in n.ids.au_vi_task_id n.ids.all_used < length n.ids.au_vi_task_id
  pub decoder :
      (id : ℕ)
      → contains n.ids.au_vi_task_id id ≡ true
      → (d : AvDec) × (find_dec id n.decs ≡ some d)
  pub sound : (req.audio_in == 0 || req.audio_in == 1) ≡ true
  pub can_crop : can_show n (crop_of req.src) ≡ true
  pub output : (req.vo_chn_id == vo_chn_videoout1) ≡ true

module _ (codec : AvDec → ℕ) (n : Node) (req : OpenRequest) (c : CanOpen n req) where
  abbrev result : TaskIds × ℕ
  result = get_new_codec_task_id n.ids req.task_id audio_and_video_task

  abbrev with_id : Node
  with_id = record n { ids = result.0 }

  open-eq-place : open_and_move_window codec n req ≡ place codec with_id req true result.1
  unfolding open_and_move_window
  open-eq-place = rw (c.absent, open_and_move_window) (rw c.sound refl)

  hidden :
      (id : ℕ) (d : AvDec)
      → find_dec id n.decs ≡ some d
      → contains n.ids.all_used id ≡ false
      → d.swms ≡ false
  hidden id d f u = ground (arith, c.linked id d f)

-- Where the bookkeeping of ids is in order and the windows are a stack, with room for one more
-- 32-bit priority: a request of a task that holds no id, where an id is left and every id of the
-- pool has a decoder, shown windows have ids in use, the crop passes the check, the output is the
-- first, and the codec takes every decoder, opens a window: the task gets an id that was unused,
-- its decoder shows the window with the rectangle and the crop of the request on top of the
-- stack, and no other decoder changes.
pub open_and_move_window-IsOpened :
    (codec : AvDec → ℕ)
    → ((e : AvDec) → codec e ≡ 0)
    → (n : Node) (req : OpenRequest) (k : ℕ) → CanOpen n req
    → Stacked k n
    → k + 1 < 2 ^ 32
    → IsOpened k n req (open_and_move_window codec n req)
open_and_move_window-IsOpened codec accepts n req k c v small =
    let (_, _, grant) =
      get_new_codec_task_id-Answers n.ids req.task_id audio_and_video_task c.valid
        (inr (inr refl)) in
    let (in_pool, unused, _, held, _) = grant c.absent c.id_left in
    let id = (result codec n req c).1 in
    let (d, f) = c.decoder id in_pool in
    let h = hidden codec n req c id d f unused in
    let m = with_id codec n req c in
    let bound = in_pool_small n.ids audio_and_video_task id c.valid (inr (inr refl)) in_pool in
    let (wp, ds, ids) =
      place-Done codec m req k id d f h v small accepts (omega (arith, bound)) c.can_crop
        c.output in
    let t = tag codec m req k id d f h v small in
    rw (open-eq-place codec n req c) (record {
      id = id;
      unused = unused;
      held = rw ids held;
      valid = rw ids (get_new_codec_task_id-IsValid n.ids req.task_id audio_and_video_task c.valid);
      stacked = rw (wp, ds) (shown-IsStack codec m req k id d f h v small);
      window = window_at codec m req k id d f h v small k;
      found = rw ds (find_dec-set_dec id d _ n.decs f t);
      on_top = refl;
      shown = refl;
      placed = refl;
      cropped = refl;
      others = λ j ne. rw ds (find_dec-set_dec_ne id j _ n.decs ne t);
    })
