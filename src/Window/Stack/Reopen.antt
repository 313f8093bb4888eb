-- ===== src/Window/Stack/Reopen.antt =====
-- `openAndMoveWindow` for a task that has a window, and the stack of windows.
use server_communication.Prelude.{
  ℕ, ◌+◌, ◌≤◌, ◌≡◌, ◌≢◌, ◌∙◌, refl, true, false, List, some, arith, ◌==◌, ap, le-ltb-false,
}
use server_communication.Prelude.Maps.{find}
use server_communication.ErrorCode
use server_communication.AvDec.Url.{copy_url, copy_url_fits, UrlFits}
use server_communication.AvDec.{AvDec, find_dec, set_dec, map_others, lower}
use server_communication.AvDec.Counts.{
  Words-set_dec, Words-map_others, find_dec-tsk_id, find_dec-set_dec, find_dec-map_others_self,
  find_dec-map_others_ne, find_dec-set_dec_ne, set_dec-set_dec,
}
use server_communication.Crop.{crop_of}
use server_communication.TaskId.Invariant.{IsValid, set_server_task_id-some, held-ne, held_small}
use server_communication.Window.{
  Node, OpenRequest, rect_of, can_show, back, put, vo_chn_videoout1, vo_dev_hdmi0, last_task_id,
}
use server_communication.Window.OpenMove.{move_show, place_with, place, open_and_move_window}
use server_communication.Window.Stack.{IsStack, Stacked, EachOnce-raise, top_of}

-- The task's window is on top where the request wants it and shows the request's stream; those that
-- were above it go one down and are to use UDP; the ids are as they were.
pub record IsReplaced (k : ℕ) (n : Node) (req : OpenRequest) (id : ℕ) (d : AvDec) (n' : Node)
    : Type 0 where
  pub stacked : Stacked k n'
  pub same_ids : n'.ids ≡ n.ids
  pub window : AvDec
  pub found : find_dec id n'.decs ≡ some window
  pub on_top : window.priority + 1 ≡ k
  pub shown : window.swms ≡ true
  pub streams : window.url ≡ req.rtsp_url
  pub placed : window.rect ≡ rect_of req.dst
  pub cropped : window.crop ≡ crop_of req.src
  pub others :
      (j : ℕ) (e : AvDec)
      → j ≢ id
      → find_dec j n.decs ≡ some e
      → find_dec j n'.decs ≡ some (lower true d.priority e)

module _ (codec : AvDec → ℕ) (n : Node) (req : OpenRequest) (k id top : ℕ) (d : AvDec)
    (f : find_dec id n.decs ≡ some d) (s : d.swms ≡ true) (v : Stacked k n) (t : top + 1 ≡ k) where
  abbrev dressed : AvDec
  dressed =
      record (copy_url req.rtsp_url
        (record d { osd = false; osd_id = id; udp = true; vo_dev = vo_dev_hdmi0 })) {
          swms = true;
          rect = rect_of req.dst;
        }

  abbrev raised : AvDec
  raised = record dressed { priority = top; crop_on = true; crop = crop_of req.src }

  abbrev after : List AvDec
  after = map_others (lower true d.priority) id (set_dec id raised n.decs)

  tag : d.tsk_id ≡ id
  tag = find_dec-tsk_id id d n.decs f

  after-IsStack : IsStack k n.win_priority after
  after-IsStack = record {
    ordered = v.ordered;
    each_once =
        EachOnce-raise k id d.priority d raised n.decs f s refl tag v.words v.each_once true refl t
          v.small;
    words =
        Words-map_others true d.priority id _
          (Words-set_dec id raised n.decs (omega (arith, t, v.small)) v.words);
    small = v.small;
  }

  abbrev Done : Node → Type 0
  Done r = (r.win_priority ≡ n.win_priority) × (r.decs ≡ after) × (r.ids ≡ n.ids)

  move_show-Done :
      codec raised ≡ 0
      → back n.win_priority ≡ some top
      → Done (move_show codec (put id dressed n) req id dressed)
  unfolding move_show
  move_show-Done accepts b =
      rw (b, move_show)
        (rw accepts (
          refl,
          ap (map_others (lower true d.priority) id) (set_dec-set_dec id dressed raised n.decs tag),
          refl,
        ))

  place-Done :
      codec raised ≡ 0
      → back n.win_priority ≡ some top
      → id ≤ last_task_id
      → can_show n (crop_of req.src) ≡ true
      → (req.vo_chn_id == vo_chn_videoout1) ≡ true
      → Done (place codec n req false id)
  unfolding place_with place
  place-Done accepts b l c o =
      rw (le-ltb-false id last_task_id l, place) (rw f (rw c (rw o (move_show-Done accepts b))))

  open-eq-place :
      find n.ids.third_codec req.task_id ≡ some id
      → IsValid n.ids
      → open_and_move_window codec n req ≡ place codec n req false id
  unfolding open_and_move_window
  open-eq-place h ok =
      rw (h, open_and_move_window)
        (rw
          (ap (λ i. i == ErrorCode.task_id_notexist)
              (set_server_task_id-some n.ids req.task_id id h)
            ∙ held-ne n.ids req.task_id id ok h)
          (ap (place codec n req false) (set_server_task_id-some n.ids req.task_id id h)))

  Done-IsReplaced : UrlFits req.rtsp_url → (n' : Node) → Done n' → IsReplaced k n req id d n'
  Done-IsReplaced u n' (w, e, i) = record {
    stacked = rw (w, e) after-IsStack;
    same_ids = i;
    window = raised;
    found = rw e (
        find_dec-map_others_self true d.priority id raised _
          (find_dec-set_dec id d raised n.decs f tag));
    on_top = t;
    shown = refl;
    streams = copy_url_fits req.rtsp_url d u;
    placed = refl;
    cropped = refl;
    others = λ j g m h. rw e (
        find_dec-map_others_ne true d.priority id j g _ m
          (rw (find_dec-set_dec_ne id j raised n.decs m tag) h));
  }

-- Where the bookkeeping of ids is in order and the windows are a stack: a request of a task whose
-- window is shown, with a url that fits its field and a crop that the check accepts, for the first output, and a codec that
-- takes every decoder, keeps the windows a stack of the same height and the ids as they were: the
-- task's window shows the stream of the request on top, those that were above it are one down,
-- all others as they were.
pub open_and_move_window-IsReplaced :
    (codec : AvDec → ℕ)
    → ((e : AvDec) → codec e ≡ 0)
    → (n : Node) (req : OpenRequest) (k id : ℕ) (d : AvDec) → UrlFits req.rtsp_url
    → find n.ids.third_codec req.task_id ≡ some id
    → IsValid n.ids
    → find_dec id n.decs ≡ some d
    → d.swms ≡ true
    → can_show n (crop_of req.src) ≡ true
    → (req.vo_chn_id == vo_chn_videoout1) ≡ true
    → Stacked k n
    → IsReplaced k n req id d (open_and_move_window codec n req)
open_and_move_window-IsReplaced codec accepts n req k id d u h ok f s c o v =
    let (top, b, t) = top_of n.win_priority n.decs k id d f s v in
    let small = held_small n.ids req.task_id id ok h in
    rw (open-eq-place codec n req k id top d f s v t h ok) (
      Done-IsReplaced codec n req k id top d f s v t u (place codec n req false id)
        (place-Done codec n req k id top d f s v t (accepts _) b (omega (arith, small)) c o))
