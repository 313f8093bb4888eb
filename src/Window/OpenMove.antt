-- ===== src/Window/OpenMove.antt =====
-- `LogicHandle::openAndMoveWindow`: a task of the third party that holds a codec task moves its
-- window, another opens one. An error is not answered. Handlers run one after another; one that
-- waits for the latch of `clearAllTask` does not run.
use server_communication.Prelude.{
  ℕ, Bool, ◌&&◌, ◌||◌, not, true, false, List, ◌∷◌, [], ◌++◌, Option, none, some, ltb, ◌==◌,
  if◌then◌else◌, map,
}
use server_communication.Prelude.Maps.{find, insert, assign}
use server_communication.ErrorCode
use server_communication.AvDec.Url.{copy_url}
use server_communication.AvDec.{AvDec, find_dec, map_others, lower, lowered_others}
use server_communication.Crop.{crop_of}
use server_communication.TaskId.{audio_and_video_task, get_new_codec_task_id, set_server_task_id}
use server_communication.Window.{
  Node, OpenRequest, Output, set_avdec, set_avdec_only, save_avdec, save_window, reply,
  command_open_and_move_window, vo_dev_hdmi0, vo_chn_videoout1, last_task_id, emit, forget, put,
  sort, back, pop_back, new_priority, rect_of, can_show,
}

module _ (codec : AvDec → ℕ) where
  abbrev pub answer : OpenRequest → Output
  answer req = reply command_open_and_move_window req.task_id ErrorCode.success

  abbrev pub saved : OpenRequest → AvDec → List Output
  saved req d = save_avdec d ∷ save_window req d.tsk_id ∷ []

  -- A new window: the branches of `openCMD` from the priority on.
  unfoldable pub open_show : Node → OpenRequest → ℕ → AvDec → Node
  open_show n req id d =
      let priority = new_priority n.win_priority in
      let d' = record d { priority = priority; crop_on = true; crop = crop_of req.src } in
      let wp = sort (n.win_priority ++ (priority ∷ [])) in
      let shown = emit (set_avdec d' ∷ []) (put id d' (record n { win_priority = wp })) in
      if codec d' == 0
      then emit (answer req ∷ saved req d') (record shown {
        third_src = insert req.task_id req.src n.third_src;
        swms_dec = insert d'.swms_chn d' n.swms_dec;
      })
      else record (forget req.task_id shown) { win_priority = pop_back wp }

  -- A window that is there comes to the top, and those above it go one down.
  unfoldable pub move_show : Node → OpenRequest → ℕ → AvDec → Node
  move_show n req id d = elim (back n.win_priority) [
    | none ↦ put id d n
    | some top ↦
        let d' = record d { priority = top; crop_on = true; crop = crop_of req.src } in
        let shown = emit (set_avdec d' ∷ []) (put id d' n) in
        if codec d' == 0
        then emit
            (answer req
              ∷ (map set_avdec_only (lowered_others true d.priority id shown.decs) ++ saved req d'))
            (record shown {
              decs = map_others (lower true d.priority) id shown.decs;
              third_src = assign req.task_id req.src n.third_src;
              swms_dec = assign d'.swms_chn d' n.swms_dec;
            })
        else shown
  ]

  -- From the decoder that was found on.
  unfoldable pub place_with : Node → OpenRequest → Bool → ℕ → AvDec → Node
  unfolding open_show move_show
  place_with n req is_open id d =
      let tagged = record d { osd = false; osd_id = id } in
      let by_udp = record tagged { udp = true } in
      let opened = record by_udp {
        vo_dev = vo_dev_hdmi0;
        s8_open = if is_open then 2 else d.s8_open;
      } in
      let dressed = record (copy_url req.rtsp_url opened) { swms = true; rect = rect_of req.dst } in
      if can_show n (crop_of req.src)
      then if req.vo_chn_id == vo_chn_videoout1
        then if is_open
          then open_show (put id dressed n) req id dressed
          else move_show (put id dressed n) req id dressed
        else forget req.task_id (put id by_udp n)
      else forget req.task_id (put id tagged n)

  -- From the codec task id on.
  unfoldable pub place : Node → OpenRequest → Bool → ℕ → Node
  unfolding place_with
  place n req is_open id =
      if ltb last_task_id id
      then (if id == ErrorCode.third_task_id then n else forget req.task_id n)
      else elim (find_dec id n.decs) [
        | none ↦ forget req.task_id n
        | some d ↦ place_with n req is_open id d
      ]

  -- `openAndMoveWindow` past the wait.
  unfoldable pub open_and_move_window : Node → OpenRequest → Node
  unfolding place
  open_and_move_window n req = elim (find n.ids.third_codec req.task_id) [
    | none ↦
        if req.audio_in == 0 || req.audio_in == 1
        then (let (ids', id) = get_new_codec_task_id n.ids req.task_id audio_and_video_task in
            place (record n { ids = ids' }) req true id)
        else n
    | some _ ↦
        let id = set_server_task_id n.ids req.task_id in
        if id == ErrorCode.task_id_notexist then n else place n req false id
  ]

  -- `openAndMoveWindow`: nothing where it waits.
  unfoldable pub open_and_move_request : Node → OpenRequest → Option Node
  unfolding open_and_move_window
  open_and_move_request n req =
      if n.is_clear_tasking && not (n.latch == 0) then none else some (open_and_move_window n req)
