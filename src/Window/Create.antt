-- ===== src/Window/Create.antt =====
-- `LogicHandle::createWindow`
use server_communication.Prelude.{
  ℕ, ◌||◌, true, ◌∷◌, [], ◌++◌, none, some, ltb, ◌==◌, if◌then◌else◌,
}
use server_communication.Prelude.Maps.{insert}
use server_communication.ErrorCode
use server_communication.AvDec.Url.{copy_url}
use server_communication.AvDec.{AvDec, find_dec}
use server_communication.Crop.{crop_of}
use server_communication.TaskId.{audio_and_video_task, get_new_codec_task_id}
use server_communication.Window.{
  Node, OpenRequest, set_avdec, reply, command_create_window, vo_dev_hdmi0, vo_chn_videoout1,
  last_task_id, emit, forget, put, sort, pop_back, new_priority, rect_of, can_show,
}

-- The answer of the codec to a decoder that is sent to it.
module _ (codec : AvDec → ℕ) where
  -- The decoder as the codec shall run it.
  abbrev pub window_dec : OpenRequest → AvDec → ℕ → AvDec
  window_dec req d priority =
      record (copy_url req.rtsp_url (record d { vo_dev = vo_dev_hdmi0; s8_open = 2 })) {
        rect = rect_of req.dst;
        swms = true;
        priority = priority;
        crop_on = true;
        crop = crop_of req.src;
      }

  -- From the new priority on.
  unfoldable pub create_show : Node → OpenRequest → ℕ → AvDec → Node × ℕ
  create_show n req id d =
      let priority = new_priority n.win_priority in
      let d' = window_dec req d priority in
      let wp = sort (n.win_priority ++ (priority ∷ [])) in
      let shown = emit (set_avdec d' ∷ []) (put id d' (record n { win_priority = wp })) in
      if codec d' == 0
      then (
        record shown {
          third_src = insert req.task_id req.src n.third_src;
          swms_dec = insert d'.swms_chn d' n.swms_dec;
        },
        ErrorCode.success,
      )
      else (
        record (forget req.task_id shown) { win_priority = pop_back wp },
        ErrorCode.communicate_abnormal_inner,
      )

  -- From the decoder that was found on.
  unfoldable pub create_with : Node → OpenRequest → ℕ → AvDec → Node × ℕ
  unfolding create_show
  create_with n req id d =
      let tagged = record d { osd = true; osd_id = id } in
      let n' = put id tagged n in
      if can_show n (crop_of req.src)
      then if req.vo_chn_id == vo_chn_videoout1
        then create_show n' req id tagged
        else (forget req.task_id n', ErrorCode.vo_id_invalid)
      else (forget req.task_id n', ErrorCode.vo_id_invalid)

  -- The body of the `do … while (0)`, with the code that it leaves in `success`.
  unfoldable pub create_body : Node → OpenRequest → Node × ℕ
  unfolding create_with
  create_body n req =
      if req.audio_in == 0 || req.audio_in == 1
      then (let (ids', id) = get_new_codec_task_id n.ids req.task_id audio_and_video_task in
          let n' = record n { ids = ids' } in
          if ltb last_task_id id
          then ((if id == ErrorCode.third_task_id then n' else forget req.task_id n'), id)
          else elim (find_dec id n'.decs) [
            | none ↦ (forget req.task_id n', ErrorCode.task_id_notexist)
            | some d ↦ create_with n' req id d
          ])
      else (n, ErrorCode.task_param_illegal)

  -- `createWindow`
  unfoldable pub create_window : Node → OpenRequest → Node
  unfolding create_body
  create_window n req =
      let (n', code) = create_body n req in
      emit (reply command_create_window req.task_id code ∷ []) n'
