-- ===== src/Window/Move.antt =====
-- `LogicHandle::moveWindow`, which always answers.
use server_communication.Prelude.{ℕ, true, false, ◌∷◌, [], none, some, ◌==◌, if◌then◌else◌, map}
use server_communication.Prelude.Maps.{assign}
use server_communication.ErrorCode
use server_communication.AvDec.{AvDec, find_dec, map_others, lower, lowered_others}
use server_communication.Crop.{SrcVideo, crop_of}
use server_communication.TaskId.{set_server_task_id}
use server_communication.Window.{
  Node, DstVideo, set_avdec, set_avdec_only, reply, command_move_window, emit, put, back, rect_of,
  can_show,
}

-- What the handler reads of `_sRemote_MoveWindow`.
pub record MoveRequest : Type 0 where
  pub task_id : ℕ
  pub src : SrcVideo
  pub dst : DstVideo

module _ (codec : AvDec → ℕ) where
  -- From the priority on.
  unfoldable pub raise : Node → MoveRequest → ℕ → AvDec → Node × ℕ
  raise n req id d = elim (back n.win_priority) [
    | none ↦ (n, ErrorCode.state_abnormal)
    | some top ↦
        let d' = record d { priority = top } in
        let shown = emit (set_avdec d' ∷ []) (put id d' n) in
        if codec d' == 0
        then (
          emit (map set_avdec_only (lowered_others false d.priority id shown.decs)) (record shown {
            decs = map_others (lower false d.priority) id shown.decs;
            third_src = assign req.task_id req.src n.third_src;
            swms_dec = assign d'.swms_chn d' n.swms_dec;
          }),
          ErrorCode.success,
        )
        else (shown, ErrorCode.communicate_abnormal_inner)
  ]

  -- The body of the `do … while (0)`, with the code that it leaves in `success`.
  unfoldable pub move_body : Node → MoveRequest → Node × ℕ
  unfolding raise
  move_body n req =
      let id = set_server_task_id n.ids req.task_id in
      if id == ErrorCode.task_id_notexist
      then (n, ErrorCode.task_id_notexist)
      else elim (find_dec id n.decs) [
        | none ↦ (n, ErrorCode.task_id_notexist)
        | some d ↦
            let crop = crop_of req.src in
            let d' = record d { crop_on = true; crop = crop; rect = rect_of req.dst } in
            let n' = put id d' n in
            if can_show n crop then raise n' req id d' else (n', ErrorCode.vo_id_invalid)
      ]

  -- `moveWindow`
  unfoldable pub move_window : Node → MoveRequest → Node
  unfolding move_body
  move_window n req =
      let (n', code) = move_body n req in emit (reply command_move_window req.task_id code ∷ []) n'
