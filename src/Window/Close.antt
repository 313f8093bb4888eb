-- ===== src/Window/Close.antt =====
-- `LogicHandle::closeWindow`, which answers a success alone.
use server_communication.Prelude.{ℕ, false, List, ◌∷◌, [], none, some, ◌==◌, if◌then◌else◌}
use server_communication.Prelude.Maps.{erase}
use server_communication.ErrorCode
use server_communication.AvDec.{AvDec, find_dec, map_others, lower, lowered_others}
use server_communication.TaskId.{set_server_task_id}
use server_communication.Window.{
  Node, Output, set_avdec, save_avdec, save_close, close_window, reply, command_close_window, emit,
  forget, put, sort, pop_back,
}

module _ (codec : AvDec → ℕ) where
  -- A lowered window is sent and saved; the codec's answer to it is not looked at.
  abbrev pub relay : List AvDec → List Output
  relay [] = []
  relay (d ∷ ds) = set_avdec d ∷ (save_avdec d ∷ relay ds)

  -- Once the codec has closed the decoder.
  unfoldable pub take_down : Node → ℕ → ℕ → AvDec → Node
  take_down n third id d =
      emit
        (reply command_close_window third ErrorCode.success
          ∷ (save_avdec d
              ∷ (save_close close_window third
                  ∷ relay (lowered_others false d.priority id n.decs))))
        (record (forget third n) {
          swms_dec = erase d.swms_chn n.swms_dec;
          win_priority = sort (pop_back n.win_priority);
          decs = map_others (lower false d.priority) id n.decs;
          third_src = erase third n.third_src;
        })

  -- `closeWindow`
  unfoldable pub close : Node → ℕ → Node
  unfolding take_down
  close n third =
      let id = set_server_task_id n.ids third in
      if id == ErrorCode.task_id_notexist then n else elim (find_dec id n.decs) [
        | none ↦ n
        | some d ↦
            let d' = record d { s8_open = 0; swms = false } in
            let n' = emit (set_avdec d' ∷ []) (put id d' n) in
            if codec d' == 0 then take_down n' third id d' else n'
      ]
