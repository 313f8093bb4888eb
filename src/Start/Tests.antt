-- ===== src/Start/Tests.antt =====
-- A list of three decoders: a sound that plays, a window that is shown, a decoder that is free.
use server_communication.Prelude.{none, map, ◌≡◌, refl, true, false, List, [], ◌∷◌, some, arith}
use server_communication.Prelude.Maps.{find, insert}
use server_communication.AvDec.{AvDec, adec2ao, adec2ao_vdec2vo}
use server_communication.TaskId.{TaskType, pool_of, task_type_of_id}
use server_communication.TaskId.Invariant.{IsValid}
use server_communication.Start.{
  kind_of, scan_pool, scan, give_chns, write_counts, fresh, Started, set_output_task_id_in_map,
}
use server_communication.Start.Tables.{has_pool, ids_of, open_ids}
use server_communication.Start.Valid.{Ordered, set_output_task_id_in_map-IsValid}
use server_communication.Start.Init.{first_decs, recover_decs, init_out_avdec}
use server_communication.Start.First.{no_tasks, init_out_avdec-IsValid}
use server_communication.Codec.{Kernel, ConnectAnswer, WriteAnswer, ReadAnswer}
use server_communication.Codec.Ack.{ack_with, set_av_info}
use server_communication.Window.{sort}

abbrev free : AvDec
free = record {
  tsk_id = 1537;
  bind_type = adec2ao_vdec2vo;
  ao_dev = 0;
  vo_dev = 0;
  s8_open = 0;
  url = [];
  udp = false;
  osd = false;
  osd_id = 0;
  crop_on = false;
  crop = record { x = 0; y = 0; width = 0; height = 0 };
  swms = false;
  swms_chn = 0;
  priority = 0;
  rect = record { x = 0; y = 0; width = 0; height = 0 };
}

abbrev shown : AvDec
shown = record free { tsk_id = 1536; s8_open = 2; swms = true }

abbrev sound : AvDec
sound = record free { tsk_id = 256; bind_type = adec2ao; s8_open = 1 }

abbrev three : List AvDec
three = sound ∷ (shown ∷ (free ∷ []))

abbrev started : Started
started = record {
  ids = write_counts (scan fresh three);
  win_priority = sort (scan fresh three).win_priority;
  swms_dec = (scan fresh three).swms_dec;
  decs = sound ∷ (shown ∷ (record free { swms_chn = 1 } ∷ []));
}

starts : set_output_task_id_in_map three ≡ some started
unfolding find insert kind_of scan_pool scan give_chns write_counts set_output_task_id_in_map
starts = refl

three-Ordered : Ordered three
unfolding kind_of has_pool task_type_of_id
three-Ordered = ((refl, (refl, (refl, tt))), (λ h. refl, (λ h. refl, (λ h. refl, tt))))

set_output_task_id_in_map-IsValid_example :
    IsValid started.ids
    × ((t : TaskType) → pool_of started.ids t ≡ ids_of t three)
    × (started.ids.all_used ≡ open_ids three)
set_output_task_id_in_map-IsValid_example =
    set_output_task_id_in_map-IsValid three started three-Ordered (omega arith) starts

-- A codec that takes every message at once.
abbrev willing : AvDec → Kernel
willing d = record {
  tries = λ n. ConnectAnswer.connected;
  write = WriteAnswer.sent 100;
  reads = λ n. ReadAnswer.received (ack_with 9 14 0);
}

takes_first : set_av_info 1 (map willing first_decs) 100 ≡ some true
unfolding set_av_info first_decs
takes_first = refl

first_decs-Ordered : Ordered (recover_decs none first_decs)
unfolding kind_of has_pool task_type_of_id first_decs recover_decs
first_decs-Ordered = ground arith

init_out_avdec-IsValid_example :
    (s : Started) × (init_out_avdec 1 willing willing 100 (no_tasks none) ≡ some (true, some s))
    × IsValid s.ids
    × ((t : TaskType) → pool_of s.ids t ≡ ids_of t (recover_decs none first_decs))
    × (s.ids.all_used ≡ open_ids (recover_decs none first_decs))
unfolding recover_decs first_decs
init_out_avdec-IsValid_example =
    init_out_avdec-IsValid 1 willing willing 100 none takes_first takes_first first_decs-Ordered
      (omega arith)
