-- ===== src/Start/First.antt =====
-- src/NodeInfo.cpp: what initOutAVDec leaves behind when the codec takes every decoder.
use server_communication.Prelude.{
  ℕ, ◌≤◌, ◌≡◌, refl, true, List, Option, none, some, arith, length, map,
}
use server_communication.AvDec.{AvDec}
use server_communication.TaskId.{TaskType, pool_of}
use server_communication.TaskId.Invariant.{IsValid}
use server_communication.Codec.{Kernel}
use server_communication.Codec.Ack.{set_av_info}
use server_communication.Start.{Started, set_output_task_id_in_map}
use server_communication.Start.Tables.{ids_of, open_ids}
use server_communication.Start.Valid.{Ordered, set_output_task_id_in_map-IsValid}
use server_communication.Start.Channels.{set_output_task_id_in_map_total}
use server_communication.Start.Init.{first_decs, recover_decs, restore_third, Saved, init_out_avdec}

-- Files that hold no task of the third party.
abbrev pub no_tasks : Option (List AvDec) → Saved
no_tasks decs = record { decs = decs; windows = none; sounds = none }

init_out_avdec-set :
    (fuel : ℕ) (answer again : AvDec → Kernel) (len : ℕ) (decs : Option (List AvDec)) (s : Started)
    → set_av_info fuel (map answer first_decs) len ≡ some true
    → set_av_info fuel (map again (recover_decs decs first_decs)) len ≡ some true
    → set_output_task_id_in_map (recover_decs decs first_decs) ≡ some s
    → init_out_avdec fuel answer again len (no_tasks decs) ≡ some (true, some s)
unfolding init_out_avdec restore_third
init_out_avdec-set fuel answer again len decs s e f g = rw (e, f, g) refl

-- When the codec takes every decoder of the start and, once more, every one after the recovery, and the
-- files hold no task of the third party, an output node starts: if the recovered decoders, at most
-- 64, have distinct ids in the range for their bind type, the bookkeeping of ids is in order, its
-- pools are the ids of the decoders of each kind, and the open ones are in use.
pub init_out_avdec-IsValid :
    (fuel : ℕ) (answer again : AvDec → Kernel) (len : ℕ) (decs : Option (List AvDec))
    → set_av_info fuel (map answer first_decs) len ≡ some true
    → set_av_info fuel (map again (recover_decs decs first_decs)) len ≡ some true
    → Ordered (recover_decs decs first_decs)
    → length (recover_decs decs first_decs) ≤ 64
    → (s : Started) × (init_out_avdec fuel answer again len (no_tasks decs) ≡ some (true, some s))
      × IsValid s.ids
      × ((t : TaskType) → pool_of s.ids t ≡ ids_of t (recover_decs decs first_decs))
      × (s.ids.all_used ≡ open_ids (recover_decs decs first_decs))
init_out_avdec-IsValid fuel answer again len decs e f o b =
    let (s, g) = set_output_task_id_in_map_total (recover_decs decs first_decs) b in
    let (v, p, u) =
      set_output_task_id_in_map-IsValid (recover_decs decs first_decs) s o (omega (arith, b)) g in
    (s, init_out_avdec-set fuel answer again len decs s e f g, v, p, u)
