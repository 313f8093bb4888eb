-- ===== src/Start.antt =====
-- src/NodeInfo.cpp, `setOutputTaskIDInMap`: the tables that the list of decoders gives when an output
-- node starts. Log lines are left out, as is the number of all ids, which nothing reads.
pub mod Tables
pub mod Valid
pub mod Channels
pub mod Init
pub mod First
mod Tests
use server_communication.Prelude.{
  ℕ, zero, suc, ◌+◌, Bool, true, false, List, [], ◌∷◌, ◌++◌, Option, none, some, contains,
  erase_first, ◌>>=◌, ◌==◌, if◌then◌else◌,
}
use server_communication.Prelude.Maps.{insert}
use server_communication.AvDec.{AvDec, BindType, adec2ao, vdec2vo, adec2ao_vdec2vo}
use server_communication.TaskId.{
  TaskIds, TaskType, audio_task, video_task, audio_and_video_task, unknow_task, set_count, u32,
}
use server_communication.Window.{sort}

-- The kind of task that a decoder of a bind type serves.
pub kind_of : BindType → TaskType
kind_of adec2ao = audio_task
kind_of vdec2vo = video_task
kind_of adec2ao_vdec2vo = audio_and_video_task
kind_of _ = unknow_task

-- The members that the first loop fills, with its local counters and free channels.
pub record Scan : Type 0 where
  pub ids : TaskIds
  pub swms_dec : List (ℕ × AvDec)
  pub win_priority : List ℕ
  pub swms_chn : List ℕ
  pub audio_count : ℕ
  pub video_count : ℕ
  pub audio_video_count : ℕ

-- The part of a turn for a shown window.
abbrev pub scan_window : Scan → AvDec → Scan
scan_window s d =
    if d.swms
    then record s {
      swms_dec = insert d.swms_chn d s.swms_dec;
      swms_chn = erase_first s.swms_chn d.swms_chn;
      win_priority = s.win_priority ++ (d.priority ∷ []);
    }
    else s

abbrev pub use_id : Bool → ℕ → TaskIds → TaskIds
use_id opened id s = if opened then record s { all_used = s.all_used ++ (id ∷ []) } else s

abbrev pub count_one : Bool → ℕ → ℕ
count_one opened n = if opened then u32 (n + 1) else n

abbrev pub is_open : AvDec → Bool
is_open d = if d.s8_open == 0 then false else true

-- The part of a turn for the pools.
pub scan_pool : Scan → AvDec → TaskType → Scan
scan_pool s d audio_task = record s {
  ids =
      use_id (is_open d) d.tsk_id
        (record s.ids { audio_task_id = s.ids.audio_task_id ++ (d.tsk_id ∷ []) });
  audio_count = count_one (is_open d) s.audio_count;
}
scan_pool s d video_task = record s {
  ids =
      use_id (is_open d) d.tsk_id
        (record s.ids { video_task_id = s.ids.video_task_id ++ (d.tsk_id ∷ []) });
  video_count = count_one (is_open d) s.video_count;
}
scan_pool s d audio_and_video_task = record s {
  ids =
      use_id (is_open d) d.tsk_id
        (record s.ids { au_vi_task_id = s.ids.au_vi_task_id ++ (d.tsk_id ∷ []) });
  audio_video_count = count_one (is_open d) s.audio_video_count;
}
scan_pool s d _ = s

-- The first loop.
pub scan : Scan → List AvDec → Scan
unfolding kind_of scan_pool
scan s [] = s
scan s (d ∷ ds) = scan (scan_pool (scan_window s d) d (kind_of d.bind_type)) ds

abbrev pub wants_chn : AvDec → Bool
wants_chn d =
    if d.swms
    then false
    else elim d.bind_type [ vdec2vo ↦ true | adec2ao_vdec2vo ↦ true | _ ↦ false ]

-- The second loop: a decoder that shows nothing gets the first free channel. Without one the read of
-- the first is undefined (`none`).
pub give_chns : List ℕ → List AvDec → Option (List AvDec)
give_chns chns [] = some []
give_chns chns (d ∷ ds) =
    if wants_chn d
    then elim chns [
      | [] ↦ none
      | c ∷ rest ↦ (give_chns rest ds >>= λ out. some (record d { swms_chn = c } ∷ out))
    ]
    else (give_chns chns ds >>= λ out. some (d ∷ out))

-- 0 to 63.
abbrev count_up : ℕ → ℕ → List ℕ
count_up from zero = []
count_up from (suc n) = from ∷ count_up (suc from) n

abbrev pub no_ids : TaskIds
no_ids = record {
  audio_task_id = [];
  video_task_id = [];
  au_vi_task_id = [];
  be_used = [];
  third_codec = [];
  all_used = [];
}

-- The members of a node that starts.
abbrev pub fresh : Scan
fresh = record {
  ids = no_ids;
  swms_dec = [];
  win_priority = [];
  swms_chn = count_up 0 64;
  audio_count = 0;
  video_count = 0;
  audio_video_count = 0;
}

-- The counters are written at the end, by the pools as they are then.
pub write_counts : Scan → TaskIds
write_counts s = record s.ids {
  be_used =
      set_count
        (set_count (set_count s.ids.be_used s.ids.audio_task_id s.audio_count) s.ids.video_task_id
          s.video_count)
        s.ids.au_vi_task_id s.audio_video_count;
}

-- `setOutputTaskIDInMap` on a node that starts: the ids, the priorities, the channels' decoders, and
-- the decoders with their channels.
pub record Started : Type 0 where
  pub ids : TaskIds
  pub win_priority : List ℕ
  pub swms_dec : List (ℕ × AvDec)
  pub decs : List AvDec

pub set_output_task_id_in_map : List AvDec → Option Started
unfolding scan give_chns write_counts
set_output_task_id_in_map ds =
    let s = scan fresh ds in
    give_chns s.swms_chn ds >>= λ out. some (record {
      ids = write_counts s;
      win_priority = sort s.win_priority;
      swms_dec = s.swms_dec;
      decs = out;
    })
