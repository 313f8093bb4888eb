-- ===== src/Window.antt =====
-- src/LogicHandle.cpp: the windows of an output node. A request opens, moves or closes a window, or
-- clears all tasks; the handler updates the node's tables and sends the decoder to the codec.
-- Here stand the state, what a handler sends, and the steps that the handlers share. A handler
-- writes through iterators and shared pointers into the tables of `NodeInfo`, so that what it wrote
-- before it fails stays; so it does here. Log lines are left out.
pub mod Create
pub mod OpenMove
pub mod Move
pub mod Close
pub mod Clear
pub mod Stack
pub mod Errors
pub mod Run
pub mod Cleared
pub mod Refused
mod Tests
use server_communication.Prelude.{
  ℕ, suc, ◌+◌, ◌%◌, ◌^◌, Bool, true, false, List, [], ◌∷◌, ◌++◌, Option, none, some, ltb, leb, ◌==◌,
  if◌then◌else◌, map,
}
use server_communication.AvDec.{AvDec, Rect, set_dec}
use server_communication.Crop.{SrcVideo, VideoSync, crop_is_legitimate}
use server_communication.TaskId.{TaskIds, remove_codec_task_id, u32}

-- `_sDstVideoInfo`
pub record DstVideo : Type 0 where
  pub video_width : ℕ
  pub video_height : ℕ
  pub start_x : ℕ
  pub start_y : ℕ

-- What the handlers read of `_sRemote_CreateWindow` and `OpenAndMoveWindow_S`. `rtsp_url` has the bytes
-- before the zero that ends it within its 256 bytes.
pub record OpenRequest : Type 0 where
  pub task_id : ℕ
  pub rtsp_url : List ℕ
  pub audio_in : ℕ
  pub vo_chn_id : ℕ
  pub src : SrcVideo
  pub dst : DstVideo

-- `CloseThirdTask_E`
pub data CloseTask : Type 0 where
  close_window close_audio : CloseTask

-- What a handler sends to the codec, to the third party (`commonReplyToThird`,
-- `replyClearToThird`), and to the files of `TaskRestore`.
pub data Output : Type 0 where
  set_avdec : AvDec → Output
  set_avdec_only : AvDec → Output
  close_batch : List ℕ → Output
  reply : ℕ → ℕ → ℕ → Output
  reply_clear : ℕ → List ℕ → List ℕ → Output
  save_avdec : AvDec → Output
  save_window : OpenRequest → ℕ → Output
  save_close : CloseTask → ℕ → Output

-- The tables of `NodeInfo`; `vo_dev` and `vo_sync` are `_vVOGetInfo[0]`, which `initOutGetVO` fills.
-- With them the flag and the latch by which `clearAllTask` holds `openAndMoveWindow` back.
pub record Node : Type 0 where
  pub ids : TaskIds
  pub decs : List AvDec
  pub vo_dev : ℕ
  pub vo_sync : VideoSync
  pub win_priority : List ℕ
  pub swms_dec : List (ℕ × AvDec)
  pub third_src : List (ℕ × SrcVideo)
  pub is_clear_tasking : Bool
  pub latch : ℕ
  pub sent : List Output

-- `eRemoteCommand`
abbrev pub command_create_window : ℕ
command_create_window = 0x04

abbrev pub command_move_window : ℕ
command_move_window = 0x05

abbrev pub command_close_window : ℕ
command_close_window = 0x06

abbrev pub command_open_and_move_window : ℕ
command_open_and_move_window = 0xf2

-- `DP_M2S_VO_DEV_HDMI0_HI3536`
abbrev pub vo_dev_hdmi0 : ℕ
vo_dev_hdmi0 = 0

-- `ID_VO_CHN_VIDEOOUT1`
abbrev pub vo_chn_videoout1 : ℕ
vo_chn_videoout1 = 0x60

-- The last of the codec task ids; a larger result is an error code.
abbrev pub last_task_id : ℕ
last_task_id = 1792

abbrev pub emit : List Output → Node → Node
emit out n = record n { sent = n.sent ++ out }

-- `removeCodecTaskID`
abbrev pub forget : ℕ → Node → Node
forget third n = record n { ids = remove_codec_task_id n.ids third }

-- `*it = d`
abbrev pub put : ℕ → AvDec → Node → Node
put id d n = record n { decs = set_dec id d n.decs }

-- `sort(winPriority->begin(), winPriority->end())`
pub insert_sorted : ℕ → List ℕ → List ℕ
insert_sorted x [] = x ∷ []
insert_sorted x (y ∷ ys) = if leb x y then x ∷ (y ∷ ys) else y ∷ insert_sorted x ys

pub sort : List ℕ → List ℕ
unfolding insert_sorted
sort [] = []
sort (x ∷ xs) = insert_sorted x (sort xs)

-- `winPriority->back()`, if there is one.
pub back : List ℕ → Option ℕ
back [] = none
back (x ∷ xs) = elim xs [ [] ↦ some x | _ ∷ _ ↦ back xs ]

-- `winPriority->pop_back()`
pub pop_back : List ℕ → List ℕ
pop_back [] = []
pop_back (x ∷ xs) = elim xs [ [] ↦ [] | _ ∷ _ ↦ x ∷ pop_back xs ]

-- The priority of a new window: one above the top.
abbrev pub new_priority : List ℕ → ℕ
new_priority wp = elim (back wp) [ none ↦ 0 | some top ↦ u32 (top + 1) ]

abbrev pub rect_of : DstVideo → Rect
rect_of dst = record {
  x = dst.start_x;
  y = dst.start_y;
  width = dst.video_width;
  height = dst.video_height;
}

-- The screen is there, and the check of the crop passes.
abbrev pub can_show : Node → Rect → Bool
can_show n crop = if n.vo_dev == vo_dev_hdmi0 then crop_is_legitimate crop n.vo_sync else false
