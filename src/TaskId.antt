-- ===== src/TaskId.antt =====
-- src/NodeInfo.cpp and src/NodeInfo.h: which codec task serves which task of the third party.
-- A window or a sound of the third party has an id of its own; the node gives it one of the task
-- ids of the codec, out of the pool for its kind. The state is the part of `NodeInfo` that these
-- operations use. Log lines are left out.
pub mod Counts
pub mod Invariant
pub mod Alloc
pub mod Grant
pub mod Release
pub mod Tests
use server_communication.Prelude.{
  ℕ, ◌+◌, ◌-◌, ◌%◌, ◌^◌, Bool, true, false, ◌&&◌, List, [], ◌∷◌, ◌++◌, Option, none, some, ltb, leb,
  ◌==◌, if◌then◌else◌, length, contains, erase_first, same_list,
}
use server_communication.Prelude.Maps.{find, insert, erase}
use server_communication.ErrorCode

-- `TaskObjectType_E`
pub data TaskType : Type 0 where
  audio_task video_task audio_and_video_task unknow_task task_object_type_butt : TaskType

-- `_vAudioTaskID`, `_vVideoTaskID`, `_vAuViTaskID`, `_mOutCodecTaskIDBeUsed` (its keys are the
-- pools themselves), `_mOutThirdCodecTaskID`, `_vAllUseCodecTaskID`.
pub record TaskIds : Type 0 where
  pub audio_task_id : List ℕ
  pub video_task_id : List ℕ
  pub au_vi_task_id : List ℕ
  pub be_used : List (List ℕ × ℕ)
  pub third_codec : List (ℕ × ℕ)
  pub all_used : List ℕ

-- `_mOutCodecTaskIDBeUsed->operator [](TaskID)`, read: a key that is not there counts 0.
unfoldable pub count_of : List (List ℕ × ℕ) → List ℕ → ℕ
count_of [] pool = 0
count_of ((p, n) ∷ m) pool = if same_list p pool then n else count_of m pool

-- The same, written.
unfoldable pub set_count : List (List ℕ × ℕ) → List ℕ → ℕ → List (List ℕ × ℕ)
set_count [] pool n = (pool, n) ∷ []
set_count ((p, k) ∷ m) pool n = if same_list p pool then (p, n) ∷ m else (p, k) ∷ set_count m pool n

-- A `DP_U32`.
abbrev pub u32 : ℕ → ℕ
u32 n = n % 2 ^ 32

-- The loop of `findNewID`: the first id of the pool that nothing uses.
unfoldable pub find_free : List ℕ → List ℕ → Option ℕ
find_free [] used = none
find_free (x ∷ xs) used = if contains used x then find_free xs used else some x

-- What the loop does where it finds one.
abbrev pub take_id : TaskIds → ℕ → List ℕ → ℕ → TaskIds
take_id s third_id pool id = record s {
  all_used = s.all_used ++ (id ∷ []);
  be_used = set_count s.be_used pool (u32 (count_of s.be_used pool + 1));
  third_codec = insert third_id id s.third_codec;
}

-- `findNewID`: the new state, and the id or the error code that it returns.
unfoldable pub find_new_id : TaskIds → ℕ → List ℕ → TaskIds × ℕ
find_new_id s third_id pool = elim (find s.third_codec third_id) [
  | some _ ↦ (s, ErrorCode.third_task_id)
  | none ↦
      if leb (length pool) (count_of s.be_used pool)
      then (s, ErrorCode.full_codec_task_id)
      else elim (find_free pool s.all_used) [
        | none ↦ (s, ErrorCode.task_source_notenough)
        | some id ↦ (take_id s third_id pool id, id)
      ]
]

-- The pool of a kind of task.
abbrev pub pool_of : TaskIds → TaskType → List ℕ
pool_of s audio_task = s.audio_task_id
pool_of s video_task = s.video_task_id
pool_of s audio_and_video_task = s.au_vi_task_id
pool_of s unknow_task = []
pool_of s task_object_type_butt = []

-- `getNewCodecTaskID`
unfoldable pub get_new_codec_task_id : TaskIds → ℕ → TaskType → TaskIds × ℕ
get_new_codec_task_id s third_id audio_task = find_new_id s third_id s.audio_task_id
get_new_codec_task_id s third_id video_task = find_new_id s third_id s.video_task_id
get_new_codec_task_id s third_id audio_and_video_task = find_new_id s third_id s.au_vi_task_id
get_new_codec_task_id s third_id unknow_task = (s, ErrorCode.protocol_prase_packet_type)
get_new_codec_task_id s third_id task_object_type_butt = (s, ErrorCode.protocol_prase_packet_type)

abbrev within : ℕ → ℕ → ℕ → Bool
within lo hi id = leb lo id && ltb id hi

-- The ranges by which `removeCodecTaskID` tells the kind of a codec task from its id.
unfoldable pub task_type_of_id : ℕ → TaskType
task_type_of_id id =
    if within 256 512 id
    then audio_task
    else if within 1024 1280 id
    then video_task
    else if within 1536 1792 id
    then audio_and_video_task
    else unknow_task

-- One case of the `switch` of `removeCodecTaskID`. The counter stops at 0.
abbrev pub drop_id : TaskIds → ℕ → ℕ → List ℕ → TaskIds
drop_id s third_id id pool =
    let rest = erase third_id s.third_codec in
    if contains s.all_used id
    then record s {
      third_codec = rest;
      all_used = erase_first s.all_used id;
      be_used =
          if ltb 0 (count_of s.be_used pool)
          then set_count s.be_used pool (count_of s.be_used pool - 1)
          else s.be_used;
    }
    else record s { third_codec = rest }

unfoldable pub release : TaskIds → ℕ → ℕ → TaskType → TaskIds
release s third_id id audio_task = drop_id s third_id id s.audio_task_id
release s third_id id video_task = drop_id s third_id id s.video_task_id
release s third_id id audio_and_video_task = drop_id s third_id id s.au_vi_task_id
release s third_id id unknow_task = s
release s third_id id task_object_type_butt = s

-- `removeCodecTaskID`
unfoldable pub remove_codec_task_id : TaskIds → ℕ → TaskIds
remove_codec_task_id s third_id = elim (find s.third_codec third_id) [
  | none ↦ s
  | some id ↦ release s third_id id (task_type_of_id id)
]

-- `setServerTaskID` looks an id up and sets nothing.
unfoldable pub set_server_task_id : TaskIds → ℕ → ℕ
set_server_task_id s third_id = elim (find s.third_codec third_id) [
  | none ↦ ErrorCode.task_id_notexist
  | some id ↦ id
]
