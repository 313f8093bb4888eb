-- ===== src/Audio/Tests.antt =====
-- A node that plays one sound on the line output, and has a second decoder for sounds.
use server_communication.Prelude.{
  ℕ, ◌<◌, ◌≡◌, inl, inr, refl, true, false, [], ◌∷◌, none, some, arith, ◌==◌, contains, length,
  Bool-cases,
}
use server_communication.Prelude.Maps.{find}
use server_communication.AvDec.{AvDec, adec2ao, find_dec}
use server_communication.TaskId.{
  TaskIds, TaskType, audio_task, video_task, audio_and_video_task, unknow_task,
  task_object_type_butt, count_of, task_type_of_id,
}
use server_communication.TaskId.Counts.{used_in}
use server_communication.TaskId.Invariant.{IsPool, IsValid}
use server_communication.Window.Clear.{find_third}
use server_communication.Audio.{AudioNode, OpenAudio, ao_dev_of, open_audio}
use server_communication.Audio.Sounds.{IsShifted, open_audio-IsShifted}

abbrev one_held : TaskIds
one_held = record {
  audio_task_id = 256 ∷ (257 ∷ []);
  video_task_id = [];
  au_vi_task_id = 1536 ∷ [];
  be_used = (256 ∷ (257 ∷ []), 1) ∷ [];
  third_codec = (7, 256) ∷ [];
  all_used = 256 ∷ [];
}

one_held-IsPool : (t : TaskType) → IsPool one_held t
unfolding count_of used_in task_type_of_id
one_held-IsPool audio_task = record {
  distinct = (refl, (refl, tt));
  in_range = λ id h. ground arith;
  small = omega arith;
  counted = refl;
}
one_held-IsPool video_task = record {
  distinct = tt;
  in_range = λ id h. ground arith;
  small = omega arith;
  counted = refl;
}
one_held-IsPool audio_and_video_task = record {
  distinct = (refl, tt);
  in_range = λ id h. ground arith;
  small = omega arith;
  counted = refl;
}
one_held-IsPool unknow_task = record {
  distinct = tt;
  in_range = λ id h. ground arith;
  small = omega arith;
  counted = refl;
}
one_held-IsPool task_object_type_butt = record {
  distinct = tt;
  in_range = λ id h. ground arith;
  small = omega arith;
  counted = refl;
}

one_held-IsValid : IsValid one_held
unfolding find task_type_of_id
one_held-IsValid = record {
  pools = one_held-IsPool;
  used_distinct = (refl, tt);
  owned_used = λ third id h. ground arith;
  owned_pool = λ third id h. ground arith;
  injective = λ third other id h g. ground arith;
}

abbrev silent : AvDec
silent = record {
  tsk_id = 257;
  bind_type = adec2ao;
  ao_dev = 0;
  vo_dev = 0;
  s8_open = 0;
  url = [];
  udp = false;
  osd = false;
  osd_id = 0;
  crop_on = false;
  crop = record { x = 0; y = 0; width = 0; height = 0 };
  swms = false;
  swms_chn = 0;
  priority = 0;
  rect = record { x = 0; y = 0; width = 0; height = 0 };
}

abbrev playing_dec : AvDec
playing_dec = record silent { tsk_id = 256; s8_open = 1 }

abbrev node : AudioNode
node = record {
  ids = one_held;
  decs = playing_dec ∷ (silent ∷ []);
  ao_codec = (0, 256) ∷ [];
  sent = [];
}

abbrev on_line : OpenAudio
on_line = record { task_id = 8; rtsp_url = 114 ∷ []; ao_chn_id = 0x30 }

abbrev on_hdmi : OpenAudio
on_hdmi = record on_line { ao_chn_id = 0x20 }

absent : find one_held.third_codec 8 ≡ none
unfolding find
absent = refl

held : find one_held.third_codec 7 ≡ some 256
unfolding find
held = refl

holder : find_third one_held.third_codec 256 ≡ some 7
unfolding find_third
holder = refl

line : ao_dev_of 0x30 ≡ some 0
unfolding ao_dev_of
line = refl

hdmi : ao_dev_of 0x20 ≡ some 1
unfolding ao_dev_of
hdmi = refl

line_plays : find node.ao_codec 0 ≡ some 256
unfolding find
line_plays = refl

hdmi_free : find node.ao_codec 1 ≡ none
unfolding find
hdmi_free = refl

found_playing : find_dec 256 node.decs ≡ some playing_dec
unfolding find_dec
found_playing = refl

found_all :
    (id : ℕ)
    → contains one_held.audio_task_id id ≡ true
    → (d : AvDec) × (find_dec id node.decs ≡ some d)
unfolding find_dec
found_all id h = elim (Bool-cases (256 == id)) [
  | inl e ↦ rw e (playing_dec, refl)
  | inr e ↦ rw e (silent, ground arith)
]

id_left : used_in one_held.audio_task_id one_held.all_used < length one_held.audio_task_id
unfolding used_in
id_left = omega arith

open_audio-IsShifted_example : IsShifted node on_line 0 256 7 (open_audio (λ e. 0) node on_line)
open_audio-IsShifted_example =
    open_audio-IsShifted (λ e. 0) (λ e. refl) node on_line 0 256 7 playing_dec one_held-IsValid
      (omega arith) absent line line_plays holder held found_playing refl
