-- ===== src/TaskId/Tests.antt =====
-- The bookkeeping of ids on a small state: two tasks of the third party hold two of three ids.
use server_communication.Prelude.{◌≡◌, inr, refl, [], ◌∷◌, none, some, arith}
use server_communication.Prelude.Maps.{find, erase}
use server_communication.ErrorCode
use server_communication.TaskId.{
  TaskType, audio_task, video_task, audio_and_video_task, unknow_task, task_object_type_butt,
  TaskIds, count_of, set_count, find_free, find_new_id, release, get_new_codec_task_id,
  remove_codec_task_id, set_server_task_id, task_type_of_id,
}
use server_communication.TaskId.Counts.{used_in}
use server_communication.TaskId.Invariant.{IsPool, IsValid}
use server_communication.TaskId.Grant.{Answers, get_new_codec_task_id-Answers}
use server_communication.TaskId.Release.{remove_codec_task_id-IsValid}

abbrev pub two_held : TaskIds
two_held = record {
  audio_task_id = 256 ∷ [];
  video_task_id = 1024 ∷ [];
  au_vi_task_id = 1536 ∷ (1537 ∷ (1538 ∷ []));
  be_used = (1536 ∷ (1537 ∷ (1538 ∷ [])), 2) ∷ [];
  third_codec = (7, 1536) ∷ ((8, 1537) ∷ []);
  all_used = 1536 ∷ (1537 ∷ []);
}

two_held-IsPool : (t : TaskType) → IsPool two_held t
unfolding count_of used_in task_type_of_id
two_held-IsPool audio_task = record {
  distinct = (refl, tt);
  in_range = λ id h. ground arith;
  small = omega arith;
  counted = refl;
}
two_held-IsPool video_task = record {
  distinct = (refl, tt);
  in_range = λ id h. ground arith;
  small = omega arith;
  counted = refl;
}
two_held-IsPool audio_and_video_task = record {
  distinct = (refl, (refl, (refl, tt)));
  in_range = λ id h. ground arith;
  small = omega arith;
  counted = refl;
}
two_held-IsPool unknow_task = record {
  distinct = tt;
  in_range = λ id h. ground arith;
  small = omega arith;
  counted = refl;
}
two_held-IsPool task_object_type_butt = record {
  distinct = tt;
  in_range = λ id h. ground arith;
  small = omega arith;
  counted = refl;
}

pub two_held-IsValid : IsValid two_held
unfolding find task_type_of_id
two_held-IsValid = record {
  pools = two_held-IsPool;
  used_distinct = (refl, (refl, tt));
  owned_used = λ third id h. ground arith;
  owned_pool = λ third id h. ground arith;
  injective = λ third other id h g. ground arith;
}

third_id : (get_new_codec_task_id two_held 9 audio_and_video_task).1 ≡ 1538
unfolding find count_of find_free find_new_id get_new_codec_task_id
third_id = refl

again : (get_new_codec_task_id two_held 8 audio_and_video_task).1 ≡ ErrorCode.third_task_id
unfolding find count_of find_free find_new_id get_new_codec_task_id
again = refl

given_back : set_server_task_id (remove_codec_task_id two_held 7) 7 ≡ ErrorCode.task_id_notexist
unfolding find erase count_of set_count release task_type_of_id remove_codec_task_id
    set_server_task_id
given_back = refl

get_new_codec_task_id-Answers_example :
    Answers two_held 9 audio_and_video_task (get_new_codec_task_id two_held 9 audio_and_video_task)
get_new_codec_task_id-Answers_example =
    get_new_codec_task_id-Answers two_held 9 audio_and_video_task two_held-IsValid (inr (inr refl))

remove_codec_task_id-IsValid_example : IsValid (remove_codec_task_id two_held 7)
remove_codec_task_id-IsValid_example = remove_codec_task_id-IsValid two_held 7 two_held-IsValid

held_7 : find two_held.third_codec 7 ≡ some 1536
unfolding find
held_7 = refl

absent_9 : find two_held.third_codec 9 ≡ none
unfolding find
absent_9 = refl
