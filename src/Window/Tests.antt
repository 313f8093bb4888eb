-- ===== src/Window/Tests.antt =====
-- A node with two windows, and a third decoder that is free.
use server_communication.Prelude.{
  ℕ, zero, suc, ◌≡◌, ◌≢◌, inl, inr, refl, true, false, List, [], ◌∷◌, none, some, arith, Bool-cases,
  ◌==◌,
}
use server_communication.Prelude.Maps.{find, erase}
use server_communication.ErrorCode
use server_communication.AvDec.{AvDec, adec2ao_vdec2vo, find_dec}
use server_communication.AvDec.Counts.{count_at}
use server_communication.Crop.{sync_1080p60, crop_is_legitimate, crop_of}
use server_communication.Crop.Tests.{whole}
use server_communication.TaskId.{
  count_of, set_count, find_free, find_new_id, get_new_codec_task_id, release, task_type_of_id,
  remove_codec_task_id,
}
use server_communication.TaskId.Counts.{used_in}
use server_communication.TaskId.Tests.{two_held, two_held-IsValid}
use server_communication.Window.{Node, DstVideo, OpenRequest, can_show}
use server_communication.Window.Create.{create_with, create_body}
use server_communication.Window.OpenMove.{place, open_and_move_window, open_and_move_request}
use server_communication.Window.Move.{MoveRequest, move_body, move_window}
use server_communication.Window.Close.{close}
use server_communication.Window.Clear.{BatchAck, find_third, sweep, clear_all_task}
use server_communication.Window.Stack.{Stacked, Linked}
use server_communication.Window.Stack.Numbers.{from}
use server_communication.Window.Stack.Open.{IsOpened, CanOpen, open_and_move_window-IsOpened}
use server_communication.Window.Stack.Move.{IsRaised, move_window-IsRaised, move_window_refused}
use server_communication.Window.Stack.Reopen.{IsReplaced, open_and_move_window-IsReplaced}
use server_communication.Window.Stack.Close.{IsClosed, close-IsClosed}
use server_communication.Window.Cleared.{clear_all_task-Stacked, clear_all_task_unstacked}
use server_communication.Window.Refused.{place_refused}

abbrev free_dec : AvDec
free_dec = record {
  tsk_id = 1538;
  bind_type = adec2ao_vdec2vo;
  ao_dev = 0;
  vo_dev = 0;
  s8_open = 0;
  url = [];
  udp = false;
  osd = false;
  osd_id = 0;
  crop_on = false;
  crop = record { x = 0; y = 0; width = 0; height = 0 };
  swms = false;
  swms_chn = 2;
  priority = 0;
  rect = record { x = 0; y = 0; width = 0; height = 0 };
}

abbrev low_dec : AvDec
low_dec = record free_dec { tsk_id = 1536; s8_open = 2; swms = true; swms_chn = 0 }

abbrev top_dec : AvDec
top_dec = record free_dec { tsk_id = 1537; s8_open = 2; swms = true; swms_chn = 1; priority = 1 }

abbrev busy : Node
busy = record {
  ids = two_held;
  decs = low_dec ∷ (top_dec ∷ (free_dec ∷ []));
  vo_dev = 0;
  vo_sync = sync_1080p60;
  win_priority = 0 ∷ (1 ∷ []);
  swms_dec = [];
  third_src = [];
  is_clear_tasking = false;
  latch = 0;
  sent = [];
}

abbrev place_on : DstVideo
place_on = record { video_width = 960; video_height = 540; start_x = 0; start_y = 0 }

repeat_letter : ℕ → List ℕ
repeat_letter zero = []
repeat_letter (suc n) = 97 ∷ repeat_letter n

abbrev to_move : MoveRequest
to_move = record { task_id = 7; src = whole; dst = place_on }

abbrev to_open : OpenRequest
to_open = record {
  task_id = 9;
  rtsp_url = [];
  audio_in = 1;
  vo_chn_id = 0x60;
  src = whole;
  dst = place_on;
}

abbrev no_output : OpenRequest
no_output = record to_open { vo_chn_id = 0 }

abbrev accepting : AvDec → ℕ
accepting d = 0

abbrev refusing : AvDec → ℕ
refusing d = 1

abbrev quiet : List ℕ → BatchAck
quiet ids = record { result = 0; nums = 0; codes = [] }

busy-Stacked : Stacked 2 busy
unfolding from count_at
busy-Stacked = record {
  ordered = refl;
  each_once = λ p. ground arith;
  words = (omega arith, (omega arith, (omega arith, tt)));
  small = omega arith;
}

busy-Linked : Linked busy
unfolding find_dec
busy-Linked = λ id d f s. ground arith

found_low : find_dec 1536 busy.decs ≡ some low_dec
unfolding find_dec
found_low = refl

found_free : find_dec 1538 busy.decs ≡ some free_dec
unfolding find_dec
found_free = refl

held_low : find two_held.third_codec 7 ≡ some 1536
unfolding find
held_low = refl

absent : find two_held.third_codec 9 ≡ none
unfolding find
absent = refl

shows : can_show busy (crop_of whole) ≡ true
unfolding crop_of crop_is_legitimate
shows = refl

busy-CanOpen : CanOpen busy to_open
unfolding used_in find_dec
busy-CanOpen = record {
  valid = two_held-IsValid;
  linked = busy-Linked;
  absent = absent;
  id_left = omega arith;
  decoder = λ id h. elim (Bool-cases (1536 == id)) [
    | inl e ↦ rw e (low_dec, refl)
    | inr e ↦ elim (Bool-cases (1537 == id)) [
      | inl g ↦ rw e (rw g (top_dec, refl))
      | inr g ↦ rw e (rw g (free_dec, ground arith))
    ]
  ];
  sound = refl;
  can_crop = shows;
  output = refl;
}

open_and_move_window-IsOpened_example :
    IsOpened 2 busy to_open (open_and_move_window accepting busy to_open)
open_and_move_window-IsOpened_example =
    open_and_move_window-IsOpened accepting (λ e. refl) busy to_open 2 busy-CanOpen busy-Stacked
      (omega arith)

move_window-IsRaised_example :
    IsRaised 2 busy to_move 1536 low_dec (move_window accepting busy to_move)
    × ((move_body accepting busy to_move).1 ≡ ErrorCode.success)
move_window-IsRaised_example =
    move_window-IsRaised accepting (λ e. refl) busy to_move 2 1536 low_dec held_low two_held-IsValid
      found_low refl shows busy-Stacked

move_window_refused_example :
    ((move_body refusing busy to_move).1 ≡ ErrorCode.communicate_abnormal_inner)
    × ((j : ℕ) → ¬ Stacked j (move_window refusing busy to_move))
move_window_refused_example =
    move_window_refused refusing (λ e. ground arith) busy to_move 2 1536 low_dec held_low
      two_held-IsValid found_low refl (omega arith) shows busy-Stacked

close-IsClosed_example : IsClosed 2 busy 7 1536 low_dec (close accepting busy 7)
close-IsClosed_example =
    close-IsClosed accepting (λ e. refl) busy 7 2 1536 low_dec two_held-IsValid held_low found_low
      refl busy-Stacked

no_output_fails : (create_body accepting busy no_output).1 ≢ ErrorCode.success
unfolding find find_dec count_of find_free find_new_id get_new_codec_task_id crop_of
    crop_is_legitimate create_with create_body
no_output_fails = λ e. ground arith

sweep_done : (sweep 2 busy.ids busy.decs).complete ≡ true
unfolding find erase count_of set_count release task_type_of_id remove_codec_task_id find_third
    sweep
sweep_done = refl

clear_all_task-Stacked_example :
    Stacked 0 (clear_all_task quiet busy 2)
    × ((codec : AvDec → ℕ) (req : OpenRequest)
        → open_and_move_request codec (clear_all_task quiet busy 2) req ≢ none)
clear_all_task-Stacked_example =
    clear_all_task-Stacked quiet busy 2 (λ s. refl, (λ s. refl, (λ s. ground arith, tt)))
      busy-Stacked.words sweep_done

-- The decoder that is open belongs to no task.
abbrev orphaned : Node
orphaned = record busy { decs = record free_dec { s8_open = 2 } ∷ [] }

orphaned_stops : (sweep 0 orphaned.ids orphaned.decs).complete ≡ false
unfolding find_third sweep
orphaned_stops = refl

sounds_done : (sweep 1 busy.ids busy.decs).complete ≡ true
unfolding sweep
sounds_done = refl

clear_all_task_unstacked_example : ¬ Stacked 2 (clear_all_task quiet busy 1)
clear_all_task_unstacked_example =
    clear_all_task_unstacked quiet busy 1 1536 low_dec found_low refl refl sounds_done 2

place_refused_example :
    ((place refusing busy to_open true 1538).win_priority ≡ busy.win_priority)
    × ((place refusing busy to_open true 1538).ids ≡ remove_codec_task_id busy.ids 9)
    × ((j : ℕ) → ¬ Stacked j (place refusing busy to_open true 1538))
place_refused_example =
    place_refused refusing busy to_open 2 1538 free_dec found_free refl busy-Stacked (omega arith)
      (λ e. ground arith) (omega arith) shows refl

abbrev to_reopen : OpenRequest
to_reopen = record to_open { task_id = 7 }

-- 155 bytes.
abbrev long_url : List ℕ
long_url = repeat_letter 155

abbrev to_overrun : OpenRequest
to_overrun = record to_reopen { rtsp_url = long_url }

open_and_move_window-IsReplaced_example :
    IsReplaced 2 busy to_reopen 1536 low_dec (open_and_move_window accepting busy to_reopen)
open_and_move_window-IsReplaced_example =
    open_and_move_window-IsReplaced accepting (λ e. refl) busy to_reopen 2 1536 low_dec
      (omega arith) held_low two_held-IsValid found_low refl shows refl busy-Stacked
