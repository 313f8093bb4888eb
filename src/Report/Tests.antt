-- ===== src/Report/Tests.antt =====
-- A node with an output, two windows and two outputs for sound, of which one plays.
use server_communication.Prelude.{◌≡◌, refl, true, false, List, [], ◌∷◌, ◌++◌, arith}
use server_communication.Prelude.Maps.{find}
use server_communication.Crop.{SrcVideo}
use server_communication.AvDec.{AvDec, adec2ao_vdec2vo, find_dec}
use server_communication.Window.Clear.{find_third}
use server_communication.Reply.{Sender, reply_get_info}
use server_communication.Report.{
  Tables, VideoTask, AudioTask, AoChn, stereo_aac, property_output_video, get_output_video_chn_info,
  playing, ao_chn_of, sound_turn, list_sounds, no_task,
}
use server_communication.Report.Windows.{
  window_of, windows_of, outputs_bytes, tasks_bytes, get_output_video_chn_info-windows_of,
}
use server_communication.Report.Sounds.{IsSilent, list_sounds-stale}

abbrev me : Sender
me = record { ip = 0xc0a80105; dev_type = 0x2001; dev_id = 77 ∷ [] }

abbrev low_dec : AvDec
low_dec = record {
  tsk_id = 1536;
  bind_type = adec2ao_vdec2vo;
  ao_dev = 0;
  vo_dev = 0;
  s8_open = 2;
  url = 114 ∷ [];
  udp = false;
  osd = false;
  osd_id = 0;
  crop_on = false;
  crop = record { x = 0; y = 0; width = 0; height = 0 };
  swms = true;
  swms_chn = 0;
  priority = 7;
  rect = record { x = 0; y = 0; width = 960; height = 540 };
}

abbrev top_dec : AvDec
top_dec = record low_dec { tsk_id = 1537; url = 115 ∷ []; swms_chn = 1; priority = 8 }

abbrev src : SrcVideo
src = record {
  video_width = 1920;
  video_height = 1080;
  start_x = 0;
  start_y = 0;
  end_x = 1920;
  end_y = 1080;
}

abbrev tables : Tables
tables = record {
  vo_infos = record { vo_dev = 0; enabled = true } ∷ [];
  ao_infos = record { ao_dev = 1; volume = 50 } ∷ (record { ao_dev = 0; volume = 60 } ∷ []);
  echoes = [];
  ao_audio = [];
  third_codec = (21, 1536) ∷ ((22, 1537) ∷ []);
  swms_dec = (0, low_dec) ∷ ((1, top_dec) ∷ []);
  third_src = (21, src) ∷ ((22, src) ∷ []);
  ao_codec = (1, 1537) ∷ [];
  decs = low_dec ∷ (top_dec ∷ []);
}

-- The structure of a window before the first turn.
abbrev fresh : VideoTask
fresh = record {
  vo_chn = 0;
  task_id = 0;
  z_index = 0;
  stream_status = 9;
  src = src;
  dst = record { x = 0; y = 0; width = 0; height = 0 };
  url = [];
}

abbrev low : VideoTask
low = record fresh { vo_chn = 0x60; task_id = 21; z_index = 7; dst = low_dec.rect; url = 114 ∷ [] }

abbrev top : VideoTask
top = record low { task_id = 22; z_index = 8; url = 115 ∷ [] }

get_output_video_chn_info-windows_of_example :
    get_output_video_chn_info me fresh tables
    ≡ reply_get_info me property_output_video 0
        ((1 ∷ (2 ∷ [])) ++ (outputs_bytes tables tables.vo_infos ++ tasks_bytes (low ∷ (top ∷ []))))
unfolding windows_of window_of find_third find
get_output_video_chn_info-windows_of_example =
    get_output_video_chn_info-windows_of me fresh tables (low ∷ (top ∷ [])) (omega arith) (refl, tt)
      refl

-- The window of channel 1 has lost its task.
abbrev lost_tables : Tables
lost_tables = record tables { third_codec = (21, 1536) ∷ [] }

abbrev played : AudioTask
played = record {
  task_id = 22;
  stream_status = 1;
  url = 115 ∷ [];
  src_audio = stereo_aac;
  ao_chn = 0x20;
}

-- HDMI0 plays the sound of the top window, the line output plays nothing.
abbrev sounds : List AoChn
sounds =
    record { mute = 1; chn = 0x20; volume = 50; audio_in = 1; task = played }
    ∷ (record { mute = 0; chn = 0x30; volume = 60; audio_in = 0; task = played } ∷ [])

list_sounds-stale_example : IsSilent 1 22 (115 ∷ []) sounds
unfolding list_sounds sound_turn playing ao_chn_of find_third find_dec find
list_sounds-stale_example =
    list_sounds-stale tables [] [] [] (record { ao_dev = 1; volume = 50 })
      (record { ao_dev = 0; volume = 60 }) no_task sounds top_dec 22 refl tt refl refl
