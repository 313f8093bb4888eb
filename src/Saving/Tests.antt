-- ===== src/Saving/Tests.antt =====
-- Runs of the saving, and instances of the theorems.
use server_communication.Prelude.{◌≡◌, ◌>>=◌, refl, [], ◌∷◌, map, none, some, true, false, arith}
use server_communication.Prelude.Int.{pos, negsuc}
use server_communication.Prelude.Maps.{find}
use server_communication.Saving.Info.{
  Source, AvBind, rtsp_server, rtsp_client, Area, h264_enc, aac, zoom_rect, zoom_ratio, osd_string,
  other_osd, Osd, DecInfo, EncInfo,
}
use server_communication.Saving.Write.{write_dec, write_enc}
use server_communication.Saving.Read.{read_decs, read_enc}
use server_communication.Saving.Fits.{EncFits}
use server_communication.Saving.RoundTrip.{read-write_decs, read-write_enc}
use server_communication.Saving.Third.{
  WindowTask, ThirdInfo, window_title, window_value, set_third_window, third_windows, save_entry,
  put_entry, find_last, remove_third_window, remove_task, remove_entries,
}
use server_communication.Saving.Windows.{save, remove, known_after, run_job, run_jobs}
use server_communication.Saving.Restart.{
  codec_of, src_of, third_windows-run_jobs, set_third_window-throws,
}
use server_communication.Saving.Tree.{trees, trees-IsJson}

abbrev plain_source : Source
plain_source = record { mod_id = 6; dev_id = 0; chn_id = 3 }

abbrev plain_bind : AvBind
plain_bind = record {
  bind_number = 0x2001;
  audio = record { st_in = plain_source; st_out = plain_source };
  video = record { st_in = plain_source; st_out = plain_source };
}

abbrev left_half : Area
left_half = record { x = negsuc 9; y = pos 0; width = 960; height = 1080 }

abbrev caption : Osd
caption = record {
  shown = osd_string (b'I' ∷ b'D' ∷ []) 0xFFFFFF;
  disp_mode = 0;
  point_x = pos 10;
  point_y = pos 20;
}

abbrev wall_window : DecInfo
wall_window = record {
  tsk_id = pos 1536;
  bind = plain_bind;
  stream = rtsp_client (record {
    s8_open = pos 3;
    udp = true;
    multicast = false;
    conn_timeout = pos 30;
    url = b'r' ∷ b't' ∷ b's' ∷ b'p' ∷ [];
  });
  adec = 5;
  vdec = record {
    crop_on = true;
    zoom_on = false;
    osd_on = true;
    swms_on = true;
    alg = h264_enc (record {
      frm_rate = 60;
      size = record { width = 1920; height = 1080 };
      rc_mode = 0;
      bitrate = 4000;
      profile = 2;
      gop = 60;
      sf = 1;
      tf = 0;
    });
    crop = left_half;
    zoom = zoom_rect left_half;
    osd = caption;
    swms = record { vo_dev = 0; swms_chn = 2; priority = 4; rect = left_half };
  };
}

abbrev pub camera : EncInfo
camera = record {
  tsk_id = pos 1280;
  bind = plain_bind;
  stream = rtsp_server (record {
    opened = true;
    udp = false;
    multicast = true;
    conn_timeout = pos 30;
    conn_max = pos 128;
    conn_nums = negsuc 0;
    url = b'r' ∷ b't' ∷ [];
  });
  aenc = aac (record { bitrate = 128; adts = true });
  venc = record {
    crop_on = false;
    zoom_on = true;
    osd_on = false;
    alg = wall_window.vdec.alg;
    crop = left_half;
    zoom = zoom_ratio (record { x_ratio = 1; y_ratio = 2; w_ratio = 3; h_ratio = 4 });
    osd = record caption { shown = other_osd 2 };
  };
}

abbrev first_window : WindowTask
first_window = record {
  task_id = 7;
  codec_id = 1536;
  src = record {
    video_width = 1920;
    video_height = 1080;
    start_x = 0;
    start_y = 0;
    end_x = 960;
    end_y = 540;
  };
}

abbrev other_window : WindowTask
other_window = record first_window { task_id = 8; codec_id = 1537 }

abbrev moved_window : WindowTask
moved_window = record first_window { codec_id = 1540 }

-- A third party that counts its tasks down from the top.
abbrev high_window : WindowTask
high_window = record first_window { task_id = 0xFFFFFFFF }

abbrev no_tables : ThirdInfo
no_tables = record { src_video = []; third_codec = []; ao_codec = [] }

abbrev saved_decs : trees.File
saved_decs = trees.write (
    trees.put "Codec AV Dec"
      (trees.array (map (λ d. write_dec trees d trees.null) (wall_window ∷ []))) trees.null)

read-write_decs_example :
    (trees.parse saved_decs >>= (λ v. read_decs trees "Codec AV Dec" v []))
    ≡ some (wall_window ∷ [])
read-write_decs_example =
    read-write_decs trees trees-IsJson saved_decs "Codec AV Dec" wall_window [] []
      (
        record {
          tsk_id_fits = omega arith;
          bind_fits = omega arith;
          stream_fits = omega arith;
          not_negative = (3, refl);
          adec_fits = omega arith;
          vdec_fits = record {
            alg_fits = omega arith;
            crop_fits = omega arith;
            zoom_fits = omega arith;
            osd_fits = omega arith;
            swms_fits = omega arith;
          };
        },
        tt,
      )
      refl

pub camera-EncFits : EncFits camera
camera-EncFits = record {
  tsk_id_fits = omega arith;
  bind_fits = omega arith;
  stream_fits = omega arith;
  aenc_fits = omega arith;
  venc_fits = record {
    alg_fits = omega arith;
    crop_fits = omega arith;
    zoom_fits = omega arith;
    osd_fits = (omega arith, omega arith, omega arith, omega arith);
  };
}

read-write_enc_example : read_enc trees (write_enc trees camera trees.null) ≡ some camera
read-write_enc_example = read-write_enc trees trees-IsJson camera camera-EncFits

third_windows-run_jobs_example :
    (file' : trees.File) × (t' : ThirdInfo) × (run_jobs trees
        (save first_window ∷ save other_window ∷ save moved_window ∷ remove 8 ∷ [])
        none
      ≡ some file')
    × (third_windows trees file' no_tables ≡ some t')
    × (find t'.third_codec 7
        ≡ codec_of (
            known_after
              (save first_window ∷ save other_window ∷ save moved_window ∷ remove 8 ∷ [])
              (λ _. none)
              7))
    × (find t'.src_video 7
        ≡ src_of (
            known_after
              (save first_window ∷ save other_window ∷ save moved_window ∷ remove 8 ∷ [])
              (λ _. none)
              7))
third_windows-run_jobs_example =
    third_windows-run_jobs trees trees-IsJson none first_window
      (save other_window ∷ save moved_window ∷ remove 8 ∷ []) no_tables 7 refl
      (omega arith, (omega arith, (omega arith, (tt, tt))))

set_third_window-throws_example :
    set_third_window trees first_window
      (some (trees.put window_title (trees.array (window_value trees high_window ∷ [])) trees.null))
    ≡ none
set_third_window-throws_example =
    set_third_window-throws trees trees-IsJson
      (some (trees.put window_title (trees.array (window_value trees high_window ∷ [])) trees.null))
      (trees.put window_title (trees.array (window_value trees high_window ∷ [])) trees.null) []
      high_window first_window refl refl (omega arith)

-- The window is known by its last codec task, the removed one not at all.
known :
    codec_of (known_after (save first_window ∷ save moved_window ∷ remove 8 ∷ []) (λ _. none) 7)
    ≡ some 1540
known = refl

after_three_jobs :
    run_jobs trees (save first_window ∷ save other_window ∷ save moved_window ∷ remove 8 ∷ []) none
    ≡ some (
        some (
          trees.put window_title (trees.array (window_value trees moved_window ∷ [])) (
            trees.put window_title
              (trees.array (window_value trees moved_window ∷ window_value trees other_window ∷ []))
              (trees.put window_title
                (trees.array
                  (window_value trees first_window ∷ window_value trees other_window ∷ []))
                (trees.put window_title
                  (trees.array (window_value trees first_window ∷ []))
                  (trees.put window_title (trees.array []) trees.null))))))
unfolding run_jobs run_job set_third_window save_entry put_entry find_last window_value
    remove_third_window remove_task remove_entries
after_three_jobs = refl
