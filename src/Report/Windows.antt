-- ===== src/Report/Windows.antt =====
-- What the reply to a request for the windows says.
use server_communication.Prelude.{
  ℕ, ◌%◌, ◌≡◌, ◌≢◌, refl, ap, sym, inl, inr, Option-cases, some-injective, ◌∙◌, false, List, [],
  ◌∷◌, ◌++◌, Option, none, some, ◌>>=◌, ◌==◌, if◌then◌else◌, length, arith,
}
use server_communication.Prelude.Maps.{find}
use server_communication.ErrorCode
use server_communication.AvDec.{AvDec}
use server_communication.Window.Clear.{find_third}
use server_communication.Reply.{Sender, reply_get_info}
use server_communication.Report.{
  VoInfo, VideoTask, Tables, vo_bytes, list_outputs, task_bytes, Turn, filled, refused, window_turn,
  listed, failed, before, list_windows, property_output_video, get_output_video_chn_info,
}

-- What a window is to the third party, by the tables alone: none where it has no task or no source, or is
-- not shown on HDMI0.
unfoldable pub window_of : Tables → ℕ → AvDec → Option VideoTask
window_of t status d = do
  third ← find_third t.third_codec d.tsk_id
  s ← find t.third_src third
  if d.swms
      then (if d.vo_dev == 0
          then some (record {
            vo_chn = 0x60;
            task_id = third;
            z_index = d.priority;
            stream_status = status;
            src = s;
            dst = d.rect;
            url = d.url;
          })
          else none)
      else none

-- Every window, in the order of the channels.
unfoldable pub windows_of : Tables → ℕ → List (ℕ × AvDec) → Option (List VideoTask)
windows_of t status [] = some []
windows_of t status ((chn, d) ∷ ds) = do
  w ← window_of t status d
  ws ← windows_of t status ds
  some (w ∷ ws)

pub tasks_bytes : List VideoTask → List ℕ
tasks_bytes [] = []
tasks_bytes (w ∷ ws) = task_bytes w ++ tasks_bytes ws

-- Every output is HDMI0.
abbrev pub AllHdmi : List VoInfo → Type 0
AllHdmi [] = Unit {0}
AllHdmi (v ∷ vs) = (v.vo_dev ≡ 0) × AllHdmi vs

pub outputs_bytes : Tables → List VoInfo → List ℕ
outputs_bytes t [] = []
outputs_bytes t (v ∷ vs) = vo_bytes t v ++ outputs_bytes t vs

list_outputs-bytes :
    (t : Tables) (vs : List VoInfo) → AllHdmi vs → list_outputs t vs ≡ some (outputs_bytes t vs)
unfolding list_outputs outputs_bytes
list_outputs-bytes t [] h = refl
list_outputs-bytes t (v ∷ vs) h = ground (arith, list_outputs-bytes t vs)

window_turn-window_of :
    (t : Tables) (d : AvDec) (v w : VideoTask)
    → window_of t v.stream_status d ≡ some w
    → (window_turn t d v ≡ filled w) × (w.stream_status ≡ v.stream_status)
unfolding window_turn window_of
window_turn-window_of t d v w h = ground arith

-- A turn that goes well, and the turns behind it on what it leaves.
list_windows-cons :
    (t : Tables) (chn : ℕ) (d : AvDec) (ds : List (ℕ × AvDec)) (v w : VideoTask)
    → window_turn t d v ≡ filled w
    → list_windows t ((chn, d) ∷ ds) v ≡ before (task_bytes w) (list_windows t ds w)
unfolding list_windows
list_windows-cons t chn d ds v w turn =
    ap
      (λ (r : Turn). elim r [
        | refused code ↦ failed code
        | filled v' ↦ before (task_bytes v') (list_windows t ds v')
      ])
      turn

list_windows-windows_of :
    (t : Tables) (ds : List (ℕ × AvDec)) (v : VideoTask) (ws : List VideoTask)
    → windows_of t v.stream_status ds ≡ some ws
    → list_windows t ds v ≡ listed (tasks_bytes ws)
unfolding list_windows windows_of tasks_bytes
list_windows-windows_of t [] v ws h = ground arith
list_windows-windows_of t ((chn, d) ∷ ds) v ws h =
    elim (Option-cases (window_of t v.stream_status d)) [
      | inl e ↦ ground arith
      | inr (w, one) ↦ elim (Option-cases (windows_of t v.stream_status ds)) [
        | inl e ↦ ground arith
        | inr (rest, others) ↦
            let turn = window_turn-window_of t d v w one in
            let behind = list_windows-windows_of t ds w rest (rw turn.1 others) in
            let split : some ws ≡ some (w ∷ rest) = ground arith in
            list_windows-cons t chn d ds v w turn.0
            ∙ ap (before (task_bytes w)) behind
            ∙ ap (λ (found : List VideoTask). listed (tasks_bytes found))
                (sym (some-injective split))
      ]
    ]

-- A window without a task of the third party ends the list, whatever stands before it.
list_windows-lost :
    (t : Tables) (ds es : List (ℕ × AvDec)) (chn : ℕ) (d : AvDec) (v : VideoTask)
    (ws : List VideoTask)
    → windows_of t v.stream_status ds ≡ some ws
    → find_third t.third_codec d.tsk_id ≡ none
    → list_windows t (ds ++ ((chn, d) ∷ es)) v ≡ failed ErrorCode.task_id_notexist
unfolding list_windows windows_of window_turn
list_windows-lost t [] es chn d v ws k lost =
    let turn : window_turn t d v ≡ refused ErrorCode.task_id_notexist = ground arith in
    rw (turn, list_windows) refl
list_windows-lost t ((c, first) ∷ ds) es chn d v ws k lost =
    elim (Option-cases (window_of t v.stream_status first)) [
      | inl e ↦ ground arith
      | inr (w, one) ↦ elim (Option-cases (windows_of t v.stream_status ds)) [
        | inl e ↦ ground arith
        | inr (rest, others) ↦
            let turn = window_turn-window_of t first v w one in
            let behind = list_windows-lost t ds es chn d w rest (rw turn.1 others) lost in
            list_windows-cons t c first (ds ++ ((chn, d) ∷ es)) v w turn.0
            ∙ ap (before (task_bytes w)) behind
      ]
    ]

-- The reply with the outputs and the windows, although one structure is filled again and again for the
-- windows: where there is an output, every output is HDMI0, and each window is shown there and has a task
-- of the third party and a source, it is the outputs and then, for each window in the order of the
-- channels, what the tables say of this window alone, and the status that the structure came with.
pub get_output_video_chn_info-windows_of :
    (me : Sender) (fresh : VideoTask) (t : Tables) (ws : List VideoTask)
    → length t.vo_infos ≢ 0
    → AllHdmi t.vo_infos
    → windows_of t fresh.stream_status t.swms_dec ≡ some ws
    → get_output_video_chn_info me fresh t
      ≡ reply_get_info me property_output_video 0 (
          (length t.vo_infos % 256 ∷ (length t.swms_dec % 256 ∷ []))
          ++ (outputs_bytes t t.vo_infos ++ tasks_bytes ws))
unfolding get_output_video_chn_info
get_output_video_chn_info-windows_of me fresh t ws e h k =
    let outputs = list_outputs-bytes t t.vo_infos h in
    let windows = list_windows-windows_of t t.swms_dec fresh ws k in
    let some_out : (length t.vo_infos == 0) ≡ false = ground (arith, e) in
    rw (some_out, outputs, windows) refl

-- A reply to a request for the windows, where there is an output, every output is HDMI0, and a window
-- behind others that are shown has no task of the third party: it is that of the code of a task that
-- does not exist, and not one of the windows is in it.
pub get_output_video_chn_info-lost :
    (me : Sender) (fresh : VideoTask) (t : Tables) (ws : List VideoTask) (ds es : List (ℕ × AvDec))
    (chn : ℕ) (d : AvDec)
    → length t.vo_infos ≢ 0
    → AllHdmi t.vo_infos
    → t.swms_dec ≡ ds ++ ((chn, d) ∷ es)
    → windows_of t fresh.stream_status ds ≡ some ws
    → find_third t.third_codec d.tsk_id ≡ none
    → get_output_video_chn_info me fresh t
      ≡ reply_get_info me property_output_video ErrorCode.task_id_notexist []
unfolding get_output_video_chn_info
get_output_video_chn_info-lost me fresh t ws ds es chn d e h split k lost =
    let outputs = list_outputs-bytes t t.vo_infos h in
    let windows : list_windows t t.swms_dec fresh ≡ failed ErrorCode.task_id_notexist =
      ap (λ (xs : List (ℕ × AvDec)). list_windows t xs fresh) split
      ∙ list_windows-lost t ds es chn d fresh ws k lost in
    let some_out : (length t.vo_infos == 0) ≡ false = ground (arith, e) in
    rw (some_out, outputs, windows) refl
