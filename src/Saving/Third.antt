-- ===== src/Saving/Third.antt =====
-- src/TaskRestore.cpp: setThirdWindowTaskToJson, setThirdAudioTaskToJson, removeThirdTask and getThirdInfo,
-- on the file of the windows and that of the sounds. A file is what the library's writer made; none is
-- an exception that the library throws, which ends the thread of the pool.
use Prim.Native.String.{String}
use server_communication.Prelude.{
  ℕ, zero, suc, ◌-◌, ◌%◌, ◌^◌, Bool, true, false, List, [], ◌∷◌, ◌++◌, Option, none, some, ◌==◌,
  ◌>>=◌, if◌then◌else◌,
}
use server_communication.Prelude.Int.{ℤ, pos, negsuc}
use server_communication.Prelude.Maps.{insert}
use server_communication.Crop.{SrcVideo}
use server_communication.Saving.Json.{Json}
use server_communication.Saving.Write.{◌|>◌, at, uint}
use server_communication.Saving.Read.{uint_at, int_at}

-- What is saved of a window: the members of the request that are read, and the codec task id.
pub record WindowTask : Type 0 where
  pub task_id : ℕ
  pub codec_id : ℕ
  pub src : SrcVideo

-- What is saved of a sound.
pub record SoundTask : Type 0 where
  pub task_id : ℕ
  pub codec_id : ℕ
  pub ao_chn : ℕ

abbrev pub window_title : String
window_title = "Third Window"

abbrev pub audio_title : String
audio_title = "Third Audio"

-- An `int` that is compared with an `unsigned`.
abbrev pub to_u32 : ℤ → ℕ
to_u32 (pos n) = n
to_u32 (negsuc n) = 2 ^ 32 - suc n

-- The tables that `getThirdInfo` fills.
pub record ThirdInfo : Type 0 where
  pub src_video : List (ℕ × SrcVideo)
  pub third_codec : List (ℕ × ℕ)
  pub ao_codec : List (ℕ × ℕ)

-- `v[i] = x`
abbrev pub set_at {ℓ} : {A : Type ℓ} → ℕ → A → List A → List A
set_at i x [] = []
set_at zero x (v ∷ vs) = x ∷ vs
set_at (suc i) x (v ∷ vs) = v ∷ set_at i x vs

module _ (J : Json) where
  open J use {Value, File, null, get, put, items, array, write, parse, empty_list, is_member}

  -- `thirdWindowData2JsonValue`
  unfoldable pub window_value : WindowTask → Value
  window_value w =
      null
      |> put "codecID" (uint J w.codec_id)
      |> put "u32TaskID" (uint J w.task_id)
      |> at J "srcVideoInfo" (put "u16VideoWidth" (uint J w.src.video_width))
      |> at J "srcVideoInfo" (put "u16VideoHeight" (uint J w.src.video_height))
      |> at J "srcVideoInfo" (put "u16StartX" (uint J w.src.start_x))
      |> at J "srcVideoInfo" (put "u16StartY" (uint J w.src.start_y))
      |> at J "srcVideoInfo" (put "u16EndX" (uint J w.src.end_x))
      |> at J "srcVideoInfo" (put "u16EndY" (uint J w.src.end_y))

  -- `thirdAudioData2JsonValue`
  unfoldable pub sound_value : SoundTask → Value
  sound_value s =
      null
      |> put "thirdID" (uint J s.task_id)
      |> put "codecID" (uint J s.codec_id)
      |> put "AOChnID" (uint J s.ao_chn)

  -- The loop from the last entry to the first, which ends at the first that has the id.
  unfoldable pub find_last : String → ℕ → List Value → Option (Option ℕ)
  find_last key id [] = some none
  find_last key id (v ∷ vs) = do
    later ← find_last key id vs
    elim later [
      | some i ↦ some (some (suc i))
      | none ↦ do z ← int_at J key v; some (if to_u32 z == id then some 0 else none)
    ]

  -- The entry with the id is replaced, or the value appended.
  unfoldable pub put_entry : String → ℕ → Value → List Value → Option (List Value)
  put_entry key id x vs = do
    place ← find_last key id vs
    elim place [ some i ↦ some (set_at i x vs) | none ↦ some (vs ++ (x ∷ [])) ]

  -- What both functions do with the file; none inside where not even the empty list can be parsed, and
  -- the file is left alone.
  unfoldable pub save_entry : String → String → ℕ → Value → File → Option File
  save_entry title key id x file = elim (parse file) [
    | some doc ↦ do
      vs ← put_entry key id x (items (get title doc))
      some (write (put title (array vs) doc))
    | none ↦ elim (parse (empty_list title)) [
      | none ↦ some file
      | some doc ↦ some (write (put title (array (items (get title doc) ++ (x ∷ []))) doc))
    ]
  ]

  -- `setThirdWindowTaskToJson`
  unfoldable pub set_third_window : WindowTask → File → Option File
  set_third_window w file = save_entry window_title "u32TaskID" w.task_id (window_value w) file

  -- `setThirdAudioTaskToJson`
  unfoldable pub set_third_audio : SoundTask → File → Option File
  set_third_audio s file = save_entry audio_title "codecID" s.codec_id (sound_value s) file

  -- The loop from the last entry to the first, which removes each that has the id, and whether it did.
  unfoldable pub remove_entries : String → ℕ → List Value → Option (Bool × List Value)
  remove_entries key id [] = some (false, [])
  remove_entries key id (v ∷ vs) = do
    rest ← remove_entries key id vs
    n ← uint_at J key v
    some (if n == id then (true, rest.1) else (rest.0, v ∷ rest.1))

  unfoldable pub remove_task : String → String → ℕ → File → Option File
  remove_task title key id file = elim (parse file) [
    | none ↦ some file
    | some doc ↦ do
      left ← remove_entries key id (items (get title doc))
      some (if left.0 then write (put title (array left.1) doc) else file)
  ]

  -- `removeThirdTask` with `_eCloseWindow`
  unfoldable pub remove_third_window : ℕ → File → Option File
  remove_third_window id file = remove_task window_title "u32TaskID" id file

  -- `removeThirdTask` with `_eCloseAudio`
  unfoldable pub remove_third_audio : ℕ → File → Option File
  remove_third_audio id file = remove_task audio_title "thirdID" id file

  abbrev u16_at : String → Value → Option ℕ
  u16_at key v = do z ← int_at J key v; some (to_u32 z % 2 ^ 16)

  unfoldable pub read_src : Value → Option SrcVideo
  read_src v = do
    w ← u16_at "u16VideoWidth" v
    h ← u16_at "u16VideoHeight" v
    a ← u16_at "u16StartX" v
    b ← u16_at "u16StartY" v
    c ← u16_at "u16EndX" v
    d ← u16_at "u16EndY" v
    some (record {
      video_width = w;
      video_height = h;
      start_x = a;
      start_y = b;
      end_x = c;
      end_y = d;
    })

  unfoldable pub read_window : Value → Option WindowTask
  unfolding read_src
  read_window v = do
    t ← uint_at J "u32TaskID" v
    c ← uint_at J "codecID" v
    s ← read_src (get "srcVideoInfo" v)
    some (record { task_id = t; codec_id = c; src = s })

  unfoldable pub read_sound : Value → Option SoundTask
  read_sound v = do
    a ← uint_at J "AOChnID" v
    c ← uint_at J "codecID" v
    t ← uint_at J "thirdID" v
    some (record { task_id = t; codec_id = c; ao_chn = a })

  unfoldable pub load_windows : List Value → ThirdInfo → Option ThirdInfo
  load_windows [] t = some t
  load_windows (v ∷ vs) t = do
    w ← read_window v
    load_windows vs (record t {
      third_codec = insert w.task_id w.codec_id t.third_codec;
      src_video = insert w.task_id w.src t.src_video;
    })

  unfoldable pub load_sounds : List Value → ThirdInfo → Option ThirdInfo
  load_sounds [] t = some t
  load_sounds (v ∷ vs) t = do
    s ← read_sound v
    load_sounds vs (record t {
      ao_codec = insert s.ao_chn s.codec_id t.ao_codec;
      third_codec = insert s.task_id s.codec_id t.third_codec;
    })

  -- The part of `getThirdInfo` for the windows: the tables are emptied where the file names them.
  unfoldable pub third_windows : File → ThirdInfo → Option ThirdInfo
  third_windows file t = elim (parse file) [
    | none ↦ some t
    | some doc ↦
        if is_member window_title doc
        then load_windows (items (get window_title doc))
            (record t { third_codec = []; src_video = [] })
        else some t
  ]

  unfoldable pub third_sounds : File → ThirdInfo → Option ThirdInfo
  third_sounds file t = elim (parse file) [
    | none ↦ some t
    | some doc ↦
        if is_member audio_title doc
        then load_sounds (items (get audio_title doc)) (record t { ao_codec = [] })
        else some t
  ]

  -- `getThirdInfo`
  unfoldable pub get_third_info : File → File → ThirdInfo → Option ThirdInfo
  get_third_info windows sounds t = do t' ← third_windows windows t; third_sounds sounds t'
