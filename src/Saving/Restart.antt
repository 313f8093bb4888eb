-- ===== src/Saving/Restart.antt =====
-- What a node that starts again knows of the windows: src/TaskRestore.cpp, getThirdInfo after the jobs of
-- setThirdWindowTaskToJson and removeThirdTask.
use server_communication.Prelude.{
  ℕ, ◌^◌, ◌≤◌, ◌≡◌, refl, List, [], ◌∷◌, ◌++◌, Option, none, some, map, arith,
}
use server_communication.Prelude.Maps.{find, insert, or_else, find-insert-or_else}
use server_communication.Crop.{SrcVideo}
use server_communication.Saving.Json.{Json, IsJson}
use server_communication.Saving.Read.{int_at}
use server_communication.Saving.Third.{
  WindowTask, ThirdInfo, window_title, window_value, find_last, put_entry, save_entry,
  set_third_window, load_windows, third_windows,
}
use server_communication.Saving.Entries.{AllFit, find_window, read-window_value}
use server_communication.Saving.Windows.{
  Job, save, run_job, JobsFit, known_after, run_jobs, Keeps, run_jobs-Keeps, first-Keeps,
}

abbrev pub codec_of : Option WindowTask → Option ℕ
codec_of none = none
codec_of (some w) = some w.codec_id

abbrev pub src_of : Option WindowTask → Option SrcVideo
src_of none = none
src_of (some w) = some w.src

module _ (J : Json) (law : IsJson J) where
  -- What the loop leaves in the tables, for one task.
  record Loaded (ws : List WindowTask) (k : ℕ) (t t' : ThirdInfo) : Type 0 where
    codecs : find t'.third_codec k ≡ or_else (find t.third_codec k) (codec_of (find_window ws k))
    srcs : find t'.src_video k ≡ or_else (find t.src_video k) (src_of (find_window ws k))

  load_windows-Loaded :
      (ws : List WindowTask) (t : ThirdInfo) (k : ℕ)
      → AllFit ws
      → (t' : ThirdInfo) × (load_windows J (map (window_value J) ws) t ≡ some t') × Loaded ws k t t'
  unfolding load_windows
  load_windows-Loaded [] t k f = (t, refl, record { codecs = ground arith; srcs = ground arith })
  load_windows-Loaded (w ∷ ws) t k f =
      let next : ThirdInfo = record t {
        third_codec = insert w.task_id w.codec_id t.third_codec;
        src_video = insert w.task_id w.src t.src_video;
      } in
      let (t', done, l) = load_windows-Loaded ws next k f.1 in
      (
        t',
        rw (read-window_value J law w f.0) done,
        record {
          codecs =
              ground (arith, l.codecs, find-insert-or_else w.task_id k w.codec_id t.third_codec);
          srcs = ground (arith, l.srcs, find-insert-or_else w.task_id k w.src t.src_video);
        },
      )

  third_windows-Keeps :
      (file : J.File) {m : ℕ → Option WindowTask} (t : ThirdInfo) (k : ℕ)
      → Keeps J file m
      → (t' : ThirdInfo) × (third_windows J file t ≡ some t')
        × (find t'.third_codec k ≡ codec_of (m k))
        × (find t'.src_video k ≡ src_of (m k))
  unfolding third_windows find
  third_windows-Keeps file {m} t k s =
      let (t', done, l) =
        load_windows-Loaded s.ws (record t { third_codec = []; src_video = [] }) k s.fit in
      (
        t',
        rw (s.holds.parsed, third_windows, s.holds.named, s.holds.listed) done,
        rw (← s.shown k) l.codecs,
        rw (← s.shown k) l.srcs,
      )

  -- A file that is missing or cannot be parsed, a first window that is saved, and any further jobs, each
  -- of which saves a window or removes a task's, all with values that their fields hold and ids below
  -- 2^31: every job is carried out, and a node that starts from the file knows of each task the codec task
  -- and the source of the window that was saved last, unless it was removed since.
  pub third_windows-run_jobs :
      (file : J.File) (w : WindowTask) (js : List Job) (t : ThirdInfo) (k : ℕ)
      → J.parse file ≡ none
      → JobsFit (save w ∷ js)
      → (file' : J.File) × (t' : ThirdInfo) × (run_jobs J (save w ∷ js) file ≡ some file')
        × (third_windows J file' t ≡ some t')
        × (find t'.third_codec k ≡ codec_of (known_after (save w ∷ js) (λ _. none) k))
        × (find t'.src_video k ≡ src_of (known_after (save w ∷ js) (λ _. none) k))
  unfolding run_jobs run_job
  third_windows-run_jobs file w js t k e f =
      let (file1, done, s1) = first-Keeps J law w file e f.0 in
      let (file2, rest, s2) = run_jobs-Keeps J law js file1 _ s1 f.1 in
      let (t', loaded, codecs, srcs) = third_windows-Keeps file2 t k s2 in
      (file2, t', rw (done) rest, loaded, codecs, srcs)

  find_last-throws :
      (id : ℕ) (vs : List J.Value) (v : J.Value)
      → int_at J "u32TaskID" v ≡ none
      → find_last J "u32TaskID" id (vs ++ (v ∷ [])) ≡ none
  unfolding find_last
  find_last-throws id [] v h = rw (h) refl
  find_last-throws id (x ∷ xs) v h = rw (find_last-throws id xs v h) refl

  big_task : (w : WindowTask) → 2 ^ 31 ≤ w.task_id → int_at J "u32TaskID" (window_value J w) ≡ none
  unfolding window_value
  big_task w big = grind (arith, law.get-put, law.as_int-num_big)

  -- A saved window of a task whose id is 2^31 or more stops the next save: where it stands last in the
  -- file, the search for another window throws, and no file is written.
  pub set_third_window-throws :
      (file : J.File) (doc : J.Value) (vs : List J.Value) (old w : WindowTask)
      → J.parse file ≡ some doc
      → J.items (J.get window_title doc) ≡ vs ++ (window_value J old ∷ [])
      → 2 ^ 31 ≤ old.task_id
      → set_third_window J w file ≡ none
  unfolding set_third_window save_entry put_entry
  set_third_window-throws file doc vs old w e l big =
      let throws = find_last-throws w.task_id vs (window_value J old) (big_task old big) in
      rw (e, save_entry, l, put_entry, throws) refl
