-- ===== src/Saving/Windows.antt =====
-- The file of the windows over a run of the node, and what a node that starts again reads from it.
use server_communication.Prelude.{
  ℕ, ◌≡◌, refl, true, List, [], ◌∷◌, Option, none, some, ◌==◌, if◌then◌else◌, map, Bool-cases,
  ◌>>=◌, inl, inr, arith,
}
use server_communication.Saving.Json.{Json, IsJson}
use server_communication.Saving.Third.{
  WindowTask, window_title, window_value, save_entry, set_third_window, remove_third_window,
  remove_task,
}
use server_communication.Saving.Entries.{
  WindowFits, AllFit, find_window, DistinctTasks, put_window, drop_window, has_window,
  find-put_window, find-drop_window, put_window-DistinctTasks, drop_window-DistinctTasks,
  put_window-AllFit, drop_window-AllFit, drop_window-absent, put_entry-put_window,
  remove_entries-drop_window,
}

-- A job of the pool: a window is saved, or the windows of a task are removed.
pub data Job : Type 0 where
  save : WindowTask → Job
  remove : ℕ → Job

abbrev pub JobFits : Job → Type 0
JobFits (save w) = WindowFits w
JobFits (remove k) = Unit {0}

abbrev pub JobsFit : List Job → Type 0
JobsFit [] = Unit {0}
JobsFit (j ∷ js) = JobFits j × JobsFit js

-- The window that is known of each task, after the jobs.
abbrev pub known_after : List Job → (ℕ → Option WindowTask) → ℕ → Option WindowTask
known_after [] m = m
known_after (save w ∷ js) m = known_after js (λ k. if w.task_id == k then some w else m k)
known_after (remove j ∷ js) m = known_after js (λ k. if j == k then none else m k)

module _ (J : Json) where
  open J use {Value, File, get, items, parse, is_member}

  unfoldable pub run_job : Job → File → Option File
  run_job (save w) file = set_third_window J w file
  run_job (remove k) file = remove_third_window J k file

  unfoldable pub run_jobs : List Job → File → Option File
  unfolding run_job
  run_jobs [] file = some file
  run_jobs (j ∷ js) file = do file' ← run_job j file; run_jobs js file'

  -- The file holds these windows, in this order.
  pub record Holds (file : File) (ws : List WindowTask) : Type 0 where
    pub doc : Value
    pub parsed : parse file ≡ some doc
    pub listed : items (get window_title doc) ≡ map (window_value J) ws
    pub named : is_member window_title doc ≡ true

  -- The file holds one window of each task that the map knows.
  pub record Keeps (file : File) (m : ℕ → Option WindowTask) : Type 0 where
    pub ws : List WindowTask
    pub holds : Holds file ws
    pub fit : AllFit ws
    pub distinct : DistinctTasks ws
    pub shown : (k : ℕ) → find_window ws k ≡ m k

  module _ (law : IsJson J) where
    set_third_window-Holds :
        (w : WindowTask) (file : File) (ws : List WindowTask)
        → Holds file ws
        → AllFit ws
        → DistinctTasks ws
        → (file' : File) × (set_third_window J w file ≡ some file') × Holds file' (put_window w ws)
    unfolding set_third_window save_entry
    set_third_window-Holds w file ws h f d =
        let doc' = J.put window_title (J.array (map (window_value J) (put_window w ws))) h.doc in
        (
          J.write doc',
          rw (h.parsed, save_entry, h.listed, put_entry-put_window J law w ws f d) refl,
          record {
            doc = doc';
            parsed = law.parse-write doc';
            listed = grind (arith, law.get-put, law.items-array);
            named = grind (arith, law.is_member-put);
          },
        )

    remove_third_window-Holds :
        (k : ℕ) (file : File) (ws : List WindowTask)
        → Holds file ws
        → AllFit ws
        → (file' : File) × (remove_third_window J k file ≡ some file')
          × Holds file' (drop_window k ws)
    unfolding remove_third_window remove_task
    remove_third_window-Holds k file ws h f =
        let doc' = J.put window_title (J.array (map (window_value J) (drop_window k ws))) h.doc in
        elim (Bool-cases (has_window k ws)) [
          | inl there ↦ (
            J.write doc',
            rw (h.parsed, remove_task, h.listed, remove_entries-drop_window J law k ws f, there)
                refl,
            record {
              doc = doc';
              parsed = law.parse-write doc';
              listed = grind (arith, law.get-put, law.items-array);
              named = grind (arith, law.is_member-put);
            },
          )
          | inr absent ↦ (
            file,
            rw (h.parsed, remove_task, h.listed, remove_entries-drop_window J law k ws f, absent)
                refl,
            rw (drop_window-absent k ws absent) h,
          )
        ]

    save-Keeps :
        (w : WindowTask) (file : File) {m : ℕ → Option WindowTask}
        → Keeps file m
        → WindowFits w
        → (file' : File) × (set_third_window J w file ≡ some file')
          × Keeps file' (λ k. if w.task_id == k then some w else m k)
    save-Keeps w file {m} s f =
        let (file', done, h) = set_third_window-Holds w file s.ws s.holds s.fit s.distinct in
        (
          file',
          done,
          record {
            ws = put_window w s.ws;
            holds = h;
            fit = put_window-AllFit w s.ws f s.fit;
            distinct = put_window-DistinctTasks w s.ws s.distinct;
            shown = λ k. rw (find-put_window w s.ws k, s.shown k) refl;
          },
        )

    remove-Keeps :
        (j : ℕ) (file : File) {m : ℕ → Option WindowTask}
        → Keeps file m
        → (file' : File) × (remove_third_window J j file ≡ some file')
          × Keeps file' (λ k. if j == k then none else m k)
    remove-Keeps j file {m} s =
        let (file', done, h) = remove_third_window-Holds j file s.ws s.holds s.fit in
        (
          file',
          done,
          record {
            ws = drop_window j s.ws;
            holds = h;
            fit = drop_window-AllFit j s.ws s.fit;
            distinct = drop_window-DistinctTasks j s.ws s.distinct;
            shown = λ k. rw (find-drop_window j s.ws k, s.shown k) refl;
          },
        )

    pub run_jobs-Keeps :
        (js : List Job) (file : File) (m : ℕ → Option WindowTask)
        → Keeps file m
        → JobsFit js
        → (file' : File) × (run_jobs js file ≡ some file') × Keeps file' (known_after js m)
    unfolding run_jobs run_job
    run_jobs-Keeps [] file m s f = (file, refl, s)
    run_jobs-Keeps (save w ∷ js) file m s f =
        let (file1, done, s1) = save-Keeps w file s f.0 in
        let (file2, rest, s2) = run_jobs-Keeps js file1 _ s1 f.1 in (file2, rw (done) rest, s2)
    run_jobs-Keeps (remove j ∷ js) file m s f =
        let (file1, done, s1) = remove-Keeps j file s in
        let (file2, rest, s2) = run_jobs-Keeps js file1 _ s1 f.1 in (file2, rw (done) rest, s2)

    -- A file that cannot be parsed is replaced by one with the window alone.
    pub first-Keeps :
        (w : WindowTask) (file : File)
        → parse file ≡ none
        → WindowFits w
        → (file' : File) × (set_third_window J w file ≡ some file')
          × Keeps file' (λ k. if w.task_id == k then some w else none)
    unfolding set_third_window save_entry
    first-Keeps w file e f =
        let doc = J.put window_title (J.array []) J.null in
        let doc' = J.put window_title (J.array (window_value J w ∷ [])) doc in
        let empty : items (get window_title doc) ≡ [] =
          grind (arith, law.get-put, law.items-array) in
        (
          J.write doc',
          rw (e, save_entry, law.parse-empty_list window_title, empty) refl,
          record {
            ws = w ∷ [];
            holds = record {
              doc = doc';
              parsed = law.parse-write doc';
              listed = grind (arith, law.get-put, law.items-array);
              named = grind (arith, law.is_member-put);
            };
            fit = (f, tt);
            distinct = (refl, tt);
            shown = λ k. refl;
          },
        )
