-- ===== src/Saving/Entries.antt =====
-- The entries of the file of the windows as a list of windows: what the searches of src/TaskRestore.cpp
-- find in it, and what a saved, a removed and a read entry are to the list.
use server_communication.Prelude.{
  ℕ, suc, ◌^◌, ◌<◌, ◌≡◌, refl, Bool, true, false, List, [], ◌∷◌, ◌++◌, Option, none, some, ◌==◌,
  if◌then◌else◌, map, arith,
}
use server_communication.Prelude.Int.{pos}
use server_communication.Saving.Json.{Json, IsJson}
use server_communication.Saving.Read.{int_at, uint_at}
use server_communication.Saving.Third.{
  WindowTask, window_value, read_window, find_last, set_at, put_entry, remove_entries,
}

abbrev IsU16 : ℕ → Type 0
IsU16 n = n < 2 ^ 16

-- The ids are read back by `asInt` too.
pub record WindowFits (w : WindowTask) : Type 0 where
  pub task_fits : w.task_id < 2 ^ 31
  pub codec_fits : w.codec_id < 2 ^ 31
  pub width_fits : IsU16 w.src.video_width
  pub height_fits : IsU16 w.src.video_height
  pub start_x_fits : IsU16 w.src.start_x
  pub start_y_fits : IsU16 w.src.start_y
  pub end_x_fits : IsU16 w.src.end_x
  pub end_y_fits : IsU16 w.src.end_y

abbrev pub AllFit : List WindowTask → Type 0
AllFit [] = Unit {0}
AllFit (w ∷ ws) = WindowFits w × AllFit ws

abbrev pub find_window : List WindowTask → ℕ → Option WindowTask
find_window [] k = none
find_window (w ∷ ws) k = if w.task_id == k then some w else find_window ws k

-- No task has two windows.
abbrev pub DistinctTasks : List WindowTask → Type 0
DistinctTasks [] = Unit {0}
DistinctTasks (w ∷ ws) = (find_window ws w.task_id ≡ none) × DistinctTasks ws

-- A window in the place of the old one of its task, or at the end.
pub put_window : WindowTask → List WindowTask → List WindowTask
put_window w [] = w ∷ []
put_window w (x ∷ xs) = if x.task_id == w.task_id then w ∷ xs else x ∷ put_window w xs

pub drop_window : ℕ → List WindowTask → List WindowTask
drop_window k [] = []
drop_window k (x ∷ xs) = if x.task_id == k then drop_window k xs else x ∷ drop_window k xs

pub find-put_window :
    (w : WindowTask) (ws : List WindowTask) (k : ℕ)
    → find_window (put_window w ws) k ≡ (if w.task_id == k then some w else find_window ws k)
unfolding put_window
find-put_window w [] k = refl
find-put_window w (x ∷ xs) k = ground (arith, find-put_window w xs k)

pub find-drop_window :
    (j : ℕ) (ws : List WindowTask) (k : ℕ)
    → find_window (drop_window j ws) k ≡ (if j == k then none else find_window ws k)
unfolding drop_window
find-drop_window j [] k = ground arith
find-drop_window j (x ∷ xs) k = ground (arith, find-drop_window j xs k)

pub put_window-DistinctTasks :
    (w : WindowTask) (ws : List WindowTask) → DistinctTasks ws → DistinctTasks (put_window w ws)
unfolding put_window
put_window-DistinctTasks w [] d = (refl, tt)
put_window-DistinctTasks w (x ∷ xs) d =
    ground (arith, put_window-DistinctTasks w xs, find-put_window w xs x.task_id)

pub drop_window-DistinctTasks :
    (k : ℕ) (ws : List WindowTask) → DistinctTasks ws → DistinctTasks (drop_window k ws)
unfolding drop_window
drop_window-DistinctTasks k [] d = tt
drop_window-DistinctTasks k (x ∷ xs) d =
    ground (arith, drop_window-DistinctTasks k xs, find-drop_window k xs x.task_id)

pub put_window-AllFit :
    (w : WindowTask) (ws : List WindowTask) → WindowFits w → AllFit ws → AllFit (put_window w ws)
unfolding put_window
put_window-AllFit w [] f fs = (f, tt)
put_window-AllFit w (x ∷ xs) f fs = ground (arith, put_window-AllFit w xs f fs.1)

pub drop_window-AllFit : (k : ℕ) (ws : List WindowTask) → AllFit ws → AllFit (drop_window k ws)
unfolding drop_window
drop_window-AllFit k [] f = tt
drop_window-AllFit k (x ∷ xs) f = ground (arith, drop_window-AllFit k xs f.1)

abbrev pub has_window : ℕ → List WindowTask → Bool
has_window k [] = false
has_window k (x ∷ xs) = if x.task_id == k then true else has_window k xs

pub drop_window-absent :
    (k : ℕ) (ws : List WindowTask) → has_window k ws ≡ false → drop_window k ws ≡ ws
unfolding drop_window
drop_window-absent k [] h = refl
drop_window-absent k (x ∷ xs) h = ground (arith, drop_window-absent k xs)

-- Where the loop from the end finds a task.
last_index : ℕ → List WindowTask → Option ℕ
last_index k [] = none
last_index k (w ∷ ws) = elim (last_index k ws) [
  | some i ↦ some (suc i)
  | none ↦ if w.task_id == k then some 0 else none
]

last_index-none : (k : ℕ) (ws : List WindowTask) → find_window ws k ≡ none → last_index k ws ≡ none
unfolding last_index
last_index-none k [] h = refl
last_index-none k (w ∷ ws) h = ground (arith, last_index-none k ws)

module _ (J : Json) (law : IsJson J) where
  task-window_value :
      (w : WindowTask)
      → WindowFits w
      → int_at J "u32TaskID" (window_value J w) ≡ some (pos w.task_id)
  unfolding window_value
  task-window_value w f = grind (arith, law.get-put, law.as_int-num)

  uint_task-window_value :
      (w : WindowTask) → WindowFits w → uint_at J "u32TaskID" (window_value J w) ≡ some w.task_id
  unfolding window_value
  uint_task-window_value w f = grind (arith, law.get-put, law.as_uint-num)

  pub read-window_value :
      (w : WindowTask) → WindowFits w → read_window J (window_value J w) ≡ some w
  unfolding read_window window_value
  read-window_value w f = grind (arith, law.get-put, law.get-null, law.as_uint-num, law.as_int-num)

  find_last-last_index :
      (k : ℕ) (ws : List WindowTask)
      → AllFit ws
      → find_last J "u32TaskID" k (map (window_value J) ws) ≡ some (last_index k ws)
  unfolding find_last last_index
  find_last-last_index k [] f = refl
  find_last-last_index k (w ∷ ws) f =
      ground (arith, find_last-last_index k ws f.1, task-window_value w f.0)

  -- The list that `put_entry` makes, where the search gave `place`.
  abbrev entered : WindowTask → List WindowTask → Option ℕ → List J.Value
  entered w ws (some i) = set_at i (window_value J w) (map (window_value J) ws)
  entered w ws none = map (window_value J) ws ++ (window_value J w ∷ [])

  entered-put_window :
      (w : WindowTask) (ws : List WindowTask)
      → DistinctTasks ws
      → entered w ws (last_index w.task_id ws) ≡ map (window_value J) (put_window w ws)
  unfolding last_index put_window
  entered-put_window w [] d = refl
  entered-put_window w (x ∷ xs) d =
      ground (arith, entered-put_window w xs d.1, last_index-none w.task_id xs)

  pub put_entry-put_window :
      (w : WindowTask) (ws : List WindowTask)
      → AllFit ws
      → DistinctTasks ws
      → put_entry J "u32TaskID" w.task_id (window_value J w) (map (window_value J) ws)
        ≡ some (map (window_value J) (put_window w ws))
  unfolding put_entry
  put_entry-put_window w ws f d =
      rw (find_last-last_index w.task_id ws f, put_entry)
        (ground (arith, entered-put_window w ws d))

  pub remove_entries-drop_window :
      (k : ℕ) (ws : List WindowTask)
      → AllFit ws
      → remove_entries J "u32TaskID" k (map (window_value J) ws)
        ≡ some (has_window k ws, map (window_value J) (drop_window k ws))
  unfolding remove_entries drop_window
  remove_entries-drop_window k [] f = refl
  remove_entries-drop_window k (x ∷ xs) f =
      ground (arith, remove_entries-drop_window k xs f.1, uint_task-window_value x f.0)
