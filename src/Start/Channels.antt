-- ===== src/Start/Channels.antt =====
-- Enough channels are there for a list of at most 64 decoders.
use server_communication.Prelude.{
  ℕ, ◌+◌, ◌≤◌, ◌≡◌, refl, List, [], ◌∷◌, some, arith, if◌then◌else◌, length, erase_first,
  Bool-cases, inl, inr, ap,
}
use server_communication.AvDec.{AvDec}
use server_communication.TaskId.{
  TaskType, audio_task, video_task, audio_and_video_task, unknow_task, task_object_type_butt,
}
use server_communication.Window.{sort}
use server_communication.Start.{
  kind_of, Scan, scan_window, scan_pool, scan, wants_chn, give_chns, fresh, Started, write_counts,
  set_output_task_id_in_map,
}

shown_count : List AvDec → ℕ
shown_count [] = 0
shown_count (d ∷ ds) = (if d.swms then 1 else 0) + shown_count ds

wanting : List AvDec → ℕ
wanting [] = 0
wanting (d ∷ ds) = (if wants_chn d then 1 else 0) + wanting ds

wanting-le : (ds : List AvDec) → wanting ds + shown_count ds ≤ length ds
unfolding wanting shown_count
wanting-le [] = omega arith
wanting-le (d ∷ ds) = ground (arith, wanting-le ds)

length-erase_first : (xs : List ℕ) (a : ℕ) → length xs ≤ length (erase_first xs a) + 1
length-erase_first [] a = omega arith
length-erase_first (x ∷ xs) a = ground (arith, length-erase_first xs a)

give_chns_total :
    (ds : List AvDec) (chns : List ℕ)
    → wanting ds ≤ length chns
    → (out : List AvDec) × (give_chns chns ds ≡ some out)
unfolding wanting give_chns
give_chns_total [] chns h = ([], refl)
give_chns_total (d ∷ ds) [] h = elim (Bool-cases (wants_chn d)) [
  | inr e ↦
      let (out, g) = give_chns_total ds [] (ground (arith, h, e)) in
      (d ∷ out, rw (e, give_chns) (rw g refl))
  | inl e ↦ absurd (ground (arith, h, e))
]
give_chns_total (d ∷ ds) (c ∷ chns) h = elim (Bool-cases (wants_chn d)) [
  | inr e ↦
      let (out, g) = give_chns_total ds (c ∷ chns) (ground (arith, h, e)) in
      (d ∷ out, rw (e, give_chns) (rw g refl))
  | inl e ↦
      let (out, g) = give_chns_total ds chns (ground (arith, h, e)) in
      (record d { swms_chn = c } ∷ out, rw (e, give_chns) (rw g refl))
]

pool-chn : (s : Scan) (d : AvDec) (k : TaskType) → (scan_pool s d k).swms_chn ≡ s.swms_chn
unfolding scan_pool
pool-chn s d audio_task = refl
pool-chn s d video_task = refl
pool-chn s d audio_and_video_task = refl
pool-chn s d unknow_task = refl
pool-chn s d task_object_type_butt = refl

window-chn :
    (s : Scan) (d : AvDec)
    → length s.swms_chn ≤ length (scan_window s d).swms_chn + (if d.swms then 1 else 0)
window-chn s d = elim (Bool-cases d.swms) [
  | inl e ↦ rw e (length-erase_first s.swms_chn d.swms_chn)
  | inr e ↦ rw e (omega arith)
]

scan-chn :
    (s : Scan) (ds : List AvDec) → length s.swms_chn ≤ length (scan s ds).swms_chn + shown_count ds
unfolding scan shown_count
scan-chn s [] = omega arith
scan-chn s (d ∷ ds) = omega (
  arith,
  window-chn s d,
  ap length (pool-chn (scan_window s d) d (kind_of d.bind_type)),
  scan-chn (scan_pool (scan_window s d) d (kind_of d.bind_type)) ds,
)

-- A node that starts with at most 64 decoders finds a channel for each decoder that needs one, so
-- that the tables are filled.
pub set_output_task_id_in_map_total :
    (ds : List AvDec) → length ds ≤ 64 → (s : Started) × (set_output_task_id_in_map ds ≡ some s)
unfolding set_output_task_id_in_map
set_output_task_id_in_map_total ds b =
    let (out, g) =
      give_chns_total ds (scan fresh ds).swms_chn
        (omega (arith, b, wanting-le ds, scan-chn fresh ds)) in
    let s = scan fresh ds in
    (
      record {
        ids = write_counts s;
        win_priority = sort s.win_priority;
        swms_dec = s.swms_dec;
        decs = out;
      },
      rw g refl,
    )
