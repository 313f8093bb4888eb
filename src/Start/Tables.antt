-- ===== src/Start/Tables.antt =====
-- The tables that `setOutputTaskIDInMap` fills, read off the list of decoders.
use server_communication.Prelude.{
  ℕ, ◌+◌, ◌^◌, ◌<◌, ◌≤◌, ◌≡◌, ◌∙◌, refl, sym, ap, Bool, true, false, ◌&&◌, List, [], ◌∷◌, ◌++◌,
  arith, if◌then◌else◌, length, append_nil, append_assoc, Bool-cases, inl, inr,
}
use server_communication.AvDec.{AvDec}
use server_communication.TaskId.{
  TaskType, audio_task, video_task, audio_and_video_task, unknow_task, task_object_type_butt,
  pool_of,
}
use server_communication.Start.{kind_of, Scan, scan_window, is_open, scan_pool, scan}

-- The kinds that have a pool, told apart.
unfoldable pub serves : TaskType → TaskType → Bool
serves audio_task audio_task = true
serves video_task video_task = true
serves audio_and_video_task audio_and_video_task = true
serves _ _ = false

unfoldable pub has_pool : TaskType → Bool
has_pool audio_task = true
has_pool video_task = true
has_pool audio_and_video_task = true
has_pool _ = false

-- The ids of the decoders of a kind, in order.
unfoldable pub ids_of : TaskType → List AvDec → List ℕ
unfolding kind_of serves
ids_of t [] = []
ids_of t (d ∷ ds) = if serves t (kind_of d.bind_type) then d.tsk_id ∷ ids_of t ds else ids_of t ds

-- The ids of the decoders of any of the kinds that are open.
unfoldable pub open_ids : List AvDec → List ℕ
unfolding kind_of has_pool
open_ids [] = []
open_ids (d ∷ ds) =
    if has_pool (kind_of d.bind_type) && is_open d then d.tsk_id ∷ open_ids ds else open_ids ds

-- How many decoders of a kind are open.
unfoldable pub open_count : TaskType → List AvDec → ℕ
unfolding kind_of serves
open_count t [] = 0
open_count t (d ∷ ds) =
    (if serves t (kind_of d.bind_type) && is_open d then 1 else 0) + open_count t ds

unfoldable pub counter : Scan → TaskType → ℕ
counter s audio_task = s.audio_count
counter s video_task = s.video_count
counter s audio_and_video_task = s.audio_video_count
counter s _ = 0

scan_window-ids : (s : Scan) (d : AvDec) → (scan_window s d).ids ≡ s.ids
scan_window-ids s d = elim (Bool-cases d.swms) [ inl e ↦ rw e refl | inr e ↦ rw e refl ]

step-pool :
    (s : Scan) (d : AvDec) (t k : TaskType)
    → pool_of (scan_pool s d k).ids t
      ≡ pool_of s.ids t ++ (if serves t k then d.tsk_id ∷ [] else [])
unfolding scan_pool serves
step-pool s d audio_task audio_task = elim (Bool-cases (is_open d)) [
  | inl e ↦ rw e (refl)
  | inr e ↦ rw e (refl)
]
step-pool s d audio_task video_task = elim (Bool-cases (is_open d)) [
  | inl e ↦ rw e (sym (append_nil (pool_of s.ids audio_task)))
  | inr e ↦ rw e (sym (append_nil (pool_of s.ids audio_task)))
]
step-pool s d audio_task audio_and_video_task = elim (Bool-cases (is_open d)) [
  | inl e ↦ rw e (sym (append_nil (pool_of s.ids audio_task)))
  | inr e ↦ rw e (sym (append_nil (pool_of s.ids audio_task)))
]
step-pool s d audio_task unknow_task = sym (append_nil (pool_of s.ids audio_task))
step-pool s d audio_task task_object_type_butt = sym (append_nil (pool_of s.ids audio_task))
step-pool s d video_task audio_task = elim (Bool-cases (is_open d)) [
  | inl e ↦ rw e (sym (append_nil (pool_of s.ids video_task)))
  | inr e ↦ rw e (sym (append_nil (pool_of s.ids video_task)))
]
step-pool s d video_task video_task = elim (Bool-cases (is_open d)) [
  | inl e ↦ rw e (refl)
  | inr e ↦ rw e (refl)
]
step-pool s d video_task audio_and_video_task = elim (Bool-cases (is_open d)) [
  | inl e ↦ rw e (sym (append_nil (pool_of s.ids video_task)))
  | inr e ↦ rw e (sym (append_nil (pool_of s.ids video_task)))
]
step-pool s d video_task unknow_task = sym (append_nil (pool_of s.ids video_task))
step-pool s d video_task task_object_type_butt = sym (append_nil (pool_of s.ids video_task))
step-pool s d audio_and_video_task audio_task = elim (Bool-cases (is_open d)) [
  | inl e ↦ rw e (sym (append_nil (pool_of s.ids audio_and_video_task)))
  | inr e ↦ rw e (sym (append_nil (pool_of s.ids audio_and_video_task)))
]
step-pool s d audio_and_video_task video_task = elim (Bool-cases (is_open d)) [
  | inl e ↦ rw e (sym (append_nil (pool_of s.ids audio_and_video_task)))
  | inr e ↦ rw e (sym (append_nil (pool_of s.ids audio_and_video_task)))
]
step-pool s d audio_and_video_task audio_and_video_task = elim (Bool-cases (is_open d)) [
  | inl e ↦ rw e (refl)
  | inr e ↦ rw e (refl)
]
step-pool s d audio_and_video_task unknow_task =
    sym (append_nil (pool_of s.ids audio_and_video_task))
step-pool s d audio_and_video_task task_object_type_butt =
    sym (append_nil (pool_of s.ids audio_and_video_task))
step-pool s d unknow_task audio_task = refl
step-pool s d unknow_task video_task = refl
step-pool s d unknow_task audio_and_video_task = refl
step-pool s d unknow_task unknow_task = refl
step-pool s d unknow_task task_object_type_butt = refl
step-pool s d task_object_type_butt audio_task = refl
step-pool s d task_object_type_butt video_task = refl
step-pool s d task_object_type_butt audio_and_video_task = refl
step-pool s d task_object_type_butt unknow_task = refl
step-pool s d task_object_type_butt task_object_type_butt = refl

step-used :
    (s : Scan) (d : AvDec) (k : TaskType)
    → (scan_pool s d k).ids.all_used
      ≡ s.ids.all_used ++ (if has_pool k && is_open d then d.tsk_id ∷ [] else [])
unfolding scan_pool has_pool
step-used s d audio_task = elim (Bool-cases (is_open d)) [
  | inl e ↦ rw e refl
  | inr e ↦ rw e (sym (append_nil s.ids.all_used))
]
step-used s d video_task = elim (Bool-cases (is_open d)) [
  | inl e ↦ rw e refl
  | inr e ↦ rw e (sym (append_nil s.ids.all_used))
]
step-used s d audio_and_video_task = elim (Bool-cases (is_open d)) [
  | inl e ↦ rw e refl
  | inr e ↦ rw e (sym (append_nil s.ids.all_used))
]
step-used s d unknow_task = sym (append_nil s.ids.all_used)
step-used s d task_object_type_butt = sym (append_nil s.ids.all_used)

step-count :
    (s : Scan) (d : AvDec) (t k : TaskType)
    → counter s t + 1 < 2 ^ 32
    → counter (scan_pool s d k) t ≡ (if serves t k && is_open d then 1 else 0) + counter s t
unfolding scan_pool serves counter
step-count s d audio_task audio_task b = elim (Bool-cases (is_open d)) [
  | inl e ↦ rw e (omega (arith, b))
  | inr e ↦ rw e (omega arith)
]
step-count s d audio_task video_task b = omega arith
step-count s d audio_task audio_and_video_task b = omega arith
step-count s d audio_task unknow_task b = omega arith
step-count s d audio_task task_object_type_butt b = omega arith
step-count s d video_task audio_task b = omega arith
step-count s d video_task video_task b = elim (Bool-cases (is_open d)) [
  | inl e ↦ rw e (omega (arith, b))
  | inr e ↦ rw e (omega arith)
]
step-count s d video_task audio_and_video_task b = omega arith
step-count s d video_task unknow_task b = omega arith
step-count s d video_task task_object_type_butt b = omega arith
step-count s d audio_and_video_task audio_task b = omega arith
step-count s d audio_and_video_task video_task b = omega arith
step-count s d audio_and_video_task audio_and_video_task b = elim (Bool-cases (is_open d)) [
  | inl e ↦ rw e (omega (arith, b))
  | inr e ↦ rw e (omega arith)
]
step-count s d audio_and_video_task unknow_task b = omega arith
step-count s d audio_and_video_task task_object_type_butt b = omega arith
step-count s d unknow_task audio_task b = omega arith
step-count s d unknow_task video_task b = omega arith
step-count s d unknow_task audio_and_video_task b = omega arith
step-count s d unknow_task unknow_task b = omega arith
step-count s d unknow_task task_object_type_butt b = omega arith
step-count s d task_object_type_butt audio_task b = omega arith
step-count s d task_object_type_butt video_task b = omega arith
step-count s d task_object_type_butt audio_and_video_task b = omega arith
step-count s d task_object_type_butt unknow_task b = omega arith
step-count s d task_object_type_butt task_object_type_butt b = omega arith

prepend :
    (b : Bool) (x : ℕ) (xs : List ℕ) → (if b then x ∷ [] else []) ++ xs ≡ (if b then x ∷ xs else xs)
prepend true x xs = refl
prepend false x xs = refl

one-le : (b : Bool) → (if b then 1 else 0) ≤ 1
one-le b = ground arith

step-be_used :
    (s : Scan) (d : AvDec) (k : TaskType)
    → (scan_pool (scan_window s d) d k).ids.be_used ≡ s.ids.be_used
unfolding scan_pool
step-be_used s d audio_task = ground arith
step-be_used s d video_task = ground arith
step-be_used s d audio_and_video_task = ground arith
step-be_used s d unknow_task = ground arith
step-be_used s d task_object_type_butt = ground arith

step-third_codec :
    (s : Scan) (d : AvDec) (k : TaskType)
    → (scan_pool (scan_window s d) d k).ids.third_codec ≡ s.ids.third_codec
unfolding scan_pool
step-third_codec s d audio_task = ground arith
step-third_codec s d video_task = ground arith
step-third_codec s d audio_and_video_task = ground arith
step-third_codec s d unknow_task = ground arith
step-third_codec s d task_object_type_butt = ground arith

pub scan-pool :
    (s : Scan) (ds : List AvDec) (t : TaskType)
    → pool_of (scan s ds).ids t ≡ pool_of s.ids t ++ ids_of t ds
unfolding scan ids_of
scan-pool s [] t = sym (append_nil (pool_of s.ids t))
scan-pool s (d ∷ ds) t =
    scan-pool (scan_pool (scan_window s d) d (kind_of d.bind_type)) ds t
    ∙ (ap (λ p. p ++ ids_of t ds)
          (step-pool (scan_window s d) d t (kind_of d.bind_type)
            ∙ ap
                (λ i. pool_of i t ++ (if serves t (kind_of d.bind_type) then d.tsk_id ∷ [] else []))
                (scan_window-ids s d))
        ∙ (append_assoc (pool_of s.ids t) _ (ids_of t ds)
            ∙ ap (λ q. pool_of s.ids t ++ q)
                (prepend (serves t (kind_of d.bind_type)) d.tsk_id (ids_of t ds))))

pub scan-used :
    (s : Scan) (ds : List AvDec) → (scan s ds).ids.all_used ≡ s.ids.all_used ++ open_ids ds
unfolding scan open_ids
scan-used s [] = sym (append_nil s.ids.all_used)
scan-used s (d ∷ ds) =
    scan-used (scan_pool (scan_window s d) d (kind_of d.bind_type)) ds
    ∙ (ap (λ p. p ++ open_ids ds)
          (step-used (scan_window s d) d (kind_of d.bind_type)
            ∙ ap
                (λ i.
                  i.all_used
                  ++ (if has_pool (kind_of d.bind_type) && is_open d then d.tsk_id ∷ [] else []))
                (scan_window-ids s d))
        ∙ (append_assoc s.ids.all_used _ (open_ids ds)
            ∙ ap (λ q. s.ids.all_used ++ q)
                (prepend (has_pool (kind_of d.bind_type) && is_open d) d.tsk_id (open_ids ds))))

window-count : (s : Scan) (d : AvDec) (t : TaskType) → counter (scan_window s d) t ≡ counter s t
unfolding counter
window-count s d audio_task = elim (Bool-cases d.swms) [ inl e ↦ rw e refl | inr e ↦ rw e refl ]
window-count s d video_task = elim (Bool-cases d.swms) [ inl e ↦ rw e refl | inr e ↦ rw e refl ]
window-count s d audio_and_video_task = elim (Bool-cases d.swms) [
  | inl e ↦ rw e refl
  | inr e ↦ rw e refl
]
window-count s d unknow_task = refl
window-count s d task_object_type_butt = refl

pub scan-count :
    (s : Scan) (ds : List AvDec) (t : TaskType)
    → counter s t + length ds < 2 ^ 32
    → counter (scan s ds) t ≡ counter s t + open_count t ds
unfolding scan open_count
scan-count s [] t b = omega arith
scan-count s (d ∷ ds) t b =
    let w = window-count s d t in
    let e = step-count (scan_window s d) d t (kind_of d.bind_type) (omega (arith, b, w)) in
    omega (
      arith,
      w,
      e,
      scan-count (scan_pool (scan_window s d) d (kind_of d.bind_type)) ds t
          (omega (arith, w, b, e, one-le (serves t (kind_of d.bind_type) && is_open d))),
    )

pub scan-be_used : (s : Scan) (ds : List AvDec) → (scan s ds).ids.be_used ≡ s.ids.be_used
unfolding scan
scan-be_used s [] = refl
scan-be_used s (d ∷ ds) =
    scan-be_used (scan_pool (scan_window s d) d (kind_of d.bind_type)) ds
    ∙ step-be_used s d (kind_of d.bind_type)

pub scan-third_codec :
    (s : Scan) (ds : List AvDec) → (scan s ds).ids.third_codec ≡ s.ids.third_codec
unfolding scan
scan-third_codec s [] = refl
scan-third_codec s (d ∷ ds) =
    scan-third_codec (scan_pool (scan_window s d) d (kind_of d.bind_type)) ds
    ∙ step-third_codec s d (kind_of d.bind_type)
