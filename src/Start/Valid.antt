-- ===== src/Start/Valid.antt =====
-- The bookkeeping of ids is in order from the start.
use server_communication.Prelude.{
  ℕ, ◌+◌, ◌^◌, ◌<◌, ◌≤◌, ◌≡◌, ◌⊎◌, ◌∙◌, refl, sym, ap, true, false, ◌&&◌, List, [], ◌∷◌, map, none,
  some, arith, length, contains, Distinct, Bool-cases, inl, inr, same_list, same_list→eq,
  same_list_refl, some-injective, Option-cases,
}
use server_communication.Prelude.Maps.{find}
use server_communication.AvDec.{AvDec}
use server_communication.TaskId.{
  TaskIds, TaskType, audio_task, video_task, audio_and_video_task, unknow_task,
  task_object_type_butt, count_of, set_count, pool_of, task_type_of_id,
}
use server_communication.TaskId.Counts.{used_in, count_of-set_count}
use server_communication.TaskId.Invariant.{IsPool, IsValid}
use server_communication.Start.{
  kind_of, Scan, is_open, scan, fresh, write_counts, give_chns, Started, set_output_task_id_in_map,
}
use server_communication.Start.Tables.{
  serves, has_pool, ids_of, open_ids, open_count, counter, scan-pool, scan-used, scan-count,
  scan-be_used, scan-third_codec,
}

-- The id of a decoder that serves a pool lies in the range for its bind type.
abbrev pub RightRange : List AvDec → Type 0
RightRange [] = Unit {0}
RightRange (d ∷ ds) =
    (has_pool (kind_of d.bind_type) ≡ true → task_type_of_id d.tsk_id ≡ kind_of d.bind_type)
    × RightRange ds

-- The ids of the decoders are distinct, and each lies in the range for its bind type.
abbrev pub Ordered : List AvDec → Type 0
Ordered ds = Distinct (map (λ d. d.tsk_id) ds) × RightRange ds

contains-ids_of :
    (t : TaskType) (ds : List AvDec) (id : ℕ)
    → contains (ids_of t ds) id ≡ true
    → contains (map (λ d. d.tsk_id) ds) id ≡ true
unfolding ids_of
contains-ids_of t [] id h = h
contains-ids_of t (d ∷ ds) id h = ground (arith, contains-ids_of t ds id)

contains-open_ids :
    (ds : List AvDec) (id : ℕ)
    → contains (open_ids ds) id ≡ true
    → contains (map (λ d. d.tsk_id) ds) id ≡ true
unfolding open_ids
contains-open_ids [] id h = h
contains-open_ids (d ∷ ds) id h = ground (arith, contains-open_ids ds id)

ids_of-Distinct :
    (t : TaskType) (ds : List AvDec) → Distinct (map (λ d. d.tsk_id) ds) → Distinct (ids_of t ds)
unfolding ids_of
ids_of-Distinct t [] h = tt
ids_of-Distinct t (d ∷ ds) h = elim (Bool-cases (serves t (kind_of d.bind_type))) [
  | inl e ↦ rw e (ground (arith, contains-ids_of t ds d.tsk_id), ids_of-Distinct t ds h.1)
  | inr e ↦ rw e (ids_of-Distinct t ds h.1)
]

open_ids-Distinct : (ds : List AvDec) → Distinct (map (λ d. d.tsk_id) ds) → Distinct (open_ids ds)
unfolding open_ids
open_ids-Distinct [] h = tt
open_ids-Distinct (d ∷ ds) h = elim (Bool-cases (has_pool (kind_of d.bind_type) && is_open d)) [
  | inl e ↦ rw e (ground (arith, contains-open_ids ds d.tsk_id), open_ids-Distinct ds h.1)
  | inr e ↦ rw e (open_ids-Distinct ds h.1)
]

serves-eq : (t k : TaskType) → serves t k ≡ true → (t ≡ k) × (has_pool k ≡ true)
unfolding serves has_pool
serves-eq t k h = ground arith

ids_of-range :
    (t : TaskType) (ds : List AvDec) (id : ℕ)
    → RightRange ds
    → contains (ids_of t ds) id ≡ true
    → task_type_of_id id ≡ t
unfolding ids_of
ids_of-range t [] id r h = ground arith
ids_of-range t (d ∷ ds) id r h =
    ground (arith, ids_of-range t ds id r.1, serves-eq t (kind_of d.bind_type), r.0)

length-ids_of : (t : TaskType) (ds : List AvDec) → length (ids_of t ds) ≤ length ds
unfolding ids_of
length-ids_of t [] = omega arith
length-ids_of t (d ∷ ds) = ground (arith, length-ids_of t ds)

-- An id that is no decoder's is no matter.
used_in_other :
    (xs used : List ℕ) (id : ℕ) → contains xs id ≡ false → used_in xs (id ∷ used) ≡ used_in xs used
unfolding used_in
used_in_other [] used id h = refl
used_in_other (x ∷ xs) used id h = ground (arith, used_in_other xs used id)

used_in-open_ids :
    (t : TaskType) (ds : List AvDec)
    → Distinct (map (λ d. d.tsk_id) ds)
    → used_in (ids_of t ds) (open_ids ds) ≡ open_count t ds
unfolding used_in ids_of open_ids open_count
used_in-open_ids t [] h = refl
used_in-open_ids t (d ∷ ds) h = ground (
  arith,
  used_in-open_ids t ds h.1,
  used_in_other (ids_of t ds) (open_ids ds) d.tsk_id,
  contains-ids_of t ds d.tsk_id,
  contains-open_ids ds d.tsk_id,
  serves-eq t (kind_of d.bind_type),
)

left_empty :
    (used a v w q : List ℕ)
    → (q ≡ a) ⊎ (q ≡ v) ⊎ (q ≡ w) ⊎ (q ≡ [])
    → same_list w q ≡ false
    → same_list v q ≡ false
    → same_list a q ≡ false
    → 0 ≡ used_in q used
unfolding used_in
left_empty used a v w q (inl h) e f g = cc (rw h at g, same_list_refl a)
left_empty used a v w q (inr (inl h)) e f g = cc (rw h at f, same_list_refl v)
left_empty used a v w q (inr (inr (inl h))) e f g = cc (rw h at e, same_list_refl w)
left_empty used a v w q (inr (inr (inr h))) e f g = rw h refl

-- Writing the three counters gives each pool its own, also where two pools are alike.
written :
    (used a v w q : List ℕ)
    → (q ≡ a) ⊎ (q ≡ v) ⊎ (q ≡ w) ⊎ (q ≡ [])
    → count_of
        (set_count
          (set_count (set_count [] a (used_in a used)) v (used_in v used))
          w
          (used_in w used))
        q
      ≡ used_in q used
unfolding count_of used_in
written used a v w q h = elim (Bool-cases (same_list w q)) [
  | inl e ↦ rw (count_of-set_count _ w q _) (rw e (ap (λ p. used_in p used) (same_list→eq w q e)))
  | inr e ↦ elim (Bool-cases (same_list v q)) [
    | inl f ↦ rw (count_of-set_count _ w q _) (
        rw e
          (rw (count_of-set_count _ v q _) (rw f (ap (λ p. used_in p used) (same_list→eq v q f)))))
    | inr f ↦ elim (Bool-cases (same_list a q)) [
      | inl g ↦ rw (count_of-set_count _ w q _) (
          rw e (
            rw (count_of-set_count _ v q _) (
              rw f (
                rw (count_of-set_count [] a q _)
                  (rw g (ap (λ p. used_in p used) (same_list→eq a q g)))))))
      | inr g ↦ rw (count_of-set_count _ w q _) (
          rw e (
            rw (count_of-set_count _ v q _)
              (rw f (rw (count_of-set_count [] a q _) (rw g (left_empty used a v w q h e f g))))))
    ]
  ]
]

no_count : (t : TaskType) → counter fresh t ≡ 0
unfolding counter
no_count audio_task = refl
no_count video_task = refl
no_count audio_and_video_task = refl
no_count unknow_task = refl
no_count task_object_type_butt = refl

module _ (ds : List AvDec) (o : Ordered ds) (b : length ds < 2 ^ 32) where
  abbrev scanned : Scan
  scanned = scan fresh ds

  pool : (t : TaskType) → pool_of scanned.ids t ≡ ids_of t ds
  pool audio_task = scan-pool fresh ds audio_task
  pool video_task = scan-pool fresh ds video_task
  pool audio_and_video_task = scan-pool fresh ds audio_and_video_task
  pool unknow_task = scan-pool fresh ds unknow_task
  pool task_object_type_butt = scan-pool fresh ds task_object_type_butt

  used : scanned.ids.all_used ≡ open_ids ds
  used = scan-used fresh ds

  abbrev final : TaskIds
  final = write_counts scanned

  total : (t : TaskType) → counter fresh t + open_count t ds ≡ used_in (ids_of t ds) (open_ids ds)
  total t = omega (arith, no_count t, used_in-open_ids t ds o.0)

  count : (t : TaskType) → counter scanned t ≡ used_in (pool_of scanned.ids t) scanned.ids.all_used
  count t =
      scan-count fresh ds t (omega (arith, no_count t, b))
      ∙ (total t
          ∙ sym (
              ap (λ p. used_in p scanned.ids.all_used) (pool t)
              ∙ ap (λ u. used_in (ids_of t ds) u) used))

  final-pool : (t : TaskType) → pool_of final t ≡ pool_of scanned.ids t
  unfolding write_counts
  final-pool audio_task = refl
  final-pool video_task = refl
  final-pool audio_and_video_task = refl
  final-pool unknow_task = refl
  final-pool task_object_type_butt = refl

  final-used : final.all_used ≡ scanned.ids.all_used
  unfolding write_counts
  final-used = refl

  one_of :
      (t : TaskType)
      → (pool_of scanned.ids t ≡ scanned.ids.audio_task_id)
        ⊎ (pool_of scanned.ids t ≡ scanned.ids.video_task_id)
        ⊎ (pool_of scanned.ids t ≡ scanned.ids.au_vi_task_id)
        ⊎ (pool_of scanned.ids t ≡ [])
  one_of audio_task = inl refl
  one_of video_task = inr (inl refl)
  one_of audio_and_video_task = inr (inr (inl refl))
  one_of unknow_task = inr (inr (inr refl))
  one_of task_object_type_butt = inr (inr (inr refl))

  final-counted :
      (t : TaskType)
      → count_of final.be_used (pool_of final t) ≡ used_in (pool_of final t) final.all_used
  unfolding write_counts counter
  final-counted t = rw (final-pool t) (
      rw (scan-be_used fresh ds) (
        rw (count audio_task, count video_task, count audio_and_video_task)
          (written scanned.ids.all_used _ _ _ (pool_of scanned.ids t) (one_of t))))

  final-IsPool : (t : TaskType) → IsPool final t
  final-IsPool t = record {
    distinct = rw (final-pool t) (rw (pool t) (ids_of-Distinct t ds o.0));
    in_range = λ id h. ids_of-range t ds id o.1 (rw (final-pool t ∙ pool t) at h);
    small = rw (final-pool t) (rw (pool t) (omega (arith, length-ids_of t ds, b)));
    counted = final-counted t;
  }

  holds_none : (third : ℕ) → find final.third_codec third ≡ none
  unfolding write_counts find
  holds_none third = rw (scan-third_codec fresh ds) refl

  final-IsValid : IsValid final
  final-IsValid = record {
    pools = final-IsPool;
    used_distinct = rw (final-used ∙ used) (open_ids-Distinct ds o.0);
    owned_used = λ third id h. cc (h, holds_none third);
    owned_pool = λ third id h. cc (h, holds_none third);
    injective = λ third other id h g. cc (h, holds_none third);
  }

-- The list of decoders that a node starts with, fewer than 2^32, whose ids are distinct and, for
-- those that serve a pool, in the range for the bind type, gives, where the channels do not run
-- out, a bookkeeping of ids in order, in which the pools are the ids of the decoders of each
-- kind, and the open ones are in use.
pub set_output_task_id_in_map-IsValid :
    (ds : List AvDec) (s : Started)
    → Ordered ds
    → length ds < 2 ^ 32
    → set_output_task_id_in_map ds ≡ some s
    → IsValid s.ids
      × ((t : TaskType) → pool_of s.ids t ≡ ids_of t ds)
      × (s.ids.all_used ≡ open_ids ds)
unfolding set_output_task_id_in_map
set_output_task_id_in_map-IsValid ds s o b h =
    elim (Option-cases (give_chns (scan fresh ds).swms_chn ds)) [
      | inl e ↦ cc (rw e at h)
      | inr (out, e) ↦ rw (← ap (λ r. r.ids) (some-injective (rw e at h))) (
        final-IsValid ds o b,
        λ t. final-pool ds o b t ∙ pool ds o b t,
        final-used ds o b ∙ used ds o b,
      )
    ]
