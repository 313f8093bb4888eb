-- ===== src/TaskId/Alloc.antt =====
-- `findNewID`: what it returns, and that it keeps the bookkeeping in order.
use server_communication.Prelude.{
  ℕ, ◌+◌, ◌%◌, ◌^◌, ◌≤◌, ◌<◌, ◌≡◌, inl, inr, refl, sym, ap, ◌∙◌, true, false, [], ◌∷◌, ◌++◌, none,
  some, arith, leb, ◌==◌, if◌then◌else◌, length, contains, same_list, contains-append,
  Distinct-append_one, same_list→eq, same_list_refl, Bool-cases, Option-cases,
}
use server_communication.Prelude.Maps.{find, insert, find-insert}
use server_communication.ErrorCode
use server_communication.TaskId.{
  TaskType, audio_task, video_task, audio_and_video_task, unknow_task, task_object_type_butt,
  TaskIds, count_of, set_count, find_free, take_id, find_new_id, pool_of, get_new_codec_task_id,
  task_type_of_id,
}
use server_communication.TaskId.Counts.{
  used_in, find_free-none, find_free-some, used_in-append_other, used_in-append_self,
  count_of-set_count,
}
use server_communication.TaskId.Invariant.{IsValid, IsPool-move, Pooled}

abbrev pub Fresh : TaskIds → ℕ → TaskType → ℕ → Type 0
Fresh s third t id =
    (find s.third_codec third ≡ none)
    × (contains (pool_of s t) id ≡ true)
    × (contains s.all_used id ≡ false)
    × (count_of s.be_used (pool_of s t) < length (pool_of s t))

-- The four ways that a call can go.
pub data Outcome (s : TaskIds) (third : ℕ) (t : TaskType) : TaskIds × ℕ → Type 0 where
  repeated :
      (id : ℕ) → find s.third_codec third ≡ some id → Outcome s third t (s, ErrorCode.third_task_id)
  full :
      find s.third_codec third ≡ none
      → length (pool_of s t) ≤ count_of s.be_used (pool_of s t)
      → Outcome s third t (s, ErrorCode.full_codec_task_id)
  exhausted :
      find s.third_codec third ≡ none
      → count_of s.be_used (pool_of s t) < length (pool_of s t)
      → used_in (pool_of s t) s.all_used ≡ length (pool_of s t)
      → Outcome s third t (s, ErrorCode.task_source_notenough)
  taken : (id : ℕ) → Fresh s third t id → Outcome s third t (take_id s third (pool_of s t) id, id)

pub find_new_id-Outcome :
    (s : TaskIds) (third : ℕ) (t : TaskType) → Outcome s third t (find_new_id s third (pool_of s t))
unfolding find_new_id
find_new_id-Outcome s third t = elim (Option-cases (find s.third_codec third)) [
  | inr (id, e) ↦ rw (e, find_new_id) (repeated id e)
  | inl e ↦ elim (Bool-cases (leb (length (pool_of s t)) (count_of s.be_used (pool_of s t)))) [
    | inl f ↦ rw (e, find_new_id) (rw f (full e (ground arith)))
    | inr f ↦ elim (Option-cases (find_free (pool_of s t) s.all_used)) [
      | inl g ↦
          rw (e, find_new_id)
            (rw f (rw g (exhausted e (ground arith) (find_free-none (pool_of s t) s.all_used g))))
      | inr (id, g) ↦
          rw (e, find_new_id)
            (rw f (
              rw g (
                taken id (
                  e,
                  (find_free-some (pool_of s t) s.all_used id g).0,
                  (find_free-some (pool_of s t) s.all_used id g).1,
                  ground arith,
                ))))
    ]
  ]
]

module _ (s : TaskIds) (third : ℕ) (t : TaskType) (id : ℕ) (v : IsValid s)
    (f : Fresh s third t id) where
  -- Two pools that share an id are one.
  same_pool : (u : TaskType) → contains (pool_of s u) id ≡ true → pool_of s t ≡ pool_of s u
  same_pool u h = ap (pool_of s) (sym ((v.pools t).in_range id f.1) ∙ (v.pools u).in_range id h)

  outside :
      (u : TaskType)
      → same_list (pool_of s t) (pool_of s u) ≡ false
      → contains (pool_of s u) id ≡ false
  outside u e = elim (Bool-cases (contains (pool_of s u) id)) [
    | inl h ↦ cc (rw (same_pool u h) at e, same_list_refl (pool_of s u))
    | inr h ↦ h
  ]

  counted-take :
      (u : TaskType)
      → count_of
          (set_count s.be_used (pool_of s t) ((count_of s.be_used (pool_of s t) + 1) % 2 ^ 32))
          (pool_of s u)
        ≡ used_in (pool_of s u) (s.all_used ++ (id ∷ []))
  counted-take u = elim (Bool-cases (same_list (pool_of s t) (pool_of s u))) [
    | inl e ↦ rw (count_of-set_count s.be_used (pool_of s t) (pool_of s u) _) (
        rw e (
          rw (← same_list→eq (pool_of s t) (pool_of s u) e) (
            omega (
              arith,
              used_in-append_self (pool_of s t) s.all_used id (v.pools t).distinct f.1 f.2,
              (v.pools t).counted,
              (v.pools t).small,
              f.3,
            ))))
    | inr e ↦ rw (count_of-set_count s.be_used (pool_of s t) (pool_of s u) _) (
        rw e (
          (v.pools u).counted
          ∙ sym (used_in-append_other (pool_of s u) s.all_used id (outside u e))))
  ]

  pub find-take :
      (other : ℕ)
      → find (insert third id s.third_codec) other
        ≡ (if third == other then some id else find s.third_codec other)
  find-take other = find-insert third other id s.third_codec f.0

  pub pool_of-take : (u : TaskType) → pool_of (take_id s third (pool_of s t) id) u ≡ pool_of s u
  pool_of-take audio_task = refl
  pool_of-take video_task = refl
  pool_of-take audio_and_video_task = refl
  pool_of-take unknow_task = refl
  pool_of-take task_object_type_butt = refl

  held : contains (pool_of s (task_type_of_id id)) id ≡ true
  held = rw ((v.pools t).in_range id f.1) f.1

  pub take_id-IsValid : IsValid (take_id s third (pool_of s t) id)
  take_id-IsValid = record {
    pools = λ u. IsPool-move s _ u (pool_of-take u) (v.pools u) (counted-take u);
    used_distinct = Distinct-append_one s.all_used id v.used_distinct f.2;
    owned_used = λ o i h.
        ground (arith, find-take o, contains-append s.all_used (id ∷ []) i, v.owned_used o i);
    owned_pool = λ o i h.
        rw (pool_of-take (task_type_of_id i)) (ground (arith, find-take o, held, v.owned_pool o i));
    injective = λ o p i h k.
        ground
          (arith, find-take o, find-take p, v.injective o p i, v.owned_used o i, v.owned_used p i);
  }

pub get_new-eq-find_new :
    (s : TaskIds) (third : ℕ) (t : TaskType)
    → Pooled t
    → get_new_codec_task_id s third t ≡ find_new_id s third (pool_of s t)
unfolding get_new_codec_task_id
get_new-eq-find_new s third audio_task p = refl
get_new-eq-find_new s third video_task p = refl
get_new-eq-find_new s third audio_and_video_task p = refl
get_new-eq-find_new s third unknow_task p = ground arith
get_new-eq-find_new s third task_object_type_butt p = ground arith

Outcome-IsValid :
    (s : TaskIds) (third : ℕ) (t : TaskType) {r : TaskIds × ℕ}
    → IsValid s
    → Outcome s third t r
    → IsValid r.0
Outcome-IsValid s third t v (repeated id e) = v
Outcome-IsValid s third t v (full e h) = v
Outcome-IsValid s third t v (exhausted e h u) = v
Outcome-IsValid s third t v (taken id f) = take_id-IsValid s third t id v f

-- A request for a codec task keeps the bookkeeping in order: no id is given twice, every pool's
-- counter is the number of its ids in use, every held id is in use and of its own pool.
pub get_new_codec_task_id-IsValid :
    (s : TaskIds) (third : ℕ) (t : TaskType)
    → IsValid s
    → IsValid (get_new_codec_task_id s third t).0
unfolding get_new_codec_task_id
get_new_codec_task_id-IsValid s third audio_task v =
    Outcome-IsValid s third audio_task v (find_new_id-Outcome s third audio_task)
get_new_codec_task_id-IsValid s third video_task v =
    Outcome-IsValid s third video_task v (find_new_id-Outcome s third video_task)
get_new_codec_task_id-IsValid s third audio_and_video_task v =
    Outcome-IsValid s third audio_and_video_task v
      (find_new_id-Outcome s third audio_and_video_task)
get_new_codec_task_id-IsValid s third unknow_task v = v
get_new_codec_task_id-IsValid s third task_object_type_butt v = v
