-- ===== src/TaskId/Release.antt =====
-- `removeCodecTaskID` gives an id back.
use server_communication.Prelude.{
  ℕ, ◌+◌, ◌-◌, ◌<◌, ◌≡◌, ◌≢◌, inl, inr, refl, sym, ap, ◌∙◌, true, false, List, none, some, arith,
  ◌==◌, if◌then◌else◌, contains, erase_first, same_list, Bool-cases, Option-cases,
  contains-erase_first_ne, contains-erase_first_self, Distinct-erase_first, erase_first-append_self,
  same_list→eq, same_list_refl,
}
use server_communication.Prelude.Maps.{find, erase, find-erase, erase-insert}
use server_communication.ErrorCode
use server_communication.TaskId.{
  TaskType, audio_task, video_task, audio_and_video_task, unknow_task, task_object_type_butt,
  TaskIds, count_of, set_count, release, take_id, pool_of, remove_codec_task_id, set_server_task_id,
  get_new_codec_task_id, task_type_of_id,
}
use server_communication.TaskId.Counts.{
  used_in, used_in-erase_self, used_in-erase_other, count_of-set_count,
}
use server_communication.TaskId.Alloc.{
  Fresh, Outcome, repeated, full, exhausted, taken, find_new_id-Outcome, get_new-eq-find_new,
  take_id-IsValid, find-take, pool_of-take,
}
use server_communication.TaskId.Invariant.{Pooled, IsPool-move, IsValid}

-- The state after an id went back to its pool.
abbrev freed : TaskIds → ℕ → ℕ → List ℕ → TaskIds
freed s third id pool = record s {
  third_codec = erase third s.third_codec;
  all_used = erase_first s.all_used id;
  be_used = set_count s.be_used pool (count_of s.be_used pool - 1);
}

module _ (s : TaskIds) (third id : ℕ) (v : IsValid s) (e : find s.third_codec third ≡ some id) where
  abbrev kind : TaskType
  kind = task_type_of_id id

  used_one :
      used_in (pool_of s kind) (erase_first s.all_used id) + 1 ≡ used_in (pool_of s kind) s.all_used
  used_one =
      used_in-erase_self (pool_of s kind) s.all_used id (v.pools kind).distinct v.used_distinct
        (v.owned_pool third id e) (v.owned_used third id e)

  release-eq-freed :
      (t : TaskType)
      → kind ≡ t
      → contains (pool_of s t) id ≡ true
      → 0 < count_of s.be_used (pool_of s t)
      → release s third id t ≡ freed s third id (pool_of s t)
  unfolding release
  release-eq-freed audio_task k h c = ground (arith, v.owned_used third id e)
  release-eq-freed video_task k h c = ground (arith, v.owned_used third id e)
  release-eq-freed audio_and_video_task k h c = ground (arith, v.owned_used third id e)
  release-eq-freed unknow_task k h c = ground arith
  release-eq-freed task_object_type_butt k h c = ground arith

  remove-eq-freed : remove_codec_task_id s third ≡ freed s third id (pool_of s kind)
  unfolding remove_codec_task_id
  remove-eq-freed =
      rw (e, remove_codec_task_id)
        (release-eq-freed kind refl (v.owned_pool third id e)
          (omega (arith, used_one, (v.pools kind).counted)))

  outside :
      (u : TaskType)
      → same_list (pool_of s kind) (pool_of s u) ≡ false
      → contains (pool_of s u) id ≡ false
  outside u d = elim (Bool-cases (contains (pool_of s u) id)) [
    | inl h ↦
        cc (rw (ap (pool_of s) ((v.pools u).in_range id h)) at d, same_list_refl (pool_of s u))
    | inr h ↦ h
  ]

  counted-freed :
      (u : TaskType)
      → count_of
          (set_count s.be_used (pool_of s kind) (count_of s.be_used (pool_of s kind) - 1))
          (pool_of s u)
        ≡ used_in (pool_of s u) (erase_first s.all_used id)
  counted-freed u = elim (Bool-cases (same_list (pool_of s kind) (pool_of s u))) [
    | inl d ↦ rw (count_of-set_count s.be_used (pool_of s kind) (pool_of s u) _) (
        rw d (
          rw (← same_list→eq (pool_of s kind) (pool_of s u) d)
            (omega (arith, used_one, (v.pools kind).counted))))
    | inr d ↦ rw (count_of-set_count s.be_used (pool_of s kind) (pool_of s u) _) (
        rw d (
          (v.pools u).counted
          ∙ sym (used_in-erase_other (pool_of s u) s.all_used id (outside u d))))
  ]

  pool_of-freed : (u : TaskType) → pool_of (freed s third id (pool_of s kind)) u ≡ pool_of s u
  pool_of-freed audio_task = refl
  pool_of-freed video_task = refl
  pool_of-freed audio_and_video_task = refl
  pool_of-freed unknow_task = refl
  pool_of-freed task_object_type_butt = refl

  find-freed :
      (o : ℕ)
      → find (erase third s.third_codec) o ≡ (if third == o then none else find s.third_codec o)
  find-freed o = find-erase third o s.third_codec

  still_used :
      (o i : ℕ)
      → find (erase third s.third_codec) o ≡ some i
      → contains (erase_first s.all_used id) i ≡ true
  still_used o i h =
      rw
        (contains-erase_first_ne s.all_used id i
          (λ k. ground (arith, find-freed o, v.injective third o id)))
        (ground (arith, find-freed o, v.owned_used o i))

  freed-IsValid : IsValid (freed s third id (pool_of s kind))
  freed-IsValid = record {
    pools = λ u. IsPool-move s _ u (pool_of-freed u) (v.pools u) (counted-freed u);
    used_distinct = Distinct-erase_first s.all_used id v.used_distinct;
    owned_used = still_used;
    owned_pool = λ o i h.
        rw (pool_of-freed (task_type_of_id i)) (ground (arith, find-freed o, v.owned_pool o i));
    injective = λ o p i h k. ground (arith, find-freed o, find-freed p, v.injective o p i);
  }

-- Giving an id back keeps the bookkeeping in order, also where the third party's task holds none.
pub remove_codec_task_id-IsValid :
    (s : TaskIds) (third : ℕ) → IsValid s → IsValid (remove_codec_task_id s third)
unfolding remove_codec_task_id
remove_codec_task_id-IsValid s third v = elim (Option-cases (find s.third_codec third)) [
  | inl e ↦ rw (e, remove_codec_task_id) v
  | inr (id, e) ↦ rw (remove-eq-freed s third id v e) (freed-IsValid s third id v e)
]

pub remove_codec_task_id-none :
    (s : TaskIds) (third id : ℕ)
    → IsValid s
    → find s.third_codec third ≡ some id
    → find (remove_codec_task_id s third).third_codec third ≡ none
remove_codec_task_id-none s third id v e =
    rw (remove-eq-freed s third id v e) (ground (arith, find-freed s third id v e third))

-- Where the bookkeeping of ids is in order: a task of the third party that holds an id gives it
-- back: the task holds none afterwards, the id is unused, and every other task holds what it
-- held.
pub remove_codec_task_id_frees :
    (s : TaskIds) (third id : ℕ)
    → IsValid s
    → find s.third_codec third ≡ some id
    → (set_server_task_id (remove_codec_task_id s third) third ≡ ErrorCode.task_id_notexist)
      × (contains (remove_codec_task_id s third).all_used id ≡ false)
      × ((other : ℕ)
          → other ≢ third
          → set_server_task_id (remove_codec_task_id s third) other ≡ set_server_task_id s other)
unfolding set_server_task_id
remove_codec_task_id_frees s third id v e = rw (remove-eq-freed s third id v e) (
  ground (arith, find-freed s third id v e third),
  contains-erase_first_self s.all_used id v.used_distinct,
  λ other n. ground (arith, find-freed s third id v e other),
)

-- The two states give every task the same id, use the same ids, and count every pool alike.
abbrev pub SameUse : TaskIds → TaskIds → Type 0
SameUse s s' =
    (s'.third_codec ≡ s.third_codec)
    × (s'.all_used ≡ s.all_used)
    × ((t : TaskType) → count_of s'.be_used (pool_of s' t) ≡ count_of s.be_used (pool_of s t))

module _ (s : TaskIds) (third id : ℕ) (t : TaskType) (v : IsValid s) (f : Fresh s third t id) where
  abbrev taken_state : TaskIds
  taken_state = take_id s third (pool_of s t) id

  holds : find taken_state.third_codec third ≡ some id
  holds = ground (arith, find-take s third t id v f third)

  valid : IsValid taken_state
  valid = take_id-IsValid s third t id v f

  recount :
      (u : TaskType)
      → count_of
          (remove_codec_task_id taken_state third).be_used
          (pool_of (remove_codec_task_id taken_state third) u)
        ≡ count_of s.be_used (pool_of s u)
  recount u = rw (remove-eq-freed taken_state third id valid holds) (
      ((freed-IsValid taken_state third id valid holds).pools u).counted
      ∙ (rw (pool_of-freed taken_state third id valid holds u) (
          rw (pool_of-take s third t id v f u)
            (rw (erase_first-append_self s.all_used id f.2) (sym ((v.pools u).counted))))))

  take-remove-SameUse : SameUse s (remove_codec_task_id taken_state third)
  take-remove-SameUse = (
    rw (remove-eq-freed taken_state third id valid holds) (erase-insert third id s.third_codec f.0),
    rw (remove-eq-freed taken_state third id valid holds)
        (erase_first-append_self s.all_used id f.2),
    recount,
  )

Outcome-SameUse :
    (s : TaskIds) (third : ℕ) (t : TaskType) {r : TaskIds × ℕ}
    → IsValid s
    → find s.third_codec third ≡ none
    → Outcome s third t r
    → SameUse s (remove_codec_task_id r.0 third)
unfolding remove_codec_task_id
Outcome-SameUse s third t v n (repeated id e) = cc (n, e)
Outcome-SameUse s third t v n (full e h) = rw (n, remove_codec_task_id) (refl, refl, λ u. refl)
Outcome-SameUse s third t v n (exhausted e h u) =
    rw (n, remove_codec_task_id) (refl, refl, λ w. refl)
Outcome-SameUse s third t v n (taken id f) = take-remove-SameUse s third id t v f

-- Where the bookkeeping of ids is in order: the clean-up of a failed request: for a task of the
-- third party that holds no id, a request of a kind that has a pool, whatever it answers, and
-- then a removal give back the use of ids as it was.
pub remove-get_new_codec_task_id :
    (s : TaskIds) (third : ℕ) (t : TaskType)
    → IsValid s
    → Pooled t
    → find s.third_codec third ≡ none
    → SameUse s (remove_codec_task_id (get_new_codec_task_id s third t).0 third)
remove-get_new_codec_task_id s third t v p n =
    rw (get_new-eq-find_new s third t p)
      (Outcome-SameUse s third t v n (find_new_id-Outcome s third t))
