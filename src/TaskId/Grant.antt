-- ===== src/TaskId/Grant.antt =====
-- `getNewCodecTaskID` against what a client may expect of it.
use server_communication.Prelude.{
  ℕ, ◌<◌, ◌≡◌, ◌≢◌, refl, true, false, [], ◌∷◌, ◌++◌, none, some, arith, ◌==◌, length, contains,
}
use server_communication.Prelude.Maps.{find, find-insert}
use server_communication.ErrorCode
use server_communication.TaskId.{
  TaskType, TaskIds, take_id, pool_of, get_new_codec_task_id, task_type_of_id,
}
use server_communication.TaskId.Counts.{used_in}
use server_communication.TaskId.Invariant.{Pooled, in_pool_small, IsPool, IsValid}
use server_communication.TaskId.Alloc.{
  Fresh, Outcome, repeated, full, exhausted, taken, find_new_id-Outcome, get_new-eq-find_new,
}

-- The id is new, the third party's task holds it from now on, and nothing else changes hands.
abbrev pub Granted : TaskIds → ℕ → TaskType → TaskIds × ℕ → Type 0
Granted s third t (s', id) =
    (contains (pool_of s t) id ≡ true)
    × (contains s.all_used id ≡ false)
    × (s'.all_used ≡ s.all_used ++ (id ∷ []))
    × (find s'.third_codec third ≡ some id)
    × ((other : ℕ) → other ≢ third → find s'.third_codec other ≡ find s.third_codec other)

-- What a request answers: an id, or an error that changes nothing.
abbrev pub Answers : TaskIds → ℕ → TaskType → TaskIds × ℕ → Type 0
Answers s third t r =
    (((holder : ℕ) × (find s.third_codec third ≡ some holder)) → r ≡ (s, ErrorCode.third_task_id))
    × (find s.third_codec third ≡ none
        → used_in (pool_of s t) s.all_used ≡ length (pool_of s t)
        → r ≡ (s, ErrorCode.full_codec_task_id))
    × (find s.third_codec third ≡ none
        → used_in (pool_of s t) s.all_used < length (pool_of s t)
        → Granted s third t r)

take_id-Granted :
    (s : TaskIds) (third : ℕ) (t : TaskType) (id : ℕ)
    → Fresh s third t id
    → Granted s third t (take_id s third (pool_of s t) id, id)
take_id-Granted s third t id f = (
  f.1,
  f.2,
  refl,
  ground (arith, find-insert third third id s.third_codec f.0),
  λ other n. ground (arith, find-insert third other id s.third_codec f.0),
)

Outcome-Answers :
    (s : TaskIds) (third : ℕ) (t : TaskType) {r : TaskIds × ℕ}
    → IsPool s t
    → Outcome s third t r
    → Answers s third t r
Outcome-Answers s third t p (repeated id e) = (λ _. refl, λ n. cc, λ n. cc)
Outcome-Answers s third t p (full e h) =
    (λ k. cc (k.1), λ n u. refl, λ n u. absurd (omega (arith, p.counted)))
Outcome-Answers s third t p (exhausted e h u) = absurd (omega (arith, p.counted))
Outcome-Answers s third t p (taken id f) = (
  λ k. cc (k.1, f.0),
  λ n u. absurd (omega (arith, p.counted, f.3)),
  λ n u. take_id-Granted s third t id f,
)

-- Where the bookkeeping of ids is in order: a request for a codec task of a kind that has a pool
-- answers in one of three ways. A task of the third party that holds an id already gets the error
-- for a repeated id; else, with the whole pool in use, the error for a full pool, and in both
-- cases nothing changes; else it is granted an id of the pool that nothing uses, and no other
-- task's id changes.
pub get_new_codec_task_id-Answers :
    (s : TaskIds) (third : ℕ) (t : TaskType)
    → IsValid s
    → Pooled t
    → Answers s third t (get_new_codec_task_id s third t)
get_new_codec_task_id-Answers s third t v p =
    rw (get_new-eq-find_new s third t p)
      (Outcome-Answers s third t (v.pools t) (find_new_id-Outcome s third t))

Outcome-ne-notenough :
    (s : TaskIds) (third : ℕ) (t : TaskType) {r : TaskIds × ℕ}
    → IsPool s t
    → Pooled t
    → Outcome s third t r
    → r.1 ≢ ErrorCode.task_source_notenough
unfolding task_type_of_id
Outcome-ne-notenough s third t p q (repeated id e) = ground arith
Outcome-ne-notenough s third t p q (full e h) = ground arith
Outcome-ne-notenough s third t p q (exhausted e h u) = absurd (omega (arith, p.counted))
Outcome-ne-notenough s third t p q (taken id f) = λ e. ground (arith, p.in_range id f.1)

-- Where the bookkeeping of ids is in order: a request for a codec task of a kind that has a pool
-- never ends in the error for exhausted resources: where the counter says that the pool is not
-- full, an unused id is there.
pub get_new_codec_task_id-ne-notenough :
    (s : TaskIds) (third : ℕ) (t : TaskType)
    → IsValid s
    → Pooled t
    → (get_new_codec_task_id s third t).1 ≢ ErrorCode.task_source_notenough
get_new_codec_task_id-ne-notenough s third t v p =
    rw (get_new-eq-find_new s third t p)
      (Outcome-ne-notenough s third t (v.pools t) p (find_new_id-Outcome s third t))

Outcome-ne-third :
    (s : TaskIds) (third : ℕ) (t : TaskType) {r : TaskIds × ℕ}
    → IsValid s
    → Pooled t
    → find s.third_codec third ≡ none
    → Outcome s third t r
    → (r.1 == ErrorCode.third_task_id) ≡ false
Outcome-ne-third s third t v p n (repeated id e) = ground (arith, n, e)
Outcome-ne-third s third t v p n (full e h) = refl
Outcome-ne-third s third t v p n (exhausted e h u) = refl
Outcome-ne-third s third t v p n (taken id f) = ground (arith, in_pool_small s t id v p f.1)

-- Only a task that holds an id gets the error for a repeated one.
pub get_new_codec_task_id-ne-third :
    (s : TaskIds) (third : ℕ) (t : TaskType)
    → IsValid s
    → Pooled t
    → find s.third_codec third ≡ none
    → ((get_new_codec_task_id s third t).1 == ErrorCode.third_task_id) ≡ false
get_new_codec_task_id-ne-third s third t v p n =
    rw (get_new-eq-find_new s third t p)
      (Outcome-ne-third s third t v p n (find_new_id-Outcome s third t))
