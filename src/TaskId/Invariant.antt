-- ===== src/TaskId/Invariant.antt =====
-- What holds of the bookkeeping of codec task ids between two calls.
use server_communication.Prelude.{
  ℕ, ◌<◌, ◌^◌, ◌≡◌, ◌⊎◌, refl, true, false, arith, ◌==◌, some, length, contains, Distinct,
}
use server_communication.Prelude.Maps.{find}
use server_communication.TaskId.{
  TaskType, audio_task, video_task, audio_and_video_task, TaskIds, count_of, pool_of,
  task_type_of_id, set_server_task_id,
}
use server_communication.ErrorCode
use server_communication.TaskId.Counts.{used_in}

-- A pool has no id twice, holds ids of its own range alone, and is counted right.
pub record IsPool (s : TaskIds) (t : TaskType) : Type 0 where
  pub distinct : Distinct (pool_of s t)
  pub in_range : (id : ℕ) → contains (pool_of s t) id ≡ true → task_type_of_id id ≡ t
  pub small : length (pool_of s t) < 2 ^ 32
  pub counted : count_of s.be_used (pool_of s t) ≡ used_in (pool_of s t) s.all_used

pub record IsValid (s : TaskIds) : Type 0 where
  pub pools : (t : TaskType) → IsPool s t
  pub used_distinct : Distinct s.all_used
  -- A task of the third party holds an id that is in use, of the pool for the id's range.
  pub owned_used :
      (third id : ℕ) → find s.third_codec third ≡ some id → contains s.all_used id ≡ true
  pub owned_pool :
      (third id : ℕ)
      → find s.third_codec third ≡ some id
      → contains (pool_of s (task_type_of_id id)) id ≡ true
  -- No two tasks of the third party hold one id.
  pub injective :
      (third other id : ℕ)
      → find s.third_codec third ≡ some id
      → find s.third_codec other ≡ some id
      → third ≡ other

-- The kinds that have a pool.
abbrev pub Pooled : TaskType → Type 0
Pooled t = (t ≡ audio_task) ⊎ (t ≡ video_task) ⊎ (t ≡ audio_and_video_task)

-- A step that leaves a pool alone and counts right keeps it in order.
pub IsPool-move :
    (s s' : TaskIds) (t : TaskType)
    → pool_of s' t ≡ pool_of s t
    → IsPool s t
    → count_of s'.be_used (pool_of s t) ≡ used_in (pool_of s t) s'.all_used
    → IsPool s' t
IsPool-move s s' t e p c = record {
  distinct = rw e p.distinct;
  in_range = λ id. rw e (p.in_range id);
  small = rw e p.small;
  counted = rw e c;
}

pub set_server_task_id-some :
    (s : TaskIds) (third id : ℕ)
    → find s.third_codec third ≡ some id
    → set_server_task_id s third ≡ id
unfolding set_server_task_id
set_server_task_id-some s third id h = rw (h, set_server_task_id) refl

-- A held id is not an error code: it lies in the range of its pool.
pub held-ne :
    (s : TaskIds) (third id : ℕ)
    → IsValid s
    → find s.third_codec third ≡ some id
    → (id == ErrorCode.task_id_notexist) ≡ false
unfolding task_type_of_id
held-ne s third id v h = ground (arith, v.owned_pool third id h)

-- An id of a pool is at most the last of the ids.
pub in_pool_small :
    (s : TaskIds) (t : TaskType) (id : ℕ)
    → IsValid s
    → Pooled t
    → contains (pool_of s t) id ≡ true
    → id < 1792
unfolding task_type_of_id
in_pool_small s t id v p h = ground (arith, (v.pools t).in_range id h)

pub held_small :
    (s : TaskIds) (third id : ℕ) → IsValid s → find s.third_codec third ≡ some id → id < 1792
unfolding task_type_of_id
held_small s third id v h = ground (arith, v.owned_pool third id h)
