-- ===== src/Window/Errors.antt =====
-- What the handlers of requests for a window leave behind where they fail.
use server_communication.Prelude.{
  ℕ, ◌≡◌, ◌≢◌, ◌⊎◌, inl, inr, refl, true, ◌||◌, none, arith, ltb, ◌==◌, Bool-cases, Option-cases,
}
use server_communication.Prelude.Maps.{find}
use server_communication.ErrorCode
use server_communication.AvDec.{AvDec, find_dec}
use server_communication.Crop.{crop_of}
use server_communication.TaskId.{
  TaskIds, audio_and_video_task, get_new_codec_task_id, remove_codec_task_id,
}
use server_communication.TaskId.Invariant.{IsValid}
use server_communication.TaskId.Grant.{get_new_codec_task_id-ne-third}
use server_communication.TaskId.Release.{SameUse, remove-get_new_codec_task_id}
use server_communication.Window.{
  Node, OpenRequest, can_show, vo_chn_videoout1, last_task_id, new_priority,
}
use server_communication.Window.Create.{window_dec, create_show, create_with, create_body}

-- A handler's part either succeeds and keeps the ids, or fails and gives the task's id back.
abbrev KeptOrForgotten : Node → ℕ → Node × ℕ → Type 0
KeptOrForgotten m third r =
    ((r.0.ids ≡ m.ids) × (r.1 ≡ ErrorCode.success)) ⊎ (r.0.ids ≡ remove_codec_task_id m.ids third)

module _ (codec : AvDec → ℕ) (n : Node) (req : OpenRequest) where
  abbrev pub result : TaskIds × ℕ
  result = get_new_codec_task_id n.ids req.task_id audio_and_video_task

  abbrev pub with_id : Node
  with_id = record n { ids = result.0 }

  create_show-ids :
      (m : Node) (id : ℕ) (d : AvDec) → KeptOrForgotten m req.task_id (create_show codec m req id d)
  unfolding create_show
  create_show-ids m id d =
      elim (Bool-cases (codec (window_dec codec req d (new_priority m.win_priority)) == 0)) [
        | inl e ↦ rw e (inl (refl, refl))
        | inr e ↦ rw e (inr refl)
      ]

  create_with-ids :
      (m : Node) (id : ℕ) (d : AvDec) → KeptOrForgotten m req.task_id (create_with codec m req id d)
  unfolding create_with
  create_with-ids m id d = elim (Bool-cases (can_show m (crop_of req.src))) [
    | inl c ↦ elim (Bool-cases (req.vo_chn_id == vo_chn_videoout1)) [
      | inl o ↦ rw c (rw o (create_show-ids _ id (record d { osd = true; osd_id = id })))
      | inr o ↦ rw c (rw o (inr refl))
    ]
    | inr c ↦ rw c (inr refl)
  ]

  pub create_body-ids :
      ((create_body codec n req).0.ids ≡ n.ids)
      ⊎ (((result.1 == ErrorCode.third_task_id) ≡ true)
          × ((create_body codec n req).0.ids ≡ result.0))
      ⊎ KeptOrForgotten with_id req.task_id (create_body codec n req)
  unfolding create_body
  create_body-ids = elim (Bool-cases (req.audio_in == 0 || req.audio_in == 1)) [
    | inr a ↦ rw a (inl refl)
    | inl a ↦ elim (Bool-cases (ltb last_task_id result.1)) [
      | inl b ↦ elim (Bool-cases (result.1 == ErrorCode.third_task_id)) [
        | inl c ↦ rw a (rw b (rw c (inr (inl (refl, refl)))))
        | inr c ↦ rw a (rw b (rw c (inr (inr (inr refl)))))
      ]
      | inr b ↦ elim (Option-cases (find_dec result.1 n.decs)) [
        | inl c ↦ rw a (rw b (rw c (inr (inr (inr refl)))))
        | inr (d, c) ↦ rw a (rw b (rw c (inr (inr (create_with-ids with_id result.1 d)))))
      ]
    ]
  ]

  -- Where the bookkeeping of ids is in order: a request to create a window for a task that holds
  -- no codec task id, and that is not answered with success, leaves the use of ids as it was,
  -- however it fails.
  pub create_body-SameUse :
      IsValid n.ids
      → find n.ids.third_codec req.task_id ≡ none
      → (create_body codec n req).1 ≢ ErrorCode.success
      → SameUse n.ids (create_body codec n req).0.ids
  create_body-SameUse v a f = elim create_body-ids [
    | inl e ↦ rw e (refl, refl, λ t. refl)
    | inr (inl (c, e)) ↦ absurd (
        ground (
          arith,
          c,
          get_new_codec_task_id-ne-third n.ids req.task_id audio_and_video_task v (inr (inr refl))
              a,
        ))
    | inr (inr (inl (e, c))) ↦ absurd (f c)
    | inr (inr (inr e)) ↦
        rw e
          (remove-get_new_codec_task_id n.ids req.task_id audio_and_video_task v (inr (inr refl)) a)
  ]
