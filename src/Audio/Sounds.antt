-- ===== src/Audio/Sounds.antt =====
-- What `openAudio` and `closeAudio` do to the sounds.
use server_communication.Prelude.{
  ℕ, ◌<◌, ◌≡◌, ◌≢◌, ◌∙◌, refl, ap, inl, true, false, [], ◌∷◌, none, some, arith, ltb, ◌==◌,
  if◌then◌else◌, contains, length, ne-false, le-ltb-false,
}
use server_communication.Prelude.Maps.{find, erase, find-insert, find-erase}
use server_communication.ErrorCode
use server_communication.AvDec.Url.{copy_url, copy_url_fits, UrlFits}
use server_communication.AvDec.{AvDec, adec2ao, find_dec, set_dec}
use server_communication.AvDec.Counts.{find_dec-tsk_id, find_dec-set_dec, set_dec-set_dec}
use server_communication.TaskId.{
  TaskIds, TaskType, audio_task, video_task, audio_and_video_task, unknow_task,
  task_object_type_butt, pool_of, get_new_codec_task_id,
}
use server_communication.TaskId.Counts.{used_in}
use server_communication.TaskId.Invariant.{
  IsValid, IsPool-move, set_server_task_id-some, held-ne, in_pool_small,
}
use server_communication.TaskId.Grant.{get_new_codec_task_id-Answers}
use server_communication.TaskId.Release.{
  remove_codec_task_id-IsValid, remove_codec_task_id_frees, remove_codec_task_id-none,
}
use server_communication.Window.{last_task_id}
use server_communication.Window.Clear.{find_third}
use server_communication.Audio.{
  AudioNode, OpenAudio, ao_dev_of, is_adec2ao, update_third_codec, emit_audio, shift_audio,
  new_audio, open_audio_body, open_audio, muted, close_audio, reply_open_audio,
}

module _ (s : TaskIds) (third old id : ℕ) (v : IsValid s) (a : find s.third_codec third ≡ none)
    (f : find_third s.third_codec id ≡ some old) (o : find s.third_codec old ≡ some id) where
  abbrev handed : TaskIds
  handed = record s { third_codec = update_third_codec s.third_codec third id }

  find-handed :
      (j : ℕ)
      → find handed.third_codec j
        ≡ (if third == j then some id else (if old == j then none else find s.third_codec j))
  unfolding update_third_codec
  find-handed j =
      rw (f, update_third_codec)
        (ground (
          arith,
          find-insert third j id (erase old s.third_codec),
          find-erase old third s.third_codec,
          find-erase old j s.third_codec,
        ))

  pool_of-handed : (t : TaskType) → pool_of handed t ≡ pool_of s t
  pool_of-handed audio_task = refl
  pool_of-handed video_task = refl
  pool_of-handed audio_and_video_task = refl
  pool_of-handed unknow_task = refl
  pool_of-handed task_object_type_butt = refl

  handed-IsValid : IsValid handed
  handed-IsValid = record {
    pools = λ t. IsPool-move s handed t (pool_of-handed t) (v.pools t) ((v.pools t).counted);
    used_distinct = v.used_distinct;
    owned_used = λ j i h. ground (arith, find-handed j, v.owned_used j i, v.owned_used old i);
    owned_pool = λ j i h.
        rw (pool_of-handed _) (ground (arith, find-handed j, v.owned_pool j i, v.owned_pool old i));
    injective = λ j k i h g. ground (
      arith,
      find-handed j,
      find-handed k,
      v.injective j k i,
      v.injective old k i,
      v.injective old j i,
    );
  }

-- The new task holds the codec task and its decoder plays the new sound on the output; the task that
-- held it holds none, every other holds what it held.
pub record IsShifted (n : AudioNode) (req : OpenAudio) (ao id old : ℕ) (n' : AudioNode)
    : Type 0 where
  pub valid : IsValid n'.ids
  pub held : find n'.ids.third_codec req.task_id ≡ some id
  pub given_up : find n'.ids.third_codec old ≡ none
  pub others :
      (j : ℕ) → j ≢ req.task_id → j ≢ old → find n'.ids.third_codec j ≡ find n.ids.third_codec j
  pub decoder : AvDec
  pub found : find_dec id n'.decs ≡ some decoder
  pub plays : decoder.url ≡ req.rtsp_url
  pub on_output : decoder.ao_dev ≡ ao
  pub opened : decoder.s8_open ≡ 1

module _ (codec : AvDec → ℕ) (n : AudioNode) (req : OpenAudio) (ao id : ℕ)
    (absent : find n.ids.third_codec req.task_id ≡ none)
    (dev : ao_dev_of req.ao_chn_id ≡ some ao) where
  body-eq-shift :
      find n.ao_codec ao ≡ some id → open_audio_body codec n req ≡ shift_audio codec n req ao id
  unfolding open_audio_body
  body-eq-shift p = rw (absent, open_audio_body) (rw dev (rw p refl))

  body-eq-new : find n.ao_codec ao ≡ none → open_audio_body codec n req ≡ new_audio codec n req ao
  unfolding open_audio_body
  body-eq-new p = rw (absent, open_audio_body) (rw dev (rw p refl))

module _ (codec : AvDec → ℕ) (accepts : (e : AvDec) → codec e ≡ 0) (n : AudioNode) (req : OpenAudio)
    (ao id old : ℕ) (d : AvDec) (f : find_dec id n.decs ≡ some d) where
  abbrev stopped : AvDec
  stopped = record d { s8_open = 0 }

  abbrev playing : AvDec
  playing = record (copy_url req.rtsp_url stopped) {
    s8_open = if is_adec2ao d.bind_type then 1 else 0;
    ao_dev = ao;
  }

  abbrev Shifted : AudioNode × ℕ → Type 0
  Shifted r =
      (r.0.ids ≡ record n.ids { third_codec = update_third_codec n.ids.third_codec req.task_id id })
      × (r.0.decs ≡ set_dec id playing n.decs)

  shift_audio-Shifted : Shifted (shift_audio codec n req ao id)
  unfolding shift_audio
  shift_audio-Shifted =
      rw (f, shift_audio)
        (rw (accepts stopped) (
          rw (accepts playing)
            (refl, set_dec-set_dec id stopped playing n.decs (find_dec-tsk_id id d n.decs f))))

-- Where the bookkeeping of ids is in order: a request of a task that holds no codec task, with a
-- url that fits its field, for a known output whose decoder, one for sounds, is in the list and is held by another task, and a
-- codec that takes every decoder: the sound shifts to the new task, and the bookkeeping of ids
-- stays in order.
pub open_audio-IsShifted :
    (codec : AvDec → ℕ)
    → ((e : AvDec) → codec e ≡ 0)
    → (n : AudioNode) (req : OpenAudio) (ao id old : ℕ) (d : AvDec) → IsValid n.ids
    → UrlFits req.rtsp_url
    → find n.ids.third_codec req.task_id ≡ none
    → ao_dev_of req.ao_chn_id ≡ some ao
    → find n.ao_codec ao ≡ some id
    → find_third n.ids.third_codec id ≡ some old
    → find n.ids.third_codec old ≡ some id
    → find_dec id n.decs ≡ some d
    → d.bind_type ≡ adec2ao
    → IsShifted n req ao id old (open_audio codec n req)
unfolding open_audio
open_audio-IsShifted codec accepts n req ao id old d v u a dev p t o f b =
    let (ids, ds) = shift_audio-Shifted codec accepts n req ao id old d f in
    let g = find-handed n.ids req.task_id old id v a t o in
    let tag = find_dec-tsk_id id d n.decs f in
    rw (body-eq-shift codec n req ao id a dev p, open_audio)
      (record {
        valid = rw ids (handed-IsValid n.ids req.task_id old id v a t o);
        held = rw ids (ground (arith, g req.task_id));
        given_up = rw ids (ground (arith, g old));
        others = λ j x y. rw ids (ground (arith, g j));
        decoder = playing codec accepts n req ao id old d f;
        found =
            rw ds (find_dec-set_dec id d (playing codec accepts n req ao id old d f) n.decs f tag);
        plays = copy_url_fits req.rtsp_url d u;
        on_output = refl;
        opened = ap (λ k. if is_adec2ao k then 1 else 0) b;
      })

again_body :
    {id : ℕ} (codec : AvDec → ℕ) (n : AudioNode) (req : OpenAudio)
    → find n.ids.third_codec req.task_id ≡ some id
    → open_audio_body codec n req ≡ (n, ErrorCode.success)
unfolding open_audio_body
again_body codec n req h = rw (h, open_audio_body) refl

-- A task that holds a codec task is answered with success at once.
again :
    {id : ℕ} (codec : AvDec → ℕ) (n : AudioNode) (req : OpenAudio)
    → find n.ids.third_codec req.task_id ≡ some id
    → open_audio codec n req ≡ emit_audio (reply_open_audio req.task_id ErrorCode.success ∷ []) n
unfolding open_audio
again codec n req h = rw (again_body codec n req h, open_audio) refl

module _ (codec : AvDec → ℕ) (refuses : (e : AvDec) → codec e ≢ 0) (n : AudioNode) (req : OpenAudio)
    (ao : ℕ) where
  new_audio_refused :
      (d : AvDec)
      → ltb last_task_id (get_new_codec_task_id n.ids req.task_id audio_task).1 ≡ false
      → find_dec (get_new_codec_task_id n.ids req.task_id audio_task).1 n.decs ≡ some d
      → ((new_audio codec n req ao).0.ids ≡ (get_new_codec_task_id n.ids req.task_id audio_task).0)
        × ((new_audio codec n req ao).1 ≡ ErrorCode.communicate_abnormal_inner)
  unfolding new_audio
  new_audio_refused d b f =
      rw (b, new_audio)
        (rw (f, new_audio)
          (rw
            (ne-false _ 0
              (refuses (record (copy_url req.rtsp_url d) { s8_open = 1; udp = true; ao_dev = ao })))
            (refl, refl)))

-- Where the bookkeeping of ids is in order: a request of a task that holds no codec task, for a
-- known output that plays nothing, with an id left and a decoder for every id of the pool, to a
-- codec that refuses every decoder, fails with the inner communication error; the same request
-- again, whatever the codec, is then answered with success and changes and sends nothing else.
pub open_audio_refused :
    (codec : AvDec → ℕ)
    → ((e : AvDec) → codec e ≢ 0)
    → (n : AudioNode) (req : OpenAudio) (ao : ℕ) → IsValid n.ids
    → find n.ids.third_codec req.task_id ≡ none
    → ao_dev_of req.ao_chn_id ≡ some ao
    → find n.ao_codec ao ≡ none
    → used_in n.ids.audio_task_id n.ids.all_used < length n.ids.audio_task_id
    → ((id : ℕ)
        → contains n.ids.audio_task_id id ≡ true
        → (d : AvDec) × (find_dec id n.decs ≡ some d))
    → ((open_audio_body codec n req).1 ≡ ErrorCode.communicate_abnormal_inner)
      × ((later : AvDec → ℕ)
          → open_audio later (open_audio codec n req) req
            ≡ emit_audio
                (reply_open_audio req.task_id ErrorCode.success ∷ [])
                (open_audio codec n req))
unfolding open_audio
open_audio_refused codec refuses n req ao v a dev p left has =
    let (_, _, grant) = get_new_codec_task_id-Answers n.ids req.task_id audio_task v (inl refl) in
    let (in_pool, unused, _, held, _) = grant a left in
    let (d, f) = has (get_new_codec_task_id n.ids req.task_id audio_task).1 in_pool in
    let small =
      in_pool_small n.ids audio_task (get_new_codec_task_id n.ids req.task_id audio_task).1 v
        (inl refl) in_pool in
    let (ids, code) =
      new_audio_refused codec refuses n req ao d
        (le-ltb-false _ last_task_id (omega (arith, small))) f in
    let e = body-eq-new codec n req ao 0 a dev p in
    (
      rw e code,
      λ later.
          again {id = (get_new_codec_task_id n.ids req.task_id audio_task).1} later
            (open_audio codec n req) req
            (rw (e, open_audio) (ap (λ i. find i.third_codec req.task_id) ids ∙ held)),
    )

muted-tsk_id : {id : ℕ} (d : AvDec) → d.tsk_id ≡ id → (muted d).tsk_id ≡ id
muted-tsk_id d e = ground (arith, e)

muted_off : (d : AvDec) → d.bind_type ≡ adec2ao → (muted d).s8_open ≡ 0
muted_off d b = ground (arith, b)

-- Where the bookkeeping of ids is in order: a request to close the sound of a task, whose decoder
-- is one for sounds, with a known channel and a codec that takes every decoder, turns the decoder
-- off, gives the codec task id back, frees the output, and keeps the bookkeeping of ids in order.
pub close_audio_closes :
    (codec : AvDec → ℕ)
    → ((e : AvDec) → codec e ≡ 0)
    → (n : AudioNode) (stale third chn id ao : ℕ) (d : AvDec) → IsValid n.ids
    → find n.ids.third_codec third ≡ some id
    → find_dec id n.decs ≡ some d
    → d.bind_type ≡ adec2ao
    → ao_dev_of chn ≡ some ao
    → IsValid (close_audio codec stale n third chn).ids
      × (find (close_audio codec stale n third chn).ids.third_codec third ≡ none)
      × (contains (close_audio codec stale n third chn).ids.all_used id ≡ false)
      × (find (close_audio codec stale n third chn).ao_codec ao ≡ none)
      × ((off : AvDec) × (find_dec id (close_audio codec stale n third chn).decs ≡ some off)
          × (off.s8_open ≡ 0))
unfolding close_audio
close_audio_closes codec accepts n stale third chn id ao d v h f b dev =
    rw (set_server_task_id-some n.ids third id h, close_audio)
      (rw (held-ne n.ids third id v h) (
        rw f (
          rw (accepts (muted d)) (
            rw (ap is_adec2ao b) (
              remove_codec_task_id-IsValid n.ids third v,
              remove_codec_task_id-none n.ids third id v h,
              (remove_codec_task_id_frees n.ids third id v h).1,
              rw dev (ground (arith, find-erase ao ao n.ao_codec)),
              (
                muted d,
                rw (set_server_task_id-some n.ids third id h) (
                    find_dec-set_dec id d (muted d) n.decs f
                      (muted-tsk_id d (find_dec-tsk_id id d n.decs f))),
                muted_off d b,
              ),
            )))))
