-- ===== src/Window/Stack/Move.antt =====
-- `moveWindow` and the stack of windows.
use server_communication.Prelude.{
  ℕ, ◌+◌, ◌<◌, ◌≡◌, ◌≢◌, refl, true, false, List, some, arith, ap, ne-false,
}
use server_communication.Prelude.Maps.{find}
use server_communication.ErrorCode
use server_communication.AvDec.{AvDec, find_dec, set_dec, map_others, lower}
use server_communication.AvDec.Counts.{
  count_at-set_dec, Words-set_dec, Words-map_others, find_dec-tsk_id, find_dec-set_dec,
  find_dec-map_others_self, find_dec-map_others_ne, find_dec-set_dec_ne, set_dec-set_dec,
}
use server_communication.Crop.{crop_of}
use server_communication.TaskId.Invariant.{IsValid, set_server_task_id-some, held-ne}
use server_communication.Window.{Node, rect_of, can_show, back, put}
use server_communication.Window.Move.{MoveRequest, raise, move_body, move_window}
use server_communication.Window.Stack.{IsStack, Stacked, EachOnce-raise, top_of}

-- The moved window is on top where the request wants it, and those that were above it go one down.
pub record IsRaised (k : ℕ) (n : Node) (req : MoveRequest) (id : ℕ) (d : AvDec) (n' : Node)
    : Type 0 where
  pub stacked : Stacked k n'
  pub moved : AvDec
  pub found : find_dec id n'.decs ≡ some moved
  pub on_top : moved.priority + 1 ≡ k
  pub still_shown : moved.swms ≡ true
  pub placed : moved.rect ≡ rect_of req.dst
  pub cropped : moved.crop ≡ crop_of req.src
  pub others :
      (j : ℕ) (e : AvDec)
      → j ≢ id
      → find_dec j n.decs ≡ some e
      → find_dec j n'.decs ≡ some (lower false d.priority e)

module _ (codec : AvDec → ℕ) where
  module _ (n : Node) (req : MoveRequest) (k id top : ℕ) (d : AvDec)
      (f : find_dec id n.decs ≡ some d) (s : d.swms ≡ true) (v : Stacked k n)
      (t : top + 1 ≡ k) where
    abbrev dressed : AvDec
    dressed = record d { crop_on = true; crop = crop_of req.src; rect = rect_of req.dst }

    abbrev raised : AvDec
    raised = record dressed { priority = top }

    abbrev after : List AvDec
    after = map_others (lower false d.priority) id (set_dec id raised n.decs)

    tag : d.tsk_id ≡ id
    tag = find_dec-tsk_id id d n.decs f

    after-IsStack : IsStack k n.win_priority after
    after-IsStack = record {
      ordered = v.ordered;
      each_once =
          EachOnce-raise k id d.priority d raised n.decs f s refl tag v.words v.each_once false s t
            v.small;
      words =
          Words-map_others false d.priority id _
            (Words-set_dec id raised n.decs (omega (arith, t, v.small)) v.words);
      small = v.small;
    }

    other_dec :
        (j : ℕ) (e : AvDec)
        → j ≢ id
        → find_dec j n.decs ≡ some e
        → find_dec j after ≡ some (lower false d.priority e)
    other_dec j e m g =
        find_dec-map_others_ne false d.priority id j e _ m
          (rw (find_dec-set_dec_ne id j raised n.decs m tag) g)

    raise-IsRaised :
        (n' : Node) → n'.win_priority ≡ n.win_priority → n'.decs ≡ after → IsRaised k n req id d n'
    raise-IsRaised n' w e = record {
      stacked = rw (w, e) after-IsStack;
      moved = raised;
      found = rw e (
          find_dec-map_others_self false d.priority id raised _
            (find_dec-set_dec id d raised n.decs f tag));
      on_top = t;
      still_shown = s;
      placed = refl;
      cropped = refl;
      others = λ j g m h. rw e (other_dec j g m h);
    }

    move_body-eq-raise :
        find n.ids.third_codec req.task_id ≡ some id
        → IsValid n.ids
        → can_show n (crop_of req.src) ≡ true
        → move_body codec n req ≡ raise codec (put id dressed n) req id dressed
    unfolding move_body
    move_body-eq-raise h ok c =
        rw (set_server_task_id-some n.ids req.task_id id h, move_body)
          (rw (held-ne n.ids req.task_id id ok h)
            (rw f (rw c (rw (set_server_task_id-some n.ids req.task_id id h) refl))))

    abbrev Done : Node × ℕ → Type 0
    Done r = (r.0.win_priority ≡ n.win_priority) × (r.0.decs ≡ after) × (r.1 ≡ ErrorCode.success)

    raise-Done :
        codec raised ≡ 0
        → back n.win_priority ≡ some top
        → Done (raise codec (put id dressed n) req id dressed)
    unfolding raise
    raise-Done accepts b =
        rw (b, raise)
          (rw accepts (
            refl,
            ap (map_others (lower false d.priority) id)
                (set_dec-set_dec id dressed raised n.decs tag),
            refl,
          ))

    abbrev Refused : Node × ℕ → Type 0
    Refused r = (r.0.decs ≡ set_dec id raised n.decs) × (r.1 ≡ ErrorCode.communicate_abnormal_inner)

    raise-Refused :
        codec raised ≢ 0
        → back n.win_priority ≡ some top
        → Refused (raise codec (put id dressed n) req id dressed)
    unfolding raise
    raise-Refused refuses b =
        rw (b, raise)
          (rw (ne-false (codec raised) 0 refuses)
            (set_dec-set_dec id dressed raised n.decs tag, refl))

    Refused-no_stack :
        d.priority + 1 < k
        → (j : ℕ) (n' : Node) → n'.decs ≡ set_dec id raised n.decs
        → ¬ Stacked j n'
    Refused-no_stack low j n' e w =
        ground (
          arith,
          count_at-set_dec top id d raised n.decs f,
          v.each_once top,
          rw e at w.each_once top,
        )

  -- Where the bookkeeping of ids is in order and the windows are a stack: a request to move a
  -- shown window, with a crop that the check accepts and a codec that takes every decoder, is
  -- answered with success; the windows stay a stack of the same height, this one on top with the
  -- rectangle and the crop of the request, those that were above it one down, all others as they
  -- were.
  pub move_window-IsRaised :
      ((e : AvDec) → codec e ≡ 0)
      → (n : Node) (req : MoveRequest) (k id : ℕ) (d : AvDec)
      → find n.ids.third_codec req.task_id ≡ some id
      → IsValid n.ids
      → find_dec id n.decs ≡ some d
      → d.swms ≡ true
      → can_show n (crop_of req.src) ≡ true
      → Stacked k n
      → IsRaised k n req id d (move_window codec n req)
        × ((move_body codec n req).1 ≡ ErrorCode.success)
  unfolding move_window
  move_window-IsRaised accepts n req k id d h ok f s c v =
      let (top, b, t) = top_of n.win_priority n.decs k id d f s v in
      let e = move_body-eq-raise n req k id top d f s v t h ok c in
      let (wp, ds, success) = raise-Done n req k id top d f s v t (accepts _) b in
      (
        raise-IsRaised n req k id top d f s v t (move_window codec n req) (rw (e, move_window) wp)
            (rw (e, move_window) ds),
        rw e success,
      )

  -- Where the bookkeeping of ids is in order and the windows are a stack: a request to move a
  -- shown window that was not on top, with a crop that the check accepts, to a codec that refuses
  -- every decoder, fails with the inner communication error, and afterwards the windows are a
  -- stack of no height.
  pub move_window_refused :
      ((e : AvDec) → codec e ≢ 0)
      → (n : Node) (req : MoveRequest) (k id : ℕ) (d : AvDec)
      → find n.ids.third_codec req.task_id ≡ some id
      → IsValid n.ids
      → find_dec id n.decs ≡ some d
      → d.swms ≡ true
      → d.priority + 1 < k
      → can_show n (crop_of req.src) ≡ true
      → Stacked k n
      → ((move_body codec n req).1 ≡ ErrorCode.communicate_abnormal_inner)
        × ((j : ℕ) → ¬ Stacked j (move_window codec n req))
  unfolding move_window
  move_window_refused refuses n req k id d h ok f s low c v =
      let (top, b, t) = top_of n.win_priority n.decs k id d f s v in
      let e = move_body-eq-raise n req k id top d f s v t h ok c in
      let (ds, code) = raise-Refused n req k id top d f s v t (refuses _) b in
      (
        rw e code,
        λ j w.
            Refused-no_stack n req k id top d f s v t low j (move_window codec n req)
              (rw (e, move_window) ds) w,
      )
