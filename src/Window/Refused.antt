-- ===== src/Window/Refused.antt =====
-- Two failures of `openAndMoveWindow` after which the windows and the tables no longer agree.
use server_communication.Prelude.{
  ℕ, ◌+◌, ◌^◌, ◌<◌, ◌≤◌, ◌≡◌, ◌≢◌, ◌∙◌, refl, sym, ap, true, false, [], ◌∷◌, ◌++◌, some, arith,
  ◌==◌, le-ltb-false, ne-false,
}
use server_communication.AvDec.{AvDec, find_dec, set_dec}
use server_communication.AvDec.Counts.{count_at-set_dec, set_dec-set_dec}
use server_communication.Crop.{crop_of}
use server_communication.TaskId.{remove_codec_task_id}
use server_communication.Window.{
  Node, OpenRequest, can_show, put, vo_chn_videoout1, last_task_id, new_priority, pop_back, sort,
}
use server_communication.Window.OpenMove.{open_show, place_with, place}
use server_communication.Window.Stack.{Stacked}
use server_communication.Window.Stack.Open.{dressed, window_at, tag, priority-eq, grown}
use server_communication.Window.Stack.Numbers.{from, pop_back-from, from_injective}

popped_back : (k : ℕ) → pop_back (from 0 (k + 1)) ≡ from 0 k
popped_back k = ap (λ m. pop_back (from 0 m)) (omega arith) ∙ pop_back-from 0 k

module _ (codec : AvDec → ℕ) (n : Node) (req : OpenRequest) (k id : ℕ) (d : AvDec)
    (f : find_dec id n.decs ≡ some d) (h : d.swms ≡ false) (v : Stacked k n)
    (small : k + 1 < 2 ^ 32) where
  abbrev window : AvDec
  window = window_at codec n req k id d f h v small k

  abbrev prepared : AvDec
  prepared = dressed codec n req k id d f h v small

  abbrev Left : Node → Type 0
  Left r =
      (r.win_priority ≡ from 0 k)
      × (r.decs ≡ set_dec id window n.decs)
      × (r.ids ≡ remove_codec_task_id n.ids req.task_id)

  open_show-Left :
      ((e : AvDec) → codec e ≢ 0) → Left (open_show codec (put id prepared n) req id prepared)
  unfolding open_show
  open_show-Left refuses =
      rw
        (ne-false _ 0
          (refuses (window_at codec n req k id d f h v small (new_priority n.win_priority))))
        (rw (priority-eq codec n req k id d f h v small) (
          ap (λ w. pop_back (sort (w ++ (k ∷ [])))) v.ordered
              ∙ (ap pop_back (grown k) ∙ popped_back k),
          set_dec-set_dec id prepared window n.decs (tag codec n req k id d f h v small),
          refl,
        ))

  place-Left :
      ((e : AvDec) → codec e ≢ 0)
      → id ≤ last_task_id
      → can_show n (crop_of req.src) ≡ true
      → (req.vo_chn_id == vo_chn_videoout1) ≡ true
      → Left (place codec n req true id)
  unfolding place_with place
  place-Left refuses b c o =
      rw (le-ltb-false id last_task_id b, place) (rw f (rw c (rw o (open_show-Left refuses))))

  stuck-no_stack :
      (r : Node)
      → r.win_priority ≡ from 0 k
      → r.decs ≡ set_dec id window n.decs
      → (j : ℕ) → ¬ Stacked j r
  stuck-no_stack r wp ds j w = ground (
    arith,
    count_at-set_dec k id d window n.decs f,
    v.each_once k,
    rw ds at w.each_once k,
    from_injective 0 k j (sym wp ∙ w.ordered),
  )

  -- Where the windows are a stack, with room for one more 32-bit priority: a window that a codec
  -- refuses to open: the steps from the found decoder on, for a codec task id whose decoder is
  -- hidden, a request that passes the checks, and a codec that refuses every decoder. The task's
  -- id is given back and the table of priorities is what it was, but the windows are afterwards a
  -- stack of no height.
  pub place_refused :
      ((e : AvDec) → codec e ≢ 0)
      → id ≤ last_task_id
      → can_show n (crop_of req.src) ≡ true
      → (req.vo_chn_id == vo_chn_videoout1) ≡ true
      → ((place codec n req true id).win_priority ≡ n.win_priority)
        × ((place codec n req true id).ids ≡ remove_codec_task_id n.ids req.task_id)
        × ((j : ℕ) → ¬ Stacked j (place codec n req true id))
  place_refused refuses b c o =
      let (wp, ds, ids) = place-Left refuses b c o in
      (wp ∙ sym v.ordered, ids, λ j w. stuck-no_stack (place codec n req true id) wp ds j w)
