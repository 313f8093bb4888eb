-- ===== src/Window/Stack/Close.antt =====
-- `closeWindow` and the stack of windows.
use server_communication.Prelude.{
  ℕ, ◌-◌, ◌≡◌, ◌≢◌, ◌∙◌, refl, true, false, List, [], ◌∷◌, none, some, arith, zero, suc, ap,
  contains,
}
use server_communication.Prelude.Maps.{find, find-erase}
use server_communication.AvDec.{AvDec, find_dec, set_dec, map_others, lower}
use server_communication.AvDec.Counts.{
  Words-set_dec, Words-map_others, find_dec-tsk_id, find_dec-set_dec, find_dec-map_others_self,
  find_dec-map_others_ne, find_dec-set_dec_ne, find_dec-Words,
}
use server_communication.TaskId.Invariant.{IsValid, set_server_task_id-some, held-ne}
use server_communication.TaskId.Release.{
  remove_codec_task_id-IsValid, remove_codec_task_id_frees, remove_codec_task_id-none,
}
use server_communication.Window.{Node, put, emit, set_avdec, sort, pop_back}
use server_communication.Window.Close.{take_down, close}
use server_communication.Window.Stack.{IsStack, Stacked, shown_below, EachOnce-remove}
use server_communication.Window.Stack.Numbers.{from, pop_back-from, sort-from}

-- The window is hidden and its decoder off, those that were above it go one down.
pub record IsClosed (k : ℕ) (n : Node) (third id : ℕ) (d : AvDec) (n' : Node) : Type 0 where
  pub stacked : Stacked (k - 1) n'
  pub hidden : find_dec id n'.decs ≡ some (record d { s8_open = 0; swms = false })
  pub others :
      (j : ℕ) (e : AvDec)
      → j ≢ id
      → find_dec j n.decs ≡ some e
      → find_dec j n'.decs ≡ some (lower false d.priority e)
  pub valid : IsValid n'.ids
  pub given_back : contains n'.ids.all_used id ≡ false
  pub no_task : find n'.ids.third_codec third ≡ none
  pub no_source : find n'.third_src third ≡ none

popped :
    (wp : List ℕ) (ds : List AvDec) (k id : ℕ) (d : AvDec)
    → find_dec id ds ≡ some d
    → d.swms ≡ true
    → IsStack k wp ds
    → sort (pop_back wp) ≡ from 0 (k - 1)
popped wp ds zero id d f s v = absurd (omega (arith, shown_below zero id d ds f s v.each_once))
popped wp ds (suc k) id d f s v =
    rw v.ordered (rw (pop_back-from 0 k) (sort-from 0 k ∙ ap (from 0) (omega arith)))

module _ (codec : AvDec → ℕ) (n : Node) (third k id : ℕ) (d : AvDec) (ok : IsValid n.ids)
    (f : find_dec id n.decs ≡ some d) (s : d.swms ≡ true) (v : Stacked k n) where
  abbrev off : AvDec
  off = record d { s8_open = 0; swms = false }

  abbrev after : List AvDec
  after = map_others (lower false d.priority) id (set_dec id off n.decs)

  abbrev sent_off : Node
  sent_off = emit (set_avdec off ∷ []) (put id off n)

  tag : d.tsk_id ≡ id
  tag = find_dec-tsk_id id d n.decs f

  after-IsStack : IsStack (k - 1) (sort (pop_back n.win_priority)) after
  after-IsStack = record {
    ordered = popped n.win_priority n.decs k id d f s v;
    each_once =
        EachOnce-remove k id d.priority d off n.decs f s refl tag v.words v.each_once false refl
          refl;
    words =
        Words-map_others false d.priority id _
          (Words-set_dec id off n.decs (find_dec-Words id d n.decs f v.words) v.words);
    small = omega (arith, v.small);
  }

  other_dec :
      (j : ℕ) (e : AvDec)
      → j ≢ id
      → find_dec j n.decs ≡ some e
      → find_dec j after ≡ some (lower false d.priority e)
  other_dec j e m g =
      find_dec-map_others_ne false d.priority id j e _ m
        (rw (find_dec-set_dec_ne id j off n.decs m tag) g)

  close-eq-take_down :
      codec off ≡ 0
      → find n.ids.third_codec third ≡ some id
      → close codec n third ≡ take_down codec sent_off third id off
  unfolding close
  close-eq-take_down accepts h =
      rw (set_server_task_id-some n.ids third id h, close)
        (rw (held-ne n.ids third id ok h)
          (rw f (rw accepts (rw (set_server_task_id-some n.ids third id h) refl))))

  take_down-IsClosed :
      find n.ids.third_codec third ≡ some id
      → IsClosed k n third id d (take_down codec sent_off third id off)
  unfolding take_down
  take_down-IsClosed h = record {
    stacked = after-IsStack;
    hidden =
        find_dec-map_others_self false d.priority id off _ (find_dec-set_dec id d off n.decs f tag);
    others = other_dec;
    valid = remove_codec_task_id-IsValid n.ids third ok;
    given_back = (remove_codec_task_id_frees n.ids third id ok h).1;
    no_task = remove_codec_task_id-none n.ids third id ok h;
    no_source = ground (arith, find-erase third third n.third_src);
  }

-- Where the bookkeeping of ids is in order and the windows are a stack: a request to close a
-- shown window, with a codec that takes every decoder, leaves the bookkeeping of ids in order and
-- the windows a stack of one less: the window is hidden and off, those above it are one down, its
-- task holds no id and no source any more, and its codec task id is unused.
pub close-IsClosed :
    (codec : AvDec → ℕ)
    → ((e : AvDec) → codec e ≡ 0)
    → (n : Node) (third k id : ℕ) (d : AvDec) → IsValid n.ids
    → find n.ids.third_codec third ≡ some id
    → find_dec id n.decs ≡ some d
    → d.swms ≡ true
    → Stacked k n
    → IsClosed k n third id d (close codec n third)
close-IsClosed codec accepts n third k id d ok h f s v =
    rw (close-eq-take_down codec n third k id d ok f s v (accepts _) h)
      (take_down-IsClosed codec n third k id d ok f s v h)
