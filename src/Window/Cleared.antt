-- ===== src/Window/Cleared.antt =====
-- What `clearAllTask` leaves.
use server_communication.Prelude.{
  ℕ, ◌<◌, ◌≡◌, ◌≢◌, inl, inr, refl, true, false, List, [], ◌∷◌, none, some, arith, Bool-cases,
  Option-cases,
}
use server_communication.AvDec.{AvDec, find_dec}
use server_communication.AvDec.Counts.{count_at, Words}
use server_communication.TaskId.{TaskIds, remove_codec_task_id}
use server_communication.Window.{Node, OpenRequest}
use server_communication.Window.OpenMove.{open_and_move_request}
use server_communication.Window.Clear.{
  BatchAck, is_cleared, find_third, sweep, clear_tables, clear_all_task,
}
use server_communication.Window.Stack.{Stacked}
use server_communication.Window.Stack.Numbers.{from, from_empty}

-- Every shown window is one that the loop closes.
abbrev pub ShownCleared : ℕ → List AvDec → Type 0
ShownCleared t [] = Unit {0}
ShownCleared t (d ∷ ds) = (d.swms ≡ true → is_cleared t d ≡ true) × ShownCleared t ds

sweep-Words : (t : ℕ) (ids : TaskIds) (ds : List AvDec) → Words ds → Words (sweep t ids ds).decs
unfolding sweep
sweep-Words t ids [] w = tt
sweep-Words t ids (d ∷ ds) w = elim (Bool-cases (is_cleared t d)) [
  | inr e ↦ rw (e, sweep) (w.0, sweep-Words t ids ds w.1)
  | inl e ↦ elim (Option-cases (find_third ids.third_codec d.tsk_id)) [
    | inl f ↦ rw (e, sweep) (rw (f, sweep) w)
    | inr (third, f) ↦
        rw (e, sweep) (rw (f, sweep) (w.0, sweep-Words t (remove_codec_task_id ids third) ds w.1))
  ]
]

sweep-count :
    (t p : ℕ) (ids : TaskIds) (ds : List AvDec)
    → ShownCleared t ds
    → (sweep t ids ds).complete ≡ true
    → count_at p (sweep t ids ds).decs ≡ 0
unfolding count_at sweep
sweep-count t p ids [] h c = refl
sweep-count t p ids (d ∷ ds) h c = elim (Bool-cases (is_cleared t d)) [
  | inr e ↦ rw (e, sweep) (ground (arith, sweep-count t p ids ds h.1 (rw (e, sweep) at c), e, h.0))
  | inl e ↦ elim (Option-cases (find_third ids.third_codec d.tsk_id)) [
    | inl f ↦ absurd (ground (arith, rw (f, sweep) at (rw (e, sweep) at c)))
    | inr (third, f) ↦
        rw (e, sweep)
          (rw (f, sweep)
            (omega (
              arith,
              sweep-count t p (remove_codec_task_id ids third) ds h.1
                  (rw (f, sweep) at (rw (e, sweep) at c)),
            )))
  ]
]

-- Where the priorities are 32-bit words, every shown window is one that the request clears, and
-- every decoder that the loop closes belongs to a task, `clearAllTask` leaves a stack of no
-- window and holds no other request back.
pub clear_all_task-Stacked :
    (batch : List ℕ → BatchAck) (n : Node) (t : ℕ)
    → ShownCleared t n.decs
    → Words n.decs
    → (sweep t n.ids n.decs).complete ≡ true
    → Stacked 0 (clear_all_task batch n t)
      × (((codec : AvDec → ℕ) (req : OpenRequest)
          → open_and_move_request codec (clear_all_task batch n t) req ≢ none))
unfolding from clear_tables clear_all_task open_and_move_request
clear_all_task-Stacked batch n t h w c = rw c (
  record {
    ordered = refl;
    each_once = λ p. ground (arith, sweep-count t p n.ids n.decs h c);
    words = sweep-Words t n.ids n.decs w;
    small = omega arith;
  },
  λ codec req. ground arith,
)

-- Where a decoder that the loop closes belongs to no task, a request to open or move a window
-- after `clearAllTask` waits, whatever it is.
pub clear_all_task_stuck :
    (batch : List ℕ → BatchAck) (codec : AvDec → ℕ) (n : Node) (t : ℕ) (req : OpenRequest)
    → (sweep t n.ids n.decs).complete ≡ false
    → open_and_move_request codec (clear_all_task batch n t) req ≡ none
unfolding clear_all_task open_and_move_request
clear_all_task_stuck batch codec n t req c = rw c refl

sweep-count_kept :
    (t id : ℕ) (ids : TaskIds) (d : AvDec) (ds : List AvDec)
    → find_dec id ds ≡ some d
    → d.swms ≡ true
    → is_cleared t d ≡ false
    → (sweep t ids ds).complete ≡ true
    → 0 < count_at d.priority (sweep t ids ds).decs
unfolding find_dec count_at sweep
sweep-count_kept t id ids d [] f s k o = ground arith
sweep-count_kept t id ids d (e ∷ ds) f s k o = elim (Bool-cases (is_cleared t e)) [
  | inr c ↦ rw (c, sweep) (ground (arith, sweep-count_kept t id ids d ds, rw (c, sweep) at o))
  | inl c ↦ elim (Option-cases (find_third ids.third_codec e.tsk_id)) [
    | inl g ↦ absurd (ground (arith, rw (g, sweep) at (rw (c, sweep) at o)))
    | inr (third, g) ↦
        rw (c, sweep)
          (rw (g, sweep)
            (ground (
              arith,
              c,
              sweep-count_kept t id (remove_codec_task_id ids third) d ds,
              rw (g, sweep) at (rw (c, sweep) at o),
            )))
  ]
]

-- A complete clearing that leaves a shown window alone, such as one of the sounds, empties the table
-- of priorities all the same: afterwards the windows are a stack of no height.
pub clear_all_task_unstacked :
    (batch : List ℕ → BatchAck) (n : Node) (t id : ℕ) (d : AvDec)
    → find_dec id n.decs ≡ some d
    → d.swms ≡ true
    → is_cleared t d ≡ false
    → (sweep t n.ids n.decs).complete ≡ true
    → (k : ℕ) → ¬ Stacked k (clear_all_task batch n t)
unfolding clear_tables clear_all_task
clear_all_task_unstacked batch n t id d f s k c j = rw c (λ v. ground (
  arith,
  v.each_once d.priority,
  from_empty 0 j v.ordered,
  sweep-count_kept t id n.ids d n.decs f s k c,
))
