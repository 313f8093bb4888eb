-- ===== src/Window/Stack.antt =====
-- The windows of a node form a stack: with `k` windows, the table of priorities is 0 to k - 1 and
-- each of these is the priority of exactly one shown decoder.
pub mod Numbers
pub mod Open
pub mod Move
pub mod Reopen
pub mod Close
use server_communication.Prelude.{
  ℕ, ◌+◌, ◌-◌, ◌≤◌, ◌<◌, ◌^◌, ◌≡◌, ◌∙◌, ap, zero, suc, refl, Bool, true, false, List, map, some,
  arith, ltb, ◌==◌, if◌then◌else◌, contains,
}
use server_communication.AvDec.{AvDec, find_dec, set_dec, map_others, lower}
use server_communication.AvDec.Counts.{
  at, count_at, Words, count_at-set_dec, Words-set_dec, find_dec-Words, hide, count_at-lower,
  count_at-map_others, find_dec-set_dec, set_dec-set_dec,
}
use server_communication.Window.{Node, back}
use Numbers.{from, back-from}

abbrev pub EachOnce : ℕ → List AvDec → Type 0
EachOnce k ds = (p : ℕ) → count_at p ds ≡ (if ltb p k then 1 else 0)

pub record IsStack (k : ℕ) (wp : List ℕ) (ds : List AvDec) : Type 0 where
  pub ordered : wp ≡ from 0 k
  pub each_once : EachOnce k ds
  pub words : Words ds
  pub small : k < 2 ^ 32

abbrev pub Stacked : ℕ → Node → Type 0
Stacked k n = IsStack k n.win_priority n.decs

-- A decoder that is shown is in use.
abbrev pub Linked : Node → Type 0
Linked n =
    (id : ℕ) (d : AvDec)
    → find_dec id n.decs ≡ some d
    → d.swms ≡ true
    → contains n.ids.all_used id ≡ true

-- Writing a decoder that is shown or hidden as it was, at its priority, changes no count.
pub IsStack-set_same :
    (k id : ℕ) (wp : List ℕ) (d d' : AvDec) (ds : List AvDec)
    → find_dec id ds ≡ some d
    → d'.swms ≡ d.swms
    → d'.priority ≡ d.priority
    → IsStack k wp ds
    → IsStack k wp (set_dec id d' ds)
IsStack-set_same k id wp d d' ds f s p v = record {
  ordered = v.ordered;
  each_once = λ q. ground (arith, count_at-set_dec q id d d' ds f, v.each_once q);
  words = Words-set_dec id d' ds (rw p (find_dec-Words id d ds f v.words)) v.words;
  small = v.small;
}

-- A hidden decoder that is shown at the top makes the stack one higher.
pub EachOnce-show :
    (k id : ℕ) (d d' : AvDec) (ds : List AvDec)
    → find_dec id ds ≡ some d
    → d.swms ≡ false
    → d'.swms ≡ true
    → d'.priority ≡ k
    → EachOnce k ds
    → EachOnce (k + 1) (set_dec id d' ds)
EachOnce-show k id d d' ds f h s p v q = ground (arith, count_at-set_dec q id d d' ds f, v q)

-- A shown decoder's priority is below the height.
pub shown_below :
    (k id : ℕ) (d : AvDec) (ds : List AvDec)
    → find_dec id ds ≡ some d
    → d.swms ≡ true
    → EachOnce k ds
    → d.priority < k
shown_below k id d ds f s v =
    ground (arith, count_at-set_dec d.priority id d (record d { swms = false }) ds f, v d.priority)

module _ (k id q : ℕ) (d d' : AvDec) (ds : List AvDec) (f : find_dec id ds ≡ some d)
    (shown : d.swms ≡ true) (at_q : d.priority ≡ q) (tagged : d'.tsk_id ≡ id) (w : Words ds)
    (each : EachOnce k ds) where
  hidden_count :
      (p : ℕ) → count_at p (set_dec id (hide d') ds) + at p d ≡ (if ltb p k then 1 else 0)
  hidden_count p = ground (arith, count_at-set_dec p id d (hide d') ds f, each p)

  hidden_lowered :
      (u : Bool) (p : ℕ)
      → d'.priority < 2 ^ 32
      → count_at p (map (lower u q) (set_dec id (hide d') ds)) ≡ (
          if ltb p q
          then count_at p (set_dec id (hide d') ds)
          else count_at (p + 1) (set_dec id (hide d') ds))
  hidden_lowered u p b =
      count_at-lower u p q (set_dec id (hide d') ds) (Words-set_dec id (hide d') ds b w)
        (ground (arith, hidden_count q))

  -- A shown window goes to the top and those above it go one down.
  pub EachOnce-raise :
      (u : Bool)
      → d'.swms ≡ true
      → d'.priority + 1 ≡ k
      → k < 2 ^ 32
      → EachOnce k (map_others (lower u q) id (set_dec id d' ds))
  EachOnce-raise u s t b p =
      rw (count_at-map_others u p q id d' (set_dec id d' ds) (find_dec-set_dec id d d' ds f tagged))
        (rw (set_dec-set_dec id d' (hide d') ds tagged) (
          ground (
            arith,
            hidden_lowered u p,
            hidden_count p,
            hidden_count (p + 1),
            shown_below k id d ds f shown each,
          )))

  -- A shown window goes and those above it go one down.
  pub EachOnce-remove :
      (u : Bool)
      → d'.swms ≡ false
      → d'.priority ≡ q
      → EachOnce (k - 1) (map_others (lower u q) id (set_dec id d' ds))
  EachOnce-remove u s t p =
      rw (count_at-map_others u p q id d' (set_dec id d' ds) (find_dec-set_dec id d d' ds f tagged))
        (rw (set_dec-set_dec id d' (hide d') ds tagged) (
          ground (
            arith,
            hidden_lowered u p,
            hidden_count p,
            hidden_count (p + 1),
            shown_below k id d ds f shown each,
            find_dec-Words id d ds f w,
          )))

pub top_of :
    (wp : List ℕ) (ds : List AvDec) (k id : ℕ) (d : AvDec)
    → find_dec id ds ≡ some d
    → d.swms ≡ true
    → IsStack k wp ds
    → (top : ℕ) × (back wp ≡ some top) × (top + 1 ≡ k)
top_of wp ds zero id d f s v = absurd (omega (arith, shown_below zero id d ds f s v.each_once))
top_of wp ds (suc k) id d f s v =
    (k, rw v.ordered (back-from 0 k ∙ ap some (omega arith)), omega arith)
