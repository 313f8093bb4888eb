-- ===== src/AvDec/Counts.antt =====
-- How many shown windows have a given priority, through the changes of the decoder table.
use server_communication.Prelude.{
  ℕ, Bool, ◌+◌, ◌^◌, ◌<◌, ◌≡◌, ◌≢◌, refl, false, List, [], ◌∷◌, some, arith, ltb, ◌==◌,
  if◌then◌else◌, map, Bool-cases, inl, inr,
}
use server_communication.AvDec.{AvDec, find_dec, set_dec, map_others, lower}

-- 1 for a shown window of the priority.
abbrev pub at : ℕ → AvDec → ℕ
at p d = if d.swms then (if d.priority == p then 1 else 0) else 0

unfoldable pub count_at : ℕ → List AvDec → ℕ
count_at p [] = 0
count_at p (d ∷ ds) = at p d + count_at p ds

-- The priorities are `DP_U32`.
abbrev pub Words : List AvDec → Type 0
Words [] = Unit {0}
Words (d ∷ ds) = (d.priority < 2 ^ 32) × Words ds

abbrev pub hide : AvDec → AvDec
hide d = record d { swms = false }

pub count_at-set_dec :
    (p id : ℕ) (d d' : AvDec) (ds : List AvDec)
    → find_dec id ds ≡ some d
    → count_at p (set_dec id d' ds) + at p d ≡ count_at p ds + at p d'
unfolding count_at find_dec set_dec
count_at-set_dec p id d d' [] h = ground arith
count_at-set_dec p id d d' (e ∷ ds) h = ground (arith, count_at-set_dec p id d d' ds)

at-lower :
    (u : Bool) (p q : ℕ) (d : AvDec)
    → d.priority < 2 ^ 32
    → at q d ≡ 0
    → at p (lower u q d) ≡ (if ltb p q then at p d else at (p + 1) d)
at-lower u p q d w h = ground arith

-- With no window at `q` itself, lowering those above `q` closes the gap.
pub count_at-lower :
    (u : Bool) (p q : ℕ) (ds : List AvDec)
    → Words ds
    → count_at q ds ≡ 0
    → count_at p (map (lower u q) ds) ≡ (if ltb p q then count_at p ds else count_at (p + 1) ds)
unfolding count_at
count_at-lower u p q [] w h = ground arith
count_at-lower u p q (d ∷ ds) w h =
    ground (arith, at-lower u p q d w.0, count_at-lower u p q ds w.1)

-- A loop over all but the one decoder counts like a loop over all with that one hidden, plus it.
pub count_at-map_others :
    (u : Bool) (p q id : ℕ) (d : AvDec) (ds : List AvDec)
    → find_dec id ds ≡ some d
    → count_at p (map_others (lower u q) id ds)
      ≡ count_at p (map (lower u q) (set_dec id (hide d) ds)) + at p d
unfolding count_at find_dec set_dec map_others
count_at-map_others u p q id d [] h = ground arith
count_at-map_others u p q id d (e ∷ ds) h = elim (Bool-cases (e.tsk_id == id)) [
  | inl t ↦ rw t (ground arith)
  | inr f ↦ rw f (omega (arith, count_at-map_others u p q id d ds (rw (f, find_dec) at h)))
]

Words-map : (u : Bool) (q : ℕ) (ds : List AvDec) → Words ds → Words (map (lower u q) ds)
Words-map u q [] w = tt
Words-map u q (d ∷ ds) w = (ground arith, Words-map u q ds w.1)

pub Words-set_dec :
    (id : ℕ) (d' : AvDec) (ds : List AvDec)
    → d'.priority < 2 ^ 32
    → Words ds
    → Words (set_dec id d' ds)
unfolding set_dec
Words-set_dec id d' [] h w = tt
Words-set_dec id d' (d ∷ ds) h w = elim (Bool-cases (d.tsk_id == id)) [
  | inl t ↦ rw t (h, w.1)
  | inr f ↦ rw f (w.0, Words-set_dec id d' ds h w.1)
]

pub Words-map_others :
    (u : Bool) (q id : ℕ) (ds : List AvDec) → Words ds → Words (map_others (lower u q) id ds)
unfolding map_others
Words-map_others u q id [] w = tt
Words-map_others u q id (d ∷ ds) w = elim (Bool-cases (d.tsk_id == id)) [
  | inl t ↦ rw t (w.0, Words-map u q ds w.1)
  | inr f ↦ rw f (ground arith, Words-map_others u q id ds w.1)
]

pub find_dec-Words :
    (id : ℕ) (d : AvDec) (ds : List AvDec)
    → find_dec id ds ≡ some d
    → Words ds
    → d.priority < 2 ^ 32
unfolding find_dec
find_dec-Words id d [] h w = ground arith
find_dec-Words id d (e ∷ ds) h w = ground (arith, find_dec-Words id d ds)

pub find_dec-set_dec :
    (id : ℕ) (d d' : AvDec) (ds : List AvDec)
    → find_dec id ds ≡ some d
    → d'.tsk_id ≡ id
    → find_dec id (set_dec id d' ds) ≡ some d'
unfolding find_dec set_dec
find_dec-set_dec id d d' [] h t = ground arith
find_dec-set_dec id d d' (e ∷ ds) h t = ground (arith, find_dec-set_dec id d d' ds)

pub set_dec-set_dec :
    (id : ℕ) (d d' : AvDec) (ds : List AvDec)
    → d.tsk_id ≡ id
    → set_dec id d' (set_dec id d ds) ≡ set_dec id d' ds
unfolding set_dec
set_dec-set_dec id d d' [] t = refl
set_dec-set_dec id d d' (e ∷ ds) t = ground (arith, set_dec-set_dec id d d' ds)

pub find_dec-tsk_id :
    (id : ℕ) (d : AvDec) (ds : List AvDec) → find_dec id ds ≡ some d → d.tsk_id ≡ id
unfolding find_dec
find_dec-tsk_id id d [] h = ground arith
find_dec-tsk_id id d (e ∷ ds) h = ground (arith, find_dec-tsk_id id d ds)

-- Where the one decoder is hidden, leaving it out of the loop makes no difference.
pub map_others-eq-map :
    (u : Bool) (q id : ℕ) (d : AvDec) (ds : List AvDec)
    → find_dec id ds ≡ some d
    → d.swms ≡ false
    → map_others (lower u q) id ds ≡ map (lower u q) ds
unfolding find_dec map_others
map_others-eq-map u q id d [] h s = refl
map_others-eq-map u q id d (e ∷ ds) h s = ground (arith, map_others-eq-map u q id d ds)

find_dec-map :
    (u : Bool) (q id : ℕ) (d : AvDec) (ds : List AvDec)
    → find_dec id ds ≡ some d
    → find_dec id (map (lower u q) ds) ≡ some (lower u q d)
unfolding find_dec
find_dec-map u q id d [] h = ground arith
find_dec-map u q id d (e ∷ ds) h = ground (arith, find_dec-map u q id d ds)

-- The decoder of the iterator stays as it is.
pub find_dec-map_others_self :
    (u : Bool) (q id : ℕ) (d : AvDec) (ds : List AvDec)
    → find_dec id ds ≡ some d
    → find_dec id (map_others (lower u q) id ds) ≡ some d
unfolding find_dec map_others
find_dec-map_others_self u q id d [] h = ground arith
find_dec-map_others_self u q id d (e ∷ ds) h = ground (arith, find_dec-map_others_self u q id d ds)

pub find_dec-map_others_ne :
    (u : Bool) (q id j : ℕ) (d : AvDec) (ds : List AvDec)
    → j ≢ id
    → find_dec j ds ≡ some d
    → find_dec j (map_others (lower u q) id ds) ≡ some (lower u q d)
unfolding find_dec map_others
find_dec-map_others_ne u q id j d [] n h = ground arith
find_dec-map_others_ne u q id j d (e ∷ ds) n h =
    ground (arith, find_dec-map_others_ne u q id j d ds n, find_dec-map u q j d ds)

pub find_dec-set_dec_ne :
    (id j : ℕ) (d' : AvDec) (ds : List AvDec)
    → j ≢ id
    → d'.tsk_id ≡ id
    → find_dec j (set_dec id d' ds) ≡ find_dec j ds
unfolding find_dec set_dec
find_dec-set_dec_ne id j d' [] n t = refl
find_dec-set_dec_ne id j d' (e ∷ ds) n t = ground (arith, find_dec-set_dec_ne id j d' ds n t)
