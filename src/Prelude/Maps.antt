-- ===== src/Prelude/Maps.antt =====
-- `std::map` as an association list, in the order of the keys where the keys are numbers.
use server_communication.Prelude.Tests.{ltb, ◌==◌, if◌then◌else◌, Option-cases}
use Prim.Native.Nat.{ℕ}
use mathlib.Core.Path.{◌≡◌, refl}
use mathlib.Core.Logic.{inl, inr}
use mathlib.Core.Option.{Option, none, some}
use mathlib.Core.List.{List, [], ◌∷◌}
use native.Mathlib.Omega.{arith}

module _ {ℓ} {V : Type ℓ} where
  -- `m.find(k)`
  unfoldable pub find : List (ℕ × V) → ℕ → Option V
  find [] k = none
  find ((j, v) ∷ m) k = if j == k then some v else find m k

  -- Where a new key stands in the order.
  place : ℕ → V → List (ℕ × V) → List (ℕ × V)
  place k v [] = (k, v) ∷ []
  place k v ((j, w) ∷ m) = if ltb k j then (k, v) ∷ ((j, w) ∷ m) else (j, w) ∷ place k v m

  replace : ℕ → V → List (ℕ × V) → List (ℕ × V)
  replace k v [] = []
  replace k v ((j, w) ∷ m) = if j == k then (j, v) ∷ m else (j, w) ∷ replace k v m

  -- `m.insert(value_type(k, v))`: an old entry of the key stays.
  unfoldable pub insert : ℕ → V → List (ℕ × V) → List (ℕ × V)
  unfolding find place
  insert k v m = elim (find m k) [ none ↦ place k v m | some _ ↦ m ]

  -- `m[k] = v`
  unfoldable pub assign : ℕ → V → List (ℕ × V) → List (ℕ × V)
  unfolding find place replace
  assign k v m = elim (find m k) [ none ↦ place k v m | some _ ↦ replace k v m ]

  -- `m.erase(k)`
  unfoldable pub erase : ℕ → List (ℕ × V) → List (ℕ × V)
  erase k [] = []
  erase k ((j, w) ∷ m) = if j == k then erase k m else (j, w) ∷ erase k m

  find-place :
      (k j : ℕ) (v : V) (m : List (ℕ × V))
      → find m k ≡ none
      → find (place k v m) j ≡ (if k == j then some v else find m j)
  unfolding find place
  find-place k j v [] h = refl
  find-place k j v ((i, w) ∷ m) h = ground (arith, find-place k j v m)

  find-replace :
      (k j : ℕ) (v w : V) (m : List (ℕ × V))
      → find m k ≡ some w
      → find (replace k v m) j ≡ (if k == j then some v else find m j)
  unfolding find replace
  find-replace k j v w [] h = ground arith
  find-replace k j v w ((i, u) ∷ m) h = ground (arith, find-replace k j v w m)

  pub find-insert :
      (k j : ℕ) (v : V) (m : List (ℕ × V))
      → find m k ≡ none
      → find (insert k v m) j ≡ (if k == j then some v else find m j)
  unfolding insert
  find-insert k j v m h = rw (h, insert) (find-place k j v m h)

  pub find-assign :
      (k j : ℕ) (v : V) (m : List (ℕ × V))
      → find (assign k v m) j ≡ (if k == j then some v else find m j)
  unfolding assign
  find-assign k j v m = elim (Option-cases (find m k)) [
    | inl e ↦ rw (e, assign) (find-place k j v m e)
    | inr (w, e) ↦ rw (e, assign) (find-replace k j v w m e)
  ]

  pub find-erase :
      (k j : ℕ) (m : List (ℕ × V)) → find (erase k m) j ≡ (if k == j then none else find m j)
  unfolding find erase
  find-erase k j [] = ground arith
  find-erase k j ((i, w) ∷ m) = ground (arith, find-erase k j m)

  pub erase_absent : (k : ℕ) (m : List (ℕ × V)) → find m k ≡ none → erase k m ≡ m
  unfolding find erase
  erase_absent k [] h = refl
  erase_absent k ((i, w) ∷ m) h = ground (arith, erase_absent k m)

  erase-place : (k : ℕ) (v : V) (m : List (ℕ × V)) → find m k ≡ none → erase k (place k v m) ≡ m
  unfolding find erase place
  erase-place k v [] h = ground arith
  erase-place k v ((i, w) ∷ m) h = ground (arith, erase-place k v m, erase_absent k m)

  -- Erasing a key that was just inserted gives the map back.
  pub erase-insert :
      (k : ℕ) (v : V) (m : List (ℕ × V)) → find m k ≡ none → erase k (insert k v m) ≡ m
  unfolding insert
  erase-insert k v m h = rw (h, insert) (erase-place k v m h)

  -- The first of two options that is there.
  abbrev pub or_else : Option V → Option V → Option V
  or_else (some v) w = some v
  or_else none w = w

  -- An insertion leaves every entry that is there.
  pub find-insert-or_else :
      (k j : ℕ) (v : V) (m : List (ℕ × V))
      → find (insert k v m) j ≡ or_else (find m j) (if k == j then some v else none)
  unfolding insert
  find-insert-or_else k j v m = elim (Option-cases (find m k)) [
    | inl e ↦ ground (arith, find-insert k j v m e, e)
    | inr (w, e) ↦ ground (arith, e)
  ]
