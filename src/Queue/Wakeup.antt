-- ===== src/Queue/Wakeup.antt =====
-- src/CircleBoundedQueue.h: no taker sleeps over an entry.
use server_communication.Prelude.{
  ℕ, suc, ◌+◌, ◌-◌, ◌≤◌, ◌<◌, ◌≡◌, refl, ap, ◌∙◌, List, [], ◌∷◌, ◌++◌, length, drop, ◌==◌, arith,
  length-append, length-drop, Bool-cases, inl, inr, ne-false,
}
use server_communication.Queue.{
  CircularBuffer, IsCircularBuffer, Queue, notify, put, take, Step, Reach, start, returned,
}

module _ {A : Type 0} (B : CircularBuffer A) (laws : IsCircularBuffer B) (cap n : ℕ)
    (fits : n < cap) where
  abbrev entries : Queue B → ℕ
  entries q = length (B.view q.buffer)

  -- At most `n` takers, and while one sleeps, every entry has a taker that runs.
  IsAwake : Queue B → Type 0
  IsAwake q =
      (B.capacity q.buffer ≡ cap)
      × (entries q ≤ cap)
      × (q.sleeping + q.running ≤ n)
      × (0 < q.sleeping → entries q ≤ q.running)

  notify-IsAwake :
      (q : Queue B)
      → B.capacity q.buffer ≡ cap
      → entries q ≤ cap
      → q.sleeping + q.running ≤ n
      → (0 < q.sleeping → entries q ≤ suc q.running)
      → IsAwake (notify B q)
  unfolding IsAwake notify
  notify-IsAwake q c e s h = ground arith

  entries-push_back :
      (b : B.Buffer) (x : A)
      → length (B.view (B.push_back b x))
        ≡ suc (length (B.view b)) - (suc (length (B.view b)) - B.capacity b)
  entries-push_back b x = omega (
    arith,
    ap length (laws.view-push_back b x),
    length-drop (suc (length (B.view b)) - B.capacity b) (B.view b ++ (x ∷ [])),
    length-append (B.view b) (x ∷ []),
  )

  put-IsAwake : (q : Queue B) (x : A) → IsAwake q → IsAwake (put B q x)
  unfolding put IsAwake
  put-IsAwake q x h =
      let c = laws.capacity-push_back q.buffer x ∙ h.0 in
      let e = entries-push_back q.buffer x in
      let v = laws.full-view (B.push_back q.buffer x) in
      elim (Bool-cases (B.full (B.push_back q.buffer x))) [
        | inl f ↦ rw f ground (arith, c, e, v, f, h)
        | inr f ↦ rw f (
            notify-IsAwake (record q { buffer = B.push_back q.buffer x; puts = q.puts ++ (x ∷ []) })
              c (omega (arith, c, e, h.0)) h.2 (ground (arith, c, e, h)))
      ]

  take-IsAwake : (q : Queue B) → 0 < q.running → IsAwake q → IsAwake (take B q)
  unfolding take IsAwake
  take-IsAwake q r h = ground (
    arith,
    laws.empty-view q.buffer,
    laws.view-pop_front q.buffer,
    laws.capacity-pop_front q.buffer,
    length-drop 1 (B.view q.buffer),
  )

  Step-IsAwake : (q r : Queue B) → IsAwake q → Step B n q r → IsAwake r
  unfolding IsAwake
  Step-IsAwake q r h (Step.putting x e) = rw e (put-IsAwake q x h)
  Step-IsAwake q r h (Step.calling l e) = rw e ground arith
  Step-IsAwake q r h (Step.turning l e) = rw e (take-IsAwake q l h)
  Step-IsAwake q r h (Step.waking m l e) = rw e ground arith

  Reach-IsAwake : {q r : Queue B} → IsAwake q → Reach B n q r → IsAwake r
  Reach-IsAwake h Reach.here = h
  Reach-IsAwake h (Reach.next t s) = Step-IsAwake _ _ (Reach-IsAwake h t) s

  start-IsAwake : (b : B.Buffer) → B.view b ≡ [] → B.capacity b ≡ cap → IsAwake (start B b)
  unfolding IsAwake
  start-IsAwake b e c = (c, omega (arith, ap length e), omega arith, ground arith)

  take_front :
      (q : Queue B) (x : A) (xs : List A)
      → B.view q.buffer ≡ x ∷ xs
      → ((take B q).taken ≡ q.taken ++ (x ∷ [])) × (B.view (take B q).buffer ≡ xs)
  unfolding take
  take_front q x xs e =
      rw
        (laws.empty-view q.buffer
          ∙ ap (λ v. length v == 0) e
          ∙ ne-false (suc (length xs)) 0 (omega arith))
        (
          ap (λ o. q.taken ++ returned B o) (laws.front-view q.buffer x xs e),
          laws.view-pop_front q.buffer ∙ ap (drop 1) e,
        )

  -- No wakeup is lost: over a circular buffer as documented, empty at first, with a capacity above the
  -- number of takers, in every state that can be reached and in which a taker sleeps although
  -- there is an entry, another taker runs, and its next turn takes the oldest entry out and returns
  -- it.
  pub Reach-take :
      (b : B.Buffer) (q : Queue B) (x : A) (xs : List A)
      → B.view b ≡ []
      → B.capacity b ≡ cap
      → Reach B n (start B b) q
      → 0 < q.sleeping
      → B.view q.buffer ≡ x ∷ xs
      → Step B n q (take B q)
        × ((take B q).taken ≡ q.taken ++ (x ∷ []))
        × (B.view (take B q).buffer ≡ xs)
  unfolding IsAwake
  Reach-take b q x xs e c t s v =
      let h = Reach-IsAwake (start-IsAwake b e c) t in
      let f = take_front q x xs v in
      (Step.turning (omega (arith, h.3 s, ap length v)) refl, f.0, f.1)
