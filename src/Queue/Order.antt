-- ===== src/Queue/Order.antt =====
-- src/CircleBoundedQueue.h: what the takers get, against what was put.
use server_communication.Prelude.{
  ℕ, zero, suc, ◌-◌, ◌≤◌, ◌≡◌, refl, sym, ap, ◌∙◌, false, List, [], ◌∷◌, ◌++◌, length, take, drop,
  ◌==◌, arith, length-append, length-drop, Bool-cases, inl, inr, take-append-drop, append_assoc,
  append_nil,
}
use server_communication.Queue
use server_communication.Queue.{
  CircularBuffer, IsCircularBuffer, Queue, notify, put, Step, Reach, start, returned,
}

module _ {A : Type 0} where
  -- The entries of the one list stand in the other, in the same order.
  pub data Sublist : List A → List A → Type 0 where
    nil : Sublist [] []
    skip : {x : A} {xs ys : List A} → Sublist xs ys → Sublist xs (x ∷ ys)
    keep : {x : A} {xs ys : List A} → Sublist xs ys → Sublist (x ∷ xs) (x ∷ ys)

  Sublist-append :
      {xs ys us vs : List A} → Sublist xs ys → Sublist us vs → Sublist (xs ++ us) (ys ++ vs)
  Sublist-append Sublist.nil t = t
  Sublist-append (Sublist.skip s) t = Sublist.skip (Sublist-append s t)
  Sublist-append (Sublist.keep s) t = Sublist.keep (Sublist-append s t)

  Sublist-nil : (ys : List A) → Sublist [] ys
  Sublist-nil [] = Sublist.nil
  Sublist-nil (y ∷ ys) = Sublist.skip (Sublist-nil ys)

  Sublist-later : {xs : List A} (ys zs : List A) → Sublist xs ys → Sublist xs (ys ++ zs)
  Sublist-later {xs} ys zs s = rw (sym (append_nil xs)) (Sublist-append s (Sublist-nil zs))

module _ {A : Type 0} (B : CircularBuffer A) (laws : IsCircularBuffer B) (cap n : ℕ) where
  -- What was put is a list `early` and then the entries, of which there are at most `cap`; what was
  -- returned stands, in order, in `early`.
  unfoldable pub IsOrdered : Queue B → Type 0
  IsOrdered q =
      (B.capacity q.buffer ≡ cap)
      × (length (B.view q.buffer) ≤ cap)
      × ((early : List A) × (q.puts ≡ early ++ B.view q.buffer) × Sublist q.taken early)

  notify-IsOrdered : (q : Queue B) → IsOrdered q → IsOrdered (notify B q)
  unfolding notify IsOrdered
  notify-IsOrdered q h =
      elim q.sleeping
        as (λ s.
          IsOrdered
            (elim s [ zero ↦ q | suc m ↦ record q { sleeping = m; running = suc q.running } ])) [
              | zero ↦ h
              | suc m ↦ h
            ]

  pushed :
      (q : Queue B) (x : A)
      → IsOrdered q
      → IsOrdered (record q { buffer = B.push_back q.buffer x; puts = q.puts ++ (x ∷ []) })
  unfolding IsOrdered
  pushed q x (c, l, (early, e, s)) =
      let w = B.view q.buffer ++ (x ∷ []) in
      let d = suc (length (B.view q.buffer)) - B.capacity q.buffer in
      let v = laws.view-push_back q.buffer x in
      (
        laws.capacity-push_back q.buffer x ∙ c,
        omega (arith, c, l, ap length v, length-drop d w, length-append (B.view q.buffer) (x ∷ [])),
        (
          early ++ take d w,
          ap (λ p. p ++ (x ∷ [])) e
              ∙ append_assoc early (B.view q.buffer) (x ∷ [])
              ∙ ap (λ z. early ++ z) (sym (take-append-drop d w))
              ∙ sym (append_assoc early (take d w) (drop d w))
              ∙ ap (λ z. (early ++ take d w) ++ z) (sym v),
          Sublist-later early (take d w) s,
        ),
      )

  put-IsOrdered : (q : Queue B) (x : A) → IsOrdered q → IsOrdered (put B q x)
  unfolding put
  put-IsOrdered q x h = elim (Bool-cases (B.full (B.push_back q.buffer x))) [
    | inl f ↦ rw f (pushed q x h)
    | inr f ↦ rw f (notify-IsOrdered _ (pushed q x h))
  ]

  popped :
      (q : Queue B) (v : List A)
      → B.view q.buffer ≡ v
      → (length v == 0) ≡ false
      → IsOrdered q
      → IsOrdered (record q {
        buffer = B.pop_front q.buffer;
        running = q.running - 1;
        taken = q.taken ++ returned B (B.front q.buffer);
      })
  unfolding IsOrdered
  popped q [] e z h = ground (arith, z)
  popped q (x ∷ xs) e z (c, l, (early, p, s)) =
      let w = laws.view-pop_front q.buffer ∙ ap (drop 1) e in
      (
        laws.capacity-pop_front q.buffer ∙ c,
        omega (arith, l, ap length w, ap length e),
        (
          early ++ (x ∷ []),
          p
              ∙ ap (λ z. early ++ z) (e ∙ ap (λ z. x ∷ z) (sym w))
              ∙ sym (append_assoc early (x ∷ []) (B.view (B.pop_front q.buffer))),
          rw (laws.front-view q.buffer x xs e) (Sublist-append s (Sublist.keep Sublist.nil)),
        ),
      )

  take-IsOrdered : (q : Queue B) → IsOrdered q → IsOrdered (server_communication.Queue.take B q)
  unfolding server_communication.Queue.take IsOrdered
  take-IsOrdered q h = elim (Bool-cases (B.empty q.buffer)) [
    | inl f ↦ rw f h
    | inr f ↦ rw f (popped q (B.view q.buffer) refl (sym (laws.empty-view q.buffer) ∙ f) h)
  ]

  Step-IsOrdered : (q r : Queue B) → IsOrdered q → Step B n q r → IsOrdered r
  unfolding IsOrdered
  Step-IsOrdered q r h (Step.putting x e) = rw e (put-IsOrdered q x h)
  Step-IsOrdered q r h (Step.calling l e) = rw e h
  Step-IsOrdered q r h (Step.turning l e) = rw e (take-IsOrdered q h)
  Step-IsOrdered q r h (Step.waking m l e) = rw e h

  -- Over a circular buffer as documented, empty at first, whatever the number of takers and the order
  -- of the steps: the entries, at most as many as the capacity, are the last that were put, and what
  -- the takers got are earlier ones, in the order in which they were put, none of them twice.
  pub Reach-IsOrdered :
      (b : B.Buffer)
      → B.view b ≡ []
      → B.capacity b ≡ cap
      → {q : Queue B} → Reach B n (start B b) q
      → IsOrdered q
  unfolding IsOrdered
  Reach-IsOrdered b e c Reach.here = (c, omega (arith, ap length e), ([], sym e, Sublist.nil))
  Reach-IsOrdered b e c (Reach.next t s) = Step-IsOrdered _ _ (Reach-IsOrdered b e c t) s
