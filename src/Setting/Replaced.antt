-- ===== src/Setting/Replaced.antt =====
-- What the settings make of the node's encoders.
use mathlib.Core.Path.{subst}
use server_communication.Prelude.{
  ℕ, ◌≡◌, refl, sym, ap, ◌∙◌, inl, inr, true, false, List, [], ◌∷◌, ◌++◌, ◌==◌, if◌then◌else◌,
  contains, erase_first, Distinct, Distinct-erase_first, contains-erase_first_ne,
  contains-erase_first_self, contains-append, Distinct-append_one, Bool-cases, append_nil,
  append_assoc, arith,
}
use server_communication.Saving.Info.{EncInfo}
use server_communication.Setting.{task_of, ids, drop_first, replace_enc, replace_encs}

-- The encoders that are not set, and the settings of encoders that the node has, in their orders.
unfoldable pub others : List EncInfo → List EncInfo → List EncInfo
others ss [] = []
others ss (e ∷ es) = if contains (ids ss) (task_of e) then others ss es else e ∷ others ss es

unfoldable pub known : List EncInfo → List EncInfo → List EncInfo
known [] encs = []
known (s ∷ ss) encs = if contains (ids encs) (task_of s) then s ∷ known ss encs else known ss encs

ids-append : (xs ys : List EncInfo) → ids (xs ++ ys) ≡ ids xs ++ ids ys
ids-append [] ys = refl
ids-append (x ∷ xs) ys = ap (λ (l : List ℕ). task_of x ∷ l) (ids-append xs ys)

ids-drop_first : (id : ℕ) (es : List EncInfo) → ids (drop_first id es) ≡ erase_first (ids es) id
unfolding drop_first
ids-drop_first id [] = refl
ids-drop_first id (e ∷ es) = ground (arith, ids-drop_first id es)

others-append : (ss xs ys : List EncInfo) → others ss (xs ++ ys) ≡ others ss xs ++ others ss ys
unfolding others
others-append ss [] ys = refl
others-append ss (x ∷ xs) ys = ground (arith, others-append ss xs ys)

-- Encoders without this task are the same beside one setting more.
others-skip :
    (s : EncInfo) (ss encs : List EncInfo)
    → contains (ids encs) (task_of s) ≡ false
    → others (s ∷ ss) encs ≡ others ss encs
unfolding others
others-skip s ss [] h = refl
others-skip s ss (e ∷ es) h = ground (arith, others-skip s ss es)

others-drop_first :
    (s : EncInfo) (ss encs : List EncInfo)
    → Distinct (ids encs)
    → others (s ∷ ss) encs ≡ others ss (drop_first (task_of s) encs)
unfolding others drop_first
others-drop_first s ss [] d = refl
others-drop_first s ss (e ∷ es) d =
    ground (arith, others-drop_first s ss es d.1, others-skip s ss es)

known-same :
    (ss xs ys : List EncInfo)
    → ((id : ℕ) → contains (ids xs) id ≡ contains (ids ys) id)
    → known ss xs ≡ known ss ys
unfolding known
known-same [] xs ys h = refl
known-same (s ∷ ss) xs ys h = ground (arith, known-same ss xs ys h, h (task_of s))

contains-moved :
    (l : List ℕ) (a b : ℕ)
    → contains l a ≡ true
    → contains (erase_first l a ++ (a ∷ [])) b ≡ contains l b
contains-moved l a b h = elim (Bool-cases (b == a)) [
  | inl same ↦ ground (arith, contains-append (erase_first l a) (a ∷ []) b)
  | inr other ↦
      ground (arith, contains-append (erase_first l a) (a ∷ []) b, contains-erase_first_ne l a b)
]

ids-moved :
    (s : EncInfo) (encs : List EncInfo)
    → ids (drop_first (task_of s) encs ++ (s ∷ []))
      ≡ erase_first (ids encs) (task_of s) ++ (task_of s ∷ [])
ids-moved s encs =
    ids-append (drop_first (task_of s) encs) (s ∷ [])
    ∙ ap (λ (l : List ℕ). l ++ (task_of s ∷ [])) (ids-drop_first (task_of s) encs)

Distinct-moved :
    (s : EncInfo) (encs : List EncInfo)
    → Distinct (ids encs)
    → Distinct (ids (drop_first (task_of s) encs ++ (s ∷ [])))
Distinct-moved s encs d = subst Distinct (sym (ids-moved s encs)) (
    Distinct-append_one (erase_first (ids encs) (task_of s)) (task_of s)
      (Distinct-erase_first (ids encs) (task_of s) d)
      (contains-erase_first_self (ids encs) (task_of s) d))

others-moved :
    (s : EncInfo) (ss encs : List EncInfo)
    → Distinct (ids encs)
    → contains (ids ss) (task_of s) ≡ false
    → others ss (drop_first (task_of s) encs ++ (s ∷ [])) ≡ others (s ∷ ss) encs ++ (s ∷ [])
unfolding others
others-moved s ss encs d h =
    let alone : others ss (s ∷ []) ≡ s ∷ [] = ground arith in
    others-append ss (drop_first (task_of s) encs) (s ∷ [])
    ∙ ap (λ (l : List EncInfo). others ss (drop_first (task_of s) encs) ++ l) alone
    ∙ ap (λ (l : List EncInfo). l ++ (s ∷ [])) (sym (others-drop_first s ss encs d))

others-nothing : (encs : List EncInfo) → others [] encs ≡ encs
unfolding others
others-nothing [] = refl
others-nothing (e ∷ es) = ap (λ (l : List EncInfo). e ∷ l) (others-nothing es)

-- Settings with distinct ids leave the encoders that are not set, in their order, and behind them the
-- settings of encoders that the node has, in the order of the settings.
pub replace_encs-split :
    (ss encs : List EncInfo)
    → Distinct (ids ss)
    → Distinct (ids encs)
    → replace_encs ss encs ≡ others ss encs ++ known ss encs
unfolding replace_encs replace_enc known
replace_encs-split [] encs u d =
    sym (ap (λ (l : List EncInfo). l ++ []) (others-nothing encs) ∙ append_nil encs)
replace_encs-split (s ∷ ss) encs u d = elim (Bool-cases (contains (ids encs) (task_of s))) [
  | inl has ↦
      let moved = drop_first (task_of s) encs ++ (s ∷ []) in
      let same : (id : ℕ) → contains (ids moved) id ≡ contains (ids encs) id = λ id.
        ap (λ (l : List ℕ). contains l id) (ids-moved s encs)
        ∙ contains-moved (ids encs) (task_of s) id has in
      let rec = replace_encs-split ss moved u.1 (Distinct-moved s encs d) in
      rw (has, rec, others-moved s ss encs d u.0, known-same ss moved encs same)
        (append_assoc (others (s ∷ ss) encs) (s ∷ []) (known ss encs))
  | inr new ↦
      let rec = replace_encs-split ss encs u.1 d in rw (new, rec, others-skip s ss encs new) refl
]
