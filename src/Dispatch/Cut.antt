-- ===== src/Dispatch/Cut.antt =====
-- The loop of `onMessage` against a cut of the bytes into pieces.
use server_communication.Prelude.{
  ℕ, zero, suc, ◌+◌, ◌*◌, ◌-◌, append_nil, ◌<◌, ◌≤◌, ◌≡◌, refl, ap, ◌∙◌, true, List, [], ◌∷◌, ◌++◌,
  map, some, arith, ltb, ◌>>=◌, ◌==◌, length, take, drop, take-append, drop-append, drop-drop,
  length-drop, length-append, length-take, length-take_le, take-append-drop, lt→ltb, ltb→lt,
  le-ltb-false, ne-false, Bool-cases, inl, inr,
}
use server_communication.Dispatch.{
  RemoteCmd, cmd_of, butt, byte_at, word_at, read_head, parser_data_head, parser_data_package,
  has_handler, task_of, turns, on_message,
}

-- The pieces of a length that bytes begin with, in order; what is left is shorter.
pub data IsCut (len : ℕ) : List ℕ → List (List ℕ) → Type 0 where
  rest : (bytes : List ℕ) → length bytes < len → IsCut len bytes []
  piece :
      (p bytes : List ℕ) (ps : List (List ℕ))
      → length p ≡ len
      → IsCut len bytes ps
      → IsCut len (p ++ bytes) (p ∷ ps)

recut :
    {len : ℕ} {xs ys : List ℕ} {ps : List (List ℕ)} → xs ≡ ys → IsCut len xs ps → IsCut len ys ps
recut {len} {xs} {ys} {ps} e c = rw (← e) c

cut :
    (fuel len : ℕ) (bytes : List ℕ)
    → 0 < len
    → length bytes < fuel
    → (ps : List (List ℕ)) × IsCut len bytes ps
cut zero len bytes l h = absurd (omega (arith, h))
cut (suc fuel) len bytes l h = elim (Bool-cases (ltb (length bytes) len)) [
  | inl e ↦ ([], rest bytes (ground arith))
  | inr e ↦
      let (ps, c) = cut fuel len (drop len bytes) l (ground (arith, length-drop len bytes)) in
      (
        take len bytes ∷ ps,
        recut (take-append-drop len bytes)
            (piece (take len bytes) (drop len bytes) ps (length-take len bytes (ground arith)) c),
      )
]

task_of_short : (cmd : RemoteCmd) (q : List ℕ) (len : ℕ) → length q < len → task_of cmd q len ≡ []
unfolding task_of
task_of_short cmd q len h = ground arith

task_of_full :
    (cmd : RemoteCmd) (q : List ℕ) (len : ℕ)
    → has_handler cmd ≡ true
    → length q ≡ len
    → task_of cmd q len ≡ (cmd, q) ∷ []
unfolding task_of
task_of_full cmd q len k h = ground arith

-- A head with a length is read alike at every turn.
read_again :
    (bytes : List ℕ) (cmd : RemoteCmd) (len l : ℕ)
    → parser_data_package 0 bytes ≡ some (cmd, len)
    → 0 < len
    → parser_data_package l bytes ≡ some (cmd, len)
unfolding parser_data_package
read_again bytes cmd len l h p = ground arith

module _ (bytes : List ℕ) (cmd : RemoteCmd) (len : ℕ)
    (h : parser_data_package 0 bytes ≡ some (cmd, len)) (p : 0 < len) where
  turn-eq :
      (fuel count l : ℕ)
      → count < length bytes
      → turns (suc fuel) bytes count l ≡ (
          turns fuel bytes (count + len) len >>= λ later.
          some (task_of cmd (take len (drop count bytes)) len ++ later))
  unfolding turns
  turn-eq fuel count l c =
      rw (lt→ltb count (length bytes) c, turns)
        (rw (read_again bytes cmd len l h p) (rw (ne-false len 0 (omega (arith, p))) refl))

  turns_end : (fuel count l : ℕ) → length bytes ≤ count → turns (suc fuel) bytes count l ≡ some []
  unfolding turns
  turns_end fuel count l c = rw (le-ltb-false (length bytes) count c, turns) refl

  turns_after :
      (fuel count : ℕ)
      → 0 < fuel
      → length bytes ≤ count + len
      → turns fuel bytes (count + len) len ≡ some []
  turns_after zero count f c = absurd (omega (arith, f))
  turns_after (suc fuel) count f c = turns_end fuel (count + len) len c

  turns-pieces :
      has_handler cmd ≡ true
      → (fuel count l : ℕ) {xs : List ℕ} {ps : List (List ℕ)} → IsCut len xs ps
      → drop count bytes ≡ xs
      → length bytes - count < fuel
      → turns fuel bytes count l ≡ some (map (λ q. (cmd, q)) ps)
  unfolding task_of
  turns-pieces k zero count l c e f = absurd (omega (arith, f))
  turns-pieces k (suc fuel) count l (rest xs s) e f = elim (Bool-cases (ltb count (length bytes))) [
    | inl t ↦ rw (turn-eq fuel count l (ltb→lt count (length bytes) t)) (
        rw
          (turns_after fuel count (omega (arith, f, ltb→lt count (length bytes) t))
            (omega (arith, length-drop count bytes, ap length e, s)))
          (ap (λ a. some (a ++ []))
            (task_of_short cmd (take len (drop count bytes)) len
              (rw e (omega (arith, length-take_le len xs, s))))))
    | inr t ↦ turns_end fuel count l (ground arith)
  ]
  turns-pieces k (suc fuel) count l (piece q ys ps s c) e f =
      rw
        (turn-eq fuel count l
          (omega (arith, length-drop count bytes, ap length e, length-append q ys, s, p)))
        (rw
          (turns-pieces k fuel (count + len) len c
            (drop-drop count len bytes ∙ (ap (drop len) e ∙ drop-append len q ys s))
            (omega (arith, f, p, length-drop count bytes, ap length e, length-append q ys, s)))
          (ap (λ a. some (a ++ map (λ r. (cmd, r)) ps))
            (ap (λ xs. task_of cmd (take len xs) len) e
              ∙ (ap (λ xs. task_of cmd xs len) (take-append len q ys s)
                  ∙ task_of_full cmd q len k s))))

-- Bytes whose head can be read, and names a length of at least 1 and a command that has a
-- handler, are cut into pieces of that length and a rest that is shorter; `onMessage` ends, and
-- gives the thread pool these pieces in order, each under that command.
pub on_message-IsCut :
    (bytes : List ℕ) (cmd : RemoteCmd) (len : ℕ)
    → parser_data_package 0 bytes ≡ some (cmd, len)
    → 0 < len
    → has_handler cmd ≡ true
    → (ps : List (List ℕ)) × IsCut len bytes ps × (on_message bytes ≡ some (map (λ q. (cmd, q)) ps))
unfolding on_message
on_message-IsCut bytes cmd len h p k =
    let (ps, c) = cut (suc (length bytes)) len bytes p (omega arith) in
    (ps, c, turns-pieces bytes cmd len h p k (suc (length bytes)) 0 0 c refl (omega arith))

-- Bytes that are one packet, of the length in its head, with a command that has a handler, give one
-- task: that packet under its command.
pub on_message_one :
    (packet : List ℕ) (cmd : RemoteCmd)
    → parser_data_package 0 packet ≡ some (cmd, length packet)
    → 0 < length packet
    → has_handler cmd ≡ true
    → on_message packet ≡ some ((cmd, packet) ∷ [])
unfolding on_message
on_message_one packet cmd h p k =
    turns-pieces packet cmd (length packet) h p k (suc (length packet)) 0 0
      (recut (append_nil packet) (piece packet [] [] refl (rest [] p))) refl (omega arith)

-- Two packets of one length in one read, the first with a command that has a handler, give two tasks
-- under the command of the first, whatever the second one's command is.
pub on_message_two :
    (packet second : List ℕ) (cmd : RemoteCmd)
    → parser_data_package 0 (packet ++ second) ≡ some (cmd, length packet)
    → 0 < length packet
    → length second ≡ length packet
    → has_handler cmd ≡ true
    → on_message (packet ++ second) ≡ some ((cmd, packet) ∷ ((cmd, second) ∷ []))
unfolding on_message
on_message_two packet second cmd h p e k =
    turns-pieces (packet ++ second) cmd (length packet) h p k (suc (length (packet ++ second))) 0 0
      (piece packet second (second ∷ []) refl
        (recut (append_nil second) (piece second [] [] e (rest [] p))))
      refl (omega arith)

byte_in : (bytes : List ℕ) (i : ℕ) → i ≤ length bytes → (b : ℕ) × (byte_at bytes i ≡ some b)
unfolding byte_at
byte_in [] zero h = (0, refl)
byte_in [] (suc i) h = absurd (omega (arith, h))
byte_in (x ∷ xs) zero h = (x, refl)
byte_in (x ∷ xs) (suc i) h = byte_in xs i (omega (arith, h))

word_in : (bytes : List ℕ) (i : ℕ) → suc i ≤ length bytes → (w : ℕ) × (word_at bytes i ≡ some w)
unfolding word_at
word_in bytes i h =
    let (lo, a) = byte_in bytes i (omega (arith, h)) in
    let (hi, b) = byte_in bytes (suc i) h in (lo + 256 * hi, rw a (rw b refl))

package_in :
    (bytes : List ℕ) (l : ℕ)
    → 17 ≤ length bytes
    → (r : RemoteCmd × ℕ) × (parser_data_package l bytes ≡ some r)
unfolding read_head parser_data_head parser_data_package
package_in bytes l h =
    let (tag, a) = word_in bytes 0 (omega (arith, h)) in
    let (command, b) = byte_in bytes 17 h in
    let (kind, c) = byte_in bytes 14 (omega (arith, h)) in
    let (len, d) = word_in bytes 15 (omega (arith, h)) in
    elim (Bool-cases (tag == 0xf0f1)) [
      | inl e ↦ ((cmd_of command, len), rw a (rw e (rw b (rw c (rw d refl)))))
      | inr e ↦ ((butt, l), rw a (rw e refl))
    ]

turns_total :
    (bytes : List ℕ) (fuel count l : ℕ)
    → 17 ≤ length bytes
    → length bytes - count < fuel
    → (ts : List (RemoteCmd × List ℕ)) × (turns fuel bytes count l ≡ some ts)
unfolding turns
turns_total bytes zero count l h f = absurd (omega (arith, f))
turns_total bytes (suc fuel) count l h f =
    let ((cmd, len), e) = package_in bytes l h in
    elim (Bool-cases (ltb count (length bytes))) [
      | inr t ↦ ([], rw (t, turns) refl)
      | inl t ↦ elim (Bool-cases (len == 0)) [
        | inl z ↦ ([], rw (t, turns) (rw e (rw z refl)))
        | inr z ↦
            let (ts, r) = turns_total bytes fuel (count + len) len h (ground (arith, f)) in
            (
              task_of cmd (take len (drop count bytes)) len ++ ts,
              rw (t, turns) (rw e (rw z (rw r refl))),
            )
      ]
    ]

-- Whatever bytes a read gives, if they are at least 17, every turn reads bytes of the string alone,
-- and the loop of `onMessage` ends.
pub on_message_total :
    (bytes : List ℕ)
    → 17 ≤ length bytes
    → (tasks : List (RemoteCmd × List ℕ)) × (on_message bytes ≡ some tasks)
unfolding on_message
on_message_total bytes h = turns_total bytes (suc (length bytes)) 0 0 h (omega arith)
