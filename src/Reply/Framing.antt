-- ===== src/Reply/Framing.antt =====
-- What the head of a reply says of its bytes, as the node's own parser of heads reads it.
use mathlib.Core.Path.{subst}
use server_communication.Prelude.{
  ℕ, zero, suc, ◌+◌, ◌-◌, ◌*◌, ◌%◌, ◌≤◌, ◌<◌, ◌≡◌, ◌≢◌, refl, sym, ap, ◌∙◌, inl, inr, Bool-cases,
  true, false, List, [], ◌∷◌, ◌++◌, some, ◌==◌, length, length-append, take, drop, take_past,
  take_all, drop-append, length-take, append_assoc, arith,
}
use server_communication.Codec.Ack.{bytes16, u32_bytes}
use server_communication.Dispatch.{byte_at, word_at, read_head, parser_data_head}
use server_communication.Reply.{
  Sender, header, info_packet, clear_struct, field, zeros, common_reply, reply_clear,
  reply_get_info, reply_set_info, keys_bytes, words_bytes,
}

length-zeros : (n : ℕ) → length (zeros n) ≡ n
unfolding zeros
length-zeros zero = refl
length-zeros (suc n) = omega (arith, length-zeros n)

parse-header :
    (me : Sender) (len cmd cmd_len : ℕ) (rest : List ℕ)
    → len < 65536
    → cmd < 256
    → parser_data_head (header me len cmd cmd_len ++ rest)
      ≡ some (some (record { command_id = cmd; package_type = 1; pack_len = len }))
unfolding parser_data_head read_head word_at byte_at
parse-header me len cmd cmd_len rest h k = ground arith

-- A parser that reads the head of the bytes finds this command, a reply, and their number.
abbrev pub IsFramed : ℕ → List ℕ → Type 0
IsFramed cmd bytes =
    parser_data_head bytes
    ≡ some (some (record { command_id = cmd; package_type = 1; pack_len = length bytes }))

-- The id of the node with its last zero has room in its field.
abbrev pub IdFits : Sender → Type 0
IdFits me = length me.dev_id < 13

-- Each key has room in a field of 64 bytes.
abbrev pub KeysFit : List (List ℕ) → Type 0
KeysFit [] = Unit {0}
KeysFit (k ∷ ks) = (length k ≤ 64) × KeysFit ks

length-field : (room : ℕ) (s : List ℕ) → length s ≤ room → length (field room s) ≡ room
length-field room s h =
    omega (arith, length-append {0} s (zeros (room - length s)), length-zeros (room - length s))

-- A head and so many bytes behind it.
framed :
    (me : Sender) (len cmd cmd_len : ℕ) (rest : List ℕ)
    → len < 65536
    → cmd < 256
    → len ≡ 20 + length rest
    → IsFramed cmd (header me len cmd cmd_len ++ rest)
framed me len cmd cmd_len rest h k e =
    parse-header me len cmd cmd_len rest h k
    ∙ ap (λ (n : ℕ). some (some (record { command_id = cmd; package_type = 1; pack_len = n })))
        (omega (arith, e))

info_packet-IsFramed :
    (me : Sender) (property success : ℕ) (tail : List ℕ)
    → IdFits me
    → length tail < 65493
    → IsFramed 0x02 (info_packet me property success (length tail) tail)
info_packet-IsFramed me property success tail i b =
    let rest =
      u32_bytes property ++ (u32_bytes success ++ (bytes16 (length tail % 65536) ++ tail)) in
    framed me ((20 + (13 + 10 + length tail)) % 65536) 0x02 ((13 + 10 + length tail) % 65536)
      (field 13 me.dev_id ++ rest) (omega arith) (omega arith)
      (omega (
        arith,
        length-field 13 me.dev_id (omega arith),
        length-append {0} (field 13 me.dev_id) rest,
      ))

-- The reply with a property, whatever the result, is read by the node's own parser of heads as a
-- reply to a request for it, of as many bytes as are sent, where the id of the node has room in
-- its field and the property has less than 65493 bytes.
pub reply_get_info-IsFramed :
    (me : Sender) (property success : ℕ) (body : List ℕ)
    → IdFits me
    → length body < 65493
    → IsFramed 0x02 (reply_get_info me property success body)
unfolding reply_get_info zeros
reply_get_info-IsFramed me property success body i b = elim (Bool-cases (success == 0)) [
  | inl ok ↦ rw ok (info_packet-IsFramed me property success body i b)
  | inr failed ↦ rw failed (info_packet-IsFramed me property success (zeros 4) i (omega arith))
]

length-clear_struct :
    (me : Sender) (len success count : ℕ)
    → IdFits me
    → length (clear_struct me len success count) ≡ 41
length-clear_struct me len success count i = omega (
  arith,
  length-field 13 me.dev_id (omega arith),
  length-append {0} (field 13 me.dev_id) (u32_bytes success ++ u32_bytes count),
)

reply_clear-bytes :
    (me : Sender) (beyond : List ℕ) (success task code : ℕ) (tasks codes : List ℕ)
    → IdFits me
    → success ≢ 0
    → length codes ≡ length tasks
    → 8 * suc (length tasks) < 65495
    → reply_clear me beyond success (task ∷ tasks) (code ∷ codes)
      ≡ clear_struct me (41 + 8 * suc (length tasks)) success (suc (length tasks))
        ++ (take (8 * suc (length tasks)) beyond ++ (u32_bytes task ++ u32_bytes code))
unfolding reply_clear
reply_clear-bytes me beyond success task code tasks codes i f e b =
    let n = suc (length tasks) in
    let struct = clear_struct me (41 + 8 * n) success n in
    let short : (41 + 8 * n) % 65536 ≡ 41 + 8 * n = omega (arith, b) in
    let same : (suc (length codes) == suc (length tasks)) ≡ true = ground arith in
    let some_failed : (suc (length tasks) == 0) ≡ false = ground arith in
    let failed : (success == 0) ≡ false = ground arith in
    rw
      (
        same,
        some_failed,
        failed,
        short,
        take_past 41 (8 * n) struct beyond (length-clear_struct me (41 + 8 * n) success n i),
      )
      (append_assoc struct (take (8 * n) beyond) (u32_bytes task ++ u32_bytes code))

-- A reply to a request that clears tasks, where some could not be cleared, as many codes as tasks: its
-- head names 41 bytes and 8 for each of the tasks, and 8 bytes more are sent; where the tasks and the
-- codes should stand, it has what stands in memory behind the structure, and behind the named
-- length the first task and the first code alone. The id of the node has room in its field, and the
-- length in its own.
pub reply_clear_overruns :
    (me : Sender) (beyond : List ℕ) (success task code : ℕ) (tasks codes : List ℕ)
    → IdFits me
    → success ≢ 0
    → length codes ≡ length tasks
    → 8 * suc (length tasks) ≤ length beyond
    → 8 * suc (length tasks) < 65495
    → (let sent = reply_clear me beyond success (task ∷ tasks) (code ∷ codes) in
        let named = 41 + 8 * suc (length tasks) in
        (parser_data_head sent
          ≡ some (some (record { command_id = 0x0b; package_type = 1; pack_len = named })))
        × (length sent ≡ named + 8)
        × (drop 41 sent
            ≡ take (8 * suc (length tasks)) beyond ++ (u32_bytes task ++ u32_bytes code)))
reply_clear_overruns me beyond success task code tasks codes i f e m b =
    let n = suc (length tasks) in
    let struct = clear_struct me (41 + 8 * n) success n in
    let behind = take (8 * n) beyond ++ (u32_bytes task ++ u32_bytes code) in
    let size = length-clear_struct me (41 + 8 * n) success n i in
    rw (reply_clear-bytes me beyond success task code tasks codes i f e b) (
      parse-header me (41 + 8 * n) 0x0b 21
          ((field 13 me.dev_id ++ (u32_bytes success ++ u32_bytes n)) ++ behind) (omega arith)
          (omega arith),
      omega (
        arith,
        size,
        length-append {0} struct behind,
        length-append {0} (take (8 * n) beyond) (u32_bytes task ++ u32_bytes code),
        length-take (8 * n) beyond m,
      ),
      drop-append 41 struct behind size,
    )

length-keys_bytes : (ks : List (List ℕ)) → KeysFit ks → length (keys_bytes ks) ≡ 64 * length ks
unfolding keys_bytes
length-keys_bytes [] f = refl
length-keys_bytes (k ∷ ks) f = omega (
  arith,
  length-append {0} (field 64 k) (keys_bytes ks),
  length-field 64 k f.0,
  length-keys_bytes ks f.1,
)

length-words_bytes : (ns : List ℕ) → length (words_bytes ns) ≡ 4 * length ns
unfolding words_bytes
length-words_bytes [] = refl
length-words_bytes (n ∷ ns) = omega (arith, length-words_bytes ns)

-- The reply to a request that sets properties, with as many results as keys, is read by the node's own
-- parser of heads as one, of as many bytes as are sent, where each key has room in 64 bytes and
-- there are less than 963. Nothing is asked of the node: its id is not sent.
pub reply_set_info-IsFramed :
    (me : Sender) (keys : List (List ℕ)) (results : List ℕ)
    → KeysFit keys
    → length results ≡ length keys
    → length keys < 963
    → IsFramed 0x03 (reply_set_info me keys results)
unfolding reply_set_info
reply_set_info-IsFramed me keys results f e b =
    let n = length keys in
    framed me (((1 + 64 * n + 4 * n) % 65536 + 20) % 65536) 0x03 ((1 + 64 * n + 4 * n) % 65536)
      ((n % 256 ∷ []) ++ (keys_bytes keys ++ words_bytes results)) (omega arith) (omega arith)
      (omega (
        arith,
        length-keys_bytes keys f,
        length-words_bytes results,
        length-append {0} (keys_bytes keys) (words_bytes results),
      ))

pub common_reply-IsFramed :
    (me : Sender) (cmd task success : ℕ)
    → IdFits me
    → cmd < 256
    → IsFramed cmd (common_reply me cmd task success)
unfolding common_reply
common_reply-IsFramed me cmd task success i k =
    let body = u32_bytes task ++ u32_bytes success in
    let rest = field 13 me.dev_id ++ body in
    let size : length rest ≡ 21 = omega (
      arith,
      length-field 13 me.dev_id (omega arith),
      length-append {0} (field 13 me.dev_id) body,
    ) in
    subst (IsFramed cmd) (sym (take_all 41 (header me 41 cmd 21 ++ rest) (omega (arith, size))))
      (framed me 41 cmd 21 rest (omega arith) k (omega (arith, size)))
