-- ===== src/Reply.antt =====
-- src/LogicHandle.cpp: the replies to the third party, as the bytes of the packed structures of
-- src/protocol/interactivepro.h: commonReplyToThird, replyClearToThird, replyGetInfoToThird and
-- replySetInfoToThird. Numbers are little endian, a structure is its fields one after another.
pub mod Framing
mod Tests
use server_communication.Prelude.{
  ℕ, zero, suc, ◌+◌, ◌-◌, ◌*◌, ◌%◌, Bool, true, false, ◌&&◌, not, List, [], ◌∷◌, ◌++◌, ◌==◌,
  if◌then◌else◌, length, take,
}
use server_communication.Codec.Ack.{bytes16, u32_bytes}

-- What a reply says of the node: its address, `g_DevType`, and its id (`au8DevID`).
pub record Sender : Type 0 where
  pub ip : ℕ
  pub dev_type : ℕ
  pub dev_id : List ℕ

-- `DP_DEV_ID_LEN`
abbrev pub dev_id_len : ℕ
dev_id_len = 13

-- `sizeof(_sRemote_Header)`
abbrev pub header_size : ℕ
header_size = 20

pub zeros : ℕ → List ℕ
zeros zero = []
zeros (suc n) = 0 ∷ zeros n

-- `memset` of a field of so many bytes, and `strcpy` of a text that it has room for.
abbrev pub field : ℕ → List ℕ → List ℕ
field room s = s ++ zeros (room - length s)

-- `_sRemote_Header`: the tag, the address, the type, the version and the request id, which are 0, the
-- kind of packet, its length, the command and its length.
abbrev pub header : Sender → ℕ → ℕ → ℕ → List ℕ
header me package_len cmd cmd_len =
    bytes16 0xf0f1
    ++ (u32_bytes me.ip
        ++ (bytes16 me.dev_type
            ++ (bytes16 0
                ++ (u32_bytes 0
                    ++ ((1 ∷ []) ++ (bytes16 package_len ++ ((cmd ∷ []) ++ bytes16 cmd_len)))))))

-- `commonReplyToThird`: `_sRemote_Reply_CreateWindow` of 41 bytes.
unfoldable pub common_reply : Sender → ℕ → ℕ → ℕ → List ℕ
common_reply me cmd task success = take 41 (
    header me 41 cmd (dev_id_len + 8)
    ++ (field dev_id_len me.dev_id ++ (u32_bytes task ++ u32_bytes success)))

-- `_sRemote_Reply_ClearTask`, of 41 bytes.
abbrev pub clear_struct : Sender → ℕ → ℕ → ℕ → List ℕ
clear_struct me package_len success count =
    header me package_len 0x0b (dev_id_len + 8)
    ++ (field dev_id_len me.dev_id ++ (u32_bytes success ++ u32_bytes count))

-- The first entry of an array of `DP_U32`, the bytes that `sizeof` of a pointer gives on this machine.
abbrev first_word : List ℕ → List ℕ
first_word [] = []
first_word (n ∷ ns) = u32_bytes n

-- `replyClearToThird`; `beyond` is what stands in memory behind the structure.
unfoldable pub reply_clear : Sender → List ℕ → ℕ → List ℕ → List ℕ → List ℕ
reply_clear me beyond success tasks codes =
    if not (length codes == length tasks)
    then clear_struct me 41 success 0
    else if length tasks == 0
    then clear_struct me 41 success 0
    else if success == 0
    then clear_struct me 41 success 0
    else take ((41 + 8 * length tasks) % 65536)
        (clear_struct me ((41 + 8 * length tasks) % 65536) success (length tasks) ++ beyond)
      ++ (first_word tasks ++ first_word codes)

-- `_sRemote_Reply_GetInfo`, with `property_len` bytes of the property.
abbrev pub info_packet : Sender → ℕ → ℕ → ℕ → List ℕ → List ℕ
info_packet me property success property_len tail =
    header me ((header_size + (dev_id_len + 10 + property_len)) % 65536) 0x02
      ((dev_id_len + 10 + property_len) % 65536)
    ++ (field dev_id_len me.dev_id
        ++ (u32_bytes property ++ (u32_bytes success ++ (bytes16 (property_len % 65536) ++ tail))))

-- `replyGetInfoToThird`: with a result other than 0 the bytes gathered so far are not sent, but four
-- bytes of the pointer `pProperty`, which is null.
unfoldable pub reply_get_info : Sender → ℕ → ℕ → List ℕ → List ℕ
reply_get_info me property success body =
    if success == 0
    then info_packet me property success (length body) body
    else info_packet me property success 4 (zeros 4)

keys_bytes : List (List ℕ) → List ℕ
keys_bytes [] = []
keys_bytes (k ∷ ks) = field 64 k ++ keys_bytes ks

words_bytes : List ℕ → List ℕ
words_bytes [] = []
words_bytes (n ∷ ns) = u32_bytes n ++ words_bytes ns

-- `replySetInfoToThird`
unfoldable pub reply_set_info : Sender → List (List ℕ) → List ℕ → List ℕ
unfolding keys_bytes words_bytes
reply_set_info me keys results =
    let cmd_len = (1 + 64 * length keys + 4 * length keys) % 65536 in
    header me ((cmd_len + header_size) % 65536) 0x03 cmd_len
    ++ ((length keys % 256 ∷ []) ++ (keys_bytes keys ++ words_bytes results))
