-- ===== src/Codec/Ack.antt =====
-- src/NodeInfo.cpp, src/NodeInfo.h, src/NodeInfo.hpp and src/protocol/dp_m2s_prot.h: the packets of the
-- codec's protocol, and what the node makes of an answer: recvCB, sendToCodecAndRecv,
-- sendToCodecOnly, sendCodecAVEncDecInfo, setAVInfoToCodec, deinitCodec.
use server_communication.Prelude.{
  ℕ, zero, suc, ◌+◌, ◌*◌, ◌/◌, ◌%◌, ◌^◌, Bool, true, false, Option, some, List, [], ◌∷◌, ◌++◌, ◌==◌,
  ◌>>=◌, if◌then◌else◌,
}
use server_communication.ErrorCode.{
  success, communicate_abnormal_timeout, protocol_prase, protocol_prase_head, protocol_totallen,
  protocol_param_cmd, vaserver_already_init,
}
use server_communication.Codec.{Kernel, Done, result_of, only_send_msg, do_send_command}

-- `DP_M2S_INF_PROT_PKT_HEAD`
abbrev pub packet_head : ℕ
packet_head = 0xf3f4

-- `DP_M2S_CMD_BUTT`
abbrev pub cmd_butt : ℕ
cmd_butt = 29

-- `sizeof(DP_M2S_CMD_ACK_S)`
abbrev pub ack_size : ℕ
ack_size = 9

-- A byte of `_buffer`, which is zeroed before `recv` fills it.
abbrev pub buffer_byte : List ℕ → ℕ → ℕ
buffer_byte [] i = 0
buffer_byte (x ∷ xs) zero = x
buffer_byte (x ∷ xs) (suc i) = buffer_byte xs i

abbrev pub head_tag : List ℕ → ℕ
head_tag bytes = buffer_byte bytes 0 + buffer_byte bytes 1 * 256

abbrev pub packet_len : List ℕ → ℕ
packet_len bytes = buffer_byte bytes 2 + buffer_byte bytes 3 * 256

abbrev pub command_id : List ℕ → ℕ
command_id bytes = buffer_byte bytes 4

abbrev pub u32_success : List ℕ → ℕ
u32_success bytes =
    buffer_byte bytes 5
    + buffer_byte bytes 6 * 256
    + buffer_byte bytes 7 * 65536
    + buffer_byte bytes 8 * 16777216

-- `recvCB`, for a `pData` that is not NULL: `doSendCommand` gives its own buffer.
unfoldable pub recv_cb : List ℕ → ℕ → ℕ
recv_cb bytes len =
    if head_tag bytes == packet_head
    then if packet_len bytes == len
      then if command_id bytes == cmd_butt
        then protocol_param_cmd
        else if u32_success bytes == 0
        then success
        else if u32_success bytes == communicate_abnormal_timeout
        then protocol_prase
        else u32_success bytes
      else protocol_totallen
    else protocol_prase_head

abbrev pub bytes16 : ℕ → List ℕ
bytes16 n = n % 256 ∷ (n / 256 % 256 ∷ [])

-- `_DP_M2S_INF_PROT_HEAD_S(packageLen, cmdID, needReply)`: bit 15 of the length says whether a reply
-- is wanted.
abbrev pub header_len : ℕ → ℕ → ℕ
header_len package_len need_reply =
    if need_reply == 0
    then package_len % 2 ^ 15
    else if need_reply == 1
    then package_len % 2 ^ 15 + 2 ^ 15
    else package_len

abbrev pub header_bytes : ℕ → ℕ → List ℕ
header_bytes len cmd = bytes16 packet_head ++ (bytes16 len ++ (cmd % 256 ∷ []))

abbrev pub u32_bytes : ℕ → List ℕ
u32_bytes n = bytes16 (n % 65536) ++ bytes16 (n / 65536)

-- An answer with a length in its head.
abbrev pub ack_with : ℕ → ℕ → ℕ → List ℕ
ack_with len cmd code = header_bytes len cmd ++ u32_bytes code

-- `_DP_M2S_CMD_ACK_S(cmd, success)`
unfoldable pub ack_bytes : ℕ → ℕ → List ℕ
ack_bytes cmd code = ack_with (header_len ack_size 1) cmd code

-- `sendToCodecAndRecv`: the result, for a caller without a buffer of its own.
unfoldable pub send_to_codec_and_recv : ℕ → Kernel → ℕ → Option Done
unfolding do_send_command recv_cb
send_to_codec_and_recv fuel k len = do_send_command fuel k (some recv_cb) len

-- `sendToCodecOnly`
abbrev pub send_to_codec_only : Kernel → Done
send_to_codec_only k = only_send_msg k

-- `g_NoNeedReply` and `g_NeedReply`
abbrev pub no_need_reply : ℕ
no_need_reply = 0

abbrev pub need_reply : ℕ
need_reply = 1

-- `sendCodecAVEncDecInfo`: `len` is `sizeof(S)`.
unfoldable pub send_codec_info : ℕ → Kernel → ℕ → ℕ → Option ℕ
unfolding send_to_codec_and_recv
send_codec_info fuel k is_reply len =
    if is_reply == no_need_reply
    then some 0
    else if is_reply == need_reply
    then result_of (send_to_codec_and_recv fuel k len)
    else some 0

-- `setAVInfoToCodec`: each message of the vector on a socket of its own.
unfoldable pub set_av_info : ℕ → List Kernel → ℕ → Option Bool
unfolding send_to_codec_and_recv
set_av_info fuel [] len = some true
set_av_info fuel (k ∷ ks) len = do
  done ← send_to_codec_and_recv fuel k len
  if done.code == 0 then set_av_info fuel ks len else some false

-- `initCodec`, from the result of its exchange.
unfoldable pub init_codec : ℕ → Kernel → ℕ → Option Bool
unfolding do_send_command recv_cb
init_codec fuel k len = do
  done ← do_send_command fuel k (some recv_cb) len
  if done.code == 0 then some true else some (done.code == vaserver_already_init)

-- `deinitCodec`: `len` is the size of the head.
unfoldable pub deinit_codec : ℕ → Kernel → ℕ → Option Bool
unfolding send_to_codec_and_recv
deinit_codec fuel k len = do
  done ← send_to_codec_and_recv fuel k len
  if done.code == 0 then some true else some false
