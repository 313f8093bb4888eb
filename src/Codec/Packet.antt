-- ===== src/Codec/Packet.antt =====
-- src/protocol/dp_m2s_prot.h and src/NodeInfo.cpp: the bytes of an answer, and recvCB on them.
use server_communication.Prelude.{ℕ, ◌^◌, ◌<◌, ◌≡◌, refl, ◌==◌, length, arith, if◌then◌else◌}
use server_communication.ErrorCode.{
  communicate_abnormal_timeout, protocol_prase, protocol_totallen, protocol_param_cmd,
}
use server_communication.Codec.Ack.{
  recv_cb, packet_len, command_id, u32_success, cmd_butt, ack_size, ack_with, ack_bytes,
}

packet_len-ack_with : (len cmd code : ℕ) → len < 2 ^ 16 → packet_len (ack_with len cmd code) ≡ len
packet_len-ack_with len cmd code h = omega (arith, h)

u32_success-ack_with :
    (len cmd code : ℕ) → code < 2 ^ 32 → u32_success (ack_with len cmd code) ≡ code
u32_success-ack_with len cmd code h = omega (arith, h)

command_id-ack_with : (len cmd code : ℕ) → cmd < 256 → command_id (ack_with len cmd code) ≡ cmd
command_id-ack_with len cmd code h = omega (arith, h)

-- `recvCB` reads out of the bytes of an answer what was written into them: for a length below
-- 2^16, a command below 256 and a result below 2^32, the 9 bytes are refused when the length is not
-- 9 or the command is the one past the last; otherwise the result comes back, but a timeout as a
-- failure to parse.
pub recv_cb-ack_with :
    (len cmd code : ℕ)
    → len < 2 ^ 16
    → cmd < 256
    → code < 2 ^ 32
    → recv_cb (ack_with len cmd code) (length (ack_with len cmd code)) ≡ (
        if len == ack_size
        then if cmd == cmd_butt
          then protocol_param_cmd
          else if code == communicate_abnormal_timeout
          then protocol_prase
          else code
        else protocol_totallen)
unfolding recv_cb
recv_cb-ack_with len cmd code hl hc hs =
    rw
      (
        packet_len-ack_with len cmd code hl,
        u32_success-ack_with len cmd code hs,
        command_id-ack_with len cmd code hc,
      )
      ground arith

-- An answer made by the constructor of the protocol's own structure sets bit 15 of the length, and
-- `recvCB` refuses it, whatever command and result it carries.
pub recv_cb-ack_bytes : (cmd code : ℕ) → recv_cb (ack_bytes cmd code) ack_size ≡ protocol_totallen
unfolding recv_cb ack_bytes
recv_cb-ack_bytes cmd code = refl
