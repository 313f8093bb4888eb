-- ===== src/ErrorCode.antt =====
-- src/protocol/ErrorCode.h: the codes that the modelled operations return.
use server_communication.Prelude.{ℕ}

abbrev pub success : ℕ
success = 0

abbrev pub vaserver_already_init : ℕ
vaserver_already_init = 0x8005

abbrev pub vo_id_invalid : ℕ
vo_id_invalid = 0x8902

abbrev pub ao_id_invalid : ℕ
ao_id_invalid = 0x8802

abbrev pub state_abnormal : ℕ
state_abnormal = 0xc001

abbrev pub communicate_abnormal : ℕ
communicate_abnormal = 0xc101

abbrev pub communicate_abnormal_inner : ℕ
communicate_abnormal_inner = 0xc102

abbrev pub communicate_abnormal_timeout : ℕ
communicate_abnormal_timeout = 0xc105

abbrev pub communicate_connection : ℕ
communicate_connection = 0xc106

abbrev pub communicate_send : ℕ
communicate_send = 0xc107

abbrev pub communicate_select : ℕ
communicate_select = 0xc108

abbrev pub protocol_prase : ℕ
protocol_prase = 0xc201

abbrev pub protocol_prase_head : ℕ
protocol_prase_head = 0xc202

abbrev pub protocol_prase_packet_type : ℕ
protocol_prase_packet_type = 0xc204

abbrev pub protocol_totallen : ℕ
protocol_totallen = 0xc205

abbrev pub protocol_content : ℕ
protocol_content = 0xc206

abbrev pub protocol_param_cmd : ℕ
protocol_param_cmd = 0xc20a

abbrev pub task_param_illegal : ℕ
task_param_illegal = 0xc803

abbrev pub task_id_notexist : ℕ
task_id_notexist = 0xc804

abbrev pub task_source_notenough : ℕ
task_source_notenough = 0xc806

abbrev pub third_task_id : ℕ
third_task_id = 0xcb01

abbrev pub full_codec_task_id : ℕ
full_codec_task_id = 0xcb02

abbrev pub task_operate : ℕ
task_operate = 0xc801
