-- ===== src/Dispatch.antt =====
-- src/ServerHandle.cpp and src/DataPackageParser.cpp: how the bytes of one read of a connection
-- become tasks of the thread pool. `ServerHandle::onMessage` takes all the bytes that are there,
-- cuts them into packets by the length in the head, and hands each packet to a handler.
pub mod Cut
pub mod Tests
use server_communication.Prelude.{
  ℕ, zero, suc, ◌+◌, ◌*◌, Bool, true, false, ◌&&◌, List, [], ◌∷◌, ◌++◌, Option, none, some, ltb,
  ◌>>=◌, ◌==◌, if◌then◌else◌, length, take, drop,
}

-- `_E_RemoteCMD`
pub data RemoteCmd : Type 0 where
  search get_info set_info create_window move_window close_window open_audio close_audio set_audio :
      RemoteCmd
  clear_task get_json_info set_json_info unicast_search open_and_move_window : RemoteCmd
  window_batch_control update_batch butt : RemoteCmd

-- `_S_DataHeadInfo`, as far as `parserDataHead` fills it.
pub record DataHeadInfo : Type 0 where
  pub command_id : ℕ
  pub package_type : ℕ
  pub pack_len : ℕ

-- The byte at an index of `data.c_str()`: the one past the end is 0, a later one is not the
-- string's, and reading it is undefined.
unfoldable pub byte_at : List ℕ → ℕ → Option ℕ
byte_at [] zero = some 0
byte_at [] (suc i) = none
byte_at (x ∷ xs) zero = some x
byte_at (x ∷ xs) (suc i) = byte_at xs i

-- A `DP_U16` of the packed head, the low byte first.
unfoldable pub word_at : List ℕ → ℕ → Option ℕ
unfolding byte_at
word_at bytes i = do lo ← byte_at bytes i; hi ← byte_at bytes (suc i); some (lo + 256 * hi)

-- `parserDataHead`: undefined (`none`) where it reads past the bytes; else whether the tag is right,
-- with the head (`_s_AVServer_Header`: the tag at 0, the type at 14, the length at 15, the command
-- at 17).
unfoldable pub read_head : List ℕ → Option (Option DataHeadInfo)
unfolding word_at byte_at
read_head bytes = do
  command ← byte_at bytes 17
  kind ← byte_at bytes 14
  len ← word_at bytes 15
  some (some (record { command_id = command; package_type = kind; pack_len = len }))

unfoldable pub parser_data_head : List ℕ → Option (Option DataHeadInfo)
unfolding read_head word_at
parser_data_head bytes = do
  tag ← word_at bytes 0
  if tag == 0xf0f1 then read_head bytes else some none

pub cmd_of : ℕ → RemoteCmd
cmd_of id =
    if id == 0x01
    then search
    else if id == 0x04
    then create_window
    else if id == 0x05
    then move_window
    else if id == 0x02
    then get_info
    else if id == 0x03
    then set_info
    else if id == 0x06
    then close_window
    else if id == 0x07
    then open_audio
    else if id == 0x08
    then close_audio
    else if id == 0x09
    then set_audio
    else if id == 0x0b
    then clear_task
    else if id == 0x20
    then get_json_info
    else if id == 0x21
    then set_json_info
    else if id == 0xf1
    then unicast_search
    else if id == 0xf2
    then open_and_move_window
    else if id == 0xf3
    then window_batch_control
    else if id == 0xfa
    then update_batch
    else butt

-- `parserDataPackage`: the command, and the length, which stays what it was where the tag is wrong.
pub parser_data_package : ℕ → List ℕ → Option (RemoteCmd × ℕ)
unfolding parser_data_head cmd_of
parser_data_package len bytes = do
  head ← parser_data_head bytes
  elim head [ none ↦ some (butt, len) | some h ↦ some (cmd_of h.command_id, h.pack_len) ]

-- Whether the `switch` runs a handler for a command.
pub has_handler : RemoteCmd → Bool
has_handler search = false
has_handler unicast_search = false
has_handler butt = false
has_handler _ = true

-- What one turn adds to the tasks of the later ones.
pub task_of : RemoteCmd → List ℕ → ℕ → List (RemoteCmd × List ℕ)
unfolding has_handler
task_of cmd packet len =
    if ltb (length packet) len then [] else if has_handler cmd then (cmd, packet) ∷ [] else []

-- The tasks that the loop gives the thread pool, in order: each is a command and a packet. The loop
-- parses the head of all the bytes at every turn. On fuel; `none` where a read is undefined or the
-- fuel runs out.
pub turns : ℕ → List ℕ → ℕ → ℕ → Option (List (RemoteCmd × List ℕ))
unfolding parser_data_package task_of
turns zero bytes count len = none
turns (suc fuel) bytes count len =
    if ltb count (length bytes)
    then (parser_data_package len bytes >>= λ head.
        if head.1 == 0
        then some []
        else (turns fuel bytes (count + head.1) head.1 >>= λ rest.
            some (task_of head.0 (take head.1 (drop count bytes)) head.1 ++ rest)))
    else some []

-- The loop of `onMessage`, with a turn for each byte and one to see the end.
pub on_message : List ℕ → Option (List (RemoteCmd × List ℕ))
unfolding turns
on_message bytes = turns (suc (length bytes)) bytes 0 0
