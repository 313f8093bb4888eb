-- ===== src/Setting.antt =====
-- src/LogicHandle.cpp: setJsonInfo with setAVEncInfoByJson, which sets encoders from a JSON text, and
-- src/NodeInfo.hpp: batchGetAVInfoFromCodec on the list of the node's encoders.
pub mod Replaced
pub mod Emptied
pub mod Written
mod Tests
use Prim.Native.String.{String}
use server_communication.Prelude.{
  ℕ, ◌-◌, ◌%◌, ◌^◌, Bool, true, false, List, [], ◌∷◌, ◌++◌, Option, none, some, ◌==◌, ◌>>=◌,
  if◌then◌else◌, length, map, contains, take,
}
use server_communication.Prelude.Int.{ℤ, pos, negsuc}
use server_communication.ErrorCode
use server_communication.Saving.Json.{Json}
use server_communication.Saving.Info.{EncInfo}
use server_communication.Saving.Read.{read_enc}
use server_communication.Reply.{Sender, reply_set_info}

-- `s32TskId` as it is compared with a `DP_U32`.
abbrev pub task_of : EncInfo → ℕ
task_of e = elim e.tsk_id [ pos n ↦ n % 2 ^ 32 | negsuc n ↦ 2 ^ 32 - 1 - n % 2 ^ 32 ]

abbrev pub ids : List EncInfo → List ℕ
ids es = map task_of es

-- What the codec answers to a request for these tasks: a result other than 0, or how many it counts and
-- the encoders that stand in the answer.
pub data BatchAnswer : Type 0 where
  refused : ℕ → BatchAnswer
  counted : ℕ → List EncInfo → BatchAnswer

-- The codec's answers: whether `setAVInfoToCodec` succeeds, and those to requests for tasks.
pub record EncCodec : Type 0 where
  pub set_all : List EncInfo → Bool
  pub get_all : List ℕ → BatchAnswer

-- `batchGetAVInfoFromCodec`: the result, and the list, which is cleared before anything else.
unfoldable pub batch_get : EncCodec → List ℕ → ℕ × List EncInfo
batch_get codec [] = (ErrorCode.task_param_illegal, [])
batch_get codec (id ∷ tasks) = elim (codec.get_all (id ∷ tasks)) [
  | refused code ↦ (code, [])
  | counted n es ↦
      if n == length (id ∷ tasks) then (0, take n es) else (ErrorCode.protocol_content, [])
]

-- `vGetEnc->erase(iter)`, where the list has the task.
unfoldable pub drop_first : ℕ → List EncInfo → List EncInfo
drop_first id [] = []
drop_first id (e ∷ es) = let rest = drop_first id es in if task_of e == id then es else e ∷ rest

-- A turn of the loop over the settings, and the loop.
unfoldable pub replace_enc : EncInfo → List EncInfo → List EncInfo
replace_enc s encs =
    if contains (ids encs) (task_of s) then drop_first (task_of s) encs ++ (s ∷ []) else encs

unfoldable pub replace_encs : List EncInfo → List EncInfo → List EncInfo
replace_encs [] encs = encs
replace_encs (s ∷ ss) encs = replace_encs ss (replace_enc s encs)

-- What is left of a request: the result, the node's encoders, and those that it saves.
pub record Done : Type 0 where
  pub ret : ℕ
  pub encs : List EncInfo
  pub saves : List EncInfo

-- The part behind the loop over the settings. The list is the node's own, so that it is changed whatever
-- the result.
unfoldable pub refresh : EncCodec → List EncInfo → Done
refresh codec encs =
    if (batch_get codec (ids encs)).0 == 0
    then record {
      ret = 0;
      encs = (batch_get codec (ids encs)).1;
      saves = (batch_get codec (ids encs)).1;
    }
    else record {
      ret = (batch_get codec (ids encs)).0;
      encs = (batch_get codec (ids encs)).1;
      saves = [];
    }

module _ (J : Json) where
  open J use {Value, File, get, items, is_member, parse}

  -- `while (encCount--)`: the last entry is read first. None where the library throws.
  unfoldable pub read_settings : List Value → Option (List EncInfo)
  read_settings [] = some []
  read_settings (v ∷ vs) = do es ← read_settings vs; e ← read_enc J v; some (es ++ (e ∷ []))

  -- `setAVEncInfoByJson`; `title` is `CODEC_AVCODEC_TITLE`.
  unfoldable pub set_av_enc_info_by_json : EncCodec → String → Value → List EncInfo → Option Done
  set_av_enc_info_by_json codec title v encs = do
    settings ← read_settings (items (get title v))
    some (
        if codec.set_all settings
        then refresh codec (replace_encs settings encs)
        else record { ret = ErrorCode.task_operate; encs = encs; saves = [] })

  -- The reply, where one is sent, and what is left.
  pub record Answer : Type 0 where
    pub reply : List (List ℕ)
    pub done : Done

  -- `setJsonInfo`; `name` are the bytes of the title.
  unfoldable pub set_json_info :
      Sender → EncCodec → String → List ℕ → File → List EncInfo → Option Answer
  set_json_info me codec title name text encs = elim (parse text) [
    | none ↦ some (record { reply = []; done = record { ret = 0; encs = encs; saves = [] } })
    | some v ↦
        if is_member title v
        then (do
          done ← set_av_enc_info_by_json codec title v encs
          some (record {
            reply =
                reply_set_info me (name ∷ [])
                  ((if done.ret == 0 then 0 else ErrorCode.task_operate) ∷ [])
                ∷ [];
            done = done;
          }))
        else some (record {
          reply = reply_set_info me [] [] ∷ [];
          done = record { ret = 0; encs = encs; saves = [] };
        })
  ]
