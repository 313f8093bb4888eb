-- ===== src/Window/Clear.antt =====
-- `LogicHandle::clearAllTask` and `NodeInfo::batchSetting`.
use server_communication.Prelude.{
  ℕ, Bool, true, false, ◌&&◌, ◌||◌, not, List, ◌∷◌, [], ◌++◌, Option, none, some, ◌==◌,
  if◌then◌else◌, length,
}
use server_communication.Prelude.Maps.{erase}
use server_communication.ErrorCode
use server_communication.AvDec.{AvDec, BindType, adec2ao, vdec2vo, adec2ao_vdec2vo}
use server_communication.TaskId.{TaskIds, remove_codec_task_id}
use server_communication.Window.{
  Node, Output, close_window, close_audio, close_batch, save_avdec, save_close, reply_clear, emit,
}

abbrev pub is_audio : BindType → Bool
is_audio adec2ao = true
is_audio _ = false

abbrev pub is_video : BindType → Bool
is_video vdec2vo = true
is_video adec2ao_vdec2vo = true
is_video _ = false

-- Whether the loop closes a decoder: `u8TaskType` is 0 for windows, 1 for sounds, 2 for both.
abbrev pub is_cleared : ℕ → AvDec → Bool
is_cleared task_type d =
    ((task_type == 0 && is_video d.bind_type)
      || (task_type == 1 && is_audio d.bind_type)
      || (task_type == 2 && (is_video d.bind_type || is_audio d.bind_type)))
    && not (d.s8_open == 0)

-- `find_if(…, bind2nd(findThirdIDByCodecID(), id))`
unfoldable pub find_third : List (ℕ × ℕ) → ℕ → Option ℕ
find_third [] id = none
find_third ((third, i) ∷ m) id = if i == id then some third else find_third m id

-- What the loop over the decoders leaves: `complete` where it did not return on the way.
pub record Sweep : Type 0 where
  pub decs : List AvDec
  pub ids : TaskIds
  pub closed : List ℕ
  pub thirds : List ℕ
  pub saves : List Output
  pub complete : Bool

unfoldable pub sweep : ℕ → TaskIds → List AvDec → Sweep
unfolding find_third
sweep task_type ids [] = record {
  decs = [];
  ids = ids;
  closed = [];
  thirds = [];
  saves = [];
  complete = true;
}
sweep task_type ids (d ∷ ds) = elim (is_cleared task_type d) [
  | false ↦ let r = sweep task_type ids ds in record r { decs = d ∷ r.decs }
  | true ↦
      let d' = record d { swms = false; s8_open = 0 } in
      elim (find_third ids.third_codec d.tsk_id) [
        | none ↦ record {
          decs = d' ∷ ds;
          ids = ids;
          closed = d.tsk_id ∷ [];
          thirds = [];
          saves = [];
          complete = false;
        }
        | some third ↦
            let r = sweep task_type (remove_codec_task_id ids third) ds in
            let task = if d.s8_open == 1 then close_audio else close_window in
            record r {
              decs = d' ∷ r.decs;
              closed = d.tsk_id ∷ r.closed;
              thirds = third ∷ r.thirds;
              saves = save_avdec d' ∷ (save_close task third ∷ r.saves);
            }
      ]
]

-- What the codec answers to a batch: the result, and the count and the codes of its acknowledgement.
pub record BatchAck : Type 0 where
  pub result : ℕ
  pub nums : ℕ
  pub codes : List ℕ

pub erase_all : List ℕ → {V : Type 0} → List (ℕ × V) → List (ℕ × V)
erase_all [] m = m
erase_all (k ∷ ks) m = erase_all ks (erase k m)

-- The third party's tasks of those codec tasks that the codec did close. The search comes after the
-- tasks have given their ids back.
closed_thirds : List (ℕ × ℕ) → List ℕ → List ℕ → List ℕ
unfolding find_third
closed_thirds m [] codes = []
closed_thirds m (id ∷ ids) [] = []
closed_thirds m (id ∷ ids) (code ∷ codes) =
    let rest = closed_thirds m ids codes in
    if code == 0 then elim (find_third m id) [ none ↦ rest | some third ↦ third ∷ rest ] else rest

module _ (batch : List ℕ → BatchAck) where
  -- `batchSetting`: the result and `errInfo`.
  pub batch_setting : List ℕ → ℕ × List ℕ
  batch_setting [] = (0, [])
  batch_setting (id ∷ ids) =
      let ack = batch (id ∷ ids) in
      if ack.result == 0
      then (0, [])
      else if ack.nums == length (id ∷ ids)
      then (ack.result, ack.codes)
      else (ErrorCode.protocol_content, [])

  -- Nothing is sent for an empty batch.
  abbrev pub batch_output : List ℕ → List Output
  batch_output [] = []
  batch_output (id ∷ ids) = close_batch (id ∷ ids) ∷ []

  -- After the loop.
  unfoldable pub clear_tables : Node → Sweep → Node
  unfolding erase_all closed_thirds batch_setting
  clear_tables n r =
      let (result, errors) = batch_setting r.closed in
      let gone =
        if result == 0 || result == ErrorCode.protocol_content
        then r.thirds
        else closed_thirds r.ids.third_codec r.closed errors in
      emit (r.saves ++ (batch_output r.closed ++ (reply_clear result r.thirds errors ∷ [])))
        (record n {
          ids = r.ids;
          decs = r.decs;
          swms_dec = [];
          third_src = erase_all gone n.third_src;
          win_priority = [];
          latch = 0;
          is_clear_tasking = false;
        })

  -- `clearAllTask`
  unfoldable pub clear_all_task : Node → ℕ → Node
  unfolding sweep clear_tables
  clear_all_task n task_type =
      let r = sweep task_type n.ids n.decs in
      let begun = record n { is_clear_tasking = true; latch = 1 } in
      if r.complete
      then clear_tables begun r
      else emit (r.saves ++ (reply_clear ErrorCode.state_abnormal r.thirds [] ∷ []))
          (record begun { ids = r.ids; decs = r.decs })
