-- ===== src/Window/Run.antt =====
-- All the handlers together: what holds however many requests a node has served.
use server_communication.Prelude.{ℕ, ◌≡◌, ◌⊎◌, List, some}
use server_communication.ErrorCode
use server_communication.AvDec.{AvDec}
use server_communication.TaskId.{remove_codec_task_id}
use server_communication.Window.{Node, OpenRequest}
use server_communication.Window.Create.{create_window}
use server_communication.Window.OpenMove.{open_and_move_request}
use server_communication.Window.Move.{MoveRequest, move_window}
use server_communication.Window.Close.{close}
use server_communication.Window.Clear.{BatchAck, clear_all_task}

-- The ids are kept, or one task's id is given back.
abbrev Ids : Node → ℕ → Node → Type 0
Ids n third n' = (n'.ids ≡ n.ids) ⊎ (n'.ids ≡ remove_codec_task_id n.ids third)

-- One request served, with the codec's answers at that time.
pub data Step : Node → Node → Type 0 where
  create : (codec : AvDec → ℕ) (n : Node) (req : OpenRequest) → Step n (create_window codec n req)
  open_or_move :
      (codec : AvDec → ℕ) (n : Node) (req : OpenRequest) (n' : Node)
      → open_and_move_request codec n req ≡ some n'
      → Step n n'
  move : (codec : AvDec → ℕ) (n : Node) (req : MoveRequest) → Step n (move_window codec n req)
  close_one : (codec : AvDec → ℕ) (n : Node) (third : ℕ) → Step n (close codec n third)
  clear : (batch : List ℕ → BatchAck) (n : Node) (t : ℕ) → Step n (clear_all_task batch n t)

pub data Served : Node → Node → Type 0 where
  nothing : (n : Node) → Served n n
  then_one : (n m n' : Node) → Served n m → Step m n' → Served n n'
