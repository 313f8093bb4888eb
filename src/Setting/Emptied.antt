-- ===== src/Setting/Emptied.antt =====
-- What a request leaves where the codec takes the settings and then does not give its encoders.
use Prim.Native.String.{String}
use server_communication.Prelude.{ℕ, ◌≡◌, ◌≢◌, refl, true, false, List, [], ◌∷◌, some, ◌==◌, arith}
use server_communication.ErrorCode
use server_communication.Saving.Json.{Json}
use server_communication.Saving.Info.{EncInfo}
use server_communication.Reply.{Sender, reply_set_info}
use server_communication.Setting.{
  EncCodec, refused, ids, batch_get, replace_enc, replace_encs, refresh, read_settings,
  set_json_info, set_av_enc_info_by_json,
}

batch_get-refused :
    (codec : EncCodec) (code : ℕ) (tasks : List ℕ)
    → tasks ≢ []
    → codec.get_all tasks ≡ refused code
    → batch_get codec tasks ≡ (code, [])
unfolding batch_get
batch_get-refused codec code [] some_task h = absurd (some_task refl)
batch_get-refused codec code (id ∷ tasks) some_task h = rw (h, batch_get) refl

replace_encs-none : (ss : List EncInfo) → replace_encs ss [] ≡ []
unfolding replace_encs replace_enc
replace_encs-none [] = refl
replace_encs-none (s ∷ ss) = replace_encs-none ss

module _ (J : Json) (codec : EncCodec) (title : String) where
  open J use {Value, File, get, items, is_member, parse}

  -- What setAVEncInfoByJson returns and leaves.
  set_av_enc_info_by_json_empties :
      (v w : Value) (encs ss ts : List EncInfo) (code : ℕ)
      → read_settings J (items (get title v)) ≡ some ss
      → codec.set_all ss ≡ true
      → ids (replace_encs ss encs) ≢ []
      → codec.get_all (ids (replace_encs ss encs)) ≡ refused code
      → code ≢ 0
      → read_settings J (items (get title w)) ≡ some ts
      → codec.set_all ts ≡ true
      → (set_av_enc_info_by_json J codec title v encs
          ≡ some (record { ret = code; encs = []; saves = [] }))
        × (set_av_enc_info_by_json J codec title w []
            ≡ some (record { ret = ErrorCode.task_param_illegal; encs = []; saves = [] }))
  unfolding set_av_enc_info_by_json refresh batch_get
  set_av_enc_info_by_json_empties v w encs ss ts code r a e g n r' a' =
      let failed : (code == 0) ≡ false = ground arith in
      let answer = batch_get-refused codec code (ids (replace_encs ss encs)) e g in
      (rw (r, a, answer, failed) refl, rw (r', a', replace_encs-none ts) refl)

  -- The reply that the setting under this name failed.
  abbrev pub failed_reply : Sender → List ℕ → List ℕ
  failed_reply me name = reply_set_info me (name ∷ []) (ErrorCode.task_operate ∷ [])

  -- A request by JSON whose settings can be read and are taken by the codec, on a node that has encoders:
  -- where the codec then refuses to give them, the request is answered as a failed one, although its
  -- settings are in force, and the node has no encoder left; every later request with settings that
  -- can be read and are taken is answered as a failed one, too, and leaves the node without encoders.
  pub set_json_info_empties :
      (me : Sender) (name : List ℕ) (text later : File) (v w : Value) (encs ss ts : List EncInfo)
      (code : ℕ)
      → parse text ≡ some v
      → is_member title v ≡ true
      → read_settings J (items (get title v)) ≡ some ss
      → codec.set_all ss ≡ true
      → ids (replace_encs ss encs) ≢ []
      → codec.get_all (ids (replace_encs ss encs)) ≡ refused code
      → code ≢ 0
      → parse later ≡ some w
      → is_member title w ≡ true
      → read_settings J (items (get title w)) ≡ some ts
      → codec.set_all ts ≡ true
      → (set_json_info J me codec title name text encs
          ≡ some (record {
            reply = failed_reply me name ∷ [];
            done = record { ret = code; encs = []; saves = [] };
          }))
        × (set_json_info J me codec title name later []
            ≡ some (record {
              reply = failed_reply me name ∷ [];
              done = record { ret = ErrorCode.task_param_illegal; encs = []; saves = [] };
            }))
  unfolding set_json_info
  set_json_info_empties me name text later v w encs ss ts code p m r a e g n p' m' r' a' =
      let failed : (code == 0) ≡ false = ground arith in
      let left = set_av_enc_info_by_json_empties v w encs ss ts code r a e g n r' a' in
      (
        rw (p, set_json_info) (rw (m, left.0, failed) refl),
        rw (p', set_json_info) (rw (m', left.1) refl),
      )
