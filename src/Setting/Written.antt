-- ===== src/Setting/Written.antt =====
-- A request with settings that were written as src/TaskRestore.cpp writes encoders.
use Prim.Native.String.{String}
use server_communication.Prelude.{
  suc, ◌≡◌, ◌≢◌, refl, sym, ap, inl, inr, Option-cases, some-injective, true, List, [], ◌∷◌, ◌++◌,
  ◌==◌, some, length, Distinct, take_all, arith,
}
use server_communication.Saving.Json.{Json, IsJson}
use server_communication.Saving.Info.{EncInfo}
use server_communication.Saving.Write.{write_enc}
use server_communication.Saving.Fits.{EncFits}
use server_communication.Saving.Read.{read_enc}
use server_communication.Saving.RoundTrip.{read-write_enc}
use server_communication.Setting.{
  EncCodec, counted, ids, batch_get, refresh, read_settings, set_av_enc_info_by_json,
}
use server_communication.Setting.Replaced.{others, known, replace_encs-split}

abbrev pub AllEncFit : List EncInfo → Type 0
AllEncFit [] = Unit {0}
AllEncFit (s ∷ ss) = EncFits s × AllEncFit ss

length-ids : (es : List EncInfo) → length (ids es) ≡ length es
length-ids [] = refl
length-ids (e ∷ es) = omega (arith, length-ids es)

batch_get-counted :
    (codec : EncCodec) (es : List EncInfo)
    → es ≢ []
    → codec.get_all (ids es) ≡ counted (length es) es
    → batch_get codec (ids es) ≡ (0, es)
unfolding batch_get
batch_get-counted codec [] n h = absurd (n refl)
batch_get-counted codec (e ∷ es) n h =
    let same : (suc (length es) == suc (length (ids es))) ≡ true = ground (arith, length-ids es) in
    rw (h, batch_get, same, take_all (length (e ∷ es)) (e ∷ es) (omega arith)) refl

module _ (J : Json) (law : IsJson J) where
  open J use {Value, null, get, items}

  -- The entries of an array whose last one is the first setting.
  unfoldable pub written : List EncInfo → List Value
  written [] = []
  written (s ∷ ss) = written ss ++ (write_enc J s null ∷ [])

  read_settings-append :
      (vs : List Value) (v : Value) (es : List EncInfo) (e : EncInfo)
      → read_settings J vs ≡ some es
      → read_enc J v ≡ some e
      → read_settings J (vs ++ (v ∷ [])) ≡ some (e ∷ es)
  unfolding read_settings
  read_settings-append [] v es e h k = ground arith
  read_settings-append (x ∷ vs) v es e h k = elim (Option-cases (read_settings J vs)) [
    | inl f ↦ ground arith
    | inr (rest, f) ↦ elim (Option-cases (read_enc J x)) [
      | inl g ↦ ground arith
      | inr (last, g) ↦
          let behind = read_settings-append vs v rest e f k in
          let split : some es ≡ some (rest ++ (last ∷ [])) = ground arith in
          rw (behind, g) (ap (λ (l : List EncInfo). some (e ∷ l)) (sym (some-injective split)))
    ]
  ]

  pub read_settings-written :
      (ss : List EncInfo) → AllEncFit ss → read_settings J (written ss) ≡ some ss
  unfolding written read_settings
  read_settings-written [] f = refl
  read_settings-written (s ∷ ss) f =
      read_settings-append (written ss) (write_enc J s null) ss s (read_settings-written ss f.1)
        (read-write_enc J law s f.0)

  -- A request whose array has settings with values that their fields hold, written as encoders are saved,
  -- with distinct ids, on a node whose
  -- encoders have distinct ids: where the codec takes the settings, and gives for the tasks that it is
  -- then asked for what the node expects, at least one, the result is 0, the node has the encoders that
  -- are not set and behind them, the last entry of the array first, the settings of encoders
  -- that it had, and it saves them all.
  pub set_av_enc_info_by_json-written :
      (codec : EncCodec) (title : String) (v : Value) (encs ss : List EncInfo)
      → AllEncFit ss
      → items (get title v) ≡ written ss
      → Distinct (ids ss)
      → Distinct (ids encs)
      → codec.set_all ss ≡ true
      → others ss encs ++ known ss encs ≢ []
      → codec.get_all (ids (others ss encs ++ known ss encs))
        ≡ counted (length (others ss encs ++ known ss encs)) (others ss encs ++ known ss encs)
      → set_av_enc_info_by_json J codec title v encs
        ≡ some (record {
          ret = 0;
          encs = others ss encs ++ known ss encs;
          saves = others ss encs ++ known ss encs;
        })
  unfolding set_av_enc_info_by_json refresh
  set_av_enc_info_by_json-written codec title v encs ss f w u d a n g =
      let split = replace_encs-split ss encs u d in
      let answer = batch_get-counted codec (others ss encs ++ known ss encs) n g in
      rw (w, read_settings-written ss f, a, split, answer) refl
