-- ===== src/Report/Sounds.antt =====
-- What the reply to a request for the sounds says.
use mathlib.Core.Path.{subst}
use server_communication.Prelude.{
  ℕ, suc, ◌≡◌, refl, ap, sym, ◌∙◌, inl, inr, Option-cases, List, [], ◌∷◌, ◌++◌, none, some, length,
  drop, arith,
}
use server_communication.AvDec.{AvDec}
use server_communication.Report.{
  Tables, AoInfo, AudioTask, AoChn, playing, sound_turn, list_sounds, ao_chn_of,
}

-- None of these outputs plays the sound of a window.
abbrev pub AllSilent : Tables → List AoInfo → Type 0
AllSilent t [] = Unit {0}
AllSilent t (a ∷ others) = (playing t a.ao_dev ≡ none) × AllSilent t others

-- Past so many entries stands one without a sound, whose task is this one.
abbrev pub IsSilent : ℕ → ℕ → List ℕ → List AoChn → Type 0
IsSilent n third url cs =
    (c : AoChn) × (back : List AoChn) × (drop n cs ≡ c ∷ back)
    × (c.audio_in ≡ 0)
    × (c.task.task_id ≡ third)
    × (c.task.url ≡ url)

-- The turn of one output and those of the outputs behind it.
list_sounds-cons :
    (t : Tables) (a : AoInfo) (others : List AoInfo) (shared : AudioTask) (cs : List AoChn)
    → list_sounds t (a ∷ others) shared ≡ some cs
    → (chn : ℕ) × (rest : List AoChn) × (list_sounds t others (sound_turn t a chn shared).1
        ≡ some rest)
      × (cs ≡ (sound_turn t a chn shared).0 ∷ rest)
unfolding list_sounds
list_sounds-cons t a others shared cs h = elim (Option-cases (ao_chn_of a.ao_dev)) [
  | inl e ↦ ground arith
  | inr (chn, e) ↦ elim (Option-cases (list_sounds t others (sound_turn t a chn shared).1)) [
    | inl f ↦ ground arith
    | inr (rest, f) ↦ (chn, rest, f, ground arith)
  ]
]

sound_turn-none :
    (t : Tables) (a : AoInfo) (chn : ℕ) (shared : AudioTask)
    → playing t a.ao_dev ≡ none
    → ((sound_turn t a chn shared).0.audio_in ≡ 0)
      × ((sound_turn t a chn shared).0.task ≡ shared)
      × ((sound_turn t a chn shared).1 ≡ shared)
unfolding sound_turn
sound_turn-none t a chn shared e = rw (e, sound_turn) (refl, refl, refl)

sound_turn-some :
    (t : Tables) (a : AoInfo) (chn : ℕ) (shared : AudioTask) (d : AvDec) (third : ℕ)
    → playing t a.ao_dev ≡ some (d, third)
    → ((sound_turn t a chn shared).1.task_id ≡ third) × ((sound_turn t a chn shared).1.url ≡ d.url)
unfolding sound_turn
sound_turn-some t a chn shared d third e = rw (e, sound_turn) (refl, refl)

IsSilent-behind :
    (n third : ℕ) (url : List ℕ) (c : AoChn) (rest cs : List AoChn)
    → cs ≡ c ∷ rest
    → IsSilent n third url rest
    → IsSilent (suc n) third url cs
IsSilent-behind n third url c rest cs e (entry, back, at, silent, task, address) =
    (entry, back, ap (drop (suc n)) e ∙ at, silent, task, address)

list_sounds-kept :
    (t : Tables) (mid post : List AoInfo) (b : AoInfo) (shared : AudioTask) (cs : List AoChn)
    → AllSilent t mid
    → playing t b.ao_dev ≡ none
    → list_sounds t (mid ++ (b ∷ post)) shared ≡ some cs
    → IsSilent (length mid) shared.task_id shared.url cs
list_sounds-kept t [] post b shared cs q s h =
    let (chn, rest, f, e) = list_sounds-cons t b post shared cs h in
    let turn = sound_turn-none t b chn shared s in
    (
      (sound_turn t b chn shared).0,
      rest,
      e,
      turn.0,
      ap (λ (k : AudioTask). k.task_id) turn.1,
      ap (λ (k : AudioTask). k.url) turn.1,
    )
list_sounds-kept t (a ∷ mid) post b shared cs q s h =
    let (chn, rest, f, e) = list_sounds-cons t a (mid ++ (b ∷ post)) shared cs h in
    let turn = sound_turn-none t a chn shared q.0 in
    let others = ap (list_sounds t (mid ++ (b ∷ post))) (sym turn.2) ∙ f in
    IsSilent-behind (length mid) shared.task_id shared.url (sound_turn t a chn shared).0 rest cs e
      (list_sounds-kept t mid post b shared rest q.1 s others)

-- An output for sound that plays nothing, behind one that plays the sound of a decoder and others that
-- play nothing, is listed as one without a sound, but with the task and the address of that decoder.
pub list_sounds-stale :
    (t : Tables) (front mid post : List AoInfo) (a b : AoInfo) (shared : AudioTask)
    (cs : List AoChn) (d : AvDec) (third : ℕ)
    → playing t a.ao_dev ≡ some (d, third)
    → AllSilent t mid
    → playing t b.ao_dev ≡ none
    → list_sounds t (front ++ (a ∷ (mid ++ (b ∷ post)))) shared ≡ some cs
    → IsSilent (length (front ++ (a ∷ mid))) third d.url cs
list_sounds-stale t [] mid post a b shared cs d third p q s h =
    let (chn, rest, f, e) = list_sounds-cons t a (mid ++ (b ∷ post)) shared cs h in
    let task = (sound_turn t a chn shared).1 in
    let turn = sound_turn-some t a chn shared d third p in
    let kept = list_sounds-kept t mid post b task rest q s f in
    IsSilent-behind (length mid) third d.url (sound_turn t a chn shared).0 rest cs e (
      subst (λ (u : List ℕ). IsSilent (length mid) third u rest) turn.1
        (subst (λ (n : ℕ). IsSilent (length mid) n task.url rest) turn.0 kept))
list_sounds-stale t (c ∷ front) mid post a b shared cs d third p q s h =
    let behind = front ++ (a ∷ (mid ++ (b ∷ post))) in
    let (chn, rest, f, e) = list_sounds-cons t c behind shared cs h in
    IsSilent-behind (length (front ++ (a ∷ mid))) third d.url (sound_turn t c chn shared).0 rest cs
      e (list_sounds-stale t front mid post a b (sound_turn t c chn shared).1 rest d third p q s f)
