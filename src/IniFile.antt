-- ===== src/IniFile.antt =====
-- src/IniConfigFile.cpp: the files of settings, whose lines are `[section]`, `key=value` and, after a `;`,
-- remarks. A text is the list of its bytes; an index past the end of a buffer reads 0, since the
-- buffers are zeroed before they are filled.
pub mod Search
mod Scan
pub mod Fresh
mod Tests
use server_communication.Prelude.{
  ℕ, zero, suc, ◌+◌, ◌-◌, Bool, true, false, ◌&&◌, ◌||◌, not, Option, none, some, List, [], ◌∷◌,
  ◌++◌, length, take, drop, ltb, leb, ◌==◌, ◌>>=◌, if◌then◌else◌,
}

abbrev pub newline : ℕ → Bool
newline c = c == 10 || c == 13

abbrev pub end_of_string : ℕ → Bool
end_of_string c = c == 0

abbrev pub left_brace : ℕ
left_brace = 91

abbrev pub right_brace : ℕ
right_brace = 93

abbrev pub equals_sign : ℕ
equals_sign = 61

-- `isspace`
abbrev pub is_space : ℕ → Bool
is_space c = c == 32 || (leb 9 c && leb c 13)

-- `*p`
abbrev pub first : List ℕ → ℕ
first [] = 0
first (x ∷ xs) = x

-- A place in the buffer: the index `i`, `p[i - 1]`, which counts as a newline at the start, and the
-- bytes from `p[i]` on.
pub record Cursor : Type 0 where
  pub i : ℕ
  pub before : ℕ
  pub rest : List ℕ

-- `i++`
abbrev pub advance : Cursor → Cursor
advance c = record { i = suc c.i; before = first c.rest; rest = drop 1 c.rest }

-- `while (!stop(p[i])) i++`, where `stop` holds of 0.
pub skip_to : (ℕ → Bool) → ℕ → ℕ → List ℕ → Cursor
skip_to stop i before [] = record { i = i; before = before; rest = [] }
skip_to stop i before (x ∷ xs) =
    let skipped = skip_to stop (suc i) x xs in
    if stop x then record { i = i; before = before; rest = x ∷ xs } else skipped

abbrev pub skip_from : (ℕ → Bool) → Cursor → Cursor
skip_from stop c = skip_to stop c.i c.before c.rest

-- `0 == strncmp(a, b, n)`
pub strncmp_same : ℕ → List ℕ → List ℕ → Bool
strncmp_same zero a b = true
strncmp_same (suc n) a b =
    let rest = strncmp_same n (drop 1 a) (drop 1 b) in first a == first b && (first a == 0 || rest)

-- `key_s`, `key_e`, `value_s`, `value_e`
pub record Line : Type 0 where
  pub key_s : ℕ
  pub key_e : ℕ
  pub value_s : ℕ
  pub value_e : ℕ

-- `while (j < i && p[j] != '=')` over a line that starts at `start` with the bytes `text` and ends at
-- `end`; `j` is the index of the bytes of the last argument.
pub scan_line : List ℕ → ℕ → List ℕ → ℕ → ℕ → List ℕ → Option Line
unfolding strncmp_same
scan_line key start text end j [] = none
scan_line key start text end j (x ∷ xs) =
    let further = scan_line key start text end (suc j) xs in
    if ltb j end && not (x == equals_sign)
    then if first xs == equals_sign && strncmp_same (suc j - start) key text
      then some (record { key_s = start; key_e = j; value_s = suc (suc j); value_e = end })
      else further
    else none

-- What `parse_file` leaves in `sec_s` and `sec_e`, and in the other four, where they are not -1.
pub record Places : Type 0 where
  pub section : Option (ℕ × ℕ)
  pub line : Option Line

abbrev pub nowhere : Places
nowhere = record { section = none; line = none }

-- The body of the loop over the lines of a section: the line that holds the key, and the place of the
-- next line.
pub line_turn : List ℕ → Cursor → Option Line × Cursor
unfolding skip_to scan_line
line_turn key c =
    let end = skip_from (λ x. newline x || end_of_string x) c in
    (if first c.rest == 59 then none else scan_line key c.i c.rest end.i c.i c.rest, advance end)

-- `while (!(newline(p[i - 1]) && left_barce(p[i])) && !end_of_string(p[i]))`: none when the fuel is used
-- up.
pub section_loop : ℕ → List ℕ → Cursor → Option (Option Line × Cursor)
unfolding line_turn
section_loop zero key c = none
section_loop (suc fuel) key c =
    elim ((newline c.before && first c.rest == left_brace) || end_of_string (first c.rest)) [
      | true ↦ some (none, c)
      | false ↦ elim (line_turn key c).0 [
        | none ↦ section_loop fuel key (line_turn key c).1
        | some l ↦ some (some l, c)
      ]
    ]

-- After `[`: the place of `]` or of the end.
abbrev pub section_end : Cursor → Cursor
section_end c = skip_from (λ x. x == right_brace || end_of_string x) (advance c)

abbrev pub section_matches : List ℕ → Cursor → Bool
section_matches section c = strncmp_same ((section_end c).i - suc c.i) (drop 1 c.rest) section

-- The first line of the section.
abbrev pub section_body : Cursor → Cursor
section_body c = skip_from (λ x. not (is_space x)) (advance (section_end c))

abbrev pub section_places : Cursor → Places
section_places c = record { section = some (suc c.i, (section_body c).i); line = none }

-- `while (!end_of_string(p[i]))` of `parse_file`: none when the fuel is used up.
pub parse_loop : ℕ → List ℕ → List ℕ → Places → Cursor → Option Places
unfolding skip_to strncmp_same section_loop
parse_loop zero section key places c = none
parse_loop (suc fuel) section key places c = elim (end_of_string (first c.rest)) [
  | true ↦ some places
  | false ↦ elim (newline c.before && first c.rest == left_brace) [
    | true ↦ elim (section_matches section c) [
      | true ↦
          (section_loop fuel key (section_body c) >>= λ (found, next). elim found [
            | none ↦ parse_loop fuel section key (section_places c) next
            | some l ↦ some (record (section_places c) { line = some l })
          ])
      | false ↦ parse_loop fuel section key places (section_end c)
    ]
    | false ↦ parse_loop fuel section key places (advance c)
  ]
]

abbrev pub start_of : List ℕ → Cursor
start_of buf = record { i = 0; before = 10; rest = buf }

-- `parse_file`; the length of the buffer is enough fuel.
unfoldable pub parse_file : List ℕ → List ℕ → List ℕ → Option Places
unfolding parse_loop
parse_file section key buf = parse_loop (suc (suc (length buf))) section key nowhere (start_of buf)

-- `MAX_FILE_SIZE` of `load_ini_file`
abbrev pub max_file_size : ℕ
max_file_size = 1024

-- `load_ini_file`, on the bytes of the file if it can be opened: what it returns is not 0, the bytes
-- up to the first 0xff, and `*file_size`, which stays 0 for a file that is too big.
pub record Loaded : Type 0 where
  pub opened : Bool
  pub buf : List ℕ
  pub file_size : ℕ

abbrev pub up_to_eof : List ℕ → List ℕ
up_to_eof [] = []
up_to_eof (x ∷ xs) = let rest = up_to_eof xs in if x == 0xff then [] else x ∷ rest

pub load_ini_file : Option (List ℕ) → Loaded
load_ini_file none = record { opened = false; buf = []; file_size = 0 }
load_ini_file (some bytes) =
    let buf = up_to_eof bytes in
    if ltb (length buf) max_file_size
    then record { opened = true; buf = buf; file_size = length buf }
    else record { opened = true; buf = take max_file_size buf; file_size = 0 }

-- `default_value`
abbrev pub no_value : ℕ → List ℕ
no_value value_len = take value_len (32 ∷ [])

abbrev pub value_of : List ℕ → Option Line → ℕ → Bool × List ℕ
value_of buf none value_len = (false, no_value value_len)
value_of buf (some l) value_len =
    let count = l.value_e - l.value_s in
    (true, take (if ltb (value_len - 1) count then value_len - 1 else count) (drop l.value_s buf))

-- What `readIniConfFile` returns, and the text in `value`, of a buffer of `value_len` bytes.
unfoldable pub read_ini_conf_file : Option (List ℕ) → List ℕ → List ℕ → ℕ → Option (Bool × List ℕ)
unfolding load_ini_file parse_file
read_ini_conf_file file section key value_len =
    let f = load_ini_file file in
    if f.opened
    then (parse_file section key f.buf >>= λ places. some (value_of f.buf places.line value_len))
    else some (false, no_value value_len)

-- `[section]`, a newline, `key=value`, a newline
abbrev pub section_text : List ℕ → List ℕ → List ℕ → List ℕ
section_text section key value =
    (left_brace ∷ section) ++ (right_brace ∷ (10 ∷ (key ++ (equals_sign ∷ (value ++ (10 ∷ []))))))

abbrev pub has_percent : List ℕ → Bool
has_percent [] = false
has_percent (x ∷ xs) = x == 37 || has_percent xs

-- `w_buf` of `setIniConfFile`, if it is large enough; none where the text of the file serves as a
-- format with a `%` in it, or where a `memcpy` has a negative length.
pub new_text : Loaded → Places → List ℕ → List ℕ → List ℕ → Option (List ℕ)
new_text f places section key value = elim places.section [
  | none ↦ some (
      if f.file_size == 0
      then section_text section key value
      else take f.file_size f.buf ++ (10 ∷ section_text section key value))
  | some (sec_s, sec_e) ↦ elim places.line [
    | none ↦
        let rest = drop sec_e f.buf in
        if has_percent rest
        then none
        else some (take sec_e f.buf ++ (key ++ (equals_sign ∷ (value ++ (10 ∷ rest)))))
    | some l ↦
        if leb l.value_e f.file_size
        then some (
            take l.value_s f.buf
            ++ (value ++ take (f.file_size - l.value_e) (drop l.value_e f.buf)))
        else none
  ]
]

-- `setIniConfFile`, where the file can be written: its new text.
unfoldable pub set_ini_conf_file : Option (List ℕ) → List ℕ → List ℕ → List ℕ → Option (List ℕ)
unfolding load_ini_file parse_file new_text
set_ini_conf_file file section key value =
    let f = load_ini_file file in
    if f.opened
    then (parse_file section key f.buf >>= λ places. new_text f places section key value)
    else new_text f nowhere section key value
