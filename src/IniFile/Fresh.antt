-- ===== src/IniFile/Fresh.antt =====
-- src/IniConfigFile.cpp: a setting written to a file that is empty or missing, and read again.
use server_communication.Prelude.{
  ℕ, suc, ◌+◌, ◌-◌, ◌<◌, ◌≡◌, refl, ap, sym, ◌∙◌, Bool, true, false, ◌&&◌, ◌||◌, not, none, some,
  List, [], ◌∷◌, ◌++◌, ◌>>=◌, arith, length, take, drop, ◌==◌, lt→ltb, le-ltb-false, length-append,
  take-append, drop-append, append_assoc,
}
use server_communication.IniFile.{
  Cursor, Line, Places, advance, skip_to, skip_from, first, newline, is_space, end_of_string,
  left_brace, right_brace, equals_sign, strncmp_same, scan_line, line_turn, section_loop,
  section_end, section_body, section_matches, section_places, parse_loop, parse_file, nowhere,
  start_of, section_text, load_ini_file, max_file_size, read_ini_conf_file, set_ini_conf_file,
  value_of,
}
use server_communication.IniFile.Scan.{
  All, All-append, All-weaken, last_of, skip_to-append, strncmp_same-append, strncmp_same-prefix,
  scan_line-append, up_to_eof-All,
}

-- The bytes that a section, a key and a value may have, and those that a key may start with.
abbrev pub section_byte : ℕ → Bool
section_byte x = not (x == right_brace || end_of_string x) && not (x == 0xff)

abbrev pub value_byte : ℕ → Bool
value_byte x = not (newline x || end_of_string x) && not (x == 0xff)

abbrev pub key_byte : ℕ → Bool
key_byte x = value_byte x && not (x == equals_sign)

abbrev pub key_start : ℕ → Bool
key_start x = key_byte x && not (is_space x) && not (x == left_brace) && not (x == 59)

abbrev plain : ℕ → Bool
plain y = not (y == 0xff)

load_ini_file-plain :
    (bytes : List ℕ)
    → All plain bytes
    → length bytes < max_file_size
    → load_ini_file (some bytes) ≡ record { opened = true; buf = bytes; file_size = length bytes }
unfolding load_ini_file
load_ini_file-plain bytes h l =
    rw (up_to_eof-All bytes h, lt→ltb (length bytes) max_file_size l) refl

take-drop_value :
    (head v tail : List ℕ) (n : ℕ)
    → length v ≡ n
    → take n (drop (length head) (head ++ (v ++ tail))) ≡ v
take-drop_value head v tail n e =
    ap (take n) (drop-append (length head) head (v ++ tail) refl) ∙ take-append n v tail e

value_of-append :
    (head v tail : List ℕ) (l : Line) (n : ℕ)
    → length head ≡ l.value_s
    → l.value_s + length v ≡ l.value_e
    → length v < n
    → value_of (head ++ (v ++ tail)) (some l) n ≡ (true, v)
value_of-append head v tail l n s e h =
    rw (le-ltb-false (l.value_e - l.value_s) (n - 1) (omega (arith, e, h))) (
      ap (λ k. (true, take (l.value_e - l.value_s) (drop k (head ++ (v ++ tail))))) (sym s)
      ∙ ap (λ t. (true, t))
          (take-drop_value head v tail (l.value_e - l.value_s) (omega (arith, e))))

section_loop-found :
    (fuel : ℕ) (key : List ℕ) (c : Cursor) (l : Line)
    → ((newline c.before && first c.rest == left_brace) || end_of_string (first c.rest)) ≡ false
    → (line_turn key c).0 ≡ some l
    → section_loop (suc fuel) key c ≡ some (some l, c)
unfolding section_loop
section_loop-found fuel key c l e f = rw (e, section_loop, f) refl

parse_loop-found :
    (fuel : ℕ) (section key : List ℕ) (places : Places) (c : Cursor) (l : Line) (next : Cursor)
    → end_of_string (first c.rest) ≡ false
    → (newline c.before && first c.rest == left_brace) ≡ true
    → section_matches section c ≡ true
    → section_loop fuel key (section_body c) ≡ some (some l, next)
    → parse_loop (suc fuel) section key places c
      ≡ some (record (section_places c) { line = some l })
unfolding parse_loop
parse_loop-found fuel section key places c l next e f g h = rw (e, parse_loop, f, g, h) refl

module _ (s : List ℕ) (x : ℕ) (xs v : List ℕ) (hs : All section_byte s) (hx : key_start x ≡ true)
    (hk : All key_byte xs) (hv : All value_byte v) where
  -- The line, and the text from the bracket after the section on.
  abbrev line : List ℕ
  line = (x ∷ xs) ++ (equals_sign ∷ (v ++ (10 ∷ [])))

  abbrev text : List ℕ
  text = section_text s (x ∷ xs) v

  abbrev at_line : Cursor
  at_line = record { i = suc (suc (1 + length s)); before = 10; rest = line }

  section_end-text :
      section_end (start_of text)
      ≡ record { i = 1 + length s; before = last_of 91 s; rest = right_brace ∷ (10 ∷ line) }
  section_end-text =
      skip_to-append (λ x. x == right_brace || end_of_string x) 1 91 s right_brace (10 ∷ line)
        (All-weaken section_byte (λ x. not (x == right_brace || end_of_string x)) s
          (λ y h. ground (arith, h)) hs)
        refl

  section_matches-text : section_matches s (start_of text) ≡ true
  section_matches-text =
      ap (λ c. strncmp_same (c.i - 1) (s ++ (right_brace ∷ (10 ∷ line))) s) section_end-text
      ∙ strncmp_same-append _ s (right_brace ∷ (10 ∷ line)) (omega arith)

  not_space : not (is_space x) ≡ true
  not_space = ground (arith, hx)

  section_body-text : section_body (start_of text) ≡ at_line
  unfolding skip_to
  section_body-text =
      ap (λ c. skip_from (λ x. not (is_space x)) (advance c)) section_end-text ∙ rw not_space refl

  -- The name, the sign and the value.
  abbrev setting : List ℕ
  setting = (x ∷ xs) ++ (equals_sign ∷ v)

  line_end : ℕ
  line_end = at_line.i + length setting

  found : Line
  unfolding line_end
  found = record {
    key_s = at_line.i;
    key_e = at_line.i + length xs;
    value_s = suc (suc at_line.i) + length xs;
    value_e = line_end;
  }

  setting-All : All (λ x. not (newline x || end_of_string x)) setting
  setting-All =
      All-append (λ x. not (newline x || end_of_string x)) (x ∷ xs) (equals_sign ∷ v)
        (
          ground (arith, hx),
          All-weaken key_byte (λ x. not (newline x || end_of_string x)) xs
              (λ y h. ground (arith, h)) hk,
        )
        (
          refl,
          All-weaken value_byte (λ x. not (newline x || end_of_string x)) v
              (λ y h. ground (arith, h)) hv,
        )

  line_end-text : (skip_from (λ x. newline x || end_of_string x) at_line).i ≡ line_end
  unfolding line_end
  line_end-text =
      ap (λ l. (skip_to (λ x. newline x || end_of_string x) at_line.i 10 l).i)
        (sym (append_assoc (x ∷ xs) (equals_sign ∷ v) (10 ∷ [])))
      ∙ ap (λ c. c.i)
          (skip_to-append (λ x. newline x || end_of_string x) at_line.i 10 setting 10 [] setting-All
            refl)

  scan_line-text : scan_line (x ∷ xs) at_line.i line line_end at_line.i line ≡ some found
  unfolding line_end found
  scan_line-text =
      scan_line-append (x ∷ xs) at_line.i line line_end at_line.i x xs (v ++ (10 ∷ []))
        (
          ground (arith, hx),
          All-weaken key_byte (λ x. not (x == equals_sign)) xs (λ y h. ground (arith, h)) hk,
        )
        (strncmp_same-prefix _ (x ∷ xs) (equals_sign ∷ (v ++ (10 ∷ []))) (omega arith))
        (omega (arith, length-append (x ∷ xs) (equals_sign ∷ v)))

  no_remark : (x == 59) ≡ false
  no_remark = ground (arith, hx)

  line_turn-text : (line_turn (x ∷ xs) at_line).0 ≡ some found
  unfolding line_turn
  line_turn-text =
      rw no_remark (
        ap (λ e. scan_line (x ∷ xs) at_line.i line e at_line.i line) line_end-text ∙ scan_line-text)

  at_key : ((newline 10 && x == left_brace) || end_of_string x) ≡ false
  at_key = ground (arith, hx)

  parse_file-text :
      parse_file s (x ∷ xs) text
      ≡ some (record (section_places (start_of text)) { line = some found })
  unfolding parse_file
  parse_file-text =
      parse_loop-found (suc (length text)) s (x ∷ xs) nowhere (start_of text) found at_line refl
        refl section_matches-text
        (ap (λ c. section_loop (suc (length text)) (x ∷ xs) c) section_body-text
          ∙ section_loop-found (length text) (x ∷ xs) at_line found at_key line_turn-text)

  line-plain : All plain line
  line-plain =
      All-append plain (x ∷ xs) (equals_sign ∷ (v ++ (10 ∷ [])))
        (ground (arith, hx), All-weaken key_byte plain xs (λ y h. ground (arith, h)) hk)
        (
          refl,
          All-append plain v (10 ∷ []) (All-weaken value_byte plain v (λ y h. ground (arith, h)) hv)
              (refl, tt),
        )

  text-plain : All plain text
  text-plain =
      All-append plain (left_brace ∷ s) (right_brace ∷ (10 ∷ line))
        (refl, All-weaken section_byte plain s (λ y h. ground (arith, h)) hs)
        (refl, (refl, line-plain))

  -- What comes before the value.
  abbrev head : List ℕ
  head = (left_brace ∷ s) ++ (right_brace ∷ (10 ∷ ((x ∷ xs) ++ (equals_sign ∷ []))))

  text-head : text ≡ head ++ (v ++ (10 ∷ []))
  text-head =
      ap (λ l. (left_brace ∷ s) ++ (right_brace ∷ (10 ∷ l)))
        (sym (append_assoc (x ∷ xs) (equals_sign ∷ []) (v ++ (10 ∷ []))))
      ∙ sym (
          append_assoc (left_brace ∷ s) (right_brace ∷ (10 ∷ ((x ∷ xs) ++ (equals_sign ∷ []))))
            (v ++ (10 ∷ [])))

  length-head : length head ≡ found.value_s
  unfolding found
  length-head = omega (
    arith,
    length-append (left_brace ∷ s) (right_brace ∷ (10 ∷ ((x ∷ xs) ++ (equals_sign ∷ [])))),
    length-append (x ∷ xs) (equals_sign ∷ []),
  )

  value_of-text : (n : ℕ) → length v < n → value_of text (some found) n ≡ (true, v)
  unfolding found line_end
  value_of-text n l =
      ap (λ t. value_of t (some found) n) text-head
      ∙ value_of-append head v (10 ∷ []) found n length-head
          (omega (arith, length-append (x ∷ xs) (equals_sign ∷ v))) l

-- A setting that is written to a file that is missing or empty is read back: for a section without
-- `]`, a key without `=` that starts neither with a space nor with `[` or `;`, and a value, these two
-- without line breaks, all without the bytes 0 and 0xff, where the text has fewer than 1024 bytes
-- and the reader's buffer is longer than the value.
pub read-set_ini_conf_file :
    (section : List ℕ) (x : ℕ) (xs value : List ℕ) (n : ℕ)
    → All section_byte section
    → key_start x ≡ true
    → All key_byte xs
    → All value_byte value
    → length (section_text section (x ∷ xs) value) < max_file_size
    → length value < n
    → (set_ini_conf_file none section (x ∷ xs) value ≡ some (section_text section (x ∷ xs) value))
      × (set_ini_conf_file (some []) section (x ∷ xs) value
          ≡ some (section_text section (x ∷ xs) value))
      × (read_ini_conf_file (some (section_text section (x ∷ xs) value)) section (x ∷ xs) n
          ≡ some (true, value))
unfolding set_ini_conf_file read_ini_conf_file
read-set_ini_conf_file section x xs value n hs hx hk hv l m = (
  refl,
  refl,
  rw
      (load_ini_file-plain (section_text section (x ∷ xs) value)
        (text-plain section x xs value hs hx hk hv) l)
      (ap (λ o. o >>= λ p. some (value_of (section_text section (x ∷ xs) value) p.line n))
          (parse_file-text section x xs value hs hx hk hv)
        ∙ ap some (value_of-text section x xs value hs hx hk hv n m)),
)
