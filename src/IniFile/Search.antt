-- ===== src/IniFile/Search.antt =====
-- src/IniConfigFile.cpp: the loops of parse_file end.
use server_communication.Prelude.{
  ℕ, zero, suc, ◌≤◌, ◌<◌, ◌≡◌, refl, Bool, false, ◌&&◌, ◌||◌, Option, none, some, List, [], ◌∷◌,
  arith, length, drop, length-drop, not, Bool-cases, Option-cases, inl, inr, ◌==◌,
}
use server_communication.IniFile.{
  Cursor, Line, Places, advance, skip_to, skip_from, first, newline, end_of_string, left_brace,
  line_turn, section_loop, section_end, section_body, section_matches, section_places, is_space,
  right_brace, parse_loop, parse_file, nowhere, start_of,
}

abbrev pub left : Cursor → ℕ
left c = length c.rest

skip_to-left :
    (stop : ℕ → Bool) (i before : ℕ) (xs : List ℕ) → left (skip_to stop i before xs) ≤ length xs
unfolding skip_to
skip_to-left stop i before [] = omega arith
skip_to-left stop i before (x ∷ xs) = elim (Bool-cases (stop x)) [
  | inl e ↦ rw e omega arith
  | inr e ↦ rw e omega (arith, skip_to-left stop (suc i) x xs)
]

advance-left : (c : Cursor) → left (advance c) ≤ left c
advance-left c = omega (arith, length-drop 1 c.rest)

advance_less : (xs : List ℕ) → end_of_string (first xs) ≡ false → length (drop 1 xs) < length xs
advance_less [] e = ground arith
advance_less (x ∷ xs) e = omega arith

line_turn-left :
    (key : List ℕ) (c : Cursor)
    → end_of_string (first c.rest) ≡ false
    → left (line_turn key c).1 < left c
unfolding line_turn
line_turn-left key c e =
    let end = skip_from (λ x. newline x || end_of_string x) c in
    omega (
      arith,
      advance_less c.rest e,
      length-drop 1 end.rest,
      skip_to-left (λ x. newline x || end_of_string x) c.i c.before c.rest,
    )

section_loop_total :
    (fuel : ℕ) (key : List ℕ) (c : Cursor)
    → left c < fuel
    → (r : Option Line × Cursor) × (section_loop fuel key c ≡ some r) × (left r.1 ≤ left c)
unfolding section_loop
section_loop_total zero key c h = absurd (omega (arith, h))
section_loop_total (suc fuel) key c h =
    elim (Bool-cases
      ((newline c.before && first c.rest == left_brace) || end_of_string (first c.rest))) [
        | inl e ↦ rw (e, section_loop) (_, refl, omega arith)
        | inr e ↦
            let l = line_turn-left key c (ground (arith, e)) in
            let (r, q, m) = section_loop_total fuel key (line_turn key c).1 (omega (arith, l, h)) in
            elim (Option-cases (line_turn key c).0) [
              | inl f ↦ rw (e, section_loop, f) (r, q, omega (arith, l, m))
              | inr (k, f) ↦ rw (e, section_loop, f) (_, refl, omega arith)
            ]
      ]

section_end-left :
    (c : Cursor) → end_of_string (first c.rest) ≡ false → left (section_end c) < left c
section_end-left c e = omega (
  arith,
  advance_less c.rest e,
  skip_to-left (λ x. x == right_brace || end_of_string x) (suc c.i) (first c.rest) (drop 1 c.rest),
)

section_body-left :
    (c : Cursor) → end_of_string (first c.rest) ≡ false → left (section_body c) < left c
section_body-left c e =
    let end = advance (section_end c) in
    omega (
      arith,
      section_end-left c e,
      advance-left (section_end c),
      skip_to-left (λ x. not (is_space x)) end.i end.before end.rest,
    )

found-some :
    (found : Option Line) (places : Places) (further : Option Places)
    → (p : Places) × (further ≡ some p)
    → (p : Places) × (elim found [
      | none ↦ further
      | some l ↦ some (record places { line = some l })
    ]
        ≡ some p)
found-some none places further h = h
found-some (some l) places further h = (_, refl)

parse_loop_total :
    (fuel : ℕ) (section key : List ℕ) (places : Places) (c : Cursor)
    → left c < fuel
    → (p : Places) × (parse_loop fuel section key places c ≡ some p)
unfolding parse_loop
parse_loop_total zero section key places c h = absurd (omega (arith, h))
parse_loop_total (suc fuel) section key places c h =
    elim (Bool-cases (end_of_string (first c.rest))) [
      | inl e ↦ rw (e, parse_loop) (_, refl)
      | inr e ↦ elim (Bool-cases (newline c.before && first c.rest == left_brace)) [
        | inr f ↦
            rw (e, parse_loop, f)
              (parse_loop_total fuel section key places (advance c)
                (omega (arith, h, advance_less c.rest e)))
        | inl f ↦ elim (Bool-cases (section_matches section c)) [
          | inr g ↦
              rw (e, parse_loop, f, g)
                (parse_loop_total fuel section key places (section_end c)
                  (omega (arith, h, section_end-left c e)))
          | inl g ↦
              let b = section_body-left c e in
              let (r, q, m) = section_loop_total fuel key (section_body c) (omega (arith, h, b)) in
              rw (e, parse_loop, f, g, q)
                (found-some r.0 (section_places c)
                  (parse_loop fuel section key (section_places c) r.1)
                  (parse_loop_total fuel section key (section_places c) r.1
                    (omega (arith, h, b, m))))
        ]
      ]
    ]

-- The search for a key ends, for every section, key and buffer.
pub parse_file_total :
    (section key buf : List ℕ) → (p : Places) × (parse_file section key buf ≡ some p)
unfolding parse_file
parse_file_total section key buf =
    parse_loop_total (suc (suc (length buf))) section key nowhere (start_of buf) (omega arith)
