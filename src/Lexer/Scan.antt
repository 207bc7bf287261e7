-- ===== src/Lexer/Scan.antt =====
-- src/core/lexer.c, scan_next: the actions of the switch, and the jumps back to its beginning.
-- A line and a column are natural numbers; the unsigned int of the source wraps around at 2 ^ 32.
use zis_lang.Common.{
  ℕ, zero, suc, ◌+◌, ◌-◌, Bool, true, false, ◌||◌, not, Option, none, some, List, [], ◌∷◌, ltb,
  ◌==◌, if◌then◌else◌,
}
use zis_lang.Token.{
  TokenType, op_lt, op_le, op_cmp, op_shl, op_period, op_xrange, op_range, tok_at, tok_l_arrow,
  identifier, end_of_statement, end_of_file,
}
use zis_lang.Lexer.{
  Lexer, Token, unexpected_char, unexpected_end, Step, again, done, fails, fault, Scanners, Case,
  blank, carriage_return, line_feed, semicolon, hash_sign, backslash, operator_1, operator_2,
  operator_3x, dot, less_than, at_sign, digit, letter, quote, no_case, case_of,
}

unfoldable pub next_char : Lexer → Lexer
next_char l = record l { column = l.column + 1 }

unfoldable pub next_line : Lexer → Lexer
next_line l = record l { column = 1; line = l.line + 1 }

unfoldable pub ignore_1 : Lexer → Option Lexer
ignore_1 l = elim l.input [
  | [] ↦ none
  | c ∷ s ↦ if ltb c 0x80 then some (record l { input = s }) else none
]

-- whether the next character is a given one
unfoldable pub next_is : ℕ → Lexer → Bool
next_is c l = elim l.input [ [] ↦ false | d ∷ s ↦ d == c ]

-- token_set_loc1__loc_next__return, of a token that begins where the scanner was
unfoldable pub ends : Lexer → TokenType → Lexer → Step
unfolding next_char
ends start t l =
    let tok : Token = record {
      line0 = start.line;
      column0 = start.column;
      line1 = l.line;
      column1 = l.column;
      type_of = t;
    } in
    done tok (next_char l)

-- input_ignore1__token_set_loc1__loc_next__return
unfoldable pub ignore_ends : Lexer → TokenType → Lexer → Step
unfolding ignore_1 ends
ignore_ends start t l = elim (ignore_1 l) [ none ↦ fault | some m ↦ ends start t m ]

-- loc_next__input_ignore1__token_set_loc1__loc_next__return
unfoldable pub next_ignore_ends : Lexer → TokenType → Lexer → Step
unfolding next_char ignore_ends
next_ignore_ends start t l = ignore_ends start t (next_char l)

-- case '\n'
unfoldable pub scan_line_feed : Lexer → Lexer → Step
unfolding ignore_1 next_line ignore_ends
scan_line_feed start l =
    if not (l.ignore_eol == 0)
    then elim (ignore_1 l) [ none ↦ fault | some m ↦ again (next_line m) ]
    else ignore_ends start end_of_statement (record l { column = 0; line = l.line + 1 })

-- case '\r'; rest is what is behind it
unfoldable pub scan_carriage_return : Lexer → List ℕ → Step
unfolding next_char next_is scan_line_feed
scan_carriage_return start rest =
    let l = next_char (record start { input = rest }) in
    if next_is 10 l then scan_line_feed start l else fails (unexpected_char 13)

-- stream_ignore_until a line feed
unfoldable pub ignore_line : List ℕ → List ℕ
ignore_line [] = []
ignore_line (c ∷ s) = let rest = ignore_line s in if c == 10 then s else rest

-- case '.'
unfoldable pub scan_dot : Lexer → List ℕ → Step
unfolding next_char next_is ends next_ignore_ends ignore_1
scan_dot start rest =
    let l = record start { input = rest } in
    if next_is 46 l
    then elim (ignore_1 l) [
      | none ↦ fault
      | some m ↦
          if next_is 46 m
          then next_ignore_ends start op_range (next_char m)
          else next_ignore_ends start op_xrange m
    ]
    else ends start op_period l

-- case '<'
unfoldable pub scan_less_than : Lexer → List ℕ → Step
unfolding next_char next_is ends next_ignore_ends ignore_1
scan_less_than start rest =
    let l = record start { input = rest } in
    if next_is 61 l
    then elim (ignore_1 l) [
      | none ↦ fault
      | some m ↦
          let n = next_char m in
          if next_is 62 n then next_ignore_ends start op_cmp n else ends start op_le n
    ]
    else if next_is 60 l
    then next_ignore_ends start op_shl l
    else if next_is 45 l
    then next_ignore_ends start tok_l_arrow l
    else ends start op_lt l

-- at the end of the input
unfoldable pub scan_end : Lexer → Step
unfolding ends
scan_end l =
    if l.input_eof
    then ends l end_of_file l
    else done
        (record {
          line0 = l.line;
          column0 = l.column;
          line1 = l.line;
          column1 = l.column;
          type_of = end_of_statement;
        })
        (record l { input_eof = true })

-- an identifier that is written as a string
unfoldable pub as_identifier : Step → Step
as_identifier (done tok l) = done (record tok { type_of = identifier }) l
as_identifier (again l) = again l
as_identifier (fails e) = fails e
as_identifier fault = fault

module _ (scanners : Scanners) where
  -- case '\\'
  unfoldable pub scan_backslash : Lexer → List ℕ → Step
  unfolding next_char next_line as_identifier
  scan_backslash start rest =
      let l = next_char (record start { input = rest }) in
      elim rest [
        | [] ↦ fails unexpected_end
        | d ∷ s ↦
            if d == 10
            then again (next_line (record l { input = s }))
            else if d == 34 || d == 39
            then as_identifier (scanners.scan_string d true start l)
            else fails (unexpected_char d)
      ]

  -- case '@'
  unfoldable pub scan_at : Lexer → List ℕ → Step
  unfolding ends
  scan_at start rest =
      let l = record start { input = rest } in
      elim rest [
        | [] ↦ ends start tok_at l
        | d ∷ s ↦
            if d == 34 || d == 39 then scanners.scan_string d false start l else ends start tok_at l
      ]

  -- the switch: the case of the character c, with rest behind it
  unfoldable pub scan_case : Case → ℕ → List ℕ → Lexer → Step
  unfolding next_char next_line next_is ends ignore_ends next_ignore_ends scan_line_feed
      scan_carriage_return ignore_line scan_dot scan_less_than scan_backslash scan_at
  scan_case blank c rest l = again (next_char (record l { input = rest }))
  scan_case carriage_return c rest l = scan_carriage_return l rest
  scan_case line_feed c rest l = scan_line_feed l l
  scan_case semicolon c rest l =
      if not (l.ignore_eol == 0)
      then fails (unexpected_char c)
      else ignore_ends l end_of_statement l
  scan_case hash_sign c rest l = again (next_line (record l { input = ignore_line (c ∷ rest) }))
  scan_case backslash c rest l = scan_backslash l rest
  scan_case (operator_1 t) c rest l = ignore_ends l t l
  scan_case (operator_2 t t_eql) c rest l =
      let m = record l { input = rest } in
      if next_is 61 m then next_ignore_ends l t_eql m else ends l t m
  scan_case (operator_3x t t_eql x t_x) c rest l =
      let m = record l { input = rest } in
      if next_is x m
      then next_ignore_ends l t_x m
      else if next_is 61 m
      then next_ignore_ends l t_eql m
      else ends l t m
  scan_case dot c rest l = scan_dot l rest
  scan_case less_than c rest l = scan_less_than l rest
  scan_case at_sign c rest l = scan_at l rest
  scan_case digit c rest l = scanners.scan_number l l
  scan_case letter c rest l = scanners.scan_identifier l l
  scan_case quote c rest l = scanners.scan_string c true l l
  scan_case no_case c rest l = fails (unexpected_char c)

  -- scan_next from scan_next_char on
  unfoldable pub scan_step : Lexer → Step
  unfolding scan_case case_of scan_end
  scan_step l = elim l.input [ [] ↦ scan_end l | c ∷ rest ↦ scan_case (case_of c) c rest l ]

  -- scan_next, with fuel for the jumps back
  unfoldable pub scan_next : ℕ → Lexer → Step
  unfolding scan_step
  scan_next zero l = again l
  scan_next (suc fuel) l = elim (scan_step l) [
    | again m ↦ scan_next fuel m
    | done tok m ↦ done tok m
    | fails e ↦ fails e
    | fault ↦ fault
  ]

-- zis_lexer_start on an input
unfoldable pub start : List ℕ → Lexer
start chars = record { line = 1; column = 1; ignore_eol = 0; input_eof = false; input = chars }

unfoldable pub ignore_eol_begin : Lexer → Lexer
ignore_eol_begin l = record l { ignore_eol = l.ignore_eol + 1 }

-- zis_lexer_ignore_eol_end, where ignore_eol is not 0
unfoldable pub ignore_eol_end : Lexer → Lexer
ignore_eol_end l = record l { ignore_eol = l.ignore_eol - 1 }
