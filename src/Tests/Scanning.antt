-- ===== src/Tests/Scanning.antt =====
-- The dispatch of the scanner, with scanners that reject everything else.
use zis_lang.Common.{◌≡◌, refl, false, [], ◌∷◌, ◌++◌, length, arith, ◌-◌, true}
use zis_lang.Token.{operator_text, op_pow, op_xrange}
use zis_lang.Lexer.{Lexer, fails, other_error, Scanners}
use zis_lang.Lexer.Scan.{scan_step}
use zis_lang.Lexer.Operators.{is_scanned, continues, separates, lexed, scan_step-operator_text}
use zis_lang.Lexer.Lines.{scan_step-op_xrange}
use zis_lang.Lexer.Escape.{
  lit_str_esc_trans, hex_chars, code_or_none, horner, AreDigits, lit_str_esc_trans-horner,
}

abbrev rejecting : Scanners
rejecting = record {
  scan_number = λ start l. fails other_error;
  scan_string = λ c b start l. fails other_error;
  scan_identifier = λ start l. fails other_error;
}

-- "  #", a line feed and "**"
abbrev commented : Lexer
commented = record {
  line = 1;
  column = 1;
  ignore_eol = 0;
  input_eof = false;
  input = 32 ∷ 32 ∷ 35 ∷ 10 ∷ 42 ∷ 42 ∷ [];
}

scan_step-operator_text_example :
    scan_step rejecting (record commented { input = operator_text op_pow ++ 32 ∷ [] })
    ≡ lexed commented op_pow (length (operator_text op_pow) - 1) (32 ∷ [])
unfolding is_scanned separates continues
scan_step-operator_text_example =
    scan_step-operator_text rejecting op_pow commented (32 ∷ []) refl refl

scan_step-op_xrange_example :
    scan_step rejecting (record commented { input = 46 ∷ 46 ∷ 53 ∷ [] })
    ≡ lexed commented op_xrange 1 []
scan_step-op_xrange_example =
    scan_step-op_xrange rejecting 53 [] commented (omega arith) (λ q. omega (arith, q))

lit_str_esc_trans-horner_example :
    lit_str_esc_trans
      (117 ∷ 123 ∷ hex_chars ((1, true) ∷ (15, true) ∷ (6, false) ∷ []) ++ 125 ∷ [])
      6
    ≡ code_or_none (horner 0 ((1, true) ∷ (15, true) ∷ (6, false) ∷ [])) 6
unfolding AreDigits
lit_str_esc_trans-horner_example =
    lit_str_esc_trans-horner (1, true) ((15, true) ∷ (6, false) ∷ []) [] 6
      (omega arith, (omega arith, (omega arith, tt))) (omega arith)
