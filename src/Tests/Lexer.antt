-- ===== src/Tests/Lexer.antt =====
-- Tests of the lexer.
use lulu.Prelude.{ℕ, ◌+◌, ◌*◌, ◌-◌, ◌≡◌, refl, ◌≢◌, inr, List, [], ◌∷◌, arith, ◌++◌, ◌≤◌}
use lulu.Lexer.{
  Lexer, Stream, ok, err, out_of_fuel, invalid_escape, fill_block, get_char, is_eof, advance,
  lexer_make, save, save_advance, advance_fn, check, check2, match_char, match_save, match2_save,
  expect, size,
}
use lulu.Lexer.Loops.{
  get_nesting_loop, get_nesting, save_equals, save_bracket, close_bracket, count_line,
  skip_multiline_loop, skip_multiline, skip_line_loop, skip_line, skip_bracket_comment,
  skip_comment, is_space, skip_space, skip_whitespace_loop, skip_whitespace, is_upper, is_lower,
  is_number, is_alpha, is_ident, consume_loop, consume_sequence,
}
use lulu.Lexer.Numbers.{
  Numerals, base_of_letter, get_base, only_space, consume_dotted, consume_exponent,
  number_of_digits, number_in_base, lstring_to_number, read_prefixed, make_prefixed, make_decimal,
  make_number,
}
use lulu.Lexer.Strings.{
  string_token, get_escaped, read_escape, read_character, read_string, make_string,
  make_long_string,
}
use lulu.Lexer.Lex.{
  plain, starts_comment, builder_reset, single_token, identifier_type, match_equals, make_single,
  make_identifier, lex_dot, lex_symbol, lex_token, lex_loop, lexer_lex,
}
use lulu.Lexer.Tokens.{
  number, token_and, token_greater_eq, token_number, token_string, token_ident, token_strings,
  same_text, keyword_in, keyword_type,
}
use lulu.Lexer.Fixed.{lexer_lex-is_keyword, lexer_lex-is_symbol, lexed, is_keyword, is_symbol}
use lulu.Lexer.Long.{lexer_lex-doubled, doubled, IsBody}
use lulu.Lexer.Munch.{before, consume_sequence-IsRun, IsRun, lexer_lex-identifier}
use lulu.Lexer.Progress.{Ends, newlines_left}
use lulu.Lexer.Progress.Lexing.{Lexed, lexer_lex-Ends}
use lulu.Lexer.Quoting.{escape, IsAscii, lexer_lex-escape}
use lulu.Lexer.Runs.{Reads, done, next, lexer_lex_terminates, Reads-size}

-- the digits in front, in the given base, and the rest
abbrev digits : ℕ → ℕ → List ℕ → ℕ × List ℕ
digits base n [] = (n, [])
digits base n (c ∷ cs) = digits base (n * base + (c - 48)) cs

abbrev naturals : Numerals ℕ
naturals = record {
  strtoul = λ base s. digits base 0 s;
  of_unsigned = λ n. n;
  strtod = λ s. digits 10 0 s;
}

abbrev at : List ℕ → Lexer
at s = before 1 s [] []

-- `0x10 `
hexadecimal :
    lexer_lex naturals (at (b'0' ∷ b'x' ∷ b'1' ∷ b'0' ∷ b' ' ∷ []))
    ≡ ok (
      record { type = token_number; payload = number 16 },
      before 1 (b' ' ∷ []) (b'0' ∷ b'x' ∷ b'1' ∷ b'0' ∷ []) [],
    )
unfolding fill_block get_char is_eof advance lexer_make save save_advance advance_fn check check2
    match_char match_save match2_save expect size get_nesting_loop get_nesting save_equals
    save_bracket close_bracket count_line skip_multiline_loop skip_multiline skip_line_loop
    skip_line skip_bracket_comment skip_comment is_space skip_space skip_whitespace_loop
    skip_whitespace is_upper is_lower is_number is_alpha is_ident consume_loop consume_sequence
    base_of_letter get_base only_space consume_dotted consume_exponent number_of_digits
    number_in_base lstring_to_number read_prefixed make_prefixed make_decimal make_number
    get_escaped read_escape read_character read_string make_string make_long_string starts_comment
    builder_reset single_token identifier_type match_equals make_single make_identifier lex_dot
    lex_symbol lex_token lex_loop lexer_lex token_strings same_text keyword_in keyword_type
hexadecimal = refl

-- A comment in brackets of level 1 goes on behind `]]`; the point belongs to the number.
commented :
    lexer_lex naturals (
      at (
        b'-' ∷ b'-' ∷ b'[' ∷ b'=' ∷ b'[' ∷ b' ' ∷ b']' ∷ b']' ∷ b' ' ∷ b'\n' ∷ b']' ∷ b'=' ∷ b']'
        ∷ b'9' ∷ b' ' ∷ []))
    ≡ ok (record { type = token_number; payload = number 9 }, before 2 (b' ' ∷ []) (b'9' ∷ []) [])
unfolding fill_block get_char is_eof advance lexer_make save save_advance advance_fn check check2
    match_char match_save match2_save expect size get_nesting_loop get_nesting save_equals
    save_bracket close_bracket count_line skip_multiline_loop skip_multiline skip_line_loop
    skip_line skip_bracket_comment skip_comment is_space skip_space skip_whitespace_loop
    skip_whitespace is_upper is_lower is_number is_alpha is_ident consume_loop consume_sequence
    base_of_letter get_base only_space consume_dotted consume_exponent number_of_digits
    number_in_base lstring_to_number read_prefixed make_prefixed make_decimal make_number
    get_escaped read_escape read_character read_string make_string make_long_string starts_comment
    builder_reset single_token identifier_type match_equals make_single make_identifier lex_dot
    lex_symbol lex_token lex_loop lexer_lex token_strings same_text keyword_in keyword_type
commented = refl

-- `\q` is refused, and the message shows the text up to it.
escape_refused :
    lexer_lex naturals (at (b'\'' ∷ b'a' ∷ b'\\' ∷ b'q' ∷ b'\'' ∷ b' ' ∷ []))
    ≡ err invalid_escape 1 (b'\'' ∷ b'a' ∷ b'\\' ∷ b'q' ∷ [])
unfolding fill_block get_char is_eof advance lexer_make save save_advance advance_fn check check2
    match_char match_save match2_save expect size get_nesting_loop get_nesting save_equals
    save_bracket close_bracket count_line skip_multiline_loop skip_multiline skip_line_loop
    skip_line skip_bracket_comment skip_comment is_space skip_space skip_whitespace_loop
    skip_whitespace is_upper is_lower is_number is_alpha is_ident consume_loop consume_sequence
    base_of_letter get_base only_space consume_dotted consume_exponent number_of_digits
    number_in_base lstring_to_number read_prefixed make_prefixed make_decimal make_number
    get_escaped read_escape read_character read_string make_string make_long_string starts_comment
    builder_reset single_token identifier_type match_equals make_single make_identifier lex_dot
    lex_symbol lex_token lex_loop lexer_lex token_strings same_text keyword_in keyword_type
escape_refused = refl

-- The text comes in two blocks.
abbrev blocks : Stream
blocks = record { remaining = []; reader = (b'a' ∷ []) ∷ (b'n' ∷ b'd' ∷ b'>' ∷ []) ∷ [] }

abbrev first_state : Lexer
first_state = before 1 (b'a' ∷ []) [] ((b'n' ∷ b'd' ∷ b'>' ∷ []) ∷ [])

abbrev second_state : Lexer
second_state = before 1 (b'>' ∷ []) (b'a' ∷ b'n' ∷ b'd' ∷ []) []

first_token :
    lexer_lex naturals first_state
    ≡ ok (string_token token_and (b'a' ∷ b'n' ∷ b'd' ∷ []), second_state)
unfolding fill_block get_char is_eof advance lexer_make save save_advance advance_fn check check2
    match_char match_save match2_save expect size get_nesting_loop get_nesting save_equals
    save_bracket close_bracket count_line skip_multiline_loop skip_multiline skip_line_loop
    skip_line skip_bracket_comment skip_comment is_space skip_space skip_whitespace_loop
    skip_whitespace is_upper is_lower is_number is_alpha is_ident consume_loop consume_sequence
    base_of_letter get_base only_space consume_dotted consume_exponent number_of_digits
    number_in_base lstring_to_number read_prefixed make_prefixed make_decimal make_number
    get_escaped read_escape read_character read_string make_string make_long_string starts_comment
    builder_reset single_token identifier_type match_equals make_single make_identifier lex_dot
    lex_symbol lex_token lex_loop lexer_lex token_strings same_text keyword_in keyword_type
first_token = refl

lexer_lex_terminates_example : lexer_lex naturals first_state ≢ out_of_fuel
lexer_lex_terminates_example = lexer_lex_terminates naturals first_state

lexer_lex-Ends_example :
    Ends first_state (λ p. Lexed naturals first_state p) (lexer_lex naturals first_state)
lexer_lex-Ends_example = lexer_lex-Ends naturals first_state

one_token : Reads naturals 1 first_state second_state
one_token = next first_token (λ e. cc e) done

Reads-size_example :
    (1 + size second_state ≤ size first_state)
    × (second_state.line + newlines_left second_state
        ≡ first_state.line + newlines_left first_state)
Reads-size_example = Reads-size naturals one_token

lexer_lex-identifier_example :
    lexer_lex naturals (before 3 (b'a' ∷ (b'1' ∷ []) ++ b'+' ∷ []) [] [])
    ≡ ok (string_token token_ident (b'a' ∷ b'1' ∷ []), before 3 (b'+' ∷ []) (b'a' ∷ b'1' ∷ []) [])
unfolding is_alpha is_ident is_number is_upper is_lower IsRun identifier_type keyword_type
    keyword_in same_text token_strings
lexer_lex-identifier_example =
    lexer_lex-identifier 3 b'+' [] [] naturals b'a' (b'1' ∷ []) [] refl (refl, omega arith, tt) refl

consume_sequence-IsRun_example :
    consume_sequence (before 1 ((b'1' ∷ b'2' ∷ []) ++ b'x' ∷ []) [] []) is_number
    ≡ ok (before 1 (b'x' ∷ []) (b'1' ∷ b'2' ∷ []) [])
unfolding is_number IsRun
consume_sequence-IsRun_example =
    consume_sequence-IsRun 1 b'x' [] [] is_number (b'1' ∷ b'2' ∷ []) []
      (refl, omega arith, (refl, omega arith, tt)) refl

lexer_lex-escape_example :
    lexer_lex naturals
      (before 1 (b'"' ∷ (escape (b'a' ∷ b'"' ∷ b'\n' ∷ []) ++ b'"' ∷ b' ' ∷ [])) [] [])
    ≡ ok (
      string_token token_string (b'a' ∷ b'"' ∷ b'\n' ∷ []),
      before 1 (b' ' ∷ []) (b'"' ∷ b'a' ∷ b'"' ∷ b'\n' ∷ []) [],
    )
unfolding IsAscii
lexer_lex-escape_example =
    lexer_lex-escape 1 b' ' [] [] b'"' naturals (b'a' ∷ b'"' ∷ b'\n' ∷ []) [] (inr refl)
      (omega arith, (omega arith, (omega arith, tt)))

lexer_lex-doubled_example :
    lexer_lex naturals
      (before 1 (b'[' ∷ b'[' ∷ ((b'a' ∷ b']' ∷ b'b' ∷ []) ++ b']' ∷ b']' ∷ b' ' ∷ [])) [] [])
    ≡ ok (
      string_token token_string (b'a' ∷ b']' ∷ b']' ∷ b'b' ∷ []),
      before 1 (b' ' ∷ []) (b'[' ∷ b'[' ∷ b'a' ∷ b']' ∷ b']' ∷ b'b' ∷ []) [],
    )
unfolding doubled IsBody
lexer_lex-doubled_example = lexer_lex-doubled b' ' [] [] naturals (b'a' ∷ b']' ∷ b'b' ∷ []) 1 [] (
  omega arith,
  λ e. absurd (omega arith),
  (omega arith, λ e. (omega arith, omega arith), (omega arith, omega arith)),
)

lexer_lex-is_keyword_example :
    lexer_lex naturals (before 1 (token_strings token_and ++ b' ' ∷ []) [] [])
    ≡ ok (
      string_token token_and (token_strings token_and),
      before 1 (b' ' ∷ []) (token_strings token_and) [],
    )
unfolding is_keyword
lexer_lex-is_keyword_example = lexer_lex-is_keyword naturals 1 [] [] [] token_and refl

-- `>=` is read as `>`
lexer_lex-is_symbol_example :
    lexer_lex naturals (before 1 (b'>' ∷ b'=' ∷ b' ' ∷ []) [] [])
    ≡ ok (plain (lexed token_greater_eq), before 1 (b' ' ∷ []) (b'>' ∷ []) [])
unfolding is_symbol token_strings
lexer_lex-is_symbol_example = lexer_lex-is_symbol naturals 1 [] [] [] token_greater_eq refl
