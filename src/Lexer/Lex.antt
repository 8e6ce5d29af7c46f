-- ===== src/Lexer/Lex.antt =====
-- cpp/src/lexer.cpp: `lexer_lex`.
use lulu.Prelude.{ℕ, zero, suc, Bool, true, false, ◌&&◌, ◌||◌, List, [], ◌==◌, if◌then◌else◌}
use lulu.Lexer.{
  Lexer, Result, ok, out_of_fuel, error, unexpected_character, ◌>>=◌, is_eof, advance, save_advance,
  check2, match_char, expect, size,
}
use lulu.Lexer.Loops.{
  skip_whitespace, skip_comment, is_alpha, is_number, is_ident, consume_sequence,
}
use lulu.Lexer.Numbers.{Numerals, make_number}
use lulu.Lexer.Strings.{string_token, make_string, make_long_string}
use lulu.Lexer.Tokens.{
  TokenType, Token, no_payload, keyword_type, token_invalid, token_open_paren, token_close_paren,
  token_open_curly, token_close_curly, token_open_brace, token_close_brace, token_plus, token_dash,
  token_asterisk, token_slash, token_percent, token_caret, token_eq, token_not_eq, token_less,
  token_less_eq, token_greater, token_greater_eq, token_pound, token_dot, token_concat,
  token_vararg, token_comma, token_colon, token_semi, token_assign, token_ident, token_eof,
}

unfoldable pub starts_comment : ℕ → Lexer → Bool
starts_comment ch x = ch == b'-' && x.character == b'-'

unfoldable pub builder_reset : Lexer → Lexer
builder_reset x = record x { buffer = [] }

-- the cases of the switch that only set `type`
unfoldable pub single_token : ℕ → TokenType
single_token ch =
    if ch == b'('
    then token_open_paren
    else if ch == b')'
    then token_close_paren
    else if ch == b'{'
    then token_open_curly
    else if ch == b'}'
    then token_close_curly
    else if ch == b']'
    then token_close_brace
    else if ch == b'+'
    then token_plus
    else if ch == b'*'
    then token_asterisk
    else if ch == b'/'
    then token_slash
    else if ch == b'%'
    then token_percent
    else if ch == b'^'
    then token_caret
    else if ch == b'#'
    then token_pound
    else if ch == b','
    then token_comma
    else if ch == b':'
    then token_colon
    else if ch == b';'
    then token_semi
    else token_invalid

-- the type of a name: its keyword, if it is one
unfoldable pub identifier_type : List ℕ → TokenType
identifier_type text = elim (keyword_type text) [ token_invalid ↦ token_ident | other ↦ other ]

module _ {Number : Type 0} where
  abbrev pub plain : TokenType → Token Number
  plain t = record { type = t; payload = no_payload }

  -- `type = match(x, '=') ? found : other`
  unfoldable pub match_equals : Lexer → TokenType → TokenType → Result (Token Number × Lexer)
  match_equals x found other =
      let (m, y) = match_char x b'=' in ok (plain (if m then found else other), y)

  unfoldable pub make_single : Lexer → TokenType → Result (Token Number × Lexer)
  make_single x token_invalid = error x unexpected_character
  make_single x t = ok (plain t, x)

  unfoldable pub make_identifier : Lexer → Result (Token Number × Lexer)
  make_identifier x = do
    y ← consume_sequence x is_ident
    ok (string_token (identifier_type y.buffer) y.buffer, y)

  module _ (numerals : Numerals Number) where
    -- `case '.'`
    unfoldable pub lex_dot : Lexer → Result (Token Number × Lexer)
    lex_dot x =
        let (second, y) = match_char x b'.' in
        let (third, z) = match_char y b'.' in
        elim second [
          | true ↦ ok (plain (if third then token_vararg else token_concat), z)
          | false ↦ elim (is_number y.character) [
            | true ↦ make_number numerals y false
            | false ↦ ok (plain token_dot, y)
          ]
        ]

    -- the switch; a second `-` is a comment and does not come here
    unfoldable pub lex_symbol : ℕ → Lexer → Result (Token Number × Lexer)
    lex_symbol ch x =
        if ch == b'['
        then (if check2 x b'[' b'=' then make_long_string x else ok (plain token_open_brace, x))
        else if ch == b'-'
        then ok (plain token_dash, x)
        else if ch == b'~'
        then (do y ← expect x b'='; ok (plain token_not_eq, y))
        else if ch == b'='
        then match_equals x token_eq token_assign
        else if ch == b'<'
        then match_equals x token_less_eq token_less
        else if ch == b'>'
        then match_equals x token_greater token_greater_eq
        else if ch == b'.'
        then lex_dot x
        else if ch == b'\'' || ch == b'"'
        then make_string x ch
        else make_single x (single_token ch)

    unfoldable pub lex_token : ℕ → Lexer → Result (Token Number × Lexer)
    lex_token ch x = elim (is_alpha ch) [
      | true ↦ make_identifier x
      | false ↦ elim (is_number ch) [
        | true ↦ make_number numerals x (ch == b'0' && is_alpha x.character)
        | false ↦ lex_symbol ch x
      ]
    ]

    unfoldable pub lex_loop : ℕ → Lexer → Result (Token Number × Lexer)
    lex_loop zero x = out_of_fuel
    lex_loop (suc fuel) x = do
      y ← skip_whitespace (builder_reset x)
      elim (is_eof y) [
        | true ↦ ok (plain token_eof, y)
        | false ↦ do
          (ch, z) ← save_advance y
          elim (starts_comment ch z) [
            | true ↦ do w ← skip_comment (advance z).1; lex_loop fuel w
            | false ↦ lex_token ch z
          ]
      ]

    unfoldable pub lexer_lex : Lexer → Result (Token Number × Lexer)
    lexer_lex x = lex_loop (suc (size x)) x
