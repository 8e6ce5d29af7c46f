-- ===== src/Lexer/Fixed.antt =====
-- The tokens with a fixed text: `lexer_lex` on the texts of `token_strings`.
use lulu.Prelude.{ℕ, ◌≡◌, refl, Bool, true, false, List, take, ◌∷◌, ◌++◌}
use lulu.Lexer.{
  ok, fill_block, get_char, is_eof, advance, save, save_advance, check, check2, match_char, expect,
  size,
}
use lulu.Lexer.Loops.{
  is_space, skip_whitespace_loop, skip_whitespace, is_upper, is_lower, is_number, is_alpha,
  is_ident, consume_loop, consume_sequence,
}
use lulu.Lexer.Numbers.{Numerals}
use lulu.Lexer.Munch.{before}
use lulu.Lexer.Strings.{string_token}
use lulu.Lexer.Tokens.{
  TokenType, token_strings, keyword_type, same_text, keyword_in, token_slash, token_percent,
  token_and, token_break, token_do, token_else, token_elseif, token_end, token_false, token_for,
  token_function, token_if, token_in, token_local, token_nil, token_not, token_or, token_repeat,
  token_return, token_then, token_true, token_until, token_while, token_open_paren,
  token_close_paren, token_open_curly, token_close_curly, token_open_brace, token_close_brace,
  token_plus, token_dash, token_asterisk, token_caret, token_eq, token_not_eq, token_less,
  token_less_eq, token_greater, token_greater_eq, token_pound, token_dot, token_concat,
  token_vararg, token_comma, token_colon, token_semi, token_assign,
}
use lulu.Lexer.Lex.{
  builder_reset, single_token, plain, match_equals, make_single, make_identifier, identifier_type,
  lex_dot, lex_symbol, lex_token, starts_comment, lex_loop, lexer_lex,
}

unfoldable pub is_keyword : TokenType → Bool
is_keyword token_and = true
is_keyword token_break = true
is_keyword token_do = true
is_keyword token_else = true
is_keyword token_elseif = true
is_keyword token_end = true
is_keyword token_false = true
is_keyword token_for = true
is_keyword token_function = true
is_keyword token_if = true
is_keyword token_in = true
is_keyword token_local = true
is_keyword token_nil = true
is_keyword token_not = true
is_keyword token_or = true
is_keyword token_repeat = true
is_keyword token_return = true
is_keyword token_then = true
is_keyword token_true = true
is_keyword token_until = true
is_keyword token_while = true
is_keyword _ = false

-- tokens other than keywords whose text is always the same
unfoldable pub is_symbol : TokenType → Bool
is_symbol token_open_paren = true
is_symbol token_close_paren = true
is_symbol token_open_curly = true
is_symbol token_close_curly = true
is_symbol token_open_brace = true
is_symbol token_close_brace = true
is_symbol token_plus = true
is_symbol token_dash = true
is_symbol token_asterisk = true
is_symbol token_slash = true
is_symbol token_percent = true
is_symbol token_caret = true
is_symbol token_eq = true
is_symbol token_not_eq = true
is_symbol token_less = true
is_symbol token_less_eq = true
is_symbol token_greater = true
is_symbol token_greater_eq = true
is_symbol token_pound = true
is_symbol token_dot = true
is_symbol token_concat = true
is_symbol token_vararg = true
is_symbol token_comma = true
is_symbol token_colon = true
is_symbol token_semi = true
is_symbol token_assign = true
is_symbol _ = false

-- What the text of a token is read as: `>` and `>=` are exchanged, and the text of `%` is a slash.
unfoldable pub lexed : TokenType → TokenType
lexed token_greater = token_greater_eq
lexed token_greater_eq = token_greater
lexed token_percent = token_slash
lexed t = t

module _ {Number : Type 0} (numerals : Numerals Number) (line : ℕ) (rest old : List ℕ)
    (blocks : List (List ℕ)) where
  -- The text of a keyword, with a space behind it, is read as that keyword, and the lexer stops in
  -- front of the space.
  pub lexer_lex-is_keyword :
      (t : TokenType)
      → is_keyword t ≡ true
      → lexer_lex numerals (before line (token_strings t ++ b' ' ∷ rest) old blocks)
        ≡ ok (string_token t (token_strings t), before line (b' ' ∷ rest) (token_strings t) blocks)
  unfolding is_keyword fill_block get_char is_eof advance save save_advance check check2 match_char
      expect size is_space skip_whitespace_loop skip_whitespace is_upper is_lower is_number is_alpha
      is_ident consume_loop consume_sequence builder_reset single_token match_equals make_single
      make_identifier identifier_type lex_dot lex_symbol lex_token starts_comment lex_loop lexer_lex
      keyword_type keyword_in same_text token_strings
  lexer_lex-is_keyword token_and h = refl
  lexer_lex-is_keyword token_break h = refl
  lexer_lex-is_keyword token_do h = refl
  lexer_lex-is_keyword token_else h = refl
  lexer_lex-is_keyword token_elseif h = refl
  lexer_lex-is_keyword token_end h = refl
  lexer_lex-is_keyword token_false h = refl
  lexer_lex-is_keyword token_for h = refl
  lexer_lex-is_keyword token_function h = refl
  lexer_lex-is_keyword token_if h = refl
  lexer_lex-is_keyword token_in h = refl
  lexer_lex-is_keyword token_local h = refl
  lexer_lex-is_keyword token_nil h = refl
  lexer_lex-is_keyword token_not h = refl
  lexer_lex-is_keyword token_or h = refl
  lexer_lex-is_keyword token_repeat h = refl
  lexer_lex-is_keyword token_return h = refl
  lexer_lex-is_keyword token_then h = refl
  lexer_lex-is_keyword token_true h = refl
  lexer_lex-is_keyword token_until h = refl
  lexer_lex-is_keyword token_while h = refl
  lexer_lex-is_keyword _ h = absurd (cc h)

  -- The text of an operator or a bracket, with a space behind it, is read as one token, and the
  -- lexer stops in front of the space. It is the token of that text, only `>` and `>=` come out
  -- exchanged and `%`, whose text is given as a slash, as `/`.
  pub lexer_lex-is_symbol :
      (t : TokenType)
      → is_symbol t ≡ true
      → lexer_lex numerals (before line (token_strings t ++ b' ' ∷ rest) old blocks)
        ≡ ok (plain (lexed t), before line (b' ' ∷ rest) (take 1 (token_strings t)) blocks)
  unfolding is_symbol lexed fill_block get_char is_eof advance save save_advance check check2
      match_char expect size is_space skip_whitespace_loop skip_whitespace is_upper is_lower
      is_number is_alpha is_ident consume_loop consume_sequence builder_reset single_token
      match_equals make_single make_identifier identifier_type lex_dot lex_symbol lex_token
      starts_comment lex_loop lexer_lex keyword_type keyword_in same_text token_strings
  lexer_lex-is_symbol token_open_paren h = refl
  lexer_lex-is_symbol token_close_paren h = refl
  lexer_lex-is_symbol token_open_curly h = refl
  lexer_lex-is_symbol token_close_curly h = refl
  lexer_lex-is_symbol token_open_brace h = refl
  lexer_lex-is_symbol token_close_brace h = refl
  lexer_lex-is_symbol token_plus h = refl
  lexer_lex-is_symbol token_dash h = refl
  lexer_lex-is_symbol token_asterisk h = refl
  lexer_lex-is_symbol token_slash h = refl
  lexer_lex-is_symbol token_percent h = refl
  lexer_lex-is_symbol token_caret h = refl
  lexer_lex-is_symbol token_eq h = refl
  lexer_lex-is_symbol token_not_eq h = refl
  lexer_lex-is_symbol token_less h = refl
  lexer_lex-is_symbol token_less_eq h = refl
  lexer_lex-is_symbol token_greater h = refl
  lexer_lex-is_symbol token_greater_eq h = refl
  lexer_lex-is_symbol token_pound h = refl
  lexer_lex-is_symbol token_dot h = refl
  lexer_lex-is_symbol token_concat h = refl
  lexer_lex-is_symbol token_vararg h = refl
  lexer_lex-is_symbol token_comma h = refl
  lexer_lex-is_symbol token_colon h = refl
  lexer_lex-is_symbol token_semi h = refl
  lexer_lex-is_symbol token_assign h = refl
  lexer_lex-is_symbol _ h = absurd (cc h)
