-- ===== src/Lexer/Tokens.antt =====
-- cpp/src/lexer.hpp, lexer.cpp: the tokens, their texts and the keywords.
use lulu.Prelude.{ℕ, Bool, true, false, ◌&&◌, List, [], ◌∷◌, ◌==◌, if◌then◌else◌}

pub data TokenType : Type 0 where
  token_invalid token_and token_break token_do token_else token_elseif token_end : TokenType
  token_false token_for token_function token_if token_in token_local token_nil token_not : TokenType
  token_or token_repeat token_return token_then token_true token_until token_while : TokenType
  token_open_paren token_close_paren token_open_curly token_close_curly token_open_brace : TokenType
  token_close_brace token_plus token_dash token_asterisk token_slash token_percent : TokenType
  token_caret token_eq token_not_eq token_less token_less_eq token_greater : TokenType
  token_greater_eq token_pound token_dot token_concat token_vararg token_comma token_colon :
      TokenType
  token_semi token_assign token_ident token_number token_string token_eof : TokenType

-- `Token`: the union holds a number or an interned string, here its text. `Token::make` with no
-- number holds the number 0, which is `no_payload`.
pub data Payload (Number : Type 0) : Type 0 where
  no_payload : Payload Number
  number : Number → Payload Number
  ostring : List ℕ → Payload Number

pub record Token (Number : Type 0) : Type 0 where
  pub type : TokenType
  pub payload : Payload Number

unfoldable pub token_strings : TokenType → List ℕ
token_strings token_and = b'a' ∷ b'n' ∷ b'd' ∷ []
token_strings token_break = b'b' ∷ b'r' ∷ b'e' ∷ b'a' ∷ b'k' ∷ []
token_strings token_do = b'd' ∷ b'o' ∷ []
token_strings token_else = b'e' ∷ b'l' ∷ b's' ∷ b'e' ∷ []
token_strings token_elseif = b'e' ∷ b'l' ∷ b's' ∷ b'e' ∷ b'i' ∷ b'f' ∷ []
token_strings token_end = b'e' ∷ b'n' ∷ b'd' ∷ []
token_strings token_false = b'f' ∷ b'a' ∷ b'l' ∷ b's' ∷ b'e' ∷ []
token_strings token_for = b'f' ∷ b'o' ∷ b'r' ∷ []
token_strings token_function = b'f' ∷ b'u' ∷ b'n' ∷ b'c' ∷ b't' ∷ b'i' ∷ b'o' ∷ b'n' ∷ []
token_strings token_if = b'i' ∷ b'f' ∷ []
token_strings token_in = b'i' ∷ b'n' ∷ []
token_strings token_local = b'l' ∷ b'o' ∷ b'c' ∷ b'a' ∷ b'l' ∷ []
token_strings token_nil = b'n' ∷ b'i' ∷ b'l' ∷ []
token_strings token_not = b'n' ∷ b'o' ∷ b't' ∷ []
token_strings token_or = b'o' ∷ b'r' ∷ []
token_strings token_repeat = b'r' ∷ b'e' ∷ b'p' ∷ b'e' ∷ b'a' ∷ b't' ∷ []
token_strings token_return = b'r' ∷ b'e' ∷ b't' ∷ b'u' ∷ b'r' ∷ b'n' ∷ []
token_strings token_then = b't' ∷ b'h' ∷ b'e' ∷ b'n' ∷ []
token_strings token_true = b't' ∷ b'r' ∷ b'u' ∷ b'e' ∷ []
token_strings token_until = b'u' ∷ b'n' ∷ b't' ∷ b'i' ∷ b'l' ∷ []
token_strings token_while = b'w' ∷ b'h' ∷ b'i' ∷ b'l' ∷ b'e' ∷ []
token_strings token_open_paren = b'(' ∷ []
token_strings token_close_paren = b')' ∷ []
token_strings token_open_curly = b'{' ∷ []
token_strings token_close_curly = b'}' ∷ []
token_strings token_open_brace = b'[' ∷ []
token_strings token_close_brace = b']' ∷ []
token_strings token_plus = b'+' ∷ []
token_strings token_dash = b'-' ∷ []
token_strings token_asterisk = b'*' ∷ []
token_strings token_slash = b'/' ∷ []
token_strings token_percent = b'/' ∷ []
token_strings token_caret = b'^' ∷ []
token_strings token_eq = b'=' ∷ b'=' ∷ []
token_strings token_not_eq = b'~' ∷ b'=' ∷ []
token_strings token_less = b'<' ∷ []
token_strings token_less_eq = b'<' ∷ b'=' ∷ []
token_strings token_greater = b'>' ∷ []
token_strings token_greater_eq = b'>' ∷ b'=' ∷ []
token_strings token_pound = b'#' ∷ []
token_strings token_dot = b'.' ∷ []
token_strings token_concat = b'.' ∷ b'.' ∷ []
token_strings token_vararg = b'.' ∷ b'.' ∷ b'.' ∷ []
token_strings token_comma = b',' ∷ []
token_strings token_colon = b':' ∷ []
token_strings token_semi = b';' ∷ []
token_strings token_assign = b'=' ∷ []
token_strings token_ident = b'<' ∷ b'i' ∷ b'd' ∷ b'e' ∷ b'n' ∷ b't' ∷ b'>' ∷ []
token_strings token_number = b'<' ∷ b'n' ∷ b'u' ∷ b'm' ∷ b'b' ∷ b'e' ∷ b'r' ∷ b'>' ∷ []
token_strings token_string = b'<' ∷ b's' ∷ b't' ∷ b'r' ∷ b'i' ∷ b'n' ∷ b'g' ∷ b'>' ∷ []
token_strings token_eof = b'<' ∷ b'e' ∷ b'o' ∷ b'f' ∷ b'>' ∷ []
token_strings token_invalid = []

-- the loop of `lexer_global_init`
abbrev pub keywords : List TokenType
keywords =
    token_and ∷ token_break ∷ token_do ∷ token_else ∷ token_elseif ∷ token_end ∷ token_false
    ∷ token_for ∷ token_function ∷ token_if ∷ token_in ∷ token_local ∷ token_nil ∷ token_not
    ∷ token_or ∷ token_repeat ∷ token_return ∷ token_then ∷ token_true ∷ token_until ∷ token_while
    ∷ []

unfoldable pub same_text : List ℕ → List ℕ → Bool
same_text [] [] = true
same_text (a ∷ xs) (b ∷ ys) = (a == b) && same_text xs ys
same_text _ _ = false

unfoldable pub keyword_in : List TokenType → List ℕ → TokenType
unfolding same_text token_strings
keyword_in [] text = token_invalid
keyword_in (t ∷ ts) text =
    let later = keyword_in ts text in if same_text (token_strings t) text then t else later

-- `keyword_type` of the interned string with this text
unfoldable pub keyword_type : List ℕ → TokenType
unfolding keyword_in
keyword_type = keyword_in keywords
