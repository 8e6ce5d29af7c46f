-- ===== src/Lexer/Quoting.antt =====
-- Quoted strings: what a printer that escapes quotes, backslashes and newlines writes is read back.
use lulu.Prelude.{
  ℕ, zero, suc, ◌<◌, ◌≤◌, ◌≡◌, ◌∙◌, ◌⊎◌, ◌||◌, List, [], ◌∷◌, ◌++◌, arith, ◌==◌, if◌then◌else◌,
  length, length-append,
}
use mathlib.Core.List.{append_assoc, append-nil}
use lulu.Lexer.{
  Lexer, ok, get_char, is_eof, advance, save, check, check2, match_char, expect, size, contents,
}
use lulu.Lexer.Loops.{is_alpha, is_upper, is_lower, is_number, is_space}
use lulu.Lexer.Munch.{before, lexer_lex-IsStart}
use lulu.Lexer.Numbers.{Numerals}
use lulu.Lexer.Strings.{
  string_token, get_escaped, read_escape, read_character, read_string, make_string,
}
use lulu.Lexer.Tokens.{token_string}
use lulu.Lexer.Lex.{lex_symbol, lex_token, lexer_lex}

-- the spelling of a character in a quoted string
unfoldable pub escape_char : ℕ → List ℕ
escape_char c =
    if c == b'\n'
    then b'\\' ∷ b'n' ∷ []
    else if c == b'\'' || c == b'"' || c == b'\\'
    then b'\\' ∷ c ∷ []
    else c ∷ []

unfoldable pub escape : List ℕ → List ℕ
escape [] = []
escape (c ∷ cs) = escape_char c ++ escape cs

unfoldable pub IsAscii : List ℕ → Type 0
IsAscii [] = Unit
IsAscii (c ∷ cs) = (c < 128) × IsAscii cs

module _ (line stop : ℕ) (rest : List ℕ) (blocks : List (List ℕ)) where
  read_string-escape_char :
      (fuel q c : ℕ) (cs old : List ℕ)
      → (q ≡ b'\'') ⊎ (q ≡ b'"')
      → c < 128
      → read_string (suc fuel) q (before line (escape_char c ++ (cs ++ stop ∷ rest)) old blocks)
        ≡ read_string fuel q (before line (cs ++ stop ∷ rest) (old ++ c ∷ []) blocks)
  unfolding read_string is_eof check2 check read_character read_escape advance get_char get_escaped
      save escape_char
  read_string-escape_char fuel q c [] old quote h = ground arith
  read_string-escape_char fuel q c (d ∷ cs) old quote h = ground arith

  -- at the closing quote
  read_string_end :
      (fuel : ℕ) (old : List ℕ)
      → stop < 128
      → read_string (suc fuel) stop (before line (stop ∷ rest) old blocks)
        ≡ ok (before line (stop ∷ rest) old blocks)
  unfolding read_string is_eof check2 check
  read_string_end fuel old h = ground arith

module _ (line stop : ℕ) (rest : List ℕ) (blocks : List (List ℕ)) (q : ℕ) where
  read_string-escape :
      (s : List ℕ) (fuel : ℕ) (old : List ℕ)
      → (q ≡ b'\'') ⊎ (q ≡ b'"')
      → IsAscii s
      → length s < fuel
      → read_string fuel q (before line (escape s ++ q ∷ stop ∷ rest) old blocks)
        ≡ ok (before line (q ∷ stop ∷ rest) (old ++ s) blocks)
  unfolding escape IsAscii
  read_string-escape s zero old quote h f = absurd (omega arith)
  read_string-escape [] (suc fuel) old quote h f =
      ground (arith, read_string_end line q (stop ∷ rest) blocks fuel old, append-nil old)
  read_string-escape (c ∷ cs) (suc fuel) old quote (h, more) f = ground (
    arith,
    append_assoc (escape_char c) (escape cs) (q ∷ stop ∷ rest),
    append_assoc old (c ∷ []) cs,
    read_string-escape_char line q (stop ∷ rest) blocks fuel q c (escape cs) old quote h,
    read_string-escape cs fuel (old ++ c ∷ []) quote more (omega arith),
  )

  escape-length : (s : List ℕ) → length s ≤ length (escape s)
  unfolding escape escape_char
  escape-length [] = omega arith
  escape-length (c ∷ cs) =
      ground (arith, escape-length cs, length-append (escape_char c) (escape cs))

  size-escape :
      (s : List ℕ) (old : List ℕ)
      → (q ≡ b'\'') ⊎ (q ≡ b'"')
      → IsAscii s
      → length s < suc (size (before line (escape s ++ q ∷ stop ∷ rest) old blocks))
  unfolding size is_eof escape escape_char IsAscii
  size-escape [] old quote h = ground arith
  size-escape (c ∷ cs) old quote (h, more) = ground (
    arith,
    escape-length cs,
    length-append (escape cs ++ q ∷ stop ∷ rest) (contents blocks),
    length-append (escape cs) (q ∷ stop ∷ rest),
  )

  quoted-rest :
      {Number : Type 0} (s : List ℕ)
      → (q ≡ b'\'') ⊎ (q ≡ b'"')
      → IsAscii s
      → make_string {Number = Number} (before line (escape s ++ q ∷ stop ∷ rest) (q ∷ []) blocks) q
        ≡ ok (string_token token_string s, before line (stop ∷ rest) (q ∷ s) blocks)
  unfolding make_string expect match_char check advance get_char
  quoted-rest s quote h =
      ground (arith, read_string-escape s _ (q ∷ []) quote h (size-escape s (q ∷ []) quote h))

  symbol_lem :
      {Number : Type 0} (numerals : Numerals Number) (x : Lexer)
      → (q ≡ b'\'') ⊎ (q ≡ b'"')
      → lex_token numerals q x ≡ make_string x q
  unfolding lex_token lex_symbol is_alpha is_upper is_lower is_number
  symbol_lem numerals x quote = ground arith

  -- A text of characters below 128, written between two equal quotes with `\n` for each newline and
  -- a backslash before each quote and backslash, is read as one string token that holds this text.
  pub lexer_lex-escape :
      {Number : Type 0} (numerals : Numerals Number) (s old : List ℕ)
      → (q ≡ b'\'') ⊎ (q ≡ b'"')
      → IsAscii s
      → lexer_lex numerals (before line (q ∷ (escape s ++ q ∷ stop ∷ rest)) old blocks)
        ≡ ok (string_token token_string s, before line (stop ∷ rest) (q ∷ s) blocks)
  unfolding is_space
  lexer_lex-escape numerals s old quote h =
      lexer_lex-IsStart line q (stop ∷ rest) blocks numerals q (escape s) old
        (ground arith, ground arith, ground arith, ground arith)
      ∙ symbol_lem numerals _ quote
      ∙ quoted-rest s quote h
