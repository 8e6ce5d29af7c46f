-- ===== src/Lexer/Numbers.antt =====
-- cpp/src/lexer.cpp, cpp/src/string.cpp: numbers. `strtoul` and `strtod` of the C library give a
-- value and the text behind it.
use lulu.Prelude.{
  ℕ, zero, suc, Bool, true, false, ◌||◌, ◌&&◌, Option, none, some, List, [], ◌∷◌, ◌==◌,
  if◌then◌else◌, drop,
}
use lulu.Lexer.{
  Lexer, Result, ok, out_of_fuel, error, invalid_prefix, invalid_base, malformed_number, ◌>>=◌,
  save_advance, match_save, match2_save, size,
}
use lulu.Lexer.Loops.{is_number, is_ident, consume_sequence}
use lulu.Lexer.Tokens.{Token, number, token_number}

pub record Numerals (Number : Type 0) : Type 0 where
  pub strtoul : ℕ → List ℕ → ℕ × List ℕ
  pub of_unsigned : ℕ → Number
  pub strtod : List ℕ → Number × List ℕ

unfoldable pub base_of_letter : ℕ → ℕ
base_of_letter ch =
    if ch == b'B' || ch == b'b'
    then 2
    else if ch == b'O' || ch == b'o'
    then 8
    else if ch == b'D' || ch == b'd'
    then 10
    else if ch == b'X' || ch == b'x'
    then 16
    else 0

unfoldable pub get_base : List ℕ → ℕ
unfolding base_of_letter
get_base (a ∷ b ∷ c ∷ s) = if a == b'0' then base_of_letter b else 0
get_base _ = 0

-- the loop over trailing whitespace and the test `last == end(s)`
unfoldable pub only_space : List ℕ → Bool
only_space [] = true
only_space (c ∷ cs) =
    let rest = only_space cs in (c == b' ' || c == b'\t' || c == b'\r' || c == b'\n') && rest

unfoldable pub consume_dotted : ℕ → Lexer → Result Lexer
consume_dotted zero x = out_of_fuel
consume_dotted (suc fuel) x = do
  y ← consume_sequence x is_number
  (dot, z) ← match_save y b'.'
  elim dot [ true ↦ consume_dotted fuel z | false ↦ ok z ]

unfoldable pub consume_exponent : Lexer → Result Lexer
consume_exponent x = do
  (exponent, y) ← match2_save x b'e' b'E'
  elim exponent [
    | true ↦ do (sign, z) ← match2_save y b'+' b'-'; consume_sequence z is_number
    | false ↦ ok y
  ]

module _ {Number : Type 0} (numerals : Numerals Number) where
  abbrev finish : Number × List ℕ → Option Number
  finish (n, last) = if only_space last then some n else none

  unfoldable pub number_of_digits : ℕ → List ℕ → Option Number
  number_of_digits base [] = none
  number_of_digits base s =
      let (ul, last) = numerals.strtoul base s in finish (numerals.of_unsigned ul, last)

  unfoldable pub number_in_base : ℕ → List ℕ → Option Number
  number_in_base zero s = finish (numerals.strtod s)
  number_in_base (suc b) s = number_of_digits (suc b) s

  unfoldable pub lstring_to_number : List ℕ → ℕ → Option Number
  lstring_to_number s zero =
      let base = get_base s in number_in_base base (if base == 0 then s else drop 2 s)
  lstring_to_number s (suc b) = number_in_base (suc b) s

  abbrev pub number_token : Number → Token Number
  number_token d = record { type = token_number; payload = number d }

  abbrev pub or_error : Lexer → Option Number → ℕ → Result (Token Number × Lexer)
  or_error x none base = error x (if base == 0 then malformed_number else invalid_base base)
  or_error x (some d) base = ok (number_token d, x)

  unfoldable pub read_prefixed : ℕ → Lexer → Result (Token Number × Lexer)
  read_prefixed zero x = error x invalid_prefix
  read_prefixed (suc b) x = do
    y ← consume_sequence x is_ident
    or_error y (lstring_to_number (drop 2 y.buffer) (suc b)) (suc b)

  -- the first part of `make_number`, where the number is prefixed
  unfoldable pub make_prefixed : Lexer → Result (Token Number × Lexer)
  make_prefixed x = do (ch, y) ← save_advance x; read_prefixed (base_of_letter ch) y

  unfoldable pub make_decimal : Lexer → Result (Token Number × Lexer)
  make_decimal x = do
    y ← consume_dotted (suc (size x)) x
    z ← consume_exponent y
    w ← consume_sequence z is_ident
    or_error w (lstring_to_number w.buffer 0) 0

  unfoldable pub make_number : Lexer → Bool → Result (Token Number × Lexer)
  make_number x prefixed = elim prefixed [ true ↦ make_prefixed x | false ↦ make_decimal x ]
