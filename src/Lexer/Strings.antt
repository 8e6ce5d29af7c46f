-- ===== src/Lexer/Strings.antt =====
-- cpp/src/lexer.cpp: quoted strings and strings in long brackets. `lexer_new_ostring` interns the
-- text, which the token holds here.
use lulu.Prelude.{ℕ, zero, suc, ◌+◌, true, false, not, ◌&&◌, ◌||◌, List, ◌==◌, if◌then◌else◌, drop}
use lulu.Lexer.{
  Lexer, Result, ok, out_of_fuel, error, invalid_escape, ◌>>=◌, is_eof, advance, save, check2,
  expect, size,
}
use lulu.Lexer.Loops.{get_nesting, skip_multiline}
use lulu.Lexer.Tokens.{TokenType, Token, ostring, token_string}

abbrev pub bad_escape {ℓ} : {A : Type ℓ} → Lexer → ℕ → Result A
bad_escape x ch = do y ← save x b'\\'; z ← save y ch; error z invalid_escape

unfoldable pub get_escaped : Lexer → ℕ → Result (ℕ × Lexer)
get_escaped x ch =
    if ch == b'0'
    then ok (0, x)
    else if ch == b'a'
    then ok (7, x)
    else if ch == b'b'
    then ok (8, x)
    else if ch == b'f'
    then ok (12, x)
    else if ch == b'n'
    then ok (10, x)
    else if ch == b't'
    then ok (9, x)
    else if ch == b'r'
    then ok (13, x)
    else if ch == b'v'
    then ok (11, x)
    else if ch == b'\n'
    then ok (ch, record x { line = x.line + 1 })
    else if ch == b'\'' || ch == b'"' || ch == b'\\'
    then ok (ch, x)
    else bad_escape x ch

-- the character behind a backslash
unfoldable pub read_escape : Lexer → Result Lexer
read_escape x = do let (c, y) = advance x; (e, z) ← get_escaped y c; save z e

-- one round of the loop of `make_string`
unfoldable pub read_character : Lexer → Result Lexer
read_character x = let (ch, y) = advance x in if ch == b'\\' then read_escape y else save y ch

unfoldable pub read_string : ℕ → ℕ → Lexer → Result Lexer
read_string zero q x = out_of_fuel
read_string (suc fuel) q x = elim (not (is_eof x) && not (check2 x q b'\n')) [
  | true ↦ do y ← read_character x; read_string fuel q y
  | false ↦ ok x
]

module _ {Number : Type 0} where
  abbrev pub string_token : TokenType → List ℕ → Token Number
  string_token t text = record { type = t; payload = ostring text }

  unfoldable pub make_string : Lexer → ℕ → Result (Token Number × Lexer)
  make_string x q = do
    y ← read_string (suc (size x)) q x
    z ← expect y q
    ok (string_token token_string (drop 1 z.buffer), z)

  -- `case '['`, behind `check2(x, '[', '=')`
  unfoldable pub make_long_string : Lexer → Result (Token Number × Lexer)
  make_long_string x = do
    (nest_open, y) ← get_nesting x true
    z ← expect y b'['
    w ← save z b'['
    v ← skip_multiline w nest_open true
    ok (string_token token_string (drop (nest_open + 2) v.buffer), v)
