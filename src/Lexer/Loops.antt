-- ===== src/Lexer/Loops.antt =====
-- cpp/src/lexer.cpp: the loops over the characters. Each has `size` as its fuel, and one more.
use lulu.Prelude.{ℕ, zero, suc, ◌+◌, Bool, true, false, not, ◌&&◌, ◌||◌, leb, ◌==◌, if◌then◌else◌}
use lulu.Lexer.{
  Lexer, Result, ok, out_of_fuel, error, unterminated_multiline, ◌>>=◌, is_eof, advance, save,
  save_advance, advance_fn, check, match_char, size,
}

unfoldable pub get_nesting_loop : ℕ → Bool → ℕ → Lexer → Result (ℕ × Lexer)
get_nesting_loop zero do_save count x = out_of_fuel
get_nesting_loop (suc fuel) do_save count x = elim (not (is_eof x) && check x b'=') [
  | true ↦ do (ch, y) ← advance_fn do_save x; get_nesting_loop fuel do_save (suc count) y
  | false ↦ ok (count, x)
]

unfoldable pub get_nesting : Lexer → Bool → Result (ℕ × Lexer)
get_nesting x do_save = get_nesting_loop (suc (size x)) do_save 0 x

-- the `for` loop that saves the `=` of a bracket that did not close
unfoldable pub save_equals : ℕ → Lexer → Result Lexer
save_equals zero x = ok x
save_equals (suc n) x = do y ← save x b'='; save_equals n y

unfoldable pub save_bracket : Bool → ℕ → Lexer → Result Lexer
save_bracket false nest_close x = ok x
save_bracket true nest_close x = do y ← save x b']'; z ← save_equals nest_close y; save z b']'

-- behind a `]`: the lexer, and whether the sequence ended
unfoldable pub close_bracket : ℕ → Bool → Lexer → Result (Bool × Lexer)
close_bracket nest_open do_save x = do
  (nest_close, y) ← get_nesting x false
  let (found, z) = match_char y b']'
  elim (found && nest_open == nest_close) [
    | true ↦ ok (true, z)
    | false ↦ do w ← save_bracket do_save nest_close z; ok (false, w)
  ]

unfoldable pub count_line : ℕ → Lexer → Lexer
count_line ch x = if ch == b'\n' then record x { line = x.line + 1 } else x

unfoldable pub skip_multiline_loop : ℕ → ℕ → Bool → Lexer → Result Lexer
skip_multiline_loop zero nest_open do_save x = out_of_fuel
skip_multiline_loop (suc fuel) nest_open do_save x =
    let (bracket, y) = match_char x b']' in
    elim (is_eof x) [
      | true ↦ error x unterminated_multiline
      | false ↦ elim bracket [
        | true ↦ do
          (ended, z) ← close_bracket nest_open do_save y
          elim ended [ true ↦ ok z | false ↦ skip_multiline_loop fuel nest_open do_save z ]
        | false ↦ do
          (ch, z) ← advance_fn do_save y
          skip_multiline_loop fuel nest_open do_save (count_line ch z)
      ]
    ]

unfoldable pub skip_multiline : Lexer → ℕ → Bool → Result Lexer
skip_multiline x nest_open do_save = skip_multiline_loop (suc (size x)) nest_open do_save x

unfoldable pub skip_line_loop : ℕ → Lexer → Result Lexer
skip_line_loop zero x = out_of_fuel
skip_line_loop (suc fuel) x = elim (not (is_eof x) && not (check x b'\n')) [
  | true ↦ skip_line_loop fuel (advance x).1
  | false ↦ ok x
]

unfoldable pub skip_line : Lexer → Result Lexer
skip_line x = skip_line_loop (suc (size x)) x

-- behind the first `[` of a comment
unfoldable pub skip_bracket_comment : Lexer → Result Lexer
skip_bracket_comment x = do
  (nest_open, y) ← get_nesting x false
  let (second, z) = match_char y b'['
  elim second [ true ↦ skip_multiline z nest_open false | false ↦ skip_line z ]

unfoldable pub skip_comment : Lexer → Result Lexer
skip_comment x =
    let (bracket, y) = match_char x b'[' in
    elim bracket [ true ↦ skip_bracket_comment y | false ↦ skip_line y ]

unfoldable pub is_space : ℕ → Bool
is_space ch = ch == b'\n' || ch == b' ' || ch == b'\r' || ch == b'\t'

-- one round of `skip_whitespace`
unfoldable pub skip_space : Lexer → Lexer
skip_space x = (advance (count_line x.character x)).1

unfoldable pub skip_whitespace_loop : ℕ → Lexer → Result Lexer
skip_whitespace_loop zero x = out_of_fuel
skip_whitespace_loop (suc fuel) x = elim (is_space x.character) [
  | true ↦ skip_whitespace_loop fuel (skip_space x)
  | false ↦ ok x
]

unfoldable pub skip_whitespace : Lexer → Result Lexer
skip_whitespace x = skip_whitespace_loop (suc (size x)) x

unfoldable pub is_upper : ℕ → Bool
is_upper ch = leb b'A' ch && leb ch b'Z'

unfoldable pub is_lower : ℕ → Bool
is_lower ch = leb b'a' ch && leb ch b'z'

unfoldable pub is_number : ℕ → Bool
is_number ch = leb b'0' ch && leb ch b'9'

unfoldable pub is_alpha : ℕ → Bool
unfolding is_upper is_lower
is_alpha ch = is_upper ch || is_lower ch || ch == b'_'

unfoldable pub is_ident : ℕ → Bool
unfolding is_alpha is_number
is_ident ch = is_alpha ch || is_number ch

unfoldable pub consume_loop : ℕ → (ℕ → Bool) → Lexer → Result Lexer
consume_loop zero predicate x = out_of_fuel
consume_loop (suc fuel) predicate x = elim (not (is_eof x) && predicate x.character) [
  | true ↦ do (ch, y) ← save_advance x; consume_loop fuel predicate y
  | false ↦ ok x
]

unfoldable pub consume_sequence : Lexer → (ℕ → Bool) → Result Lexer
consume_sequence x predicate = consume_loop (suc (size x)) predicate x
