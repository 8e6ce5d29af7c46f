-- ===== src/Lexer/Long.antt =====
-- Strings between `[[` and `]]`.
use lulu.Prelude.{
  ℕ, zero, suc, ◌+◌, ◌<◌, ◌≡◌, refl, ◌∙◌, ◌≢◌, inl, inr, true, List, [], ◌∷◌, ◌++◌, arith, ◌==◌,
  if◌then◌else◌, Bool-cases, length, length-append,
}
use mathlib.Core.List.{append_assoc, append-nil}
use lulu.Lexer.{
  ok, get_char, is_eof, advance, save, advance_fn, check, check2, match_char, expect, size,
  contents,
}
use lulu.Lexer.Loops.{
  is_alpha, is_upper, is_lower, is_number, is_space, get_nesting_loop, get_nesting, save_equals,
  save_bracket, close_bracket, count_line, skip_multiline_loop, skip_multiline,
}
use lulu.Lexer.Munch.{before, save_advance-before, lexer_lex-IsStart}
use lulu.Lexer.Numbers.{Numerals}
use lulu.Lexer.Progress.{newline, newlines}
use lulu.Lexer.Strings.{string_token, make_long_string}
use lulu.Lexer.Tokens.{token_string}
use lulu.Lexer.Lex.{lex_symbol, lex_token, lexer_lex}

-- no `]` has a `]` or a `=` behind it, and the text does not end with one
unfoldable pub IsBody : List ℕ → Type 0
IsBody [] = Unit
IsBody (c ∷ []) = (c < 128) × (c ≢ b']')
IsBody (c ∷ d ∷ cs) = (c < 128) × (c ≡ b']' → (d ≢ b']') × (d ≢ b'=')) × IsBody (d ∷ cs)

-- the text with each `]` written twice
unfoldable pub doubled : List ℕ → List ℕ
doubled [] = []
doubled (c ∷ cs) = if c == b']' then b']' ∷ b']' ∷ doubled cs else c ∷ doubled cs

module _ (stop : ℕ) (rest : List ℕ) (blocks : List (List ℕ)) where
  plain_step :
      (fuel line c : ℕ) (cs old : List ℕ)
      → c < 128
      → c ≢ b']'
      → skip_multiline_loop (suc fuel) 0 true (before line (c ∷ (cs ++ stop ∷ rest)) old blocks)
        ≡ skip_multiline_loop fuel 0 true
            (before (line + newline c) (cs ++ stop ∷ rest) (old ++ c ∷ []) blocks)
  unfolding skip_multiline_loop is_eof match_char check advance_fn count_line
  plain_step fuel line c [] old h n =
      ground (arith, save_advance-before line stop rest blocks c [] old h)
  plain_step fuel line c (d ∷ cs) old h n =
      ground (arith, save_advance-before line stop rest blocks c (d ∷ cs) old h)

  bracket_step :
      (fuel line d : ℕ) (cs old : List ℕ)
      → d ≢ b']'
      → d ≢ b'='
      → skip_multiline_loop
          (suc fuel)
          0
          true
          (before line (b']' ∷ d ∷ (cs ++ stop ∷ rest)) old blocks)
        ≡ skip_multiline_loop fuel 0 true
            (before line (d ∷ (cs ++ stop ∷ rest)) (old ++ b']' ∷ b']' ∷ []) blocks)
  unfolding skip_multiline_loop is_eof match_char check advance get_char close_bracket get_nesting
      get_nesting_loop save_bracket save_equals save
  bracket_step fuel line d cs old n e = ground (arith, append_assoc old (b']' ∷ []) (b']' ∷ []))

  end_step :
      (fuel line : ℕ) (old : List ℕ)
      → skip_multiline_loop (suc fuel) 0 true (before line (b']' ∷ b']' ∷ stop ∷ rest) old blocks)
        ≡ ok (before line (stop ∷ rest) old blocks)
  unfolding skip_multiline_loop is_eof match_char check advance get_char close_bracket get_nesting
      get_nesting_loop
  end_step fuel line old = refl

module _ (stop : ℕ) (rest : List ℕ) (blocks : List (List ℕ)) where
  -- the text behind the string
  abbrev closing : List ℕ
  closing = b']' ∷ stop ∷ rest

  skip_multiline_loop-IsBody :
      (body : List ℕ) (fuel line : ℕ) (old : List ℕ)
      → IsBody body
      → length body < fuel
      → skip_multiline_loop fuel 0 true (before line (body ++ b']' ∷ closing) old blocks)
        ≡ ok (before (line + newlines body) (stop ∷ rest) (old ++ doubled body) blocks)
  unfolding doubled IsBody
  skip_multiline_loop-IsBody body zero line old h f = absurd (omega arith)
  skip_multiline_loop-IsBody [] (suc fuel) line old h f =
      ground (arith, end_step stop rest blocks fuel line old, append-nil old)
  skip_multiline_loop-IsBody (c ∷ []) (suc fuel) line old (h, n) f =
      plain_step b']' closing blocks fuel line c [] old h n
      ∙ ground (
        arith,
        skip_multiline_loop-IsBody [] fuel (line + newline c) (old ++ c ∷ []) tt (omega arith),
        append-nil (old ++ c ∷ []),
      )
  skip_multiline_loop-IsBody (c ∷ d ∷ cs) (suc fuel) line old (h, n, more) f =
      elim (Bool-cases (c == b']')) [
        | inl e ↦ ground (
          arith,
          bracket_step b']' closing blocks fuel line d cs old,
          append_assoc old (b']' ∷ b']' ∷ []) (doubled (d ∷ cs)),
          skip_multiline_loop-IsBody (d ∷ cs) fuel line (old ++ b']' ∷ b']' ∷ []) more
              (omega arith),
        )
        | inr e ↦ ground (
          arith,
          plain_step b']' closing blocks fuel line c (d ∷ cs) old h,
          append_assoc old (c ∷ []) (doubled (d ∷ cs)),
          skip_multiline_loop-IsBody (d ∷ cs) fuel (line + newline c) (old ++ c ∷ []) more
              (omega arith),
        )
      ]

  IsBody-byte : (c : ℕ) (cs : List ℕ) → IsBody (c ∷ cs) → c < 128
  unfolding IsBody
  IsBody-byte c [] h = h.0
  IsBody-byte c (d ∷ cs) h = h.0

  body-length :
      (body : List ℕ) (line : ℕ) (old : List ℕ)
      → IsBody body
      → length body < suc (size (before line (body ++ b']' ∷ closing) old blocks))
  unfolding size is_eof IsBody
  body-length [] line old h = ground arith
  body-length (c ∷ cs) line old h = ground (
    arith,
    IsBody-byte c cs h,
    length-append (cs ++ b']' ∷ closing) (contents blocks),
    length-append cs (b']' ∷ closing),
  )

  skip_multiline-IsBody :
      (body : List ℕ) (line : ℕ) (old : List ℕ)
      → IsBody body
      → skip_multiline (before line (body ++ b']' ∷ closing) old blocks) 0 true
        ≡ ok (before (line + newlines body) (stop ∷ rest) (old ++ doubled body) blocks)
  unfolding skip_multiline
  skip_multiline-IsBody body line old h =
      skip_multiline_loop-IsBody body _ line old h (body-length body line old h)

  -- behind the first bracket
  long-rest :
      {Number : Type 0} (body : List ℕ) (line : ℕ)
      → IsBody body
      → make_long_string {Number = Number}
          (before line (b'[' ∷ (body ++ b']' ∷ closing)) (b'[' ∷ []) blocks)
        ≡ ok (
          string_token token_string (doubled body),
          before (line + newlines body) (stop ∷ rest) (b'[' ∷ b'[' ∷ doubled body) blocks,
        )
  unfolding make_long_string get_nesting get_nesting_loop is_eof check expect match_char advance
      get_char save
  long-rest [] line h = rw (skip_multiline-IsBody [] line (b'[' ∷ b'[' ∷ []) h) refl
  long-rest (c ∷ cs) line h = rw (skip_multiline-IsBody (c ∷ cs) line (b'[' ∷ b'[' ∷ []) h) refl

  -- A text of bytes below 128 between `[[` and `]]` in which each `]` has a character other than `]`
  -- and `=` behind it is read as one string token, and its newlines are counted. The string is this
  -- text with every `]` doubled, so only without a `]` is it what was written; a newline right behind
  -- `[[` is a part of it.
  pub lexer_lex-doubled :
      {Number : Type 0} (numerals : Numerals Number) (body : List ℕ) (line : ℕ) (old : List ℕ)
      → IsBody body
      → lexer_lex numerals
          (before line (b'[' ∷ b'[' ∷ (body ++ b']' ∷ b']' ∷ stop ∷ rest)) old blocks)
        ≡ ok (
          string_token token_string (doubled body),
          before (line + newlines body) (stop ∷ rest) (b'[' ∷ b'[' ∷ doubled body) blocks,
        )
  unfolding lex_token lex_symbol is_alpha is_upper is_lower is_number is_space check2 check
  lexer_lex-doubled numerals body line old h =
      lexer_lex-IsStart line b']' closing blocks numerals b'[' (b'[' ∷ body) old
        (refl, omega arith, omega arith, omega arith)
      ∙ long-rest body line h
