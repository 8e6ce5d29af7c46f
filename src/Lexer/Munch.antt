-- ===== src/Lexer/Munch.antt =====
-- Runs of characters: `consume_sequence` takes the longest one, and identifiers are read whole.
use lulu.Prelude.{
  ℕ, zero, suc, ◌<◌, ◌≡◌, refl, ◌∙◌, ◌≢◌, Bool, true, false, List, [], ◌∷◌, ◌++◌, arith, length,
  length-append, lt→ltb,
}
use mathlib.Core.List.{append_assoc, append-nil}
use lulu.Lexer.{
  Lexer, ok, fill_block, get_char, is_eof, advance, save, save_advance, size, contents,
}
use lulu.Lexer.Loops.{
  is_space, skip_whitespace_loop, skip_whitespace, is_upper, is_lower, is_alpha, is_ident,
  consume_loop, consume_sequence,
}
use lulu.Lexer.Numbers.{Numerals}
use lulu.Lexer.Strings.{string_token}
use lulu.Lexer.Lex.{
  builder_reset, make_identifier, identifier_type, lex_token, starts_comment, lex_loop, lexer_lex,
}

-- the lexer in front of a text
abbrev pub before : ℕ → List ℕ → List ℕ → List (List ℕ) → Lexer
before line (c ∷ cs) old blocks = record {
  line = line;
  character = c;
  stream = record { remaining = cs; reader = blocks };
  buffer = old;
}
before line [] old blocks = record {
  line = line;
  character = 255;
  stream = record { remaining = []; reader = blocks };
  buffer = old;
}

-- every character has the class, and can be saved
unfoldable pub IsRun : (ℕ → Bool) → List ℕ → Type 0
IsRun predicate [] = Unit
IsRun predicate (c ∷ cs) = (predicate c ≡ true) × (c < 128) × IsRun predicate cs

-- a first character that no white space, no comment and no end is read for
abbrev pub IsStart : ℕ → Type 0
IsStart c = (is_space c ≡ false) × (c ≢ 255) × (c < 128) × (c ≢ b'-')

alpha-IsStart : (c : ℕ) → is_alpha c ≡ true → IsStart c
unfolding is_space is_alpha is_upper is_lower
alpha-IsStart c h = (ground arith, ground arith, ground arith, ground arith)

module _ (line stop : ℕ) (rest : List ℕ) (blocks : List (List ℕ)) where
  pub save_advance-before :
      (c : ℕ) (cs old : List ℕ)
      → c < 128
      → save_advance (before line (c ∷ (cs ++ stop ∷ rest)) old blocks)
        ≡ ok (c, before line (cs ++ stop ∷ rest) (old ++ c ∷ []) blocks)
  unfolding save_advance advance get_char save fill_block
  save_advance-before c [] old h = ground (arith, lt→ltb c 128 h)
  save_advance-before c (d ∷ cs) old h = ground (arith, lt→ltb c 128 h)

  consume_loop-IsRun :
      (predicate : ℕ → Bool) (word : List ℕ) (fuel : ℕ) (old : List ℕ)
      → IsRun predicate word
      → predicate stop ≡ false
      → length word < fuel
      → consume_loop fuel predicate (before line (word ++ stop ∷ rest) old blocks)
        ≡ ok (before line (stop ∷ rest) (old ++ word) blocks)
  unfolding consume_loop IsRun is_eof
  consume_loop-IsRun predicate word zero old h e f = absurd (omega arith)
  consume_loop-IsRun predicate [] (suc fuel) old h e f = ground (arith, append-nil old)
  consume_loop-IsRun predicate (c ∷ cs) (suc fuel) old (p, q, h) e f = ground (
    arith,
    save_advance-before c cs old q,
    consume_loop-IsRun predicate cs fuel (old ++ c ∷ []) h e (omega arith),
    append_assoc old (c ∷ []) cs,
  )

  IsRun-length :
      (predicate : ℕ → Bool) (word old : List ℕ)
      → IsRun predicate word
      → length word < suc (size (before line (word ++ stop ∷ rest) old blocks))
  unfolding size is_eof IsRun
  IsRun-length predicate [] old h = ground arith
  IsRun-length predicate (c ∷ cs) old (p, q, h) =
      ground
        (arith, length-append (cs ++ stop ∷ rest) (contents blocks), length-append cs (stop ∷ rest))

  -- From the start of a run of characters of a class, in front of a character that is not of it,
  -- `consume_sequence` saves just this run.
  pub consume_sequence-IsRun :
      (predicate : ℕ → Bool) (word old : List ℕ)
      → IsRun predicate word
      → predicate stop ≡ false
      → consume_sequence (before line (word ++ stop ∷ rest) old blocks) predicate
        ≡ ok (before line (stop ∷ rest) (old ++ word) blocks)
  unfolding consume_sequence
  consume_sequence-IsRun predicate word old h e =
      consume_loop-IsRun predicate word _ old h e (IsRun-length predicate word old h)

  identifier-rest :
      (c : ℕ) (cs : List ℕ) {Number : Type 0}
      → IsRun is_ident cs
      → is_ident stop ≡ false
      → make_identifier {Number = Number} (before line (cs ++ stop ∷ rest) (c ∷ []) blocks)
        ≡ ok (
          string_token (identifier_type (c ∷ cs)) (c ∷ cs),
          before line (stop ∷ rest) (c ∷ cs) blocks,
        )
  unfolding make_identifier
  identifier-rest c cs h e = rw (consume_sequence-IsRun is_ident cs (c ∷ []) h e) refl

  pub lexer_lex-IsStart :
      {Number : Type 0} (numerals : Numerals Number) (c : ℕ) (cs old : List ℕ)
      → IsStart c
      → lexer_lex numerals (before line (c ∷ (cs ++ stop ∷ rest)) old blocks)
        ≡ lex_token numerals c (before line (cs ++ stop ∷ rest) (c ∷ []) blocks)
  unfolding lexer_lex lex_loop builder_reset skip_whitespace skip_whitespace_loop is_eof
      starts_comment
  lexer_lex-IsStart numerals c cs old (space, more, byte, dash) =
      ground (arith, save_advance-before c cs [] byte)

  -- A letter or an underscore, then letters, digits and underscores up to a character that is none
  -- of these, are read as one token that holds just this text: its keyword, or else an identifier.
  pub lexer_lex-identifier :
      {Number : Type 0} (numerals : Numerals Number) (c : ℕ) (cs old : List ℕ)
      → is_alpha c ≡ true
      → IsRun is_ident cs
      → is_ident stop ≡ false
      → lexer_lex numerals (before line (c ∷ (cs ++ stop ∷ rest)) old blocks)
        ≡ ok (
          string_token (identifier_type (c ∷ cs)) (c ∷ cs),
          before line (stop ∷ rest) (c ∷ cs) blocks,
        )
  unfolding lex_token
  lexer_lex-identifier numerals c cs old a h e =
      lexer_lex-IsStart numerals c cs old (alpha-IsStart c a)
      ∙ rw (a, lex_token) (identifier-rest c cs h e)
