-- ===== src/Parser/Comparisons.antt =====
-- Comparisons from their text to the jump that the virtual machine takes: cpp/src/lexer.cpp,
-- cpp/src/parser.cpp, cpp/src/compiler.cpp and cpp/src/vm.cpp together.
use lulu.Prelude.{ℕ, ◌≡◌, refl, Bool, true, false, not, some, List, take, ◌∷◌, ◌++◌}
use lulu.Value.{bool_eq}
use lulu.Lexer.{ok}
use lulu.Lexer.Numbers.{Numerals}
use lulu.Lexer.Munch.{before}
use lulu.Lexer.Tokens.{
  TokenType, token_strings, token_eq, token_not_eq, token_less, token_less_eq, token_greater,
  token_greater_eq,
}
use lulu.Lexer.Lex.{lexer_lex, plain}
use lulu.Lexer.Fixed.{lexed, is_symbol, lexer_lex-is_symbol}
use lulu.Parser.{
  NumberOrder, compare_jumps, get_binary, compare_cond, binary_index, binary_opcodes, compare_code,
  is_eq, compare_order, compare_numbers,
}

unfoldable pub is_comparison : TokenType → Bool
is_comparison token_eq = true
is_comparison token_not_eq = true
is_comparison token_less = true
is_comparison token_less_eq = true
is_comparison token_greater = true
is_comparison token_greater_eq = true
is_comparison _ = false

module _ {D : Type 0} (N : NumberOrder D) where
  -- What the operator of the language means.
  unfoldable pub meaning : TokenType → D → D → Bool
  meaning token_not_eq x y = not (N.eq x y)
  meaning token_less x y = N.lt x y
  meaning token_less_eq x y = N.leq x y
  meaning token_greater x y = N.lt y x
  meaning token_greater_eq x y = N.leq y x
  meaning _ x y = N.eq x y

  bool_eq-true : (b : Bool) → bool_eq b true ≡ b
  bool_eq-true true = refl
  bool_eq-true false = refl

  bool_eq-false : (b : Bool) → bool_eq b false ≡ not b
  bool_eq-false true = refl
  bool_eq-false false = refl

  compare_jumps-lexed :
      (t : TokenType) (x y : D)
      → is_comparison t ≡ true
      → compare_jumps N (lexed t) x y ≡ some (meaning t x y)
  unfolding compare_jumps lexed meaning is_comparison get_binary compare_cond binary_index
      binary_opcodes compare_code is_eq compare_order compare_numbers
  compare_jumps-lexed token_eq x y h = rw (bool_eq-true (N.eq x y)) refl
  compare_jumps-lexed token_not_eq x y h = rw (bool_eq-false (N.eq x y)) refl
  compare_jumps-lexed token_less x y h = rw (bool_eq-true (N.lt x y)) refl
  compare_jumps-lexed token_less_eq x y h = rw (bool_eq-true (N.leq x y)) refl
  compare_jumps-lexed token_greater x y h = rw (bool_eq-true (N.lt y x)) refl
  compare_jumps-lexed token_greater_eq x y h = rw (bool_eq-true (N.leq y x)) refl
  compare_jumps-lexed _ x y h = absurd (cc h)

  is_comparison-is_symbol : (t : TokenType) → is_comparison t ≡ true → is_symbol t ≡ true
  unfolding is_comparison is_symbol
  is_comparison-is_symbol token_eq h = refl
  is_comparison-is_symbol token_not_eq h = refl
  is_comparison-is_symbol token_less h = refl
  is_comparison-is_symbol token_less_eq h = refl
  is_comparison-is_symbol token_greater h = refl
  is_comparison-is_symbol token_greater_eq h = refl
  is_comparison-is_symbol _ h = absurd (cc h)

  -- The text of a comparison, with a space behind it, is read as a token for which the code that the
  -- parser has emitted jumps, on two numbers, if and only if the comparison holds of them.
  pub compare_jumps-is_comparison :
      {Number : Type 0} (numerals : Numerals Number) (line : ℕ) (rest old : List ℕ)
      (blocks : List (List ℕ)) (t : TokenType) (x y : D)
      → is_comparison t ≡ true
      → (u : TokenType) × (lexer_lex numerals
            (before line (token_strings t ++ b' ' ∷ rest) old blocks)
          ≡ ok (plain u, before line (b' ' ∷ rest) (take 1 (token_strings t)) blocks))
        × (compare_jumps N u x y ≡ some (meaning t x y))
  compare_jumps-is_comparison numerals line rest old blocks t x y h =
      let symbol = is_comparison-is_symbol t h in
      (
        lexed t,
        lexer_lex-is_symbol numerals line rest old blocks t symbol,
        compare_jumps-lexed t x y h,
      )
