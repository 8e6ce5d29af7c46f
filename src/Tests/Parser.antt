-- ===== src/Tests/Parser.antt =====
-- A comparison on numbers from its text to its jump.
use lulu.Prelude.{ℕ, ◌≡◌, refl, true, some, [], ◌∷◌, ltb, leb, ◌==◌}
use lulu.Lexer.{ok}
use lulu.Lexer.Numbers.{Numerals}
use lulu.Lexer.Munch.{before}
use lulu.Lexer.Tokens.{TokenType, token_strings, token_greater}
use lulu.Lexer.Lex.{lexer_lex, plain}
use lulu.Parser.{NumberOrder, compare_jumps}
use lulu.Parser.Comparisons.{is_comparison, meaning, compare_jumps-is_comparison}

abbrev natural_order : NumberOrder ℕ
natural_order = record { eq = λ a b. a == b; lt = λ a b. ltb a b; leq = λ a b. leb a b }

abbrev no_numerals : Numerals ℕ
no_numerals = record { strtoul = λ base s. (0, s); of_unsigned = λ n. n; strtod = λ s. (0, s) }

-- `2 > 1`
compare_jumps-is_comparison_example :
    (u : TokenType) × (lexer_lex no_numerals (before 1 (b'>' ∷ b' ' ∷ []) [] [])
      ≡ ok (plain u, before 1 (b' ' ∷ []) (b'>' ∷ []) []))
    × (compare_jumps natural_order u 2 1 ≡ some true)
unfolding is_comparison meaning token_strings
compare_jumps-is_comparison_example =
    compare_jumps-is_comparison natural_order no_numerals 1 [] [] [] token_greater 2 1 refl
