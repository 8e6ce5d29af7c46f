-- ===== src/Lexer/Runs.antt =====
-- The tokens of a whole text, as the parser asks for them, and the blocks of the stream.
use lulu.Prelude.{ℕ, suc, ◌+◌, ◌≤◌, ◌≡◌, refl, ap, ◌≢◌, inl, inr, List, [], ◌∷◌, ◌++◌, arith}
use lulu.Lexer.{
  Stream, Lexer, ok, out_of_fuel, fill_block, get_char_from, get_char, contents, unread, size,
}
use lulu.Lexer.Lex.{lexer_lex}
use lulu.Lexer.Numbers.{Numerals}
use lulu.Lexer.Progress.{newlines_left, Ends}
use lulu.Lexer.Progress.Lexing.{Lexed, lexer_lex-Ends}
use lulu.Lexer.Tokens.{Token, token_eof}

module _ {Number : Type 0} (numerals : Numerals Number) where
  -- `n` calls of `lexer_lex` lead from one state to another, none of them to the end
  pub data Reads : ℕ → Lexer → Lexer → Type 0 where
    done : {x : Lexer} → Reads 0 x x
    next :
        {n : ℕ} {x y z : Lexer} {t : Token Number}
        → lexer_lex numerals x ≡ ok (t, y)
        → t.type ≢ token_eof
        → Reads n y z
        → Reads (suc n) x z

  -- No loop of `lexer_lex` runs out of fuel: it ends on any text.
  pub lexer_lex_terminates : (x : Lexer) → lexer_lex numerals x ≢ out_of_fuel
  unfolding Ends
  lexer_lex_terminates x e = rw e at (lexer_lex-Ends numerals x)

  lexer_lex-Lexed :
      (x : Lexer) (t : Token Number) (y : Lexer)
      → lexer_lex numerals x ≡ ok (t, y)
      → Lexed numerals x (t, y)
  unfolding Ends
  lexer_lex-Lexed x t y e = rw e at (lexer_lex-Ends numerals x)

  -- Each token but the end takes at least one of the bytes that are left, and the line counter
  -- grows by the newlines that were read: a text has no more tokens than bytes.
  pub Reads-size :
      {n : ℕ} {x y : Lexer}
      → Reads n x y
      → (n + size y ≤ size x) × (y.line + newlines_left y ≡ x.line + newlines_left x)
  Reads-size done = omega arith
  Reads-size (next {x = x} {y = y} {t = t} e more r) =
      let (bound, counted) = Reads-size r in
      let (g, strict) = lexer_lex-Lexed x t y e in
      elim strict [
        | inl end ↦ absurd (more end)
        | inr s ↦ (omega (arith, g.shrinks), omega (arith, g.counted))
      ]

-- no block is empty
unfoldable pub NoneEmpty : List (List ℕ) → Type 0
NoneEmpty [] = Unit
NoneEmpty (block ∷ blocks) = (block ≢ []) × NoneEmpty blocks

get_char_from-NoneEmpty :
    (cs : List ℕ) (blocks : List (List ℕ)) (c : ℕ) (rest : List ℕ)
    → NoneEmpty blocks
    → cs ++ contents blocks ≡ c ∷ rest
    → (z : Stream) × (get_char_from cs blocks ≡ (c, z)) × (unread z ≡ rest) × NoneEmpty z.reader
unfolding get_char_from fill_block NoneEmpty
get_char_from-NoneEmpty [] [] c rest h e = absurd (cc e)
get_char_from-NoneEmpty [] ([] ∷ blocks) c rest h e = absurd (h.0 refl)
get_char_from-NoneEmpty [] ((d ∷ ds) ∷ blocks) c rest h e = (
  record { remaining = ds; reader = blocks },
  ap (λ a. (a, record { remaining = ds; reader = blocks })) (cc e),
  cc e,
  h.1,
)
get_char_from-NoneEmpty (d ∷ ds) blocks c rest h e = (
  record { remaining = ds; reader = blocks },
  ap (λ a. (a, record { remaining = ds; reader = blocks })) (cc e),
  cc e,
  h,
)

-- While the reader function gives no empty block, the characters of a stream are those of the
-- blocks one after another: where the text is cut into blocks does not matter.
pub get_char-unread :
    (z : Stream) (c : ℕ) (rest : List ℕ)
    → NoneEmpty z.reader
    → unread z ≡ c ∷ rest
    → (z' : Stream) × (get_char z ≡ (c, z')) × (unread z' ≡ rest) × NoneEmpty z'.reader
unfolding get_char
get_char-unread z c rest h e = get_char_from-NoneEmpty z.remaining z.reader c rest h e
