-- ===== src/Lexer.antt =====
-- cpp/src/lexer.hpp, lexer.cpp, stream.hpp: the state of the lexer and its basic moves. An `int`
-- character is kept as its low byte, so `STREAM_END`, -1, is 255, and so is a byte 0xFF of the text,
-- which the source cannot tell from the end either (`char` is signed).
pub mod Tokens
pub mod Loops
pub mod Numbers
pub mod Strings
pub mod Lex
pub mod Progress
pub mod Munch
pub mod Runs
pub mod Quoting
pub mod Long
pub mod Fixed
use lulu.Prelude.{
  ℕ, ◌+◌, suc, Bool, true, false, ◌||◌, List, [], ◌∷◌, ◌++◌, ltb, ◌==◌, if◌then◌else◌, length,
}

-- The reader function is the list of the blocks it will return, and has no more data behind the
-- last; an empty block stands for `n == 0` or a null pointer.
pub record Stream : Type 0 where
  pub remaining : List ℕ
  pub reader : List (List ℕ)

pub record Lexer : Type 0 where
  pub line : ℕ
  pub character : ℕ
  pub stream : Stream
  pub buffer : List ℕ

pub data Reason : Type 0 where
  unterminated_multiline invalid_prefix malformed_number invalid_escape : Reason
  unexpected_character : Reason
  expected invalid_base : ℕ → Reason

-- A syntax error carries its line and the lexeme it is near; `failed_assertion` is a `lulu_assert`.
pub data Result {ℓ} (A : Type ℓ) : Type ℓ where
  ok : A → Result A
  err : Reason → ℕ → List ℕ → Result A
  failed_assertion out_of_fuel : Result A

infixl 5 ◌>>=◌
abbrev pub ◌>>=◌ {ℓ κ} : {A : Type ℓ} {B : Type κ} → Result A → (A → Result B) → Result B
ok a >>= f = f a
err why l near >>= f = err why l near
failed_assertion >>= f = failed_assertion
out_of_fuel >>= f = out_of_fuel

abbrev pub stream_end : ℕ
stream_end = 255

-- `Stream::fill`
unfoldable pub fill_block : List (List ℕ) → ℕ × Stream
fill_block [] = (stream_end, record { remaining = []; reader = [] })
fill_block ([] ∷ blocks) = (stream_end, record { remaining = []; reader = blocks })
fill_block ((c ∷ cs) ∷ blocks) = (c, record { remaining = cs; reader = blocks })

pub get_char_from : List ℕ → List (List ℕ) → ℕ × Stream
unfolding fill_block
get_char_from [] blocks = fill_block blocks
get_char_from (c ∷ cs) blocks = (c, record { remaining = cs; reader = blocks })

unfoldable pub get_char : Stream → ℕ × Stream
unfolding get_char_from
get_char z = get_char_from z.remaining z.reader

unfoldable pub is_eof : Lexer → Bool
is_eof x = x.character == stream_end

unfoldable pub advance : Lexer → ℕ × Lexer
unfolding get_char
advance x = let (c, z) = get_char x.stream in (x.character, record x { character = c; stream = z })

unfoldable pub lexer_make : Stream → Lexer
unfolding advance
lexer_make z = (advance (record { line = 1; character = 0; stream = z; buffer = [] })).1

unfoldable pub save : Lexer → ℕ → Result Lexer
save x ch = if ltb ch 128 then ok (record x { buffer = x.buffer ++ ch ∷ [] }) else failed_assertion

unfoldable pub save_advance : Lexer → Result (ℕ × Lexer)
unfolding advance save
save_advance x = let (ch, y) = advance x in do z ← save y ch; ok (ch, z)

-- the two values of `advance_fn`
unfoldable pub advance_fn : Bool → Lexer → Result (ℕ × Lexer)
unfolding save_advance advance
advance_fn true x = save_advance x
advance_fn false x = ok (advance x)

unfoldable pub check : Lexer → ℕ → Bool
check x ch = x.character == ch

unfoldable pub check2 : Lexer → ℕ → ℕ → Bool
unfolding check
check2 x first second = check x first || check x second

unfoldable pub match_char : Lexer → ℕ → Bool × Lexer
unfolding check advance
match_char x ch = if check x ch then (true, (advance x).1) else (false, x)

unfoldable pub match_save : Lexer → ℕ → Result (Bool × Lexer)
unfolding check save_advance
match_save x ch = if check x ch then (do (c, y) ← save_advance x; ok (true, y)) else ok (false, x)

unfoldable pub match2_save : Lexer → ℕ → ℕ → Result (Bool × Lexer)
unfolding match_save
match2_save x first second = do
  (found, y) ← match_save x first
  if found then ok (true, y) else match_save y second

-- `error`, which gives the line of the lexer and the text of its buffer
abbrev pub error {ℓ} : {A : Type ℓ} → Lexer → Reason → Result A
error x why = err why x.line x.buffer

unfoldable pub expect : Lexer → ℕ → Result Lexer
unfolding match_char
expect x ch = let (found, y) = match_char x ch in if found then ok y else error y (expected ch)

-- The bytes that the stream has still to give, and with the current one: the fuel of the loops.
abbrev pub contents : List (List ℕ) → List ℕ
contents [] = []
contents (block ∷ blocks) = block ++ contents blocks

abbrev pub unread : Stream → List ℕ
unread z = z.remaining ++ contents z.reader

unfoldable pub size : Lexer → ℕ
unfolding is_eof
size x = if is_eof x then 0 else suc (length (unread x.stream))
