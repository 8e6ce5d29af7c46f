-- ===== src/Lexer/Progress.antt =====
-- What a run of the lexer leaves: no loop runs out of fuel, the position only moves forward, and
-- the line counter counts the newlines that were read.
pub mod Skip
pub mod Literals
pub mod Lexing
use lulu.Prelude.{
  ℕ, zero, suc, ◌+◌, ◌≤◌, ◌<◌, ◌≡◌, refl, ap, ◌⊎◌, inl, inr, ◌≢◌, Bool, true, false, not, ◌&&◌,
  ◌||◌, List, [], ◌∷◌, ◌++◌, arith, ◌==◌, ltb, if◌then◌else◌, Bool-cases, length,
}
use lulu.Lexer.{
  Stream, Lexer, Reason, Result, ok, err, failed_assertion, out_of_fuel, ◌>>=◌, fill_block,
  get_char_from, get_char, is_eof, advance, save, save_advance, advance_fn, check, match_char,
  match_save, match2_save, expect, contents, unread, size,
}
use lulu.Lexer.Loops.{count_line}

abbrev pub newline : ℕ → ℕ
newline c = if c == b'\n' then 1 else 0

abbrev pub newlines : List ℕ → ℕ
newlines [] = 0
newlines (c ∷ cs) = newline c + newlines cs

-- A byte that can make `save` fail its assertion: one above 127, or a backslash, behind which
-- `make_string` may save the end of the text. `STREAM_END` itself is not one.
abbrev pub suspect : ℕ → ℕ
suspect c = if (ltb c 128 && not (c == b'\\')) || c == 255 then 0 else 1

abbrev pub suspects : List ℕ → ℕ
suspects [] = 0
suspects (c ∷ cs) = suspect c + suspects cs

-- those that are still to be read
unfoldable pub suspects_left : Lexer → ℕ
suspects_left x = suspect x.character + suspects (unread x.stream)

-- the newlines that are still to be read
unfoldable pub newlines_left : Lexer → ℕ
newlines_left x = newline x.character + newlines (unread x.stream)

pub record Goes (x y : Lexer) : Type 0 where
  pub shrinks : size y ≤ size x
  pub forward : x.line ≤ y.line
  pub counted : y.line + newlines_left y ≡ x.line + newlines_left x
  pub fewer : suspects_left y ≤ suspects_left x

pub Goes-refl : (x : Lexer) → Goes x x
Goes-refl x = omega arith

pub Goes-trans : {x y z : Lexer} → Goes x y → Goes y z → Goes x z
Goes-trans g h =
    omega
      (arith, g.shrinks, g.forward, g.counted, g.fewer, h.shrinks, h.forward, h.counted, h.fewer)

-- The result is not `out_of_fuel`, `P` holds of a value, and the line of an error lies between
-- the line at `x` and that line with all the newlines behind it. An assertion fails only where the
-- text that is left at `x` has a byte above 127 or a backslash.
unfoldable pub Ends {ℓ} : {A : Type ℓ} → Lexer → (A → Type 0) → Result A → Type 0
Ends x P (ok a) = P a
Ends x P (err why l near) = (x.line ≤ l) × (l ≤ x.line + newlines_left x)
Ends x P failed_assertion = 0 < suspects_left x
Ends x P out_of_fuel = ⊥

pub Ends-bind {ℓ κ} :
    {A : Type ℓ} {B : Type κ} (x : Lexer) {P : A → Type 0} (Q : B → Type 0) (m : Result A)
    (f : A → Result B)
    → Ends x P m
    → ((a : A) → P a → Ends x Q (f a))
    → Ends x Q (m >>= f)
unfolding Ends
Ends-bind x Q (ok a) f p q = q a p
Ends-bind x Q (err why l near) f p q = p
Ends-bind x Q failed_assertion f p q = p
Ends-bind x Q out_of_fuel f p q = elim p [ ]

-- A run from `y` is the rest of a run from `x`.
pub Ends-after {ℓ} :
    {A : Type ℓ} {x y : Lexer} {P Q : A → Type 0} (r : Result A)
    → Goes x y
    → Ends y P r
    → ((a : A) → P a → Q a)
    → Ends x Q r
unfolding Ends
Ends-after (ok a) g p q = q a p
Ends-after (err why l near) g (low, high) q = omega (arith, g.forward, g.counted)
Ends-after failed_assertion g p q = omega (arith, g.fewer)
Ends-after out_of_fuel g p q = elim p [ ]

pub get_char_from_lem :
    (cs : List ℕ) (blocks : List (List ℕ))
    → (((get_char_from cs blocks).0 ≡ 255)
        ⊎ (suc (length (unread (get_char_from cs blocks).1)) ≡ length (cs ++ contents blocks)))
      × (newline (get_char_from cs blocks).0 + newlines (unread (get_char_from cs blocks).1)
          ≡ newlines (cs ++ contents blocks))
      × (suspect (get_char_from cs blocks).0 + suspects (unread (get_char_from cs blocks).1)
          ≡ suspects (cs ++ contents blocks))
unfolding get_char_from fill_block
get_char_from_lem [] [] = (inl refl, refl, refl)
get_char_from_lem [] ([] ∷ blocks) = (inl refl, omega arith, omega arith)
get_char_from_lem [] ((c ∷ cs) ∷ blocks) = (inr refl, refl, refl)
get_char_from_lem (c ∷ cs) blocks = (inr refl, refl, refl)

-- one character is read, and counted when it is a newline
pub record Steps (x y : Lexer) : Type 0 where
  pub goes : Goes x y
  pub strict : size y < size x

pub advance-Steps : (x : Lexer) → is_eof x ≡ false → Steps x (count_line x.character (advance x).1)
unfolding size is_eof advance get_char count_line newlines_left suspects_left
advance-Steps x h = ground (arith, get_char_from_lem x.stream.remaining x.stream.reader)

pub advance-Steps_plain :
    (x : Lexer) → is_eof x ≡ false → x.character ≢ b'\n' → Steps x (advance x).1
unfolding size is_eof advance get_char newlines_left suspects_left
advance-Steps_plain x h n = ground (arith, get_char_from_lem x.stream.remaining x.stream.reader)

-- A step of the lexer as it stands in a result of type `A`, at `pos`.
abbrev pub Going {ℓ} : {A : Type ℓ} → Lexer → (A → Lexer) → Result A → Type 0
Going x pos = Ends x (λ a. Goes x (pos a))

abbrev pub Stepping {ℓ} : {A : Type ℓ} → Lexer → (A → Lexer) → Result A → Type 0
Stepping x pos = Ends x (λ a. Steps x (pos a))

pub Stepping-Going {ℓ} :
    {A : Type ℓ} (x : Lexer) (pos : A → Lexer) (r : Result A) → Stepping x pos r → Going x pos r
Stepping-Going x pos r p = Ends-after r (Goes-refl x) p (λ a s. s.goes)

module _ {ℓ κ} {A : Type ℓ} {B : Type κ} (x : Lexer) (pos : A → Lexer) (end : B → Lexer) where
  pub Going-bind :
      (m : Result A) (f : A → Result B)
      → Going x pos m
      → ((a : A) → Goes x (pos a) → Going (pos a) end (f a))
      → Going x end (m >>= f)
  Going-bind m f p q =
      Ends-bind x _ m f p (λ a g. Ends-after (f a) g (q a g) (λ b h. Goes-trans g h))

  pub Stepping-bind :
      (m : Result A) (f : A → Result B)
      → Stepping x pos m
      → ((a : A) → Steps x (pos a) → Going (pos a) end (f a))
      → Stepping x end (m >>= f)
  Stepping-bind m f p q = Ends-bind x _ m f p (λ a s.
      Ends-after (f a) s.goes (q a s)
        (λ b h. record { goes = Goes-trans s.goes h; strict = omega (arith, s.strict, h.shrinks) }))

pub save-Going :
    (x : Lexer) (ch : ℕ) → ch < 128 → Ends x (λ y. Goes x y × (size y ≡ size x)) (save x ch)
unfolding save Ends size is_eof newlines_left suspects_left
save-Going x ch h = ground arith

pub save_advance-Stepping :
    (x : Lexer)
    → is_eof x ≡ false
    → Ends x (λ p. Steps x (count_line p.0 p.1) × (p.0 ≡ x.character)) (save_advance x)
unfolding save_advance save Ends size is_eof newlines_left suspects_left advance get_char count_line
save_advance-Stepping x h = ground (arith, get_char_from_lem x.stream.remaining x.stream.reader)

-- `count_line` does nothing at any other character.
pub save_advance-Stepping_plain :
    (x : Lexer) → is_eof x ≡ false → x.character ≢ b'\n' → Stepping x (λ p. p.1) (save_advance x)
unfolding save_advance save Ends size is_eof newlines_left suspects_left advance get_char
save_advance-Stepping_plain x h n =
    ground (arith, get_char_from_lem x.stream.remaining x.stream.reader)

pub advance_fn-Stepping :
    (do_save : Bool) (x : Lexer)
    → is_eof x ≡ false
    → Stepping x (λ p. count_line p.0 p.1) (advance_fn do_save x)
unfolding advance_fn advance Ends
advance_fn-Stepping true x h =
    Ends-after (save_advance x) (Goes-refl x) (save_advance-Stepping x h) (λ p s. s.0)
advance_fn-Stepping false x h = advance-Steps x h

pub advance_fn-Stepping_plain :
    (do_save : Bool) (x : Lexer)
    → is_eof x ≡ false
    → x.character ≢ b'\n'
    → Stepping x (λ p. p.1) (advance_fn do_save x)
unfolding advance_fn advance Ends
advance_fn-Stepping_plain true x h n = save_advance-Stepping_plain x h n
advance_fn-Stepping_plain false x h n = advance-Steps_plain x h n

-- A character other than the end and a newline is matched and passed, or left.
pub match_char-Steps :
    (x : Lexer) (ch : ℕ)
    → ch ≢ 255
    → ch ≢ b'\n'
    → (((match_char x ch).0 ≡ true) × Steps x (match_char x ch).1)
      ⊎ (((match_char x ch).0 ≡ false) × ((match_char x ch).1 ≡ x))
unfolding match_char check is_eof
match_char-Steps x ch e n = elim (Bool-cases (x.character == ch)) [
  | inl q ↦ inl (ground (arith), rw q (advance-Steps_plain x (ground arith) (ground arith)))
  | inr q ↦ inr (rw q refl, rw q refl)
]
