-- ===== src/Lexer/Progress/Literals.antt =====
-- Numbers and strings are read in finitely many steps.
use lulu.Prelude.{
  ℕ, zero, suc, ◌+◌, ◌≤◌, ◌<◌, ◌≡◌, refl, ap, inl, inr, ◌≢◌, Bool, true, false, not, ◌&&◌, Option,
  none, some, arith, ◌==◌, Bool-cases, if◌then◌else◌,
}
use lulu.Lexer.{
  Lexer, Result, ok, err, failed_assertion, out_of_fuel, expected, is_eof, advance, save, check,
  check2, match_save, match2_save, expect, size, ◌>>=◌, save_advance, get_char, invalid_prefix,
}
use lulu.Lexer.Loops.{get_nesting, skip_multiline, is_alpha, is_number, is_ident, consume_sequence}
use lulu.Lexer.Numbers.{
  Numerals, base_of_letter, read_prefixed, or_error, make_prefixed, consume_dotted,
  consume_exponent, make_decimal, make_number,
}
use lulu.Lexer.Strings.{
  get_escaped, read_escape, read_character, read_string, make_string, make_long_string,
}
use lulu.Lexer.Tokens.{Token}
use lulu.Lexer.Progress.{
  suspects_left, newlines_left, get_char_from_lem, Goes, Goes-refl, Goes-trans, Ends, Ends-bind,
  Ends-after, advance-Steps_plain, Going, Stepping, Stepping-Going, Going-bind, Stepping-bind,
  save_advance-Stepping_plain, match_char-Steps,
}
use lulu.Lexer.Progress.Skip.{
  at_character, error-Going, get_nesting-Going, save-Going_only, skip_multiline-Going,
  consume_sequence-Going,
}

-- A matched character is passed, which makes the text shorter.
match_save-Going :
    (x : Lexer) (ch : ℕ)
    → ch ≢ 255
    → ch ≢ b'\n'
    → Ends x (λ p. Goes x p.1 × (p.0 ≡ true → size p.1 < size x)) (match_save x ch)
unfolding match_save check save_advance save Ends size is_eof newlines_left suspects_left advance
    get_char
match_save-Going x ch e n = ground (arith, get_char_from_lem x.stream.remaining x.stream.reader)

match_save-Going_only :
    (x : Lexer) (ch : ℕ) → ch ≢ 255 → ch ≢ b'\n' → Going x (λ p. p.1) (match_save x ch)
match_save-Going_only x ch e n =
    Ends-after (match_save x ch) (Goes-refl x) (match_save-Going x ch e n) (λ p g. g.0)

second-Going :
    (p : Bool × Lexer) (ch : ℕ)
    → ch ≢ 255
    → ch ≢ b'\n'
    → Going p.1 (λ q. q.1) (if p.0 then ok (true, p.1) else match_save p.1 ch)
unfolding Ends
second-Going (true, x) ch e n = Goes-refl x
second-Going (false, x) ch e n = match_save-Going_only x ch e n

match2_save-Going :
    (x : Lexer) (a b : ℕ)
    → a ≢ 255
    → a ≢ b'\n'
    → b ≢ 255
    → b ≢ b'\n'
    → Going x (λ p. p.1) (match2_save x a b)
unfolding match2_save
match2_save-Going x a b e n e' n' =
    Going-bind x (λ p. p.1) (λ p. p.1) (match_save x a) _ (match_save-Going_only x a e n)
      (λ p g. second-Going p b e' n')

pub expect-Going : (x : Lexer) (ch : ℕ) → ch ≢ 255 → ch ≢ b'\n' → Going x (λ y. y) (expect x ch)
unfolding expect Ends
expect-Going x ch e n = elim (match_char-Steps x ch e n) [
  | inl (found, s) ↦ rw found s.goes
  | inr (missing, same) ↦ rw (missing, same) (error-Going (λ (y : Lexer). y) x (expected ch))
]

digits-Going : (x : Lexer) → Going x (λ y. y) (consume_sequence x is_number)
unfolding is_number
digits-Going x = consume_sequence-Going x is_number refl

pub idents-Going : (x : Lexer) → Going x (λ y. y) (consume_sequence x is_ident)
unfolding is_ident
idents-Going x = consume_sequence-Going x is_ident refl

-- what the loop does behind the test for a point
dotted-Going :
    (fuel : ℕ) (p : Bool × Lexer)
    → (p.0 ≡ true → Going p.1 (λ y. y) (consume_dotted fuel p.1))
    → Going p.1 (λ y. y) (elim p.0 [ true ↦ consume_dotted fuel p.1 | false ↦ ok p.1 ])
unfolding Ends
dotted-Going fuel (true, x) g = g refl
dotted-Going fuel (false, x) g = Goes-refl x

consume_dotted-Going :
    (fuel : ℕ) (x : Lexer) → size x < fuel → Going x (λ y. y) (consume_dotted fuel x)
unfolding consume_dotted
consume_dotted-Going zero x h = absurd (omega arith)
consume_dotted-Going (suc fuel) x h =
    Going-bind x (λ y. y) (λ y. y) (consume_sequence x is_number) _ (digits-Going x)
      (λ y g.
        Ends-bind y _ (match_save y b'.') _ (match_save-Going y b'.' (omega arith) (omega arith))
          (λ p s.
            Ends-after _ s.0
              (dotted-Going fuel p
                (λ dot. consume_dotted-Going fuel p.1 (omega (arith, s.1 dot, g.shrinks))))
              (λ z k. Goes-trans s.0 k)))

exponent-Going :
    (p : Bool × Lexer)
    → Going p.1
        (λ y. y)
        (elim p.0 [
          | true ↦ match2_save p.1 b'+' b'-' >>= (λ q. consume_sequence q.1 is_number)
          | false ↦ ok p.1
        ])
unfolding Ends
exponent-Going (true, x) =
    Going-bind x (λ p. p.1) (λ y. y) (match2_save x b'+' b'-') _
      (match2_save-Going x b'+' b'-' (omega arith) (omega arith) (omega arith) (omega arith))
      (λ q g. digits-Going q.1)
exponent-Going (false, x) = Goes-refl x

consume_exponent-Going : (x : Lexer) → Going x (λ y. y) (consume_exponent x)
unfolding consume_exponent
consume_exponent-Going x =
    Going-bind x (λ p. p.1) (λ y. y) (match2_save x b'e' b'E') _
      (match2_save-Going x b'e' b'E' (omega arith) (omega arith) (omega arith) (omega arith))
      (λ p g. exponent-Going p)

-- A letter or a digit is neither the end nor a newline.
pub alpha_lem :
    (x : Lexer) → is_alpha x.character ≡ true → (is_eof x ≡ false) × (x.character ≢ b'\n')
unfolding is_alpha is_eof
alpha_lem x h = (ground arith, λ e. cc (ap is_alpha e))

module _ {Number : Type 0} (numerals : Numerals Number) where
  or_error-Going :
      (x : Lexer) (o : Option Number) (base : ℕ) → Going x (λ p. p.1) (or_error numerals x o base)
  unfolding Ends
  or_error-Going x none base = omega arith
  or_error-Going x (some d) base = Goes-refl x

  read_prefixed-Going : (base : ℕ) (x : Lexer) → Going x (λ p. p.1) (read_prefixed numerals base x)
  unfolding read_prefixed
  read_prefixed-Going zero x = error-Going {A = Token Number × Lexer} (λ p. p.1) x invalid_prefix
  read_prefixed-Going (suc b) x =
      Going-bind x (λ y. y) (λ p. p.1) (consume_sequence x is_ident) _ (idents-Going x)
        (λ y g. or_error-Going y _ (suc b))

  make_prefixed-Going :
      (x : Lexer) → is_alpha x.character ≡ true → Going x (λ p. p.1) (make_prefixed numerals x)
  unfolding make_prefixed
  make_prefixed-Going x h =
      let (here, plain) = alpha_lem x h in
      Stepping-Going x _ _ (
        Stepping-bind x (λ p. p.1) (λ p. p.1) (save_advance x) _
          (save_advance-Stepping_plain x here plain)
          (λ p s. read_prefixed-Going (base_of_letter p.0) p.1))

  make_decimal-Going : (x : Lexer) → Going x (λ p. p.1) (make_decimal numerals x)
  unfolding make_decimal
  make_decimal-Going x =
      Going-bind x (λ y. y) (λ p. p.1) (consume_dotted (suc (size x)) x) _
        (consume_dotted-Going (suc (size x)) x (omega arith))
        (λ y g.
          Going-bind y (λ z. z) (λ p. p.1) (consume_exponent y) _ (consume_exponent-Going y)
            (λ z k.
              Going-bind z (λ w. w) (λ p. p.1) (consume_sequence z is_ident) _ (idents-Going z)
                (λ w l. or_error-Going w _ 0)))

  pub make_number-Going :
      (x : Lexer) (prefixed : Bool)
      → (prefixed ≡ true → is_alpha x.character ≡ true)
      → Going x (λ p. p.1) (make_number numerals x prefixed)
  unfolding make_number
  make_number-Going x true h = make_prefixed-Going x (h refl)
  make_number-Going x false h = make_decimal-Going x

-- The lines and the position that an escape leaves; a failed assertion is left open.
unfoldable Escapes : Lexer → Result Lexer → Type 0
Escapes y (ok z) =
    (size z ≤ size y) × (y.line ≤ z.line) × (z.line + newlines_left z ≡ y.line + newlines_left y)
Escapes y (err why l near) = (y.line ≤ l) × (l ≤ y.line + newlines_left y)
Escapes y failed_assertion = Unit
Escapes y out_of_fuel = ⊥

unfoldable LeavesFewer : Lexer → Result Lexer → Type 0
LeavesFewer y (ok z) = suspects_left z ≤ suspects_left y
LeavesFewer y _ = Unit

read_escape-Escapes : (y : Lexer) → Escapes y (read_escape y)
unfolding read_escape get_escaped save Escapes size is_eof newlines_left advance get_char
read_escape-Escapes y = ground (arith, get_char_from_lem y.stream.remaining y.stream.reader)

read_escape-LeavesFewer : (y : Lexer) → LeavesFewer y (read_escape y)
unfolding read_escape get_escaped save LeavesFewer suspects_left advance get_char
read_escape-LeavesFewer y = ground (arith, get_char_from_lem y.stream.remaining y.stream.reader)

-- `y` is behind the backslash at `x`.
escape-Ends :
    (x y : Lexer) (r : Result Lexer)
    → Goes x y
    → 0 < suspects_left x
    → Escapes y r
    → LeavesFewer y r
    → Ends x (λ z. Goes y z) r
unfolding Ends Escapes LeavesFewer
escape-Ends x y (ok z) g h (shrinks, forward, counted) f = record {
  shrinks = shrinks;
  forward = forward;
  counted = counted;
  fewer = f;
}
escape-Ends x y (err why l near) g h (low, high) f = omega (arith, g.forward, g.counted)
escape-Ends x y failed_assertion g h e f = h
escape-Ends x y out_of_fuel g h e f = elim e [ ]

at_backslash : (x : Lexer) → x.character ≡ b'\\' → 0 < suspects_left x
unfolding suspects_left
at_backslash x h = ground arith

plain-Stepping :
    (x : Lexer)
    → is_eof x ≡ false
    → x.character ≢ b'\n'
    → Stepping x (λ y. y) (save (advance x).1 x.character)
unfolding save Ends size is_eof newlines_left suspects_left advance get_char
plain-Stepping x h n = ground (arith, get_char_from_lem x.stream.remaining x.stream.reader)

read_character-Stepping :
    (x : Lexer) → is_eof x ≡ false → x.character ≢ b'\n' → Stepping x (λ y. y) (read_character x)
unfolding advance read_character Ends
read_character-Stepping x h n = elim (Bool-cases (x.character == b'\\')) [
  | inl q ↦
      let s = advance-Steps_plain x h n in
      rw (read_character, q)
        (Ends-after (read_escape (advance x).1) (Goes-refl x)
          (escape-Ends x (advance x).1 (read_escape (advance x).1) s.goes
            (at_backslash x (ground arith)) (read_escape-Escapes (advance x).1)
            (read_escape-LeavesFewer (advance x).1))
          (λ z g. record {
            goes = Goes-trans s.goes g;
            strict = omega (arith, s.strict, g.shrinks);
          }))
  | inr q ↦ rw (read_character, q) (plain-Stepping x h n)
]

-- The quote is not the newline or the end.
at_text : (x : Lexer) (q : ℕ) → not (check2 x q b'\n') ≡ true → x.character ≢ b'\n'
unfolding check2 check
at_text x q h = ground arith

read_string-Going :
    (fuel q : ℕ) (x : Lexer) → size x < fuel → Going x (λ y. y) (read_string fuel q x)
unfolding read_string Ends
read_string-Going zero q x h = absurd (omega arith)
read_string-Going (suc fuel) q x h = elim (Bool-cases (not (is_eof x) && not (check2 x q b'\n'))) [
  | inl t ↦
      let (here, text) = at_character x _ t in
      rw (t, read_string)
        (Stepping-Going x _ _ (
          Stepping-bind x (λ y. y) (λ y. y) (read_character x) _
            (read_character-Stepping x here (at_text x q text))
            (λ y s. read_string-Going fuel q y (omega (arith, s.strict)))))
  | inr t ↦ rw (t, read_string) (Goes-refl x)
]

module _ (Number : Type 0) where
  pub make_string-Going :
      (x : Lexer) (q : ℕ)
      → q ≢ 255
      → q ≢ b'\n'
      → Going x (λ p. p.1) (make_string {Number = Number} x q)
  unfolding make_string Ends
  make_string-Going x q e n =
      Going-bind x (λ y. y) (λ p. p.1) (read_string (suc (size x)) q x) _
        (read_string-Going (suc (size x)) q x (omega arith))
        (λ y g.
          Going-bind y (λ z. z) (λ p. p.1) (expect y q) _ (expect-Going y q e n)
            (λ z k. Goes-refl z))

  pub make_long_string-Going :
      (x : Lexer) → Going x (λ p. p.1) (make_long_string {Number = Number} x)
  unfolding make_long_string Ends
  make_long_string-Going x =
      Going-bind x (λ p. p.1) (λ p. p.1) (get_nesting x true) _ (get_nesting-Going x true)
        (λ p g.
          Going-bind p.1 (λ y. y) (λ p. p.1) (expect p.1 b'[') _
            (expect-Going p.1 b'[' (omega arith) (omega arith))
            (λ y k.
              Going-bind y (λ z. z) (λ p. p.1) (save y b'[') _
                (save-Going_only y b'[' (omega arith))
                (λ z l.
                  Going-bind z (λ w. w) (λ p. p.1) (skip_multiline z p.0 true) _
                    (skip_multiline-Going z p.0 true) (λ w t. Goes-refl w))))
