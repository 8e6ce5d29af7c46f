-- ===== src/Lexer/Progress/Lexing.antt =====
-- `lexer_lex` gives a token or an error after finitely many steps.
use lulu.Prelude.{
  ℕ, zero, suc, ◌<◌, ◌≡◌, refl, ◌⊎◌, inl, inr, ◌≢◌, Bool, true, false, ◌&&◌, ◌||◌, arith, ◌==◌,
  Bool-cases, if◌then◌else◌,
}
use lulu.Lexer.{Lexer, Result, ok, is_eof, advance, match_char, expect, size, ◌>>=◌, save_advance}
use lulu.Lexer.Loops.{
  is_space, is_alpha, is_number, is_ident, consume_sequence, skip_whitespace, skip_comment,
}
use lulu.Lexer.Numbers.{Numerals, make_number}
use lulu.Lexer.Strings.{make_long_string}
use lulu.Lexer.Tokens.{
  TokenType, Token, token_eof, token_dot, token_not_eq, token_open_brace, token_dash, token_eq,
  token_assign, token_less_eq, token_less, token_greater, token_greater_eq,
}
use lulu.Lexer.Lex.{
  builder_reset, single_token, plain, match_equals, make_single, make_identifier, lex_dot,
  lex_symbol, lex_token, starts_comment, lex_loop, lexer_lex,
}
use lulu.Lexer.Progress.{
  newlines_left, suspects_left, Goes, Goes-refl, Goes-trans, Ends, Ends-bind, Ends-after, Steps,
  advance-Steps_plain, Going, Going-bind, save_advance-Stepping_plain,
}
use lulu.Lexer.Progress.Literals.{
  expect-Going, idents-Going, make_number-Going, make_string-Going, make_long_string-Going,
}
use lulu.Lexer.Progress.Skip.{match_char-Goes, skip_whitespace-Going, skip_comment-Going}

prefix_lem : (a b : Bool) → (a && b) ≡ true → b ≡ true
prefix_lem a b q = ground arith

module _ (Number : Type 0) where
  match_equals-Going :
      (x : Lexer) (found other : TokenType)
      → Going x (λ p. p.1) (match_equals {Number = Number} x found other)
  unfolding match_equals Ends
  match_equals-Going x found other = match_char-Goes x b'=' (omega arith) (omega arith)

  make_single-Going :
      (x : Lexer) (t : TokenType) → Going x (λ p. p.1) (make_single {Number = Number} x t)
  unfolding make_single Ends newlines_left suspects_left
  make_single-Going x t = ground arith

  make_identifier-Going : (x : Lexer) → Going x (λ p. p.1) (make_identifier {Number = Number} x)
  unfolding make_identifier Ends
  make_identifier-Going x =
      Going-bind x (λ y. y) (λ p. p.1) (consume_sequence x is_ident) _ (idents-Going x)
        (λ y g. Goes-refl y)

  bracket-Going :
      (long : Bool) (x : Lexer) (t : TokenType)
      → Going {A = Token Number × Lexer} x
          (λ p. p.1)
          (if long then make_long_string {Number = Number} x else ok (plain t, x))
  unfolding Ends
  bracket-Going true x t = make_long_string-Going Number x
  bracket-Going false x t = Goes-refl x

  ok-Going :
      (x : Lexer) (t : TokenType) → Going {A = Token Number × Lexer} x (λ p. p.1) (ok (plain t, x))
  unfolding Ends
  ok-Going x t = Goes-refl x

reset-Goes : (x : Lexer) → Goes x (builder_reset x)
unfolding builder_reset size is_eof newlines_left suspects_left
reset-Goes x = omega arith

dash_lem : (x : Lexer) → x.character ≡ b'-' → is_eof x ≡ false
unfolding is_eof
dash_lem x e = ground arith

comment_lem : (ch : ℕ) (x : Lexer) → starts_comment ch x ≡ true → x.character ≡ b'-'
unfolding starts_comment
comment_lem ch x e = ground arith

space_lem : (x : Lexer) → is_space x.character ≡ false → x.character ≢ b'\n'
unfolding is_space
space_lem x e = ground arith

Steps-Goes : {x y z : Lexer} → Steps x y → Goes y z → Steps x z
Steps-Goes s g = record { goes = Goes-trans s.goes g; strict = omega (arith, s.strict, g.shrinks) }

if-Going {ℓ} :
    {A : Type ℓ} (x : Lexer) (pos : A → Lexer) (r s : Result A) (b : Bool)
    → (b ≡ true → Going x pos r)
    → Going x pos s
    → Going x pos (if b then r else s)
if-Going x pos r s true f g = f refl
if-Going x pos r s false f g = g

module _ {Number : Type 0} (numerals : Numerals Number) where
  after_dot-Going :
      (digit : Bool) (x : Lexer)
      → Going {A = Token Number × Lexer} x
          (λ p. p.1)
          (elim digit [ true ↦ make_number numerals x false | false ↦ ok (plain token_dot, x) ])
  unfolding Ends
  after_dot-Going true x = make_number-Going numerals x false (λ e. cc e)
  after_dot-Going false x = Goes-refl x

  ok-Going_at : (x : Lexer) (p : Token Number × Lexer) → Goes x p.1 → Going x (λ p. p.1) (ok p)
  unfolding Ends
  ok-Going_at x p g = g

  lex_dot-Going : (x : Lexer) → Going x (λ p. p.1) (lex_dot numerals x)
  unfolding lex_dot
  lex_dot-Going x =
      let second = match_char-Goes x b'.' (omega arith) (omega arith) in
      elim (Bool-cases (match_char x b'.').0) [
        | inl q ↦
            rw (q, lex_dot)
              (ok-Going_at x _ (
                Goes-trans second
                  (match_char-Goes (match_char x b'.').1 b'.' (omega arith) (omega arith))))
        | inr q ↦
            rw (q, lex_dot)
              (Ends-after _ second (after_dot-Going _ (match_char x b'.').1)
                (λ p g. Goes-trans second g))
      ]

  tilde-Going :
      (x : Lexer)
      → Going {A = Token Number × Lexer} x
          (λ p. p.1)
          (expect x b'=' >>= (λ y. ok (plain token_not_eq, y)))
  unfolding Ends
  tilde-Going x =
      Going-bind x (λ y. y) (λ p. p.1) (expect x b'=') _
        (expect-Going x b'=' (omega arith) (omega arith)) (λ y g. Goes-refl y)

  quote_lem : (ch : ℕ) → (ch == b'\'' || ch == b'"') ≡ true → (ch ≢ 255) × (ch ≢ b'\n')
  quote_lem ch q = ground arith

  lex_symbol-Going : (ch : ℕ) (x : Lexer) → Going x (λ p. p.1) (lex_symbol numerals ch x)
  unfolding lex_symbol
  lex_symbol-Going ch x =
      if-Going x _ _ _ (ch == b'[') (λ q. bracket-Going Number _ x token_open_brace)
        (if-Going x _ _ _ (ch == b'-') (λ q. ok-Going Number x token_dash)
          (if-Going x _ _ _ (ch == b'~') (λ q. tilde-Going x)
            (if-Going x _ _ _ (ch == b'=') (λ q. match_equals-Going Number x token_eq token_assign)
              (if-Going x _ _ _ (ch == b'<')
                (λ q. match_equals-Going Number x token_less_eq token_less)
                (if-Going x _ _ _ (ch == b'>')
                  (λ q. match_equals-Going Number x token_greater token_greater_eq)
                  (if-Going x _ _ _ (ch == b'.') (λ q. lex_dot-Going x)
                    (if-Going x _ _ _ (ch == b'\'' || ch == b'"')
                      (λ q. make_string-Going Number x ch (quote_lem ch q).0 (quote_lem ch q).1)
                      (make_single-Going Number x (single_token ch)))))))))

  lex_token-Going : (ch : ℕ) (x : Lexer) → Going x (λ p. p.1) (lex_token numerals ch x)
  unfolding lex_token
  lex_token-Going ch x = elim (Bool-cases (is_alpha ch)) [
    | inl q ↦ rw (q, lex_token) (make_identifier-Going Number x)
    | inr q ↦ elim (Bool-cases (is_number ch)) [
      | inl d ↦
          rw (q, d, lex_token)
            (make_number-Going numerals x (ch == b'0' && is_alpha x.character)
              (prefix_lem (ch == b'0') (is_alpha x.character)))
      | inr d ↦ rw (q, d, lex_token) (lex_symbol-Going ch x)
    ]
  ]

  -- a token, read behind `x` unless it is the end
  abbrev pub Lexed : Lexer → Token Number × Lexer → Type 0
  Lexed x (t, y) = Goes x y × ((t.type ≡ token_eof) ⊎ (size y < size x))

  -- behind the white space, where a token or a comment starts
  Lexed-step :
      {x y : Lexer} (r : Result (Token Number × Lexer))
      → Steps x y
      → Going y (λ p. p.1) r
      → Ends x (λ p. Lexed x p) r
  Lexed-step r s g =
      Ends-after r s.goes g (λ p k. (Goes-trans s.goes k, inr (omega (arith, s.strict, k.shrinks))))

  Lexed-after :
      (x : Lexer) {y : Lexer} (p : Token Number × Lexer) → Goes x y → Lexed y p → Lexed x p
  Lexed-after x p g (k, inl end) = (Goes-trans g k, inl end)
  Lexed-after x p g (k, inr s) = (Goes-trans g k, inr (omega (arith, g.shrinks)))

  end-Ends : (x : Lexer) → Ends x (λ p. Lexed x p) (ok (plain token_eof, x))
  unfolding Ends
  end-Ends x = (Goes-refl x, inl refl)

  -- the loop ends from every text that is shorter
  abbrev Again : ℕ → Lexer → Type 0
  Again fuel x = (y : Lexer) → size y < size x → Ends y (λ p. Lexed y p) (lex_loop numerals fuel y)

  comment-Ends :
      (fuel : ℕ) (x : Lexer)
      → x.character ≡ b'-'
      → Again fuel x
      → Ends x (λ p. Lexed x p) (skip_comment (advance x).1 >>= (λ y. lex_loop numerals fuel y))
  comment-Ends fuel x dash again =
      let s = advance-Steps_plain x (dash_lem x dash) (omega arith) in
      Ends-bind x _ (skip_comment (advance x).1) _
        (Ends-after _ s.goes (skip_comment-Going (advance x).1) (λ y g. Steps-Goes s g))
        (λ y k. Ends-after _ k.goes (again y k.strict) (λ p l. Lexed-after x p k.goes l))

  start-Ends :
      (fuel : ℕ) (x : Lexer) (p : ℕ × Lexer)
      → Steps x p.1
      → Again fuel x
      → Ends x
          (λ p. Lexed x p)
          (elim (starts_comment p.0 p.1) [
            | true ↦ skip_comment (advance p.1).1 >>= (λ y. lex_loop numerals fuel y)
            | false ↦ lex_token numerals p.0 p.1
          ])
  start-Ends fuel x p s again = elim (Bool-cases (starts_comment p.0 p.1)) [
    | inl c ↦ rw c (
        Ends-after _ s.goes
          (comment-Ends fuel p.1 (comment_lem p.0 p.1 c)
            (λ y shorter. again y (omega (arith, s.strict))))
          (λ q l. Lexed-after x q s.goes l))
    | inr c ↦ rw c (Lexed-step _ s (lex_token-Going p.0 p.1))
  ]

  behind_space-Ends :
      (fuel : ℕ) (x : Lexer)
      → is_space x.character ≡ false
      → Again fuel x
      → Ends x
          (λ p. Lexed x p)
          (elim (is_eof x) [
            | true ↦ ok (plain token_eof, x)
            | false ↦ save_advance x >>= (λ p. elim (starts_comment p.0 p.1) [
              | true ↦ skip_comment (advance p.1).1 >>= (λ y. lex_loop numerals fuel y)
              | false ↦ lex_token numerals p.0 p.1
            ])
          ])
  behind_space-Ends fuel x h again = elim (Bool-cases (is_eof x)) [
    | inl e ↦ rw e (end-Ends x)
    | inr e ↦ rw e (
        Ends-bind x _ (save_advance x) _ (save_advance-Stepping_plain x e (space_lem x h))
          (λ p s. start-Ends fuel x p s again))
  ]

  space-Ends :
      (x : Lexer)
      → Ends x (λ y. Goes x y × (is_space y.character ≡ false)) (skip_whitespace (builder_reset x))
  space-Ends x =
      Ends-after _ (reset-Goes x) (skip_whitespace-Going (builder_reset x))
        (λ y g. (Goes-trans (reset-Goes x) g.0, g.1))

  pub lex_loop-Ends :
      (fuel : ℕ) (x : Lexer) → size x < fuel → Ends x (λ p. Lexed x p) (lex_loop numerals fuel x)
  unfolding lex_loop
  lex_loop-Ends zero x h = absurd (omega arith)
  lex_loop-Ends (suc fuel) x h =
      Ends-bind x _ (skip_whitespace (builder_reset x)) _ (space-Ends x) (λ y g.
        Ends-after _ g.0
          (behind_space-Ends fuel y g.1
            (λ z shorter. lex_loop-Ends fuel z (omega (arith, g.0.shrinks))))
          (λ p l. Lexed-after x p g.0 l))

  -- From any text `lexer_lex` ends with a token or an error, or with a failed assertion, the last only
  -- where the text has a byte above 127 or a backslash. A token other than the end makes the
  -- text behind it shorter, and the line counter grows by the newlines that were read; the line of
  -- an error is one that holds a part of the text that was read or is left.
  pub lexer_lex-Ends : (x : Lexer) → Ends x (λ p. Lexed x p) (lexer_lex numerals x)
  unfolding lexer_lex
  lexer_lex-Ends x = lex_loop-Ends (suc (size x)) x (omega arith)
