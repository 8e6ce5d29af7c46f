-- ===== src/Lexer/Progress/Skip.antt =====
-- The loops that skip and consume characters end, and count the newlines they pass.
use lulu.Prelude.{
  ℕ, zero, suc, ◌<◌, ◌≡◌, ap, inl, inr, ◌≢◌, Bool, true, false, not, ◌&&◌, arith, Bool-cases,
}
use lulu.Lexer.{
  Lexer, Reason, ok, error, is_eof, advance, save, advance_fn, check, match_char, size, ◌>>=◌,
  save_advance, get_char, unterminated_multiline,
}
use lulu.Lexer.Loops.{
  get_nesting_loop, get_nesting, save_equals, save_bracket, close_bracket, count_line,
  skip_multiline_loop, skip_multiline, skip_line_loop, skip_line, skip_bracket_comment,
  skip_comment, is_space, skip_space, skip_whitespace_loop, skip_whitespace, consume_loop,
  consume_sequence,
}
use lulu.Lexer.Progress.{
  newlines_left, suspects_left, get_char_from_lem, Goes, Goes-refl, Goes-trans, Ends, Ends-after,
  Steps, advance-Steps_plain, Going, Stepping-Going, Going-bind, Stepping-bind, save-Going,
  advance_fn-Stepping, advance_fn-Stepping_plain, match_char-Steps, save_advance-Stepping_plain,
}

-- the condition of a `while` loop over characters
pub at_character :
    (x : Lexer) (test : Bool) → (not (is_eof x) && test) ≡ true → (is_eof x ≡ false) × (test ≡ true)
at_character x test q = ground arith

at_equals : (x : Lexer) → check x b'=' ≡ true → x.character ≢ b'\n'
unfolding check
at_equals x q = ground arith

pub get_nesting_loop-Going :
    (fuel : ℕ) (do_save : Bool) (count : ℕ) (x : Lexer)
    → size x < fuel
    → Going x (λ p. p.1) (get_nesting_loop fuel do_save count x)
unfolding get_nesting_loop Ends
get_nesting_loop-Going zero do_save count x h = absurd (omega arith)
get_nesting_loop-Going (suc fuel) do_save count x h =
    elim (Bool-cases (not (is_eof x) && check x b'=')) [
      | inl q ↦
          let (here, equals) = at_character x _ q in
          rw (q, get_nesting_loop)
            (Stepping-Going x _ _ (
              Stepping-bind x (λ p. p.1) (λ p. p.1) (advance_fn do_save x) _
                (advance_fn-Stepping_plain do_save x here (at_equals x equals))
                (λ p s.
                  get_nesting_loop-Going fuel do_save (suc count) p.1 (omega (arith, s.strict)))))
      | inr q ↦ rw (q, get_nesting_loop) (Goes-refl x)
    ]

pub get_nesting-Going : (x : Lexer) (do_save : Bool) → Going x (λ p. p.1) (get_nesting x do_save)
unfolding get_nesting
get_nesting-Going x do_save = get_nesting_loop-Going (suc (size x)) do_save 0 x (omega arith)

pub save-Going_only : (x : Lexer) (ch : ℕ) → ch < 128 → Going x (λ y. y) (save x ch)
save-Going_only x ch h = Ends-after (save x ch) (Goes-refl x) (save-Going x ch h) (λ y g. g.0)

save_equals-Going : (n : ℕ) (x : Lexer) → Going x (λ y. y) (save_equals n x)
unfolding save_equals Ends
save_equals-Going zero x = Goes-refl x
save_equals-Going (suc n) x =
    Going-bind x _ (λ y. y) (save x b'=') _ (save-Going_only x b'=' (omega arith))
      (λ y g. save_equals-Going n y)

save_bracket-Going :
    (do_save : Bool) (n : ℕ) (x : Lexer) → Going x (λ y. y) (save_bracket do_save n x)
unfolding save_bracket Ends
save_bracket-Going false n x = Goes-refl x
save_bracket-Going true n x =
    Going-bind x _ (λ y. y) (save x b']') _ (save-Going_only x b']' (omega arith))
      (λ y g.
        Going-bind y _ (λ y. y) (save_equals n y) _ (save_equals-Going n y)
          (λ z h. save-Going_only z b']' (omega arith)))

pub match_char-Goes : (x : Lexer) (ch : ℕ) → ch ≢ 255 → ch ≢ b'\n' → Goes x (match_char x ch).1
match_char-Goes x ch e n = elim (match_char-Steps x ch e n) [
  | inl (found, s) ↦ s.goes
  | inr (missing, same) ↦ rw same (Goes-refl x)
]

end_bracket-Going :
    (test do_save : Bool) (n : ℕ) (x : Lexer)
    → Going {A = Bool × Lexer} x
        (λ p. p.1)
        (elim test [
          | true ↦ ok (true, x)
          | false ↦ save_bracket do_save n x >>= (λ w. ok (false, w))
        ])
unfolding Ends
end_bracket-Going true do_save n x = Goes-refl x
end_bracket-Going false do_save n x =
    Going-bind x (λ y. y) (λ p. p.1) (save_bracket do_save n x) _ (save_bracket-Going do_save n x)
      (λ y g. Goes-refl y)

again :
    (fuel n : ℕ) (do_save : Bool) (p : Bool × Lexer)
    → Going p.1 (λ y. y) (skip_multiline_loop fuel n do_save p.1)
    → Going p.1
        (λ y. y)
        (elim p.0 [ true ↦ ok p.1 | false ↦ skip_multiline_loop fuel n do_save p.1 ])
unfolding Ends
again fuel n do_save (true, x) g = Goes-refl x
again fuel n do_save (false, x) g = g

close_bracket-Going :
    (n : ℕ) (do_save : Bool) (x : Lexer) → Going x (λ p. p.1) (close_bracket n do_save x)
unfolding close_bracket
close_bracket-Going n do_save x =
    Going-bind x (λ p. p.1) (λ p. p.1) (get_nesting x false) _ (get_nesting-Going x false)
      (λ p g.
        let after = match_char-Goes p.1 b']' (omega arith) (omega arith) in
        Ends-after _ after (end_bracket-Going _ do_save p.0 (match_char p.1 b']').1)
          (λ q h. Goes-trans after h))

-- An error at `x` has the line of `x`.
pub error-Going {ℓ} :
    {A : Type ℓ} (pos : A → Lexer) (x : Lexer) (why : Reason) → Going x pos (error x why)
unfolding Ends
error-Going pos x why = omega arith

pub skip_multiline_loop-Going :
    (fuel n : ℕ) (do_save : Bool) (x : Lexer)
    → size x < fuel
    → Going x (λ y. y) (skip_multiline_loop fuel n do_save x)
unfolding skip_multiline_loop
skip_multiline_loop-Going zero n do_save x h = absurd (omega arith)
skip_multiline_loop-Going (suc fuel) n do_save x h = elim (Bool-cases (is_eof x)) [
  | inl q ↦ rw (q, skip_multiline_loop) (error-Going (λ y. y) x unterminated_multiline)
  | inr q ↦ elim (match_char-Steps x b']' (omega arith) (omega arith)) [
    | inl (found, s) ↦
        rw (q, found, skip_multiline_loop)
          (Ends-after _ s.goes
            (Going-bind (match_char x b']').1 (λ p. p.1) (λ y. y)
              (close_bracket n do_save (match_char x b']').1) _
              (close_bracket-Going n do_save (match_char x b']').1)
              (λ p g. again fuel n do_save p (
                skip_multiline_loop-Going fuel n do_save p.1 (omega (arith, s.strict, g.shrinks)))))
            (λ y g. Goes-trans s.goes g))
    | inr (kept, same) ↦
        rw (q, kept, same, skip_multiline_loop)
          (Stepping-Going x _ _ (
            Stepping-bind x (λ p. count_line p.0 p.1) (λ y. y) (advance_fn do_save x) _
              (advance_fn-Stepping do_save x q)
              (λ p s.
                skip_multiline_loop-Going fuel n do_save (count_line p.0 p.1)
                  (omega (arith, s.strict)))))
  ]
]

pub skip_multiline-Going :
    (x : Lexer) (n : ℕ) (do_save : Bool) → Going x (λ y. y) (skip_multiline x n do_save)
unfolding skip_multiline
skip_multiline-Going x n do_save =
    skip_multiline_loop-Going (suc (size x)) n do_save x (omega arith)

not_newline : (x : Lexer) → not (check x b'\n') ≡ true → x.character ≢ b'\n'
unfolding check
not_newline x q = ground arith

skip_line_loop-Going :
    (fuel : ℕ) (x : Lexer) → size x < fuel → Going x (λ y. y) (skip_line_loop fuel x)
unfolding skip_line_loop Ends
skip_line_loop-Going zero x h = absurd (omega arith)
skip_line_loop-Going (suc fuel) x h = elim (Bool-cases (not (is_eof x) && not (check x b'\n'))) [
  | inl q ↦
      let (here, plain) = at_character x _ q in
      let s = advance-Steps_plain x here (not_newline x plain) in
      rw (q, skip_line_loop)
        (Ends-after (skip_line_loop fuel (advance x).1) s.goes
          (skip_line_loop-Going fuel (advance x).1 (omega (arith, s.strict)))
          (λ y g. Goes-trans s.goes g))
  | inr q ↦ rw (q, skip_line_loop) (Goes-refl x)
]

pub skip_line-Going : (x : Lexer) → Going x (λ y. y) (skip_line x)
unfolding skip_line
skip_line-Going x = skip_line_loop-Going (suc (size x)) x (omega arith)

-- behind `match_char`, in a comment
comment_end-Going :
    (p : Bool × Lexer) (n : ℕ)
    → Going p.1 (λ y. y) (elim p.0 [ true ↦ skip_multiline p.1 n false | false ↦ skip_line p.1 ])
comment_end-Going (true, x) n = skip_multiline-Going x n false
comment_end-Going (false, x) n = skip_line-Going x

skip_bracket_comment-Going : (x : Lexer) → Going x (λ y. y) (skip_bracket_comment x)
unfolding skip_bracket_comment
skip_bracket_comment-Going x =
    Going-bind x (λ p. p.1) (λ y. y) (get_nesting x false) _ (get_nesting-Going x false)
      (λ p g.
        let after = match_char-Goes p.1 b'[' (omega arith) (omega arith) in
        Ends-after _ after (comment_end-Going (match_char p.1 b'[') p.0)
          (λ y h. Goes-trans after h))

comment_start-Going :
    (p : Bool × Lexer)
    → Going p.1 (λ y. y) (elim p.0 [ true ↦ skip_bracket_comment p.1 | false ↦ skip_line p.1 ])
comment_start-Going (true, x) = skip_bracket_comment-Going x
comment_start-Going (false, x) = skip_line-Going x

pub skip_comment-Going : (x : Lexer) → Going x (λ y. y) (skip_comment x)
unfolding skip_comment
skip_comment-Going x =
    let after = match_char-Goes x b'[' (omega arith) (omega arith) in
    Ends-after _ after (comment_start-Going (match_char x b'[')) (λ y h. Goes-trans after h)

skip_space-Steps : (x : Lexer) → is_space x.character ≡ true → Steps x (skip_space x)
unfolding skip_space is_space size is_eof advance get_char count_line newlines_left suspects_left
skip_space-Steps x h = ground (arith, get_char_from_lem x.stream.remaining x.stream.reader)

skip_whitespace_loop-Going :
    (fuel : ℕ) (x : Lexer)
    → size x < fuel
    → Ends x (λ y. Goes x y × (is_space y.character ≡ false)) (skip_whitespace_loop fuel x)
unfolding skip_whitespace_loop Ends
skip_whitespace_loop-Going zero x h = absurd (omega arith)
skip_whitespace_loop-Going (suc fuel) x h = elim (Bool-cases (is_space x.character)) [
  | inl q ↦
      let s = skip_space-Steps x q in
      rw (q, skip_whitespace_loop)
        (Ends-after (skip_whitespace_loop fuel (skip_space x)) s.goes
          (skip_whitespace_loop-Going fuel (skip_space x) (omega (arith, s.strict)))
          (λ y g. (Goes-trans s.goes g.0, g.1)))
  | inr q ↦ rw (q, skip_whitespace_loop) (Goes-refl x, q)
]

pub skip_whitespace-Going :
    (x : Lexer) → Ends x (λ y. Goes x y × (is_space y.character ≡ false)) (skip_whitespace x)
unfolding skip_whitespace
skip_whitespace-Going x = skip_whitespace_loop-Going (suc (size x)) x (omega arith)

-- The class of characters does not hold the newline.
consume_loop-Going :
    (predicate : ℕ → Bool)
    → predicate b'\n' ≡ false
    → (fuel : ℕ) (x : Lexer) → size x < fuel
    → Going x (λ y. y) (consume_loop fuel predicate x)
unfolding consume_loop Ends
consume_loop-Going predicate e zero x h = absurd (omega arith)
consume_loop-Going predicate e (suc fuel) x h =
    elim (Bool-cases (not (is_eof x) && predicate x.character)) [
      | inl q ↦
          let (here, in_class) = at_character x _ q in
          rw (q, consume_loop)
            (Stepping-Going x _ _ (
              Stepping-bind x (λ p. p.1) (λ y. y) (save_advance x) _
                (save_advance-Stepping_plain x here (λ n. cc (ap predicate n)))
                (λ p s. consume_loop-Going predicate e fuel p.1 (omega (arith, s.strict)))))
      | inr q ↦ rw (q, consume_loop) (Goes-refl x)
    ]

pub consume_sequence-Going :
    (x : Lexer) (predicate : ℕ → Bool)
    → predicate b'\n' ≡ false
    → Going x (λ y. y) (consume_sequence x predicate)
unfolding consume_sequence
consume_sequence-Going x predicate e = consume_loop-Going predicate e (suc (size x)) x (omega arith)
