-- ===== src/Opcode/Words.antt =====
-- The instruction word as arithmetic: every word below 2 ^ 32 is the sum of its fields, and the
-- bit operations of cpp/src/opcode.hpp read and write them.
use lulu.Prelude.{ℕ, ◌+◌, ◌*◌, ◌/◌, ◌%◌, ◌^◌, ◌<◌, ◌≡◌, arith}
use lulu.Prelude.Bits.{bit_or_fields, bit_and_mask, bit_field_write}
use lulu.Opcode.{
  Instruction, shl, OpCode, code, make_abc, op, arg_a, arg_b, arg_c, arg_bx, set_a, set_b, set_c,
  set_bx,
}

-- The word with the fields `b`, `c`, `a` and `o`.
abbrev pub word : ℕ → ℕ → ℕ → ℕ → ℕ
word b c a o = ((b * 2 ^ 9 + c) * 2 ^ 8 + a) * 2 ^ 6 + o

pub code-lt : (o : OpCode) → code o < 36
unfolding code
code-lt OpCode.move = omega arith
code-lt _ = omega arith

pub make_abc-word :
    (o : OpCode) (a b c : ℕ)
    → a < 2 ^ 8
    → b < 2 ^ 9
    → c < 2 ^ 9
    → (make_abc o a b c).value ≡ word b c a (code o)
unfolding make_abc
make_abc-word o a b c ha hb hc = ground (
  arith,
  code-lt o,
  bit_or_fields 23 b (c * 2 ^ 14),
  bit_or_fields 14 (b * 2 ^ 9 + c) (a * 2 ^ 6),
  bit_or_fields 6 ((b * 2 ^ 9 + c) * 2 ^ 8 + a) (code o),
)

shl-eq : (k x : ℕ) → x * 2 ^ k < 2 ^ 32 → shl x k ≡ x * 2 ^ k
shl-eq k x h = omega arith

module _ (i : Instruction) (b c a o : ℕ) (is : i.value ≡ word b c a o) (hb : b < 2 ^ 9)
    (hc : c < 2 ^ 9) (ha : a < 2 ^ 8) (ho : o < 2 ^ 6) where
  pub op-word : op i ≡ o
  unfolding op
  op-word = ground (arith, bit_and_mask 6 ((b * 2 ^ 9 + c) * 2 ^ 8 + a) o)

  pub arg_a-word : arg_a i ≡ a
  unfolding arg_a
  arg_a-word = ground (arith, bit_and_mask 8 (b * 2 ^ 9 + c) a)

  pub arg_c-word : arg_c i ≡ c
  unfolding arg_c
  arg_c-word = ground (arith, bit_and_mask 9 b c)

  pub arg_b-word : arg_b i ≡ b
  unfolding arg_b
  arg_b-word = ground (arith, bit_and_mask 9 0 b)

  pub arg_bx-word : arg_bx i ≡ b * 2 ^ 9 + c
  unfolding arg_bx
  arg_bx-word = ground (arith, bit_and_mask 18 0 (b * 2 ^ 9 + c))

  pub set_a-word : (x : ℕ) → x < 2 ^ 8 → (set_a x i).value ≡ word b c x o
  unfolding set_a
  set_a-word x hx =
      rw (is, shl-eq 6 x (omega arith)) (bit_field_write 18 8 6 _ a o x (omega arith) ha ho hx)

  pub set_b-word : (x : ℕ) → x < 2 ^ 9 → (set_b x i).value ≡ word x c a o
  unfolding set_b
  set_b-word x hx =
      rw (is, shl-eq 23 x (omega arith))
        (ground (arith, bit_field_write 0 9 23 0 b ((c * 2 ^ 8 + a) * 2 ^ 6 + o) x))

  pub set_c-word : (x : ℕ) → x < 2 ^ 9 → (set_c x i).value ≡ word b x a o
  unfolding set_c
  set_c-word x hx =
      rw (is, shl-eq 14 x (omega arith))
        (ground (arith, bit_field_write 9 9 14 b c (a * 2 ^ 6 + o) x))

  pub set_bx-word : (x : ℕ) → x < 2 ^ 18 → (set_bx x i).value ≡ word (x / 2 ^ 9) (x % 2 ^ 9) a o
  unfolding set_bx
  set_bx-word x hx =
      rw (is, shl-eq 14 x (omega arith))
        (ground (arith, bit_field_write 0 18 14 0 (b * 2 ^ 9 + c) (a * 2 ^ 6 + o) x))
