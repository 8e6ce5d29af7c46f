-- ===== src/Opcode/Fields.antt =====
-- The constructors, readers and writers of `Instruction` (cpp/src/opcode.hpp) against each other.
use lulu.Prelude.{ℕ, ◌+◌, ◌-◌, ◌*◌, ◌/◌, ◌%◌, ◌^◌, ◌≤◌, ◌<◌, ◌≡◌, true, false, ap, arith, bit_and}
use lulu.Prelude.Int.{ℤ, pos, negsuc, ◌≤ℤ◌, ◌+ℤ◌, ◌-ℤ◌, to_u32}
use lulu.Prelude.Bits.{bit_and_mask, bit_and-zero, bit_and_split, bit_or-zero, bit_or_split}
use lulu.Opcode.{
  Instruction, OpCode, code, make_abc, make_abx, make_asbx, op, arg_a, arg_b, arg_c, arg_bx,
  arg_sbx, set_a, set_b, set_c, set_bx, set_sbx, reg_is_k, reg_to_rk, reg_get_k, max_c, max_rk,
  max_sbx,
}
use lulu.Opcode.Words.{
  word, code-lt, make_abc-word, op-word, arg_a-word, arg_b-word, arg_c-word, arg_bx-word,
  set_a-word, set_b-word, set_c-word, set_bx-word,
}

abbrev pub IsWord : Instruction → Type 0
IsWord i = i.value < 2 ^ 32

-- What the four readers return.
pub record Reads (i : Instruction) (o a b c : ℕ) : Type 0 where
  pub has_op : op i ≡ o
  pub has_a : arg_a i ≡ a
  pub has_b : arg_b i ≡ b
  pub has_c : arg_c i ≡ c

pub word-Reads :
    (i : Instruction) (b c a o : ℕ)
    → i.value ≡ word b c a o
    → b < 2 ^ 9
    → c < 2 ^ 9
    → a < 2 ^ 8
    → o < 2 ^ 6
    → Reads i o a b c
word-Reads i b c a o is hb hc ha ho = record {
  has_op = op-word i b c a o is hb hc ha ho;
  has_a = arg_a-word i b c a o is hb hc ha ho;
  has_b = arg_b-word i b c a o is hb hc ha ho;
  has_c = arg_c-word i b c a o is hb hc ha ho;
}

-- A word with given operands reads back as its operation code and these operands.
pub make_abc-Reads :
    (o : OpCode) (a b c : ℕ)
    → a < 2 ^ 8
    → b < 2 ^ 9
    → c < 2 ^ 9
    → IsWord (make_abc o a b c) × Reads (make_abc o a b c) (code o) a b c
make_abc-Reads o a b c ha hb hc =
    let e = make_abc-word o a b c ha hb hc in
    (omega (arith, code-lt o), word-Reads _ b c a (code o) e hb hc ha (omega (arith, code-lt o)))

-- The word of an instruction is the sum of its fields.
split-word :
    (i : Instruction)
    → i.value
      ≡ word
          (i.value / 2 ^ 23)
          (i.value / 2 ^ 14 % 2 ^ 9)
          (i.value / 2 ^ 6 % 2 ^ 8)
          (i.value % 2 ^ 6)
split-word i = omega arith

module _ (i : Instruction) (w : IsWord i) where
  reads :
      Reads i
        (i.value % 2 ^ 6)
        (i.value / 2 ^ 6 % 2 ^ 8)
        (i.value / 2 ^ 23)
        (i.value / 2 ^ 14 % 2 ^ 9)
  reads =
      word-Reads i _ _ _ _ (split-word i) (omega arith) (omega arith) (omega arith) (omega arith)

  -- The readers lose nothing.
  pub value-fields : i.value ≡ word (arg_b i) (arg_c i) (arg_a i) (op i)
  value-fields = let r = reads in omega arith

  pub fields_bounds : (arg_b i < 2 ^ 9) × (arg_c i < 2 ^ 9) × (arg_a i < 2 ^ 8) × (op i < 2 ^ 6)
  fields_bounds = let r = reads in omega arith

  pub set_a-Reads :
      (x : ℕ) → x < 2 ^ 8 → IsWord (set_a x i) × Reads (set_a x i) (op i) x (arg_b i) (arg_c i)
  set_a-Reads x hx =
      let (hb, hc, ha, ho) = fields_bounds in
      let e = set_a-word i _ _ _ _ value-fields hb hc ha ho x hx in
      (omega arith, word-Reads _ _ _ _ _ e hb hc hx ho)

  pub set_b-Reads :
      (x : ℕ) → x < 2 ^ 9 → IsWord (set_b x i) × Reads (set_b x i) (op i) (arg_a i) x (arg_c i)
  set_b-Reads x hx =
      let (hb, hc, ha, ho) = fields_bounds in
      let e = set_b-word i _ _ _ _ value-fields hb hc ha ho x hx in
      (omega arith, word-Reads _ _ _ _ _ e hx hc ha ho)

  pub set_c-Reads :
      (x : ℕ) → x < 2 ^ 9 → IsWord (set_c x i) × Reads (set_c x i) (op i) (arg_a i) (arg_b i) x
  set_c-Reads x hx =
      let (hb, hc, ha, ho) = fields_bounds in
      let e = set_c-word i _ _ _ _ value-fields hb hc ha ho x hx in
      (omega arith, word-Reads _ _ _ _ _ e hb hx ha ho)

  pub arg_bx-fields : arg_bx i ≡ arg_b i * 2 ^ 9 + arg_c i
  arg_bx-fields =
      let (hb, hc, ha, ho) = fields_bounds in arg_bx-word i _ _ _ _ value-fields hb hc ha ho

  pub set_bx-keeps :
      (x : ℕ)
      → x < 2 ^ 18
      → IsWord (set_bx x i)
        × (arg_bx (set_bx x i) ≡ x)
        × (op (set_bx x i) ≡ op i)
        × (arg_a (set_bx x i) ≡ arg_a i)
  set_bx-keeps x hx =
      let (hb, hc, ha, ho) = fields_bounds in
      let e = set_bx-word i _ _ _ _ value-fields hb hc ha ho x hx in
      let r = word-Reads _ _ _ _ _ e (omega arith) (omega arith) ha ho in
      let f = arg_bx-word _ _ _ _ _ e (omega arith) (omega arith) ha ho in
      (omega arith, omega arith, r.has_op, r.has_a)

-- The offsets that 18 bits hold, in excess of `max_sbx`.
abbrev pub IsOffset : ℤ → Type 0
IsOffset x = (negsuc (max_sbx - 1) ≤ℤ x) × (x ≤ℤ pos (max_sbx + 1))

biased :
    (x : ℤ)
    → IsOffset x
    → (to_u32 (x +ℤ pos max_sbx) < 2 ^ 18) × (pos (to_u32 (x +ℤ pos max_sbx)) -ℤ pos max_sbx ≡ x)
unfolding ◌+ℤ◌ ◌-ℤ◌
biased (pos n) h = ground arith
biased (negsuc n) h = ground arith

-- Writing the words of one operand changes that operand alone.
pub set-Reads :
    (i : Instruction) (a b c : ℕ)
    → IsWord i
    → a < 2 ^ 8
    → b < 2 ^ 9
    → c < 2 ^ 9
    → Reads (set_a a i) (op i) a (arg_b i) (arg_c i)
      × Reads (set_b b i) (op i) (arg_a i) b (arg_c i)
      × Reads (set_c c i) (op i) (arg_a i) (arg_b i) c
set-Reads i a b c w ha hb hc =
    ((set_a-Reads i w a ha).1, (set_b-Reads i w b hb).1, (set_c-Reads i w c hc).1)

-- An offset that is written is read back, and the operation and operand A stay.
pub set_sbx-keeps :
    (i : Instruction) (x : ℤ)
    → IsWord i
    → IsOffset x
    → IsWord (set_sbx x i)
      × (arg_sbx (set_sbx x i) ≡ x)
      × (op (set_sbx x i) ≡ op i)
      × (arg_a (set_sbx x i) ≡ arg_a i)
unfolding set_sbx arg_sbx
set_sbx-keeps i x w h =
    let (fits, back) = biased x h in
    let (w', e, o, a) = set_bx-keeps i w _ fits in (w', rw e back, o, a)

split_at_nine : (x : ℕ) → x ≡ x / 2 ^ 9 * 2 ^ 9 + x % 2 ^ 9
split_at_nine x = omega arith

-- An index of 18 bits is read back from the word that it was made with.
pub make_abx-Reads :
    (o : OpCode) (a x : ℕ)
    → a < 2 ^ 8
    → x < 2 ^ 18
    → IsWord (make_abx o a x)
      × (op (make_abx o a x) ≡ code o)
      × (arg_a (make_abx o a x) ≡ a)
      × (arg_bx (make_abx o a x) ≡ x)
unfolding make_abx
make_abx-Reads o a x ha hx =
    let low : bit_and x max_c ≡ x % 2 ^ 9 =
      ground (arith, split_at_nine x, bit_and_mask 9 (x / 2 ^ 9) (x % 2 ^ 9)) in
    let (w, r) =
      make_abc-Reads o a (x / 2 ^ 9 % 2 ^ 16) (bit_and x max_c % 2 ^ 16) ha (omega arith)
        (omega arith) in
    (w, r.has_op, r.has_a, omega (arith, arg_bx-fields _ w))

-- A jump offset of 18 bits, negative ones included, is read back from the word that it was made with.
pub make_asbx-Reads :
    (o : OpCode) (a : ℕ) (x : ℤ)
    → a < 2 ^ 8
    → IsOffset x
    → IsWord (make_asbx o a x)
      × (op (make_asbx o a x) ≡ code o)
      × (arg_a (make_asbx o a x) ≡ a)
      × (arg_sbx (make_asbx o a x) ≡ x)
unfolding make_asbx arg_sbx
make_asbx-Reads o a x ha h =
    let (fits, back) = biased x h in
    let (w, r, b, e) = make_abx-Reads o a _ ha fits in (w, r, b, rw e back)

-- Two words that read alike are the same word.
pub Instruction-ext :
    (i j : Instruction) → IsWord i → IsWord j → Reads j (op i) (arg_a i) (arg_b i) (arg_c i) → i ≡ j
Instruction-ext i j wi wj r =
    let e : i.value ≡ j.value = omega (arith, value-fields i wi, value-fields j wj) in
    ap (λ (v : ℕ). let k : Instruction = record { value = v } in k) e

-- An index that fits stays apart from the registers, and is found again.
pub reg_to_rk_lem :
    (index reg : ℕ)
    → index ≤ max_rk
    → reg ≤ max_rk
    → (reg_is_k (reg_to_rk index) ≡ true)
      × (reg_get_k (reg_to_rk index) ≡ index)
      × (reg_is_k reg ≡ false)
      × (reg_to_rk index < 2 ^ 9)
unfolding reg_is_k reg_to_rk reg_get_k
reg_to_rk_lem index reg hi hr = ground (
  arith,
  bit_or_split 8 0 1 index 0,
  bit_or-zero index,
  bit_and_split 8 1 1 index 0,
  bit_and_split 8 0 1 reg 0,
  bit_and-zero index,
  bit_and-zero reg,
  bit_and_mask 8 1 index,
)
