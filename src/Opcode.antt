-- ===== src/Opcode.antt =====
-- cpp/src/opcode.hpp and cpp/src/opcode.cpp: the operation codes and the 32-bit instruction word.
-- A `u32` is a number below 2 ^ 32; shifts wrap at 2 ^ 32 as they do in the source.
pub mod Words
pub mod Fields
pub mod Info
pub mod FloatByte
use lulu.Prelude.{
  ℕ, ◌+◌, ◌-◌, ◌*◌, ◌/◌, ◌%◌, ◌^◌, Bool, true, false, if◌then◌else◌, bit_and, bit_or, ◌==◌,
}
use lulu.Prelude.Int.{ℤ, pos, ◌+ℤ◌, ◌-ℤ◌, to_u32}

pub data OpCode : Type 0 where
  move constant nil bool get_global set_global new_table get_table set_table set_array : OpCode
  get_upvalue set_upvalue add sub mul div modulo pow eq lt leq unm not len concat test : OpCode
  test_set jump for_prep for_loop for_in call self closure close return : OpCode

-- The value of the enumerator.
unfoldable pub code : OpCode → ℕ
code OpCode.move = 0
code OpCode.constant = 1
code OpCode.nil = 2
code OpCode.bool = 3
code OpCode.get_global = 4
code OpCode.set_global = 5
code OpCode.new_table = 6
code OpCode.get_table = 7
code OpCode.set_table = 8
code OpCode.set_array = 9
code OpCode.get_upvalue = 10
code OpCode.set_upvalue = 11
code OpCode.add = 12
code OpCode.sub = 13
code OpCode.mul = 14
code OpCode.div = 15
code OpCode.modulo = 16
code OpCode.pow = 17
code OpCode.eq = 18
code OpCode.lt = 19
code OpCode.leq = 20
code OpCode.unm = 21
code OpCode.not = 22
code OpCode.len = 23
code OpCode.concat = 24
code OpCode.test = 25
code OpCode.test_set = 26
code OpCode.jump = 27
code OpCode.for_prep = 28
code OpCode.for_loop = 29
code OpCode.for_in = 30
code OpCode.call = 31
code OpCode.self = 32
code OpCode.closure = 33
code OpCode.close = 34
code OpCode.return = 35

abbrev pub opcode_count : ℕ
opcode_count = 36

-- `BIT_MASK1(n)` and `BIT_MASK0(start, n)`, as `u32`.
abbrev pub bit_mask1 : ℕ → ℕ
bit_mask1 n = 2 ^ n - 1

abbrev pub bit_mask0 : ℕ → ℕ → ℕ
bit_mask0 start n = 2 ^ 32 - 1 - bit_mask1 start * 2 ^ n % 2 ^ 32

pub record Instruction : Type 0 where
  pub value : ℕ

-- The sizes and offsets of the operands, in bits.
abbrev pub size_b : ℕ
size_b = 9

abbrev pub size_c : ℕ
size_c = 9

abbrev pub size_a : ℕ
size_a = 8

abbrev pub size_op : ℕ
size_op = 6

abbrev pub size_bx : ℕ
size_bx = size_b + size_c

abbrev pub bit_rk : ℕ
bit_rk = 2 ^ (size_b - 1)

abbrev pub max_rk : ℕ
max_rk = bit_rk - 1

abbrev pub offset_op : ℕ
offset_op = 0

abbrev pub offset_a : ℕ
offset_a = offset_op + size_op

abbrev pub offset_c : ℕ
offset_c = offset_a + size_a

abbrev pub offset_b : ℕ
offset_b = offset_c + size_c

abbrev pub offset_bx : ℕ
offset_bx = offset_c

abbrev pub max_b : ℕ
max_b = bit_mask1 size_b

abbrev pub max_c : ℕ
max_c = bit_mask1 size_c

abbrev pub max_a : ℕ
max_a = bit_mask1 size_a

abbrev pub max_op : ℕ
max_op = bit_mask1 size_op

abbrev pub max_bx : ℕ
max_bx = bit_mask1 size_bx

abbrev pub max_sbx : ℕ
max_sbx = max_bx / 2

-- `x << k` on `u32`.
abbrev pub shl : ℕ → ℕ → ℕ
shl x k = x * 2 ^ k % 2 ^ 32

unfoldable pub make_abc : OpCode → ℕ → ℕ → ℕ → Instruction
unfolding code
make_abc op a b c = record {
  value =
      bit_or (bit_or (bit_or (shl b offset_b) (shl c offset_c)) (shl a offset_a))
        (shl (code op) offset_op);
}

-- The casts of the two halves of `bx` to `u16` are the remainders.
unfoldable pub make_abx : OpCode → ℕ → ℕ → Instruction
make_abx op a bx = make_abc op a (bx / 2 ^ size_c % 2 ^ 16) (bit_and bx max_c % 2 ^ 16)

unfoldable pub make_asbx : OpCode → ℕ → ℤ → Instruction
unfolding ◌+ℤ◌
make_asbx op a sbx = make_abx op a (to_u32 (sbx +ℤ pos max_sbx))

-- `extract<OFFSET, MASK1>()`
unfoldable pub extract : ℕ → ℕ → Instruction → ℕ
extract offset mask i = bit_and (i.value / 2 ^ offset) mask

-- `op()`, as the number of the enumerator.
unfoldable pub op : Instruction → ℕ
unfolding extract
op i = extract offset_op max_op i

unfoldable pub arg_a : Instruction → ℕ
unfolding extract
arg_a i = extract offset_a max_a i

unfoldable pub arg_b : Instruction → ℕ
unfolding extract
arg_b i = extract offset_b max_b i

unfoldable pub arg_c : Instruction → ℕ
unfolding extract
arg_c i = extract offset_c max_c i

unfoldable pub arg_bx : Instruction → ℕ
unfolding extract
arg_bx i = extract offset_bx max_bx i

unfoldable pub arg_sbx : Instruction → ℤ
unfolding ◌-ℤ◌
arg_sbx i = pos (arg_bx i) -ℤ pos max_sbx

-- `set<OFFSET, MASK0>(arg)`
unfoldable pub set_field : ℕ → ℕ → ℕ → Instruction → Instruction
set_field offset mask0 arg i = record { value = bit_or (bit_and i.value mask0) (shl arg offset) }

unfoldable pub set_a : ℕ → Instruction → Instruction
unfolding set_field
set_a a i = set_field offset_a (bit_mask0 size_a offset_a) a i

unfoldable pub set_b : ℕ → Instruction → Instruction
unfolding set_field
set_b b i = set_field offset_b (bit_mask0 size_b offset_b) b i

unfoldable pub set_c : ℕ → Instruction → Instruction
unfolding set_field
set_c c i = set_field offset_c (bit_mask0 size_c offset_c) c i

unfoldable pub set_bx : ℕ → Instruction → Instruction
unfolding set_field
set_bx bx i = set_field offset_bx (bit_mask0 size_bx offset_bx) bx i

unfoldable pub set_sbx : ℤ → Instruction → Instruction
unfolding ◌+ℤ◌
set_sbx sbx i = set_bx (to_u32 (sbx +ℤ pos max_sbx)) i

-- Registers and constants share an operand: bit 8 marks an index into the constants.
unfoldable pub reg_is_k : ℕ → Bool
reg_is_k reg = if bit_and reg bit_rk == 0 then false else true

unfoldable pub reg_to_rk : ℕ → ℕ
reg_to_rk index = bit_or (index % 2 ^ 16) bit_rk

unfoldable pub reg_get_k : ℕ → ℕ
reg_get_k reg = bit_and reg max_rk
