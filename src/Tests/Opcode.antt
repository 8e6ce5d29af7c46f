-- ===== src/Tests/Opcode.antt =====
-- Tests of the instruction words.
use lulu.Prelude.{◌≡◌, refl, arith}
use lulu.Prelude.Int.{negsuc}
use lulu.Opcode.{
  OpCode, Instruction, code, make_abc, make_abx, make_asbx, op, arg_a, arg_b, arg_c, arg_bx,
  arg_sbx,
}
use lulu.Opcode.Fields.{IsWord, Reads, make_asbx-Reads}
use lulu.Opcode.FloatByte.{floating_byte_make, floating_byte_decode}

abbrev sample : Instruction
sample = record { value = 0x1234_5678 }

add_word : make_abc OpCode.add 3 257 4 ≡ record { value = 0x8081_00cc }
unfolding make_abc code
add_word = refl

negative_jump : arg_sbx (make_asbx OpCode.jump 0 (negsuc 4)) ≡ negsuc 4
unfolding make_asbx make_abx make_abc code arg_sbx arg_bx
negative_jump = refl

make_asbx-Reads_example :
    IsWord (make_asbx OpCode.jump 0 (negsuc 4))
    × (op (make_asbx OpCode.jump 0 (negsuc 4)) ≡ code OpCode.jump)
    × (arg_a (make_asbx OpCode.jump 0 (negsuc 4)) ≡ 0)
    × (arg_sbx (make_asbx OpCode.jump 0 (negsuc 4)) ≡ negsuc 4)
make_asbx-Reads_example = make_asbx-Reads OpCode.jump 0 (negsuc 4) (omega arith) (omega arith)

sample-Reads : Reads sample (op sample) (arg_a sample) (arg_b sample) (arg_c sample)
sample-Reads = record { has_op = refl; has_a = refl; has_b = refl; has_c = refl }

seventeen : floating_byte_decode (floating_byte_make 17) ≡ 18
unfolding floating_byte_make floating_byte_decode
seventeen = refl
