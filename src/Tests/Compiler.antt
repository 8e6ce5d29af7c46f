-- ===== src/Tests/Compiler.antt =====
-- Tests of the code generator's registers and jump lists.
use lulu.Prelude.{◌≡◌, refl, arith, List, [], ◌∷◌, some}
use lulu.Prelude.Int.{pos, ◌+ℤ◌}
use lulu.Opcode.Fields.{Reads}
use lulu.Opcode.{
  arg_c, OpCode, Instruction, code, make_abc, make_abx, make_asbx, op, arg_a, arg_b, arg_bx,
  arg_sbx, extract,
}
use lulu.Compiler.{no_jump, get_code, jump_get, jump_set, jump_add}
use lulu.Compiler.Jumps.{JumpsAt, jump_set-jump_get}
use lulu.Compiler.JumpList.{IsJumps, apart, all_apart, jump_add-IsJumps}
use lulu.Compiler.Registers.{Registers, IsFrame, load_nil, load_nil-skipped}

-- One local, one temporary.
abbrev frame : Registers
frame = record { free_reg = 2; stack_used = 2; n_active = 1 }

frame-IsFrame : IsFrame frame
frame-IsFrame = record { locals = omega arith; within = omega arith; limit = omega arith }

abbrev jump_code : Instruction
jump_code = make_asbx OpCode.jump 0 no_jump

abbrev nil_code : Instruction
nil_code = make_abc OpCode.nil 0 0 0

-- `if x then local a end local b`: the second nil is lost to the jump.
load_nil-skipped_example :
    (i : Instruction) × (load_nil (jump_code ∷ nil_code ∷ []) (pos 2) 1 1 1
      ≡ some (jump_code ∷ i ∷ []))
    × Reads i (code OpCode.nil) 0 1 0
unfolding make_abc code op arg_a arg_b arg_c extract
load_nil-skipped_example =
    load_nil-skipped (jump_code ∷ nil_code ∷ []) nil_code 1 1 1 1 refl refl (omega arith) refl
      (omega arith) (omega arith) (omega arith) (omega arith)

abbrev two_jumps : List Instruction
two_jumps = jump_code ∷ jump_code ∷ []

jump_code-JumpsAt_first : JumpsAt two_jumps 0 jump_code
unfolding make_asbx make_abx make_abc code op extract
jump_code-JumpsAt_first = record { there = refl; word = omega arith; jumps = refl }

jump_code-JumpsAt_second : JumpsAt two_jumps 1 jump_code
unfolding make_asbx make_abx make_abc code op extract
jump_code-JumpsAt_second = record { there = refl; word = omega arith; jumps = refl }

jump_set-jump_get_example :
    (i' : Instruction) × (jump_set two_jumps (pos 0) (pos 1) ≡ some (i' ∷ jump_code ∷ []))
    × JumpsAt (i' ∷ jump_code ∷ []) 0 i'
    × (jump_get (i' ∷ jump_code ∷ []) (pos 0) ≡ some (pos 1))
jump_set-jump_get_example =
    jump_set-jump_get two_jumps 0 1 jump_code jump_code-JumpsAt_first (omega arith) (omega arith)
      (λ e. omega (arith, e))

jump_add-IsJumps_example :
    (codes' : List Instruction) × (jump_add two_jumps (pos 0) (pos 1) ≡ some (codes', pos 0))
    × IsJumps codes' (pos 0) (0 ∷ 1 ∷ [])
unfolding IsJumps jump_get get_code make_asbx make_abx make_abc code op extract arg_sbx arg_bx ◌+ℤ◌
    all_apart apart
jump_add-IsJumps_example =
    jump_add-IsJumps two_jumps 0 [] 1 []
      (refl, (jump_code, jump_code-JumpsAt_first), (no_jump, refl, refl))
      (refl, (jump_code, jump_code-JumpsAt_second), (no_jump, refl, refl)) refl (omega arith)
      (omega arith)
