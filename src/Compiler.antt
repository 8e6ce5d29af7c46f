-- ===== src/Compiler.antt =====
-- cpp/src/compiler.cpp: the lists of jumps that wait for their target, which are threaded through the
-- offsets of the jumps themselves. `none` is a failed assertion or bounds check, or the error of a
-- jump that is too long.
pub mod Registers
pub mod Jumps
pub mod JumpList
use lulu.Prelude.{
  ℕ, zero, suc, ◌+◌, ◌-◌, ◌≤◌, ◌<◌, Bool, true, false, not, ◌&&◌, ◌||◌, Option, none, some, List,
  ltb, leb, ◌==◌, if◌then◌else◌, length, get_elem?, set,
}
use lulu.Prelude.Int.{ℤ, pos, negsuc, ◌+ℤ◌, ◌-ℤ◌, ◌==ℤ◌, magnitude}
use lulu.Opcode.{
  OpCode, Instruction, code, make_abc, op, arg_a, arg_b, arg_c, arg_sbx, set_a, set_sbx, max_sbx,
  max_a,
}
use lulu.Opcode.Info.{test, opinfo_at}

-- The end of a list of jumps, -1.
abbrev pub no_jump : ℤ
no_jump = negsuc 0

abbrev pub no_reg : ℕ
no_reg = max_a

-- `get_code`, with the bounds check of the slice.
unfoldable pub get_code : List Instruction → ℤ → Option Instruction
get_code codes (negsuc n) = none
get_code codes (pos pc) = get_elem? codes pc

-- The assertion on the operation of a jump.
abbrev pub can_jump : Instruction → Bool
can_jump i = leb (code OpCode.jump) (op i) && leb (op i) (code OpCode.for_loop)

unfoldable pub jump_get : List Instruction → ℤ → Option ℤ
jump_get codes jump_pc = elim (get_code codes jump_pc) [
  | none ↦ none
  | some i ↦
      if can_jump i
      then some (if arg_sbx i ==ℤ no_jump then no_jump else (jump_pc +ℤ pos 1) +ℤ arg_sbx i)
      else none
]

-- The instruction at a position is replaced.
abbrev pub set_code : List Instruction → ℤ → Instruction → List Instruction
set_code codes (negsuc n) i = codes
set_code codes (pos pc) i = set codes pc i

unfoldable pub jump_set : List Instruction → ℤ → ℤ → Option (List Instruction)
jump_set codes jump_pc target_pc =
    let offset = target_pc -ℤ (jump_pc +ℤ pos 1) in
    elim (get_code codes jump_pc) [
      | none ↦ none
      | some i ↦
          if can_jump i && leb (magnitude offset) max_sbx
          then some (set_code codes jump_pc (set_sbx offset i))
          else none
    ]

-- The loop of `compiler_jump_add`, with fuel.
unfoldable pub append_jump : ℕ → List Instruction → ℤ → ℤ → Option (List Instruction)
append_jump zero codes pc jump_pc = none
append_jump (suc fuel) codes pc jump_pc = elim (jump_get codes pc) [
  | none ↦ none
  | some next ↦
      let rest = append_jump fuel codes next jump_pc in
      if next ==ℤ no_jump then jump_set codes pc jump_pc else rest
]

-- `compiler_jump_add(c, &list_pc, jump_pc)`: the code and the list.
unfoldable pub jump_add : List Instruction → ℤ → ℤ → Option (List Instruction × ℤ)
jump_add codes list_pc jump_pc =
    let appended : Option (List Instruction × ℤ) =
      elim (append_jump (length codes) codes list_pc jump_pc) [
        | none ↦ none
        | some codes' ↦ some (codes', list_pc)
      ] in
    if jump_pc ==ℤ no_jump
    then some (codes, list_pc)
    else if list_pc ==ℤ no_jump
    then some (codes, jump_pc)
    else appended

-- `jump_get_control`: where the test is that controls a jump, or the jump itself.
unfoldable pub jump_get_control : List Instruction → ℤ → Option ℤ
jump_get_control codes jump_pc =
    let before : Option ℤ = elim (get_code codes (jump_pc -ℤ pos 1)) [
      | none ↦ none
      | some ctrl ↦ some (if test (opinfo_at (op ctrl)) then jump_pc -ℤ pos 1 else jump_pc)
    ] in
    elim (get_code codes jump_pc) [
      | none ↦ none
      | some i ↦
          if not (can_jump i) then none else if jump_pc ==ℤ pos 0 then some jump_pc else before
    ]

-- `jump_invert`, for the jump of a comparison.
unfoldable pub jump_invert : List Instruction → ℤ → Option (List Instruction)
jump_invert codes jump_pc = elim (jump_get_control codes jump_pc) [
  | none ↦ none
  | some pc ↦ elim (get_code codes pc) [
    | none ↦ none
    | some i ↦
        let comparison =
          test (opinfo_at (op i))
          && not (op i == code OpCode.test_set)
          && not (op i == code OpCode.test) in
        if comparison
        then some (set_code codes pc (set_a (if arg_a i == 0 then 1 else 0) i))
        else none
  ]
]

unfoldable pub test_reg_patch : List Instruction → ℤ → ℕ → Option (Bool × List Instruction)
test_reg_patch codes jump_pc reg = elim (jump_get_control codes jump_pc) [
  | none ↦ none
  | some pc ↦ elim (get_code codes pc) [
    | none ↦ none
    | some i ↦
        let rb = arg_b i in
        if not (op i == code OpCode.test_set)
        then some (false, codes)
        else if not (reg == no_reg) && not (reg == rb)
        then some (true, set_code codes pc (set_a reg i))
        else some (true, set_code codes pc (make_abc OpCode.test rb 0 (arg_c i)))
  ]
]

-- The loop of `compiler_jump_patch`, with fuel.
unfoldable pub patch_jumps : ℕ → List Instruction → ℤ → ℤ → ℕ → Option (List Instruction)
patch_jumps zero codes jump_pc target reg = none
patch_jumps (suc fuel) codes jump_pc target reg = elim (jump_get codes jump_pc) [
  | none ↦ none
  | some next ↦ elim (test_reg_patch codes jump_pc reg) [
    | none ↦ none
    | some (_, codes') ↦ elim (jump_set codes' jump_pc target) [
      | none ↦ none
      | some codes'' ↦
          let rest = patch_jumps fuel codes'' next target reg in
          if next ==ℤ no_jump then some codes'' else rest
    ]
  ]
]

-- `compiler_jump_patch`: `label` is what `compiler_label_get` returns.
unfoldable pub jump_patch : List Instruction → ℤ → ℤ → ℤ → ℕ → Option (List Instruction)
jump_patch codes jump_pc target label reg =
    let target' = if target ==ℤ no_jump then label else target in
    let patched = patch_jumps (length codes) codes jump_pc target' reg in
    if jump_pc ==ℤ no_jump then some codes else patched

-- `need_value`, with fuel.
unfoldable pub need_value : ℕ → List Instruction → ℤ → Option Bool
need_value zero codes jump_pc = if jump_pc ==ℤ no_jump then some false else none
need_value (suc fuel) codes jump_pc =
    let next : Option Bool = elim (jump_get codes jump_pc) [
      | none ↦ none
      | some next_pc ↦ elim (jump_get_control codes jump_pc) [
        | none ↦ none
        | some pc ↦ elim (get_code codes pc) [
          | none ↦ none
          | some ctrl ↦
              let rest = need_value fuel codes next_pc in
              if op ctrl == code OpCode.test_set then rest else some true
        ]
      ]
    ] in
    if jump_pc ==ℤ no_jump then some false else next
