-- ===== src/Compiler/Registers.antt =====
-- The registers of a function in cpp/src/compiler.cpp, and the code that sets registers to nil.
use lulu.Prelude.{
  ℕ, suc, ◌+◌, ◌-◌, ◌%◌, ◌^◌, ◌≤◌, ◌<◌, ◌≡◌, refl, true, false, not, ◌&&◌, Option, none, some, List,
  [], ◌∷◌, ◌++◌, ltb, leb, ◌==◌, if◌then◌else◌, length, get_elem?, set, arith, Bool-cases, inl, inr,
}
use mathlib.Core.Path.{subst}
use lulu.Prelude.Int.{ℤ, pos, negsuc}
use lulu.Opcode.{
  OpCode, Instruction, code, make_abc, op, arg_a, arg_b, arg_c, set_b, max_a, max_rk, reg_is_k,
}
use lulu.Opcode.Fields.{IsWord, Reads, set-Reads, make_abc-Reads, reg_to_rk_lem}

-- The largest register.
abbrev pub max_reg : ℕ
max_reg = max_a - 5

-- `free_reg` and the length of `active` of a compiler, and `stack_used` of its chunk.
pub record Registers : Type 0 where
  pub free_reg : ℕ
  pub stack_used : ℕ
  pub n_active : ℕ

-- `none` is the error of too many registers, or a failed assertion.
unfoldable pub check_stack : Registers → ℕ → Option Registers
check_stack c n =
    let new_stack = (c.free_reg + n) % 2 ^ 16 in
    if ltb c.stack_used new_stack
    then (if ltb max_reg new_stack then none else some (record c { stack_used = new_stack }))
    else some c

unfoldable pub reserve_reg : Registers → ℕ → Option Registers
reserve_reg c n = elim (check_stack c n) [
  | none ↦ none
  | some c' ↦ some (record c' { free_reg = (c'.free_reg + n) % 2 ^ 16 })
]

-- Constants and locals are not popped.
unfoldable pub pop_reg : Registers → ℕ → Option Registers
pop_reg c reg =
    let free_reg = (c.free_reg + 2 ^ 16 - 1) % 2 ^ 16 in
    if not (reg_is_k reg) && leb c.n_active reg
    then (if free_reg == reg then some (record c { free_reg = free_reg }) else none)
    else some c

-- `compiler_load_nil` on the code up to `pc`; `last_target` is the last position that a jump may go
-- to, and `n_active` the number of locals.
unfoldable pub load_nil : List Instruction → ℤ → ℕ → ℕ → ℕ → Option (List Instruction)
load_nil codes last_target n_active reg n =
    let pc = length codes in
    let last_reg = (reg + (n - 1)) % 2 ^ 16 in
    let no_fold = some (codes ++ make_abc OpCode.nil reg last_reg 0 ∷ []) in
    let fold : Option (List Instruction) =
      elim (if pc == 0 then none else get_elem? codes (pc - 1)) [
        | none ↦ none
        | some ip ↦
            if (op ip == code OpCode.nil) && leb (arg_a ip) last_reg && ltb (arg_b ip) last_reg
            then some (set codes (pc - 1) (set_b last_reg ip))
            else no_fold
      ] in
    elim last_target [
      | negsuc t ↦ if (pc == 0) && leb n_active reg then some codes else no_fold
      | pos t ↦
          if ltb t pc then (if (pc == 0) && leb n_active reg then some codes else no_fold) else fold
    ]

reg_is_k-register : (reg : ℕ) → reg ≤ max_rk → reg_is_k reg ≡ false
reg_is_k-register reg h =
    let (is_k, index, register, word) = reg_to_rk_lem 0 reg (omega arith) h in register

-- Registers that hold no constant, above the locals, in use up to the limit.
pub record IsFrame (c : Registers) : Type 0 where
  pub locals : c.n_active ≤ c.free_reg
  pub within : c.free_reg ≤ c.stack_used
  pub limit : c.stack_used ≤ max_reg

-- The frame with `n` more registers.
abbrev pub reserved : Registers → ℕ → Registers
reserved c n = record c {
  free_reg = c.free_reg + n;
  stack_used = if ltb c.stack_used (c.free_reg + n) then c.free_reg + n else c.stack_used;
}

reserve_reg-reserved :
    (c : Registers) (n : ℕ) → c.free_reg + n ≤ max_reg → reserve_reg c n ≡ some (reserved c n)
unfolding reserve_reg check_stack
reserve_reg-reserved c n h =
    let e : (c.free_reg + n) % 2 ^ 16 ≡ c.free_reg + n = omega arith in
    elim (Bool-cases (ltb c.stack_used (c.free_reg + n))) [
      | inl q ↦
          let r : ltb max_reg (c.free_reg + n) ≡ false = ground arith in ground (arith, e, q, r)
      | inr q ↦ ground (arith, e, q)
    ]

reserved-IsFrame :
    (c : Registers) (n : ℕ) → IsFrame c → c.free_reg + n ≤ max_reg → IsFrame (reserved c n)
reserved-IsFrame c n v h = record {
  locals = omega (arith, v.locals);
  within = ground arith;
  limit = ground (arith, v.limit);
}

-- Reserving registers up to the limit keeps the frame well formed and takes the next registers.
pub reserve_reg-IsFrame :
    (c : Registers) (n : ℕ)
    → IsFrame c
    → c.free_reg + n ≤ max_reg
    → (c' : Registers) × (reserve_reg c n ≡ some c') × IsFrame c' × (c'.free_reg ≡ c.free_reg + n)
reserve_reg-IsFrame c n v h =
    (reserved c n, reserve_reg-reserved c n h, reserved-IsFrame c n v h, refl)

-- Reserving registers beyond the limit is an error.
pub reserve_reg-none :
    (c : Registers) (n : ℕ)
    → IsFrame c
    → n < 2 ^ 8
    → max_reg < c.free_reg + n
    → reserve_reg c n ≡ none
unfolding reserve_reg check_stack
reserve_reg-none c n v small h =
    let e : (c.free_reg + n) % 2 ^ 16 ≡ c.free_reg + n = omega (arith, v.limit, v.within) in
    let q : ltb c.stack_used (c.free_reg + n) ≡ true = ground (arith, v.limit) in
    let r : ltb max_reg (c.free_reg + n) ≡ true = ground arith in ground (arith, e, q, r)

-- The register that was reserved last is popped again, which leaves the registers as they were.
pub pop_reg-reserve_reg :
    (c : Registers)
    → IsFrame c
    → c.free_reg + 1 ≤ max_reg
    → (c' : Registers) × (reserve_reg c 1 ≡ some c')
      × (pop_reg c' c.free_reg ≡ some (record c' { free_reg = c.free_reg }))
unfolding pop_reg
pop_reg-reserve_reg c v h =
    let k = reg_is_k-register c.free_reg (omega arith) in
    let back : (c.free_reg + 1 + 2 ^ 16 - 1) % 2 ^ 16 ≡ c.free_reg = omega arith in
    let q : leb c.n_active c.free_reg ≡ true = ground (arith, v.locals) in
    (reserved c 1, reserve_reg-reserved c 1 h, ground (arith, k, back, q))

-- Where no jump goes to the next position, one instruction is emitted, which names the registers from
-- `reg` to the last of the `n`.
pub load_nil-Reads :
    (codes : List Instruction) (t n_active reg n : ℕ)
    → t < length codes
    → 0 < n
    → reg + n ≤ 2 ^ 8
    → (i : Instruction) × (load_nil codes (pos t) n_active reg n ≡ some (codes ++ i ∷ []))
      × Reads i (code OpCode.nil) reg (reg + n - 1) 0
unfolding load_nil
load_nil-Reads codes t n_active reg n lt some_n fits =
    let e : (reg + (n - 1)) % 2 ^ 16 ≡ reg + n - 1 = omega arith in
    let (word, reads) =
      make_abc-Reads OpCode.nil reg (reg + n - 1) 0 (omega arith) (omega arith) (omega arith) in
    let q : ltb t (length codes) ≡ true = ground arith in
    let r : (length codes == 0) ≡ false = ground arith in
    (make_abc OpCode.nil reg (reg + n - 1) 0, ground (arith, e, q, r), reads)

-- Where a jump goes to the next position and the instruction before sets registers to nil, the last of
-- them lower than the last of the `n`, that instruction alone is changed: it sets the registers from
-- its first to the last of the `n`. None is emitted for the jump to reach.
pub load_nil-skipped :
    (codes : List Instruction) (ip : Instruction) (m n_active reg n : ℕ)
    → length codes ≡ suc m
    → get_elem? codes m ≡ some ip
    → IsWord ip
    → op ip ≡ code OpCode.nil
    → 0 < n
    → reg + n ≤ 2 ^ 8
    → arg_a ip < reg + n
    → arg_b ip < reg + n - 1
    → (i : Instruction) × (load_nil codes (pos (length codes)) n_active reg n
        ≡ some (set codes m i))
      × Reads i (code OpCode.nil) (arg_a ip) (reg + n - 1) (arg_c ip)
unfolding load_nil
load_nil-skipped codes ip m n_active reg n len last w is_nil some_n fits a b =
    let e : (reg + (n - 1)) % 2 ^ 16 ≡ reg + n - 1 = omega arith in
    let at : length codes - 1 ≡ m = omega arith in
    let here : get_elem? codes (length codes - 1) ≡ some ip = rw at last in
    let a' : leb (arg_a ip) (reg + n - 1) ≡ true = ground arith in
    let b' : ltb (arg_b ip) (reg + n - 1) ≡ true = ground arith in
    let o : (op ip == code OpCode.nil) ≡ true = ground arith in
    let r : (length codes == 0) ≡ false = ground arith in
    let q : ltb (length codes) (length codes) ≡ false = ground arith in
    let (reads_a, reads_b, reads_c) =
      set-Reads ip 0 (reg + n - 1) 0 w (omega arith) (omega arith) (omega arith) in
    (
      set_b (reg + n - 1) ip,
      ground (arith, e, at, here, a', b', o, r, q),
      subst (λ x. Reads (set_b (reg + n - 1) ip) x (arg_a ip) (reg + n - 1) (arg_c ip)) is_nil
          reads_b,
    )
