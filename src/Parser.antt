-- ===== src/Parser.antt =====
-- cpp/src/parser.cpp: the binary operators of `expression`, and the comparisons that
-- compiler_code_compare of cpp/src/compiler.cpp and the two numeric cases of cpp/src/vm.cpp make of
-- them.
pub mod Comparisons
use lulu.Prelude.{
  ℕ, Bool, true, false, not, ◌&&◌, Option, none, some, List, [], ◌∷◌, if◌then◌else◌, get_elem?,
}
use lulu.Value.{bool_eq}
use lulu.Opcode.{OpCode}
use lulu.Lexer.Tokens.{
  TokenType, token_and, token_or, token_plus, token_dash, token_asterisk, token_slash,
  token_percent, token_caret, token_eq, token_not_eq, token_less, token_less_eq, token_greater,
  token_greater_eq, token_concat,
}

pub data BinaryType : Type 0 where
  binary_none binary_and binary_or binary_add binary_sub binary_mul binary_div : BinaryType
  binary_mod binary_pow binary_eq binary_lt binary_leq binary_neq binary_gt : BinaryType
  binary_geq binary_concat : BinaryType

-- The enumerator, which is an index of the tables; `none` is the -1 of `binary_none`.
unfoldable pub binary_index : BinaryType → Option ℕ
binary_index binary_none = none
binary_index binary_and = some 0
binary_index binary_or = some 1
binary_index binary_add = some 2
binary_index binary_sub = some 3
binary_index binary_mul = some 4
binary_index binary_div = some 5
binary_index binary_mod = some 6
binary_index binary_pow = some 7
binary_index binary_eq = some 8
binary_index binary_lt = some 9
binary_index binary_leq = some 10
binary_index binary_neq = some 11
binary_index binary_gt = some 12
binary_index binary_geq = some 13
binary_index binary_concat = some 14

unfoldable pub binary_opcodes : List OpCode
binary_opcodes =
    OpCode.test ∷ OpCode.test ∷ OpCode.add ∷ OpCode.sub ∷ OpCode.mul ∷ OpCode.div ∷ OpCode.modulo
    ∷ OpCode.pow ∷ OpCode.eq ∷ OpCode.lt ∷ OpCode.leq ∷ OpCode.eq ∷ OpCode.leq ∷ OpCode.lt
    ∷ OpCode.concat ∷ []

unfoldable pub get_binary : TokenType → BinaryType
get_binary token_and = binary_and
get_binary token_or = binary_or
get_binary token_plus = binary_add
get_binary token_dash = binary_sub
get_binary token_asterisk = binary_mul
get_binary token_slash = binary_div
get_binary token_percent = binary_mod
get_binary token_caret = binary_pow
get_binary token_eq = binary_eq
get_binary token_not_eq = binary_neq
get_binary token_less = binary_lt
get_binary token_less_eq = binary_leq
get_binary token_greater = binary_gt
get_binary token_greater_eq = binary_geq
get_binary token_concat = binary_concat
get_binary _ = binary_none

-- The `cond` of the cases of `expression` that call `compare`, `none` for the other operators.
unfoldable pub compare_cond : BinaryType → Option Bool
compare_cond binary_neq = some false
compare_cond binary_gt = some false
compare_cond binary_geq = some false
compare_cond binary_eq = some true
compare_cond binary_lt = some true
compare_cond binary_leq = some true
compare_cond _ = none

unfoldable pub is_eq : OpCode → Bool
is_eq OpCode.eq = true
is_eq _ = false

-- The end of `compiler_code_compare`, for operands that are not both literals: the operand A, and whether B and C are exchanged.
unfoldable pub compare_order : OpCode → Bool → Bool × Bool
compare_order op cond = if not cond && not (is_eq op) then (true, true) else (cond, false)

-- The operation and the `cond` that `compare` gives to `compiler_code_compare`.
unfoldable pub compare_code : BinaryType → Option (OpCode × Bool)
compare_code b = elim (compare_cond b) [
  | none ↦ none
  | some cond ↦ elim (binary_index b) [
    | none ↦ none
    | some i ↦ elim (get_elem? binary_opcodes i) [ none ↦ none | some op ↦ some (op, cond) ]
  ]
]

-- `lulu_Number_eq`, `lulu_Number_lt` and `lulu_Number_leq`
pub record NumberOrder (D : Type 0) : Type 0 where
  pub eq : D → D → Bool
  pub lt : D → D → Bool
  pub leq : D → D → Bool

module _ {D : Type 0} (N : NumberOrder D) where
  -- The result of a comparison of two numbers, which `COMPARE_RESULT` compares with the operand A.
  unfoldable pub compare_numbers : OpCode → D → D → Option Bool
  compare_numbers OpCode.eq x y = some (N.eq x y)
  compare_numbers OpCode.lt x y = some (N.lt x y)
  compare_numbers OpCode.leq x y = some (N.leq x y)
  compare_numbers _ x y = none

  -- Whether the code for the operator jumps, with numbers in the registers or constants B and C.
  unfoldable pub compare_jumps : TokenType → D → D → Option Bool
  compare_jumps t left right = elim (compare_code (get_binary t)) [
    | none ↦ none
    | some (op, cond) ↦
        let (a, swapped) = compare_order op cond in
        let result =
          (if swapped then compare_numbers op right left else compare_numbers op left right) in
        elim result [ none ↦ none | some b ↦ some (bool_eq b a) ]
  ]
