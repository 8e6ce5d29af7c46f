-- ===== src/Value.antt =====
-- cpp/src/value.hpp, value.cpp and the conversions of cpp/src/private.hpp: the values of a program.
-- The kinds that a program cannot reach (integer, chunk, upvalue) stop `==` and the hash, and are
-- left out. Pointers are addresses of 64 bits. The doubles are a parameter.
pub mod Equality
pub mod Hash
use mathlib.Core.Option
use lulu.Prelude.{
  ℕ, ◌-◌, ◌%◌, ◌/◌, ◌^◌, Bool, true, false, not, ◌||◌, ◌&&◌, Option, none, some, List, [], ◌∷◌, ltb,
  ◌==◌, if◌then◌else◌,
}
use lulu.Prelude.Int.{ℤ, pos, negsuc, to_u32}

-- What the interpreter uses of `double`: `lulu_Number_eq`, the casts to and from `Integer`, and the
-- two halves of the representation that `memcpy` yields; and the `hash` of the string at an address.
pub record Runtime (D : Type 0) : Type 0 where
  pub number_eq : D → D → Bool
  pub to_integer : D → ℤ
  pub of_integer : ℤ → D
  pub halves : D → List ℕ
  pub string_hash : ℕ → ℕ

module _ (D : Type 0) where
  pub data Value : Type 0 where
    nil : Value
    boolean : Bool → Value
    lightuserdata : ℕ → Value
    number : D → Value
    string : ℕ → Value
    table : ℕ → Value
    function : ℕ → Value
    userdata : ℕ → Value

-- `Value_Type`, in its order.
unfoldable pub value_type : {D : Type 0} → Value D → ℕ
value_type nil = 0
value_type (boolean b) = 1
value_type (lightuserdata p) = 2
value_type (number n) = 3
value_type (string s) = 4
value_type (table o) = 5
value_type (function o) = 6
value_type (userdata o) = 7

unfoldable pub is_nil : {D : Type 0} → Value D → Bool
is_nil nil = true
is_nil _ = false

unfoldable pub is_falsy : {D : Type 0} → Value D → Bool
is_falsy nil = true
is_falsy (boolean b) = not b
is_falsy _ = false

abbrev pub bool_eq : Bool → Bool → Bool
bool_eq true b = b
bool_eq false b = not b

module _ {D : Type 0} (N : Runtime D) where
  -- `Value::operator==`
  unfoldable pub equals : Value D → Value D → Bool
  equals nil nil = true
  equals (boolean a) (boolean b) = bool_eq a b
  equals (lightuserdata a) (lightuserdata b) = a == b
  equals (number a) (number b) = N.number_eq a b
  equals (string a) (string b) = a == b
  equals (table a) (table b) = a == b
  equals (function a) (function b) = a == b
  equals (userdata a) (userdata b) = a == b
  equals _ _ = false

  unfoldable pub number_to_integer : D → Option ℤ
  number_to_integer n =
      let i = N.to_integer n in if N.number_eq (N.of_integer i) n then some i else none
