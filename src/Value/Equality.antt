-- ===== src/Value/Equality.antt =====
-- `Value::operator==` of cpp/src/value.cpp.
use lulu.Prelude.{◌≡◌, refl, Bool, true, false, arith}
use lulu.Value.{
  Value, Runtime, nil, boolean, lightuserdata, number, string, table, function, userdata, equals,
  bool_eq,
}

-- `lulu_Number_eq` is symmetric and transitive, as `==` on doubles is; it is not reflexive at NaN.
pub record IsPartialEquality {D : Type 0} (N : Runtime D) : Type 0 where
  pub number_eq_sym : (a b : D) → N.number_eq a b ≡ true → N.number_eq b a ≡ true
  pub number_eq_trans :
      (a b c : D) → N.number_eq a b ≡ true → N.number_eq b c ≡ true → N.number_eq a c ≡ true

bool_eq_sym : (a b : Bool) → bool_eq a b ≡ true → bool_eq b a ≡ true
bool_eq_sym true true h = h
bool_eq_sym true false h = cc
bool_eq_sym false true h = cc
bool_eq_sym false false h = h

bool_eq-eq : (a b : Bool) → bool_eq a b ≡ true → a ≡ b
bool_eq-eq true true h = refl
bool_eq-eq true false h = cc
bool_eq-eq false true h = cc
bool_eq-eq false false h = refl

module _ {D : Type 0} (N : Runtime D) (law : IsPartialEquality N) where
  -- `==` is symmetric where that of the doubles is.
  pub equals_sym : (a b : Value D) → equals N a b ≡ true → equals N b a ≡ true
  unfolding equals
  equals_sym nil nil h = h
  equals_sym (boolean a) (boolean b) h = bool_eq_sym a b h
  equals_sym (lightuserdata a) (lightuserdata b) h = ground arith
  equals_sym (number a) (number b) h = law.number_eq_sym a b h
  equals_sym (string a) (string b) h = ground arith
  equals_sym (table a) (table b) h = ground arith
  equals_sym (function a) (function b) h = ground arith
  equals_sym (userdata a) (userdata b) h = ground arith
  equals_sym _ _ h = cc

  -- `==` is transitive where that of the doubles is.
  pub equals_trans :
      (a b c : Value D) → equals N a b ≡ true → equals N b c ≡ true → equals N a c ≡ true
  unfolding equals
  equals_trans nil nil c h k = k
  equals_trans (boolean a) (boolean b) c h k = let e : a ≡ b = bool_eq-eq a b h in rw e k
  equals_trans (lightuserdata a) (lightuserdata b) c h k = let e : a ≡ b = ground arith in rw e k
  equals_trans (number a) (number b) (number c) h k = law.number_eq_trans a b c h k
  equals_trans (string a) (string b) c h k = let e : a ≡ b = ground arith in rw e k
  equals_trans (table a) (table b) c h k = let e : a ≡ b = ground arith in rw e k
  equals_trans (function a) (function b) c h k = let e : a ≡ b = ground arith in rw e k
  equals_trans (userdata a) (userdata b) c h k = let e : a ≡ b = ground arith in rw e k
  equals_trans _ _ _ h k = cc
