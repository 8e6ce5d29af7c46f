-- ===== src/Tests/Metamethod.antt =====
-- Runs of the lookup of metamethods, and the theorems on it at concrete worlds.
use lulu.Prelude.{
  ◌⊎◌, ℕ, zero, suc, ◌+◌, ◌/◌, ◌%◌, ◌^◌, ◌==◌, ◌≡◌, ◌≢◌, refl, ap, Bool, true, false, Option, none,
  some, List, [], ◌∷◌, arith, get_elem?,
}
use mathlib.Core.Option.{some-injective}
use lulu.Prelude.Int.{ℤ, pos, negsuc}
use lulu.Value.{Runtime, Value, nil, number, string, table, function, is_nil, equals}
use lulu.Value.Hash.{hash_value}
use lulu.Table.{
  Table, empty_entry, array_index, table_array_ptr, table_get_entry, find_entry, find_pass,
  table_get, table_hash_get,
}
use lulu.Table.Set.{table_get_string}
use lulu.Metamethod.{
  is_fast, Metamethod, mt_index, mt_newindex, mt_eq, mt_len, mt_gc, mt_add, mt_sub, mt_mul, mt_div,
  mt_mod, mt_pow, mt_unm, mt_lt, mt_leq, bit_of, TableObject, World, put_table, is_absent,
  mark_absent, raw_metamethod, mt_get_fast,
}
use lulu.Metamethod.Access.{
  found, calls_index, type_error, loop_in_get, leaves, pointed, follow, get_missing, get_table,
  get_round, get_loop, vm_table_get, mt_max_loop, is_function,
}
use lulu.Metamethod.Cache.{IsTruthful, mt_get_fast-IsTruthful, mt_get_fast-stale}
use lulu.Metamethod.Chain.{Follows, Chain, here, there, vm_table_get-Chain, vm_table_get-Chain_long}
use lulu.Metamethod.Handlers.{IsFollowed, vm_table_get-handler}

-- Numbers that are their own integers, and strings that have their addresses as hashes.
abbrev whole : ℤ → ℕ
whole (pos n) = n
whole (negsuc n) = 0

abbrev plain : Runtime ℕ
plain = record {
  number_eq = λ a b. a == b;
  to_integer = λ n. pos n;
  of_integer = whole;
  halves = λ n. n % 2 ^ 32 ∷ n / 2 ^ 32 ∷ [];
  string_hash = λ address. address;
}

abbrev no_flags : List Bool
no_flags = false ∷ false ∷ false ∷ false ∷ false ∷ false ∷ false ∷ false ∷ []

abbrev no_fields : Table ℕ
no_fields = record { array = []; entries = empty_entry ∷ []; owned = false; count = 0 }

-- A table with one string key, and with room for another one.
abbrev one_field : ℕ → Value ℕ → Table ℕ
one_field k v = record {
  array = [];
  entries = record { key = string k; value = v } ∷ empty_entry ∷ [];
  owned = true;
  count = 1;
}

abbrev object : Table ℕ → Option ℕ → TableObject ℕ
object t mt = record { fields = t; metatable = mt; flags = no_flags }

-- The name of a metamethod is at 100 and its number.
abbrev world : List (TableObject ℕ) → World ℕ
world ts = record {
  tables = ts;
  userdata_metatable = λ u. none;
  mt_basic = λ t. none;
  mt_names = λ m. 100 + bit_of m;
}

-- The table 0 has the metatable 1, whose `__index` is the table 2.
abbrev inherited : World ℕ
inherited = world (
    object no_fields (some 1)
    ∷ object (one_field 100 (table 2)) none
    ∷ object (one_field 8 (number 5)) none
    ∷ [])

no_flags-is_absent :
    (t : Table ℕ) (mt : Option ℕ) (m : Metamethod) → is_absent (object t mt) m ≡ false
unfolding is_absent bit_of
no_flags-is_absent t mt mt_index = refl
no_flags-is_absent t mt mt_newindex = refl
no_flags-is_absent t mt mt_eq = refl
no_flags-is_absent t mt mt_len = refl
no_flags-is_absent t mt mt_gc = refl
no_flags-is_absent t mt mt_add = refl
no_flags-is_absent t mt mt_sub = refl
no_flags-is_absent t mt mt_mul = refl
no_flags-is_absent t mt mt_div = refl
no_flags-is_absent t mt mt_mod = refl
no_flags-is_absent t mt mt_pow = refl
no_flags-is_absent t mt mt_unm = refl
no_flags-is_absent t mt mt_lt = refl
no_flags-is_absent t mt mt_leq = refl

not_absent :
    (t : Table ℕ) (metatable : Option ℕ) (o : TableObject ℕ) (m : Metamethod)
    → some (object t metatable) ≡ some o
    → is_absent o m ≢ true
not_absent t metatable o m q h =
    let e = ap (λ o. is_absent o m) (some-injective _ _ q) in
    absurd (ground (arith, no_flags-is_absent t metatable m, h, e))

inherited-IsTruthful : IsTruthful plain inherited
unfolding IsTruthful
inherited-IsTruthful zero mt m q h = absurd (not_absent no_fields (some 1) mt m q h)
inherited-IsTruthful (suc zero) mt m q h =
    absurd (not_absent (one_field 100 (table 2)) none mt m q h)
inherited-IsTruthful (suc (suc zero)) mt m q h =
    absurd (not_absent (one_field 8 (number 5)) none mt m q h)
inherited-IsTruthful (suc (suc (suc a))) mt m q h = absurd (ground arith)

inherited-Follows : Follows plain inherited (string 8) 0 2
unfolding table_get table_hash_get table_get_entry find_entry find_pass hash_value is_nil equals
    array_index table_array_ptr raw_metamethod table_get_string bit_of
inherited-Follows = record {
  object = object no_fields (some 1);
  meta = 1;
  meta_object = object (one_field 100 (table 2)) none;
  exists = false;
  is_object = refl;
  is_missing = refl;
  has_metatable = refl;
  is_metatable = refl;
  has_index = refl;
}

vm_table_get-Chain_example :
    vm_table_get plain inherited (table 0) (string 8) ≡ some (found true (number 5), inherited)
unfolding table_get table_hash_get table_get_entry find_entry find_pass hash_value is_nil equals
    array_index table_array_ptr
vm_table_get-Chain_example =
    vm_table_get-Chain plain inherited (string 8) inherited-IsTruthful refl 1 0 2
      (object (one_field 8 (number 5)) none) (number 5) (there inherited-Follows here) (omega arith)
      refl refl refl

-- The table 0 is its own metatable and its own `__index`.
abbrev cyclic : World ℕ
cyclic = world (object (one_field 100 (table 0)) (some 0) ∷ [])

cyclic-IsTruthful : IsTruthful plain cyclic
unfolding IsTruthful
cyclic-IsTruthful zero mt m q h = absurd (not_absent (one_field 100 (table 0)) (some 0) mt m q h)
cyclic-IsTruthful (suc a) mt m q h = absurd (ground arith)

cyclic-Follows : Follows plain cyclic (string 8) 0 0
unfolding table_get table_hash_get table_get_entry find_entry find_pass hash_value is_nil equals
    array_index table_array_ptr raw_metamethod table_get_string bit_of
cyclic-Follows = record {
  object = object (one_field 100 (table 0)) (some 0);
  meta = 0;
  meta_object = object (one_field 100 (table 0)) (some 0);
  exists = false;
  is_object = refl;
  is_missing = refl;
  has_metatable = refl;
  is_metatable = refl;
  has_index = refl;
}

cyclic-Chain : (n : ℕ) → Chain plain cyclic (string 8) n 0 0
cyclic-Chain zero = here
cyclic-Chain (suc n) = there cyclic-Follows (cyclic-Chain n)

vm_table_get-Chain_long_example :
    vm_table_get plain cyclic (table 0) (string 8) ≡ some (type_error loop_in_get (table 0), cyclic)
unfolding is_nil
vm_table_get-Chain_long_example =
    vm_table_get-Chain_long plain cyclic (string 8) cyclic-IsTruthful refl 0 0
      (cyclic-Chain mt_max_loop)

abbrev without_newindex : World ℕ
without_newindex =
    put_table inherited 1 (mark_absent (object (one_field 100 (table 2)) none) mt_newindex)

mt_get_fast-IsTruthful_example :
    (raw_metamethod plain inherited (object (one_field 100 (table 2)) none) mt_newindex ≡ some nil)
    × IsTruthful plain without_newindex
unfolding is_fast mt_get_fast raw_metamethod is_absent table_get_string table_hash_get
    table_get_entry find_entry find_pass hash_value is_nil equals bit_of
mt_get_fast-IsTruthful_example =
    mt_get_fast-IsTruthful plain inherited without_newindex 1
      (object (one_field 100 (table 2)) none) mt_newindex nil inherited-IsTruthful refl refl

-- A `__newindex` that is set after a lookup has found none.
mt_get_fast-stale_example :
    (mt : TableObject ℕ) × (get_elem? without_newindex.tables 1 ≡ some mt)
    × (let w = put_table without_newindex 1 (record mt { fields = one_field 101 (table 2) }) in
        mt_get_fast plain w (some 1) mt_newindex ≡ some (nil, w))
unfolding is_fast mt_get_fast raw_metamethod is_absent table_get_string table_hash_get
    table_get_entry find_entry find_pass hash_value is_nil equals bit_of
mt_get_fast-stale_example =
    mt_get_fast-stale plain inherited without_newindex 1 (object (one_field 100 (table 2)) none)
      mt_newindex (one_field 101 (table 2)) refl (omega arith) refl

-- The table 0 has the `__index` table 2, and that one an `__index` function.
abbrev handled : World ℕ
handled = world (
    object no_fields (some 1)
    ∷ object (one_field 100 (table 2)) none
    ∷ object no_fields (some 3)
    ∷ object (one_field 100 (function 9)) none
    ∷ [])

abbrev key : Value ℕ
key = string 8

abbrev receiver : Value ℕ
receiver = table 0

abbrev handler : Value ℕ
handler = function 9

vm_table_get-handler_example :
    (key ≡ key)
    × (((receiver ≡ handler)
          × (get_round plain handled false receiver key
              ≡ some (leaves (calls_index handler handler key), handled)))
        ⊎ (IsFollowed plain handled false receiver key × (handler ≡ handler)))
unfolding is_fast vm_table_get get_loop get_round get_table get_missing follow pointed is_function
    mt_get_fast raw_metamethod is_absent table_get table_get_string table_hash_get table_get_entry
    find_entry find_pass hash_value is_nil equals bit_of array_index table_array_ptr
vm_table_get-handler_example =
    vm_table_get-handler plain handled handled receiver key handler handler key refl
