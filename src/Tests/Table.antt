-- ===== src/Tests/Table.antt =====
-- Runs of the tables, and the theorems on tables at concrete tables.
use lulu.Prelude.{
  length, ◌<◌, get_elem?, ◌==◌, ℕ, zero, suc, ◌+◌, ◌*◌, ◌/◌, ◌%◌, ◌^◌, ◌≡◌, refl, true, false, none,
  some, [], ◌∷◌, arith,
}
use lulu.Prelude.Int.{ℤ, pos, negsuc}
use lulu.Value.{
  number_to_integer, Runtime, nil, boolean, number, lightuserdata, string, table, function,
  userdata, is_nil, equals,
}
use lulu.Value.Equality.{IsPartialEquality}
use lulu.Value.Hash.{hash_value}
use lulu.Table.{
  array_index, to_i32, table_array_ptr, table_get_entry, find_entry, find_pass, Table, empty_entry,
  table_get, table_hash_get, table_is_full,
}
use lulu.Table.Resize.{
  count_ranges, count_index, table_hash_count_array, compute_size, table_array_resize,
  table_hash_resize, table_array_compute_size, table_array_count, count_used, table_next_size,
  store,
}
use lulu.Mem.{mem_next_pow2, mem_ceil_log2, shift_bytes, ceil_log2_lookup}
use lulu.Table.Set.{
  table_set_by, table_rehash, table_resize, move_values, move_entries, shrink_array, occupy, put,
  table_set, table_hash_set,
}
use lulu.Table.Store.{HashesAlike}
use lulu.Table.Map.{IsHash}
use lulu.Table.Fresh.{table_hash_resize-IsHash}
use lulu.Table.Room.{table_hash_set-IsHash, table_hash_set-get, table_hash_set-get_other}
use lulu.Table.Next.{table_next, no_pair, out_of_fuel}
use lulu.Table.Absent.{goes_on, table_next-endless}
use lulu.Table.Index.{table_get-wraps}
use lulu.Table.Sizes.{ranges_fit, total, HalfUsed, table_array_compute_size-HalfUsed}

-- Numbers that are their own integers.
abbrev whole : ℤ → ℕ
whole (pos n) = n
whole (negsuc n) = 0

abbrev run : Runtime ℕ
run = record {
  number_eq = λ a b. a == b;
  to_integer = λ n. pos n;
  of_integer = whole;
  halves = λ n. n % 2 ^ 32 ∷ n / 2 ^ 32 ∷ [];
  string_hash = λ address. address * 2654435761 % 2 ^ 32;
}

run-IsPartialEquality : IsPartialEquality run
run-IsPartialEquality = record {
  number_eq_sym = λ a b h. ground arith;
  number_eq_trans = λ a b c h k. ground arith;
}

abbrev no_table : Table ℕ
no_table = record { array = []; entries = empty_entry ∷ []; owned = false; count = 0 }

abbrev four : Table ℕ
four = table_hash_resize no_table 4

four-IsHash : IsHash run four
four-IsHash = let (valid, count) = table_hash_resize-IsHash run no_table 4 (omega arith) in valid

four-room : table_is_full four ≡ false
unfolding table_is_full table_hash_resize table_next_size mem_next_pow2 mem_ceil_log2 shift_bytes
    ceil_log2_lookup
four-room = refl

string-HashesAlike : (s : ℕ) → HashesAlike run (string s)
unfolding HashesAlike equals hash_value
string-HashesAlike s (string s') h = let e : s' ≡ s = ground arith in rw e refl
string-HashesAlike s nil h = cc
string-HashesAlike s (boolean b) h = cc
string-HashesAlike s (number n) h = cc
string-HashesAlike s (lightuserdata p) h = cc
string-HashesAlike s (table o) h = cc
string-HashesAlike s (function o) h = cc
string-HashesAlike s (userdata o) h = cc

-- The one pair is in entry 1 of four.
abbrev one_pair : Table ℕ
one_pair = record four {
  entries =
      empty_entry ∷ record { key = string 5; value = number 7 } ∷ empty_entry ∷ empty_entry ∷ [];
  count = 1;
}

put_string : put run (table_hash_set run 1) four (string 5) (number 7) ≡ some one_pair
unfolding put table_hash_set occupy store table_get_entry find_entry find_pass hash_value is_nil
    equals table_is_full table_hash_resize table_next_size mem_next_pow2 mem_ceil_log2 shift_bytes
    ceil_log2_lookup
put_string = refl

table_hash_set-IsHash_example :
    (t' : Table ℕ) × (put run (table_hash_set run 1) four (string 5) (number 7) ≡ some t')
    × IsHash run t'
unfolding is_nil
table_hash_set-IsHash_example =
    table_hash_set-IsHash run run-IsPartialEquality four (string 5) (number 7) 0 four-IsHash
      four-room refl (string-HashesAlike 5)

table_hash_set-get_example : table_hash_get run one_pair (string 5) ≡ some (true, number 7)
unfolding is_nil equals
table_hash_set-get_example =
    table_hash_set-get run run-IsPartialEquality four (string 5) (number 7) 0 one_pair (string 5)
      four-IsHash four-room refl (string-HashesAlike 5) put_string refl

table_hash_set-get_other_example :
    table_hash_get run one_pair (string 9) ≡ table_hash_get run four (string 9)
unfolding is_nil equals
table_hash_set-get_other_example =
    table_hash_set-get_other run run-IsPartialEquality four (string 5) (number 7) 0 one_pair
      (string 9) four-IsHash four-room refl (string-HashesAlike 5) put_string refl

-- Indices 1, 3 and 4 are set: three of four slots.
table_array_compute_size-HalfUsed_example :
    ((r : ℕ × ℕ) → table_array_compute_size (1 ∷ 0 ∷ 2 ∷ 0 ∷ []) 3 ≡ some r → HalfUsed r)
    × (total (1 ∷ 0 ∷ 2 ∷ 0 ∷ []) ≡ 3
        → (r : ℕ × ℕ) × (table_array_compute_size (1 ∷ 0 ∷ 2 ∷ 0 ∷ []) 3 ≡ some r))
unfolding ranges_fit
table_array_compute_size-HalfUsed_example =
    table_array_compute_size-HalfUsed (1 ∷ 0 ∷ 2 ∷ 0 ∷ []) 3 refl

abbrev three_values : Table ℕ
three_values = record no_table { array = number 1 ∷ nil ∷ number 3 ∷ [] }

table_get-wraps_example :
    table_get run three_values (number (3 + 2 ^ 32)) ≡ table_get run three_values (number 3)
unfolding number_to_integer
table_get-wraps_example =
    table_get-wraps run three_values 3 refl refl (omega arith) (omega arith) (omega arith)

-- From an empty table, the first two integer keys make an array part of four.
put_two :
    (elim (put run (table_set run 9) no_table (number 1) (number 10)) [
      | none ↦ none
      | some t ↦ put run (table_set run 9) t (number 2) (number 20)
    ])
    ≡ some (record no_table { array = number 10 ∷ number 20 ∷ nil ∷ nil ∷ [] })
unfolding put table_set table_set_by table_hash_set occupy store table_get_entry find_entry
    find_pass hash_value is_nil equals table_is_full array_index number_to_integer to_i32
    table_array_ptr table_rehash table_resize move_values move_entries shrink_array
    table_array_count count_ranges count_used count_index table_hash_count_array
    table_array_compute_size compute_size table_array_resize table_hash_resize table_next_size
    mem_next_pow2 mem_ceil_log2 shift_bytes ceil_log2_lookup
put_two = refl

abbrev full_table : Table ℕ
full_table = record no_table {
  entries =
      record { key = string 1; value = number 1 }
      ∷ record { key = string 2; value = number 2 }
      ∷ [];
  owned = true;
  count = 2;
}

full_table-goes_on :
    (j : ℕ)
    → j < length full_table.entries
    → goes_on run (string 3) (get_elem? full_table.entries j) ≡ true
unfolding goes_on is_nil equals
full_table-goes_on zero h = refl
full_table-goes_on (suc zero) h = refl
full_table-goes_on (suc (suc j)) h = absurd (omega (arith, h))

table_next-endless_example : table_next run 1000 full_table (string 3) ≡ no_pair out_of_fuel
unfolding is_nil array_index
table_next-endless_example =
    table_next-endless run full_table (string 3) 1 refl full_table-goes_on 0 1000 refl refl
