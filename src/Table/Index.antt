-- ===== src/Table/Index.antt =====
-- Integer keys and the array part in cpp/src/table.cpp.
use lulu.Prelude.{ℕ, ◌+◌, ◌-◌, ◌%◌, ◌^◌, ◌≤◌, ◌<◌, ◌≡◌, refl, ◌∙◌, some, length, arith, set}
use lulu.Prelude.Int.{ℤ, pos}
use lulu.Value.{Runtime, Value, number_to_integer}
use lulu.Table.{Table, to_i32, array_index, table_array_ptr, table_get, make_integer_key}
use lulu.Table.Resize.{store}
use lulu.Table.Set.{put, table_set, table_set_by}

to_i32-pos : (n : ℕ) → n < 2 ^ 31 → to_i32 (pos n) ≡ pos n
unfolding to_i32
to_i32-pos n h = let e : n % 2 ^ 32 ≡ n = omega arith in ground (arith, e)

to_i32-wraps : (n : ℕ) → to_i32 (pos (n + 2 ^ 32)) ≡ to_i32 (pos n)
unfolding to_i32
to_i32-wraps n = let e : (n + 2 ^ 32) % 2 ^ 32 ≡ n % 2 ^ 32 = omega arith in rw e refl

module _ {D : Type 0} (N : Runtime D) where
  array_index-integer :
      (i : ℤ)
      → number_to_integer N (N.of_integer i) ≡ some i
      → array_index N (make_integer_key N i) ≡ to_i32 i
  unfolding array_index
  array_index-integer i h = ground (arith, h)

  -- A get of the key n + 2^32 gives what a get of n gives, where n is an index of the array part (of
  -- fewer than 2^31 slots) and both numbers are exact integers.
  pub table_get-wraps :
      (t : Table D) (n : ℕ)
      → number_to_integer N (N.of_integer (pos n)) ≡ some (pos n)
      → number_to_integer N (N.of_integer (pos (n + 2 ^ 32))) ≡ some (pos (n + 2 ^ 32))
      → 0 < n
      → n ≤ length t.array
      → length t.array < 2 ^ 31
      → table_get N t (make_integer_key N (pos (n + 2 ^ 32)))
        ≡ table_get N t (make_integer_key N (pos n))
  unfolding table_get table_array_ptr
  table_get-wraps t n h h' p q r =
      let e = array_index-integer (pos n) h ∙ to_i32-pos n (omega arith) in
      let e' =
        array_index-integer (pos (n + 2 ^ 32)) h' ∙ to_i32-wraps n ∙ to_i32-pos n (omega arith) in
      ground (arith, e, e')

  -- A set of an integer key of the array part (of fewer than 2^31 slots) and a write change that
  -- slot only, whatever the fuel.
  pub table_set-array :
      (t : Table D) (n fuel : ℕ) (v : Value D)
      → number_to_integer N (N.of_integer (pos n)) ≡ some (pos n)
      → 0 < n
      → n ≤ length t.array
      → length t.array < 2 ^ 31
      → put N (table_set N fuel) t (make_integer_key N (pos n)) v
        ≡ some (record t { array = set t.array (n - 1) v })
  unfolding put table_set table_set_by table_array_ptr store
  table_set-array t n fuel v h p q r =
      let e = array_index-integer (pos n) h ∙ to_i32-pos n (omega arith) in ground (arith, e)
