-- ===== src/Table.antt =====
-- cpp/src/table.cpp: a table has an array part and a hash part with linear probing, and grows by a
-- rehash that chooses the size of the array part anew.
-- `none` is a run that a panic stops, or one that the fuel does not cover. The slice that all empty
-- tables share is a hash part of one empty entry that the table does not own.
pub mod Resize
pub mod Set
pub mod Next
pub mod Probe
pub mod Lookup
pub mod Store
pub mod Map
pub mod Frame
pub mod Room
pub mod Fresh
pub mod Sizes
pub mod Index
pub mod Absent
use lulu.Prelude.{
  ℕ, zero, suc, ◌+◌, ◌-◌, ◌*◌, ◌/◌, ◌%◌, ◌^◌, Bool, true, false, not, ◌||◌, ◌&&◌, Option, none,
  some, List, [], ◌∷◌, ltb, leb, ◌==◌, if◌then◌else◌, bit_and, bit_or, length, get_elem?, set,
}
use lulu.Prelude.Int.{ℤ, pos, negsuc, to_u32}
use lulu.Value.{Runtime, Value, nil, number, is_nil, equals, number_to_integer}
use lulu.Value.Hash.{hash_value}

module _ (D : Type 0) where
  pub record Entry : Type 0 where
    pub key : Value D
    pub value : Value D

  -- `owned` is `raw_data(entries) != EMPTY_ENTRY`.
  pub record Table : Type 0 where
    pub array : List (Value D)
    pub entries : List Entry
    pub owned : Bool
    pub count : ℕ

abbrev pub empty_entry : {D : Type 0} → Entry D
empty_entry = record { key = nil; value = nil }

-- An entry that `find_entry` returns: that of the key, one that is free for it, or `EMPTY_ENTRY`.
pub data Place : Type 0 where
  present : ℕ → Place
  free : ℕ → Place
  nowhere : Place

-- How a pass of the loop of `find_entry` ends: in a return, or with the tombstone seen so far.
pub data Pass : Type 0 where
  returns : Place → Pass
  passed : Option ℕ → Pass

abbrev pub first_tomb : Option ℕ → ℕ → ℕ
first_tomb (some tomb) i = tomb
first_tomb none i = i

-- The cast to `i32`, in two's complement.
unfoldable pub to_i32 : ℤ → ℤ
to_i32 i = let w = to_u32 i in if ltb w (2 ^ 31) then pos w else negsuc (2 ^ 32 - 1 - w)

-- The slot of the array part for a Lua index.
unfoldable pub table_array_ptr : {D : Type 0} → Table D → ℤ → Option ℕ
table_array_ptr t (negsuc n) = none
table_array_ptr t (pos i) = if leb 1 i && leb i (length t.array) then some (i - 1) else none

-- The load factor of three quarters holds for more than eight entries.
unfoldable pub table_is_full : {D : Type 0} → Table D → Bool
table_is_full t =
    let n = length t.entries in
    let limit = if ltb 8 n then n * 3 / 2 ^ 2 else n in ltb limit (t.count + 1)

module _ {D : Type 0} (N : Runtime D) where
  -- The `for` loop of `find_entry` over the `count` entries from `i` on.
  unfoldable pub find_pass : List (Entry D) → Value D → ℕ → ℕ → Option ℕ → Pass
  find_pass entries k i zero tomb = passed tomb
  find_pass entries k i (suc count) tomb = elim (get_elem? entries i) [
    | none ↦ passed tomb
    | some e ↦
        let next = find_pass entries k (i + 1) count tomb in
        let next_tomb = find_pass entries k (i + 1) count (some (first_tomb tomb i)) in
        if is_nil e.key
        then (if is_nil e.value then returns (free (first_tomb tomb i)) else next_tomb)
        else if equals N k e.key
        then returns (present i)
        else next
  ]

  unfoldable pub find_entry : List (Entry D) → Value D → ℕ → ℕ → Place
  find_entry entries k start stop = elim (find_pass entries k start (stop - start) none) [
    | returns place ↦ place
    | passed tomb ↦ elim (find_pass entries k 0 start tomb) [
      | returns place ↦ place
      | passed _ ↦ nowhere
    ]
  ]

  -- The hash part is never empty: a table without one has the shared empty entry.
  unfoldable pub table_get_entry : Table D → Value D → Option Place
  table_get_entry t k = elim (hash_value N k) [
    | none ↦ none
    | some hash ↦
        let n = length t.entries in
        let place = find_entry t.entries k (bit_and hash (bit_or (n - 1) 1)) n in
        some (if t.owned then place else nowhere)
  ]

  -- `array_index`, with the cast from 64 to 32 bits.
  unfoldable pub array_index : Value D → ℤ
  array_index (number n) = elim (number_to_integer N n) [ none ↦ negsuc 0 | some i ↦ to_i32 i ]
  array_index _ = negsuc 0

  -- The `key_exists` of a get, and the value.
  unfoldable pub table_hash_get : Table D → Value D → Option (Bool × Value D)
  table_hash_get t k = elim (table_get_entry t k) [
    | none ↦ none
    | some (present i) ↦ elim (get_elem? t.entries i) [
      | none ↦ none
      | some e ↦ some (true, e.value)
    ]
    | some (free i) ↦ elim (get_elem? t.entries i) [ none ↦ none | some e ↦ some (false, e.value) ]
    | some nowhere ↦ some (false, nil)
  ]

  unfoldable pub table_get : Table D → Value D → Option (Bool × Value D)
  table_get t k = elim (table_array_ptr t (array_index k)) [
    | none ↦ table_hash_get t k
    | some i ↦ elim (get_elem? t.array i) [ none ↦ none | some v ↦ some (not (is_nil v), v) ]
  ]

  abbrev pub make_integer_key : ℤ → Value D
  make_integer_key i = number (N.of_integer i)
