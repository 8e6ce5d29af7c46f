-- ===== src/Table/Resize.antt =====
-- The sizes of a table in cpp/src/table.cpp and the resizing of its two parts.
-- The counters of the index ranges are a list: range 0 is index 1, range b the indices in
-- (2^(b-1), 2^b].
use lulu.Prelude.{
  Option, ℕ, zero, suc, ◌+◌, ◌-◌, ◌*◌, ◌/◌, ◌^◌, true, false, ◌&&◌, none, some, List, [], ◌∷◌, ◌++◌,
  ltb, leb, ◌==◌, if◌then◌else◌, length, get_elem?, get_or, set, take, drop, replicate,
}
use lulu.Prelude.Int.{pos, negsuc}
use lulu.Mem.{mem_ceil_log2, mem_next_pow2}
use lulu.Value.{Runtime, Value, nil, is_nil}
use lulu.Table.{Entry, Table, empty_entry, array_index}

-- A cache line has 64 bytes, a value 16 and an entry 32.
abbrev pub table_array_min_size : ℕ
table_array_min_size = 4

abbrev pub table_hash_min_size : ℕ
table_hash_min_size = 2

abbrev pub max_index_bits : ℕ
max_index_bits = 26

abbrev max_index : ℕ
max_index = 2 ^ max_index_bits

unfoldable pub table_next_size : ℕ → ℕ → ℕ
table_next_size n least = mem_next_pow2 (if ltb n least then least else n)

abbrev pub add_at : List ℕ → ℕ → ℕ → List ℕ
add_at ranges i n = set ranges i (get_or ranges i 0 + n)

-- `table_array_compute_size`: the loop has an iteration for each bit, with the counts of the ranges
-- in order. It yields the size of the array part and the number of its elements; `none` is an
-- index outside `index_ranges`.
unfoldable pub compute_size : List ℕ → ℕ → ℕ → ℕ → ℕ → ℕ → Option (ℕ × ℕ)
compute_size [] n_array pow2 acc optimal active =
    if leb n_array (pow2 / 2) then some (optimal, active) else none
compute_size (used ∷ ranges) n_array pow2 acc optimal active =
    let half = pow2 / 2 in
    let acc' = acc + used in
    let grows = ltb 0 used && ltb half acc' in
    let optimal' = if grows then pow2 else optimal in
    let active' = if grows then acc' else active in
    let next = compute_size ranges n_array (pow2 * 2) acc' optimal' active' in
    if leb n_array half
    then some (optimal, active)
    else if acc' == n_array
    then some (optimal', active')
    else next

unfoldable pub table_array_compute_size : List ℕ → ℕ → Option (ℕ × ℕ)
table_array_compute_size index_ranges n_array = compute_size index_ranges n_array 1 0 0 0

module _ {D : Type 0} where
  -- The inner loop of `table_array_count`: the values that are not nil among the first `n`.
  unfoldable pub count_used : List (Value D) → ℕ → ℕ
  count_used [] n = 0
  count_used (v ∷ vs) zero = 0
  count_used (v ∷ vs) (suc n) = (if is_nil v then 0 else 1) + count_used vs n

  -- The outer loop of `table_array_count`, for the `bits` ranges from `bit` on. `i` is the first
  -- index that is not yet counted.
  unfoldable pub count_ranges : List (Value D) → ℕ → ℕ → ℕ → List ℕ → ℕ → List ℕ × ℕ
  count_ranges array zero bit i ranges n_array = (ranges, n_array)
  count_ranges array (suc bits) bit i ranges n_array =
      let clamped = ltb (length array) (2 ^ bit) in
      let limit = if clamped then length array else 2 ^ bit in
      let used = count_used (drop (i - 1) array) (limit + 1 - i) in
      let i' = if leb i limit then limit + 1 else i in
      let next = count_ranges array bits (bit + 1) i' (add_at ranges bit used) (n_array + used) in
      if clamped && ltb limit i then (ranges, n_array) else next

  unfoldable pub table_array_count : Table D → List ℕ → List ℕ × ℕ
  table_array_count t index_ranges = count_ranges t.array max_index_bits 0 1 index_ranges 0

  unfoldable pub table_hash_resize : Table D → ℕ → Table D
  table_hash_resize t zero = record t { entries = empty_entry ∷ []; owned = false; count = 0 }
  table_hash_resize t (suc n) =
      let size = table_next_size (suc n) table_hash_min_size in
      record t { entries = replicate size empty_entry; owned = true; count = 0 }

  -- `slice_resize`, with the new values nil.
  unfoldable pub table_array_resize : Table D → ℕ → Table D
  table_array_resize t n =
      let size = table_next_size n table_array_min_size in
      record t { array = take size t.array ++ replicate (size - length t.array) nil }

-- What `table_set` points to: a slot of the array part, or an entry.
pub data Slot : Type 0 where
  array_slot : ℕ → Slot
  entry_slot : ℕ → Slot

module _ {D : Type 0} where
  -- `*slot = v`
  unfoldable pub store : Table D → Slot → Value D → Table D
  store t (array_slot i) v = record t { array = set t.array i v }
  store t (entry_slot i) v = elim (get_elem? t.entries i) [
    | none ↦ t
    | some e ↦ record t { entries = set t.entries i (record { key = e.key; value = v }) }
  ]

module _ {D : Type 0} (N : Runtime D) where
  unfoldable pub count_index : Value D → List ℕ → ℕ × List ℕ
  count_index k index_ranges = elim (array_index N k) [
    | negsuc n ↦ (0, index_ranges)
    | pos i ↦
        if leb 1 i && leb i max_index
        then (1, add_at index_ranges (mem_ceil_log2 i) 1)
        else (0, index_ranges)
  ]

  unfoldable pub table_hash_count_array : List (Entry D) → List ℕ → ℕ × List ℕ
  table_hash_count_array [] ranges = (0, ranges)
  table_hash_count_array (e ∷ es) ranges =
      let (n, ranges') = (if is_nil e.key then (0, ranges) else count_index e.key ranges) in
      let (rest, ranges'') = table_hash_count_array es ranges' in (n + rest, ranges'')
