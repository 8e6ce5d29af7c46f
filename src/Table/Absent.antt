-- ===== src/Table/Absent.antt =====
-- `table_next` of cpp/src/table.cpp for a key that the table does not have.
use lulu.Prelude.{
  ℕ, zero, suc, ◌+◌, ◌-◌, ◌*◌, ◌/◌, ◌%◌, ◌^◌, ◌<◌, ◌≡◌, ◌∙◌, sym, refl, Bool, true, false, not,
  ◌&&◌, Option, none, some, ap, length, get_elem?, arith, bit_and,
}
use native.Mathlib.Nat.{div-add-mod', mod-lt, one-le-pow}
use lulu.Prelude.Bits.{bit_and_mask}
use lulu.Prelude.Int.{negsuc}
use lulu.Value.{
  Runtime, Value, nil, boolean, lightuserdata, number, string, table, function, userdata, is_nil,
  equals,
}
use lulu.Value.Hash.{hash_value}
use lulu.Table.{Entry, Table, array_index}
use lulu.Table.Next.{out_of_fuel, no_pair, find_key, find_next, table_next}

-- An index with the mask of a hash part of `2 ^ p` entries is one of theirs.
masked : (p n x : ℕ) → n ≡ 2 ^ p → bit_and x (n - 1) < n
masked p n x e =
    let fits : x % 2 ^ p < 2 ^ p = mod-lt x (one-le-pow p 2 (omega arith)) in
    let split : x / 2 ^ p * 2 ^ p + x % 2 ^ p ≡ x = div-add-mod' x (2 ^ p) in
    let mask : bit_and x (2 ^ p - 1) ≡ x % 2 ^ p =
      ap (λ y. bit_and y (2 ^ p - 1)) (sym split) ∙ bit_and_mask p (x / 2 ^ p) (x % 2 ^ p) fits in
    rw (e, mask) fits

module _ {D : Type 0} (N : Runtime D) where
  -- There is an entry, and at it the search of `find_next` for `k` goes on.
  unfoldable pub goes_on : Value D → Option (Entry D) → Bool
  goes_on k none = false
  goes_on k (some e) = not (is_nil e.key) && not (equals N e.key k)

  hashed : (k : Value D) → is_nil k ≡ false → (hash : ℕ) × (hash_value N k ≡ some hash)
  unfolding hash_value is_nil
  hashed nil h = absurd (cc h)
  hashed (boolean b) h = (_, refl)
  hashed (lightuserdata p) h = (_, refl)
  hashed (number n) h = (_, refl)
  hashed (string s) h = (_, refl)
  hashed (table o) h = (_, refl)
  hashed (function o) h = (_, refl)
  hashed (userdata o) h = (_, refl)

  module _ (t : Table D) (k : Value D) (p : ℕ) (size : length t.entries ≡ 2 ^ p)
      (absent : (j : ℕ) → j < length t.entries → goes_on k (get_elem? t.entries j) ≡ true) where
    find_key-endless : (fuel i : ℕ) → i < length t.entries → find_key N fuel t k i ≡ out_of_fuel
    unfolding find_key goes_on
    find_key-endless zero i h = refl
    find_key-endless (suc fuel) i h = ground (
      arith,
      absent i h,
      find_key-endless fuel (bit_and (i + 1) (length t.entries - 1))
          (masked p (length t.entries) (i + 1) size),
    )

    -- For a key that is neither nil nor an integer, on a hash part of a power of two of entries none
    -- of which is free or has the key, the search stays among the entries and does not end: it runs
    -- out of fuel for every number of rounds.
    pub table_next-endless :
        (n fuel : ℕ)
        → is_nil k ≡ false
        → array_index N k ≡ negsuc n
        → table_next N fuel t k ≡ no_pair out_of_fuel
    unfolding table_next find_next
    table_next-endless n fuel key other =
        let (hash, q) = hashed k key in
        ground (
          arith,
          key,
          other,
          q,
          find_key-endless fuel (bit_and hash (length t.entries - 1))
              (masked p (length t.entries) hash size),
        )
