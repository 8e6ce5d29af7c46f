-- ===== src/Table/Room.antt =====
-- `table_hash_set` of cpp/src/table.cpp on a table that is not full: it succeeds with no rehash, and
-- writes the map that `table_hash_get` reads.
use lulu.Prelude.{
  ◌==◌, ℕ, zero, suc, ◌+◌, ◌-◌, ◌≤◌, ◌<◌, ◌≡◌, refl, sym, ◌∙◌, ap, Bool, true, false, Bool-cases,
  inl, inr, Option, none, some, List, length, get_elem?, arith, lt_of_get_elem?, get_elem?-some,
  leb,
}
use mathlib.Core.Option.{some-injective}
use lulu.Value.{
  Runtime, Value, nil, boolean, lightuserdata, number, string, table, function, userdata, is_nil,
  equals,
}
use lulu.Value.Equality.{IsPartialEquality}
use lulu.Value.Hash.{hash_value}
use lulu.Table.{
  Entry, Table, Place, Pass, returns, present, free, nowhere, empty_entry, first_tomb, find_pass,
  find_entry, table_get_entry, table_hash_get, table_is_full,
}
use lulu.Table.Set.{table_hash_set, put}
use lulu.Table.Probe.{target}
use lulu.Table.Store.{HashesAlike, stored, start, place-search}
use lulu.Table.Lookup.{is_free, Pass-cases}
use lulu.Table.Map.{IsHash, used-room, put-stored}
use lulu.Table.Frame.{stored-IsHash, stored-get, stored-get_other}

unfoldable stops : Pass → Bool
stops (returns (present j)) = true
stops (returns (free j)) = true
stops _ = false

unfoldable is_somewhere : Place → Bool
is_somewhere nowhere = false
is_somewhere _ = true

unfoldable is_lost : Pass → Bool
is_lost (returns nowhere) = true
is_lost _ = false

somewhere-target :
    (place : Place) → is_somewhere place ≡ true → (i : ℕ) × (target (returns place) ≡ some i)
unfolding is_somewhere target
somewhere-target nowhere h = cc
somewhere-target (present i) h = (i, refl)
somewhere-target (free i) h = (i, refl)

module _ {D : Type 0} (N : Runtime D) where
  -- A pass over an empty entry returns an entry.
  find_pass-stops :
      (es : List (Entry D)) (k : Value D) (x c : ℕ) (t : Option ℕ) (j : ℕ)
      → get_elem? es j ≡ some empty_entry
      → x ≤ j
      → j < x + c
      → stops (find_pass N es k x c t) ≡ true
  unfolding find_pass stops is_nil
  find_pass-stops es k x zero t j q le lt = absurd (omega arith)
  find_pass-stops es k x (suc c) t j q le lt = elim (Bool-cases (x == j)) [
    | inl e ↦ let same : x ≡ j = ground arith in ground (arith, q, ap (get_elem? es) same)
    | inr d ↦
        let (e, r) = get_elem?-some es x (omega (arith, lt_of_get_elem? es j empty_entry q)) in
        ground (
          arith,
          r,
          find_pass-stops es k (x + 1) c t j q,
          find_pass-stops es k (x + 1) c (some (first_tomb t x)) j q,
        )
  ]

  -- A pass returns entries of the hash part only.
  find_pass-is_lost :
      (es : List (Entry D)) (k : Value D) (x c : ℕ) (t : Option ℕ)
      → is_lost (find_pass N es k x c t) ≡ false
  unfolding find_pass is_lost
  find_pass-is_lost es k x zero t = refl
  find_pass-is_lost es k x (suc c) t = ground (
    arith,
    find_pass-is_lost es k (x + 1) c t,
    find_pass-is_lost es k (x + 1) c (some (first_tomb t x)),
  )

  find_entry-is_somewhere :
      (es : List (Entry D)) (k : Value D) (s n : ℕ) (j : ℕ)
      → get_elem? es j ≡ some empty_entry
      → j < n
      → is_somewhere (find_entry N es k s n) ≡ true
  unfolding find_entry stops is_somewhere is_lost
  find_entry-is_somewhere es k s n j q lt = elim (Bool-cases (leb s j)) [
    | inl le ↦ ground (arith, find_pass-stops es k s (n - s) none j q)
    | inr gt ↦ elim (Pass-cases (find_pass N es k s (n - s) none)) [
      | inl (p, r) ↦ ground (arith, r, find_pass-is_lost es k s (n - s) none)
      | inr (t, r) ↦ ground (arith, r, find_pass-stops es k 0 s t j q)
    ]
  ]

  hash_value-some : (k : Value D) → is_nil k ≡ false → (hash : ℕ) × (hash_value N k ≡ some hash)
  unfolding hash_value is_nil
  hash_value-some nil h = cc
  hash_value-some (boolean b) h = (_, refl)
  hash_value-some (lightuserdata p) h = (_, refl)
  hash_value-some (number n) h = (_, refl)
  hash_value-some (string s) h = (_, refl)
  hash_value-some (table o) h = (_, refl)
  hash_value-some (function o) h = (_, refl)
  hash_value-some (userdata o) h = (_, refl)

  -- A table that is not full has an empty entry.
  some_empty :
      (t : Table D)
      → IsHash N t
      → table_is_full t ≡ false
      → (j : ℕ) × (get_elem? t.entries j ≡ some empty_entry)
  unfolding table_is_full is_free
  some_empty t valid room =
      let (j, e, q, empty) = used-room t.entries (ground (arith, valid.counted)) in
      (j, valid.no_tombstones j (ground (arith, q, empty)))

  proposed :
      (t : Table D) (k : Value D)
      → IsHash N t
      → table_is_full t ≡ false
      → is_nil k ≡ false
      → (place : Place) × (i : ℕ) × (table_get_entry N t k ≡ some place)
        × (target (returns place) ≡ some i)
  proposed t k valid room key =
      let (j, empty) = some_empty t valid room in
      let (hash, q) = hash_value-some k key in
      let place = find_entry N t.entries k (start N (length t.entries) hash) (length t.entries) in
      let (i, at_i) = somewhere-target place (
        find_entry-is_somewhere t.entries k _ _ j empty
          (lt_of_get_elem? t.entries j empty_entry empty)) in
      (place, i, place-search N t k place hash valid.owned q refl, at_i)

  -- On a well formed hash part that is not full, where `==` on doubles is symmetric and transitive,
  -- `table_hash_set` and a write for a key that is not nil succeed with no rehash and keep the hash
  -- part well formed. Keys that are equal to the key must hash as it does.
  pub table_hash_set-IsHash :
      (law : IsPartialEquality N) (t : Table D) (k v : Value D) (fuel : ℕ)
      → IsHash N t
      → table_is_full t ≡ false
      → is_nil k ≡ false
      → HashesAlike N k
      → (t' : Table D) × (put N (table_hash_set N (suc fuel)) t k v ≡ some t') × IsHash N t'
  table_hash_set-IsHash law t k v fuel valid room key alike =
      let (place, i, h, at_i) = proposed t k valid room key in
      let (count, run, counted) = put-stored N t valid k v fuel place i key room h at_i in
      (
        stored N t k v i count,
        run,
        stored-IsHash N law t valid k v place i count key h at_i counted alike,
      )

  -- On a well formed hash part that is not full, where `==` on doubles is symmetric and transitive, a
  -- get of a key, or of one equal to it, after a set and a write for it gives the value that was
  -- written. The key is not nil, and keys that are equal to it hash as it does.
  pub table_hash_set-get :
      (law : IsPartialEquality N) (t : Table D) (k v : Value D) (fuel : ℕ) (t' : Table D)
      (k' : Value D)
      → IsHash N t
      → table_is_full t ≡ false
      → is_nil k ≡ false
      → HashesAlike N k
      → put N (table_hash_set N (suc fuel)) t k v ≡ some t'
      → equals N k' k ≡ true
      → table_hash_get N t' k' ≡ some (true, v)
  table_hash_set-get law t k v fuel t' k' valid room key alike run same =
      let (place, i, h, at_i) = proposed t k valid room key in
      let (count, run', counted) = put-stored N t valid k v fuel place i key room h at_i in
      let e : stored N t k v i count ≡ t' = some-injective _ _ (sym run' ∙ run) in
      rw (sym e) (stored-get N law t valid k v place i count key h at_i counted k' alike same)

  -- On a well formed hash part that is not full, where `==` on doubles is symmetric and transitive, a
  -- set and a write for a key change no get of a key that is not equal to it. The key is not nil, and
  -- keys that are equal to it hash as it does.
  pub table_hash_set-get_other :
      (law : IsPartialEquality N) (t : Table D) (k v : Value D) (fuel : ℕ) (t' : Table D)
      (k' : Value D)
      → IsHash N t
      → table_is_full t ≡ false
      → is_nil k ≡ false
      → HashesAlike N k
      → put N (table_hash_set N (suc fuel)) t k v ≡ some t'
      → equals N k' k ≡ false
      → table_hash_get N t' k' ≡ table_hash_get N t k'
  table_hash_set-get_other law t k v fuel t' k' valid room key alike run differ =
      let (place, i, h, at_i) = proposed t k valid room key in
      let (count, run', counted) = put-stored N t valid k v fuel place i key room h at_i in
      let e : stored N t k v i count ≡ t' = some-injective _ _ (sym run' ∙ run) in
      rw (sym e)
        (stored-get_other N law t valid k v place i count key h at_i counted k' alike differ)
