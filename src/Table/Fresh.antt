-- ===== src/Table/Fresh.antt =====
-- The hash part that `table_hash_resize` of cpp/src/table.cpp allocates.
use lulu.Prelude.{
  ◌⊎◌, ℕ, zero, suc, ◌<◌, ◌≡◌, refl, sym, true, false, inl, inr, none, some, List, get_elem?, arith,
  replicate,
}
use lulu.Value.{Runtime, Value, is_nil}
use lulu.Table.{Entry, Table, empty_entry}
use lulu.Table.Resize.{table_hash_resize, table_next_size, table_hash_min_size}
use lulu.Table.Lookup.{has_key, is_free}
use lulu.Table.Store.{IsPlaced}
use lulu.Table.Map.{IsHash, used}

module _ {D : Type 0} where
  abbrev fresh : ℕ → List (Entry D)
  fresh n = replicate n empty_entry

  get_elem?-fresh :
      (n j : ℕ) → (get_elem? (fresh n) j ≡ none) ⊎ (get_elem? (fresh n) j ≡ some empty_entry)
  get_elem?-fresh zero j = inl refl
  get_elem?-fresh (suc n) zero = inr refl
  get_elem?-fresh (suc n) (suc j) = get_elem?-fresh n j

module _ {D : Type 0} (N : Runtime D) where
  used-fresh : (n : ℕ) → used (fresh {D = D} n) ≡ 0
  unfolding used is_nil
  used-fresh zero = refl
  used-fresh (suc n) = omega (arith, used-fresh n)

  fresh-has_key : (n j : ℕ) (k : Value D) → has_key N k (get_elem? (fresh n) j) ≡ false
  unfolding has_key is_nil
  fresh-has_key n j k = elim (get_elem?-fresh {D = D} n j) [
    | inl q ↦ ground (arith, q)
    | inr q ↦ ground (arith, q)
  ]

  fresh-no_tombstones :
      (n j : ℕ)
      → is_free (get_elem? (fresh {D = D} n) j) ≡ true
      → get_elem? (fresh {D = D} n) j ≡ some empty_entry
  unfolding is_free
  fresh-no_tombstones n j h = elim (get_elem?-fresh {D = D} n j) [
    | inl q ↦ absurd (ground (arith, q, h))
    | inr q ↦ q
  ]

  -- A hash part for at least one entry is well formed, whatever the table was, and has no entry yet.
  pub table_hash_resize-IsHash :
      (t : Table D) (n : ℕ)
      → 0 < n
      → IsHash N (table_hash_resize t n) × (used (table_hash_resize t n).entries ≡ 0)
  unfolding table_hash_resize IsPlaced
  table_hash_resize-IsHash t zero h = absurd (omega arith)
  table_hash_resize-IsHash t (suc n) h =
      let size = table_next_size (suc n) table_hash_min_size in
      (
        record {
          owned = refl;
          placed = λ k j stored. absurd (ground (arith, stored, fresh-has_key size j k));
          counted = sym (used-fresh size);
          no_tombstones = λ j. fresh-no_tombstones size j;
        },
        used-fresh size,
      )
