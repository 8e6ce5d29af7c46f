-- ===== src/Intern/Growth.antt =====
-- What a resize of the string table of cpp/src/string.cpp keeps, and interning a text again.
use lulu.Prelude.{
  ℕ, zero, suc, ◌+◌, ◌-◌, ◌/◌, ◌%◌, ◌^◌, ◌<◌, ◌≡◌, refl, sym, ◌∙◌, ap, Bool, true, false, inl, inr,
  none, some, Option-cases, List, [], ◌∷◌, ltb, ◌==◌, if◌then◌else◌, bit_and, length, get_or, set,
  replicate, arith, length-set, length-replicate,
}
use lulu.Prelude.Bits.{bit_and_mask}
use native.Mathlib.Nat.{one-le-pow, div-add-mod', mod-lt}
use lulu.Intern.{
  OString, Intern, intern_clamp_index, chain, rehash_list, rehash_lists, intern_resize, slice_eq,
  find_string, ostring_new, hash_string,
}

module _ (p : OString → Bool) where
  -- The strings of a list, and of a table, for which `p` holds.
  unfoldable pub count_list : List OString → ℕ
  count_list [] = 0
  count_list (s ∷ list) = (if p s then 1 else 0) + count_list list

  unfoldable pub count_table : List (List OString) → ℕ
  count_table [] = 0
  count_table (list ∷ lists) = count_list list + count_table lists

  count_table-chain :
      (table : List (List OString)) (i : ℕ) (s : OString)
      → i < length table
      → count_table (chain table i s) ≡ (if p s then 1 else 0) + count_table table
  unfolding count_table count_list chain
  count_table-chain [] i s h = absurd (omega arith)
  count_table-chain (list ∷ lists) zero s h = omega arith
  count_table-chain (list ∷ lists) (suc i) s h =
      omega (arith, count_table-chain lists i s (omega arith))

  count_table-replicate : (n : ℕ) → count_table (replicate n []) ≡ 0
  unfolding count_table count_list
  count_table-replicate zero = refl
  count_table-replicate (suc n) = omega (arith, count_table-replicate n)

intern_clamp_index-lt : (hash k : ℕ) → intern_clamp_index hash (2 ^ k) < 2 ^ k
unfolding intern_clamp_index
intern_clamp_index-lt hash k =
    let split = div-add-mod' hash (2 ^ k) in
    let rest = mod-lt hash (one-le-pow k 2 (omega arith)) in
    let masked = bit_and_mask k (hash / 2 ^ k) (hash % 2 ^ k) rest in
    let same : bit_and hash (2 ^ k - 1) ≡ hash % 2 ^ k =
      ap (λ h. bit_and h (2 ^ k - 1)) (sym split) ∙ masked in
    omega (arith, same, rest)

module _ (p : OString → Bool) (k : ℕ) where
  length-chain :
      (table : List (List OString)) (i : ℕ) (s : OString) → length (chain table i s) ≡ length table
  unfolding chain
  length-chain table i s = length-set table i _

  rehash_list-count :
      (list : List OString) (table : List (List OString))
      → length table ≡ 2 ^ k
      → (length (rehash_list (2 ^ k) list table) ≡ 2 ^ k)
        × (count_table p (rehash_list (2 ^ k) list table) ≡ count_list p list + count_table p table)
  unfolding rehash_list count_list
  rehash_list-count [] table h = (h, omega arith)
  rehash_list-count (s ∷ list) table h =
      let i = intern_clamp_index s.hash (2 ^ k) in
      let (len, count) = rehash_list-count list (chain table i s) (length-chain table i s ∙ h) in
      (
        len,
        omega (
          arith,
          count,
          count_table-chain p table i s (omega (arith, h, intern_clamp_index-lt s.hash k)),
        ),
      )

  rehash_lists-count :
      (lists table : List (List OString))
      → length table ≡ 2 ^ k
      → (length (rehash_lists (2 ^ k) lists table) ≡ 2 ^ k)
        × (count_table p (rehash_lists (2 ^ k) lists table)
            ≡ count_table p lists + count_table p table)
  unfolding rehash_lists count_table
  rehash_lists-count [] table h = (h, omega arith)
  rehash_lists-count (list ∷ lists) table h =
      let (len, count) = rehash_list-count list table h in
      let (len', count') = rehash_lists-count lists (rehash_list (2 ^ k) list table) len in
      (len', omega (arith, count, count'))

  -- A resize to a power of two loses no string and makes none: as many strings as before have any
  -- property, and the table has the new size.
  pub intern_resize-count_table :
      (t : Intern)
      → (length (intern_resize t (2 ^ k)).table ≡ 2 ^ k)
        × (count_table p (intern_resize t (2 ^ k)).table ≡ count_table p t.table)
  unfolding intern_resize
  intern_resize-count_table t =
      let (len, count) =
        rehash_lists-count t.table (replicate (2 ^ k) []) (length-replicate (2 ^ k) []) in
      (len, omega (arith, count, count_table-replicate p (2 ^ k)))

slice_eq_refl : (text : List ℕ) → slice_eq text text ≡ true
unfolding slice_eq
slice_eq_refl [] = refl
slice_eq_refl (a ∷ text) = ground (arith, slice_eq_refl text)

get_or-set_self :
    (table : List (List OString)) (i : ℕ) (list : List OString)
    → i < length table
    → get_or (set table i list) i [] ≡ list
get_or-set_self [] i list h = absurd (omega arith)
get_or-set_self (l ∷ table) zero list h = refl
get_or-set_self (l ∷ table) (suc i) list h = get_or-set_self table i list (omega arith)

-- The list of strings that a text is looked up in.
abbrev bucket : Intern → List ℕ → List OString
bucket t text = get_or t.table (intern_clamp_index (hash_string text) (length t.table)) []

ostring_new-found :
    (t : Intern) (text : List ℕ) (s : OString)
    → find_string (bucket t text) (hash_string text) text ≡ some s
    → ostring_new t text ≡ (s, t)
unfolding ostring_new
ostring_new-found t text s h = ground (arith, h)

-- The string that is new, and the table with it.
abbrev new_string : Intern → List ℕ → OString
new_string t text = record { address = t.next_address; hash = hash_string text; text = text }

abbrev added : Intern → List ℕ → Intern
added t text = record t {
  table =
      chain t.table (intern_clamp_index (hash_string text) (length t.table)) (new_string t text);
  count = t.count + 1;
  next_address = t.next_address + 1;
}

ostring_new-none :
    (t : Intern) (text : List ℕ)
    → find_string (bucket t text) (hash_string text) text ≡ none
    → t.count < length t.table
    → ostring_new t text ≡ (new_string t text, added t text)
unfolding ostring_new
ostring_new-none t text h room =
    let q : ltb (length t.table) (t.count + 1) ≡ false = ground arith in ground (arith, h, q)

find_string-added :
    (t : Intern) (text : List ℕ) (k : ℕ)
    → length t.table ≡ 2 ^ k
    → find_string (bucket (added t text) text) (hash_string text) text ≡ some (new_string t text)
unfolding find_string chain
find_string-added t text k len =
    let i = intern_clamp_index (hash_string text) (length t.table) in
    let inside : i < length t.table = rw len (intern_clamp_index-lt (hash_string text) k) in
    let there = get_or-set_self t.table i (new_string t text ∷ get_or t.table i []) inside in
    let same = length-set t.table i (new_string t text ∷ get_or t.table i []) in
    let own : (hash_string text == hash_string text) ≡ true = ground arith in
    rw (same, there, own, slice_eq_refl text) refl

-- Interning a text again gives the same string and changes nothing, where the first time does not make
-- the table, of a size that is a power of two, grow.
pub ostring_new-again :
    (t : Intern) (text : List ℕ) (k : ℕ)
    → length t.table ≡ 2 ^ k
    → t.count < 2 ^ k
    → ostring_new (ostring_new t text).1 text ≡ ostring_new t text
ostring_new-again t text k len room =
    elim (Option-cases (find_string (bucket t text) (hash_string text) text)) [
      | inr (s, q) ↦ let e = ostring_new-found t text s q in rw e e
      | inl q ↦
          let e = ostring_new-none t text q (omega (arith, len)) in
          rw e (
            ostring_new-found (added t text) text (new_string t text)
              (find_string-added t text k len))
    ]
