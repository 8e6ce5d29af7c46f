-- ===== src/Table/Sizes.antt =====
-- The sizes that a rehash of cpp/src/table.cpp chooses for the array part.
use lulu.Prelude.{
  ◌⊎◌, if◌then◌else◌, ℕ, zero, suc, ◌+◌, ◌-◌, ◌*◌, ◌/◌, ◌^◌, ◌≤◌, ◌<◌, ◌≡◌, refl, sym, ◌∙◌, ap,
  Bool, true, ◌&&◌, Bool-cases, inl, inr, some, ◌==◌, List, [], ◌∷◌, length, arith, leb, ltb, drop,
}
use mathlib.Core.Option.{some-injective}
use mathlib.Core.Path.{subst}
use native.Mathlib.Numerals.{towards_suc}
use native.Mathlib.Nat.{pow-suc}
use lulu.Value.{Value}
use lulu.Table.{Table}
use lulu.Table.Resize.{
  compute_size, table_array_compute_size, count_used, count_ranges, table_array_count,
  max_index_bits, add_at,
}

-- No range has more elements than indices: the range up to `pow2` has the indices above its half.
unfoldable pub ranges_fit : ℕ → List ℕ → Bool
ranges_fit pow2 [] = true
ranges_fit pow2 (used ∷ ranges) = leb (used + pow2 / 2) pow2 && ranges_fit (pow2 * 2) ranges

-- More than half of the array part is used, and no more than all of it.
pub HalfUsed : ℕ × ℕ → Type 0
HalfUsed (n_array, active) =
    (active ≤ n_array) × (((n_array ≡ 0) × (active ≡ 0)) ⊎ (n_array / 2 < active))

-- The elements of all ranges.
abbrev pub total : List ℕ → ℕ
total [] = 0
total (used ∷ ranges) = used + total ranges

compute_size-HalfUsed :
    (ranges : List ℕ) (n_array pow2 acc optimal active : ℕ) (r : ℕ × ℕ)
    → ranges_fit pow2 ranges ≡ true
    → acc ≤ pow2 / 2
    → HalfUsed (optimal, active)
    → compute_size ranges n_array pow2 acc optimal active ≡ some r
    → HalfUsed r
unfolding compute_size ranges_fit HalfUsed
compute_size-HalfUsed [] n_array pow2 acc optimal active r f le h q =
    elim (Bool-cases (leb n_array (pow2 / 2))) [
      | inl s ↦ subst HalfUsed (some-injective _ _ (rw (compute_size, s) at q)) h
      | inr s ↦ absurd (ground (arith, s, q))
    ]
compute_size-HalfUsed (used ∷ ranges) n_array pow2 acc optimal active r f le h q =
    elim (Bool-cases (ltb 0 used && ltb (pow2 / 2) (acc + used))) [
      | inl g ↦ ground (
        arith,
        g,
        compute_size-HalfUsed ranges n_array (pow2 * 2) (acc + used) pow2 (acc + used) r,
      )
      | inr g ↦
          ground (
            arith,
            g,
            compute_size-HalfUsed ranges n_array (pow2 * 2) (acc + used) optimal active r,
          )
    ]

-- The loop stays among the ranges where the elements left are those of the ranges left.
compute_size-some :
    (ranges : List ℕ) (n_array pow2 acc optimal active : ℕ)
    → acc + total ranges ≡ n_array
    → (acc ≡ n_array → n_array ≤ pow2 / 2)
    → (r : ℕ × ℕ) × (compute_size ranges n_array pow2 acc optimal active ≡ some r)
unfolding compute_size
compute_size-some [] n_array pow2 acc optimal active e last =
    ((optimal, active), ground (arith, e, last))
compute_size-some (used ∷ ranges) n_array pow2 acc optimal active e last =
    let grows = ltb 0 used && ltb (pow2 / 2) (acc + used) in
    let optimal' = if grows then pow2 else optimal in
    let active' = if grows then acc + used else active in
    elim (Bool-cases (leb n_array (pow2 / 2))) [
      | inl s ↦ ((optimal, active), rw (compute_size, s) refl)
      | inr s ↦ elim (Bool-cases (acc + used == n_array)) [
        | inl d ↦ ((optimal', active'), rw (compute_size, s, d) refl)
        | inr d ↦
            let (r, q) =
              compute_size-some ranges n_array (pow2 * 2) (acc + used) optimal' active'
                (omega (arith, e)) (λ z. absurd (ground (arith, z, d))) in
            (r, rw (compute_size, s, d) q)
      ]
    ]

-- Where no range counts more elements than it has indices, the assertion of
-- `table_array_compute_size` holds at its end: more than half of the array part that it chooses is
-- used. Where `n_array` is the number of the elements of all ranges, it ends, and reads no range beyond
-- the last.
pub table_array_compute_size-HalfUsed :
    (ranges : List ℕ) (n_array : ℕ)
    → ranges_fit 1 ranges ≡ true
    → ((r : ℕ × ℕ) → table_array_compute_size ranges n_array ≡ some r → HalfUsed r)
      × (total ranges ≡ n_array → (r : ℕ × ℕ) × (table_array_compute_size ranges n_array ≡ some r))
unfolding table_array_compute_size HalfUsed
table_array_compute_size-HalfUsed ranges n_array f = (
  λ r q.
      compute_size-HalfUsed ranges n_array 1 0 0 0 r f (omega arith) (omega arith, inl (refl, refl))
        q,
  λ e. compute_size-some ranges n_array 1 0 0 0 (omega (arith, e)) (λ z. omega (arith, z)),
)

module _ {D : Type 0} where
  count_used-add :
      (xs : List (Value D)) (a b : ℕ)
      → count_used xs (a + b) ≡ count_used xs a + count_used (drop a xs) b
  unfolding count_used
  count_used-add [] zero b = refl
  count_used-add [] (suc a) b = refl
  count_used-add (x ∷ xs) zero b = ground arith
  count_used-add (x ∷ xs) (suc a) b = ground (arith, count_used-add xs a b)

  drop-nil : (b : ℕ) → drop {A = Value D} b [] ≡ []
  drop-nil zero = refl
  drop-nil (suc b) = refl

  drop-drop : (a b : ℕ) (xs : List (Value D)) → drop b (drop a xs) ≡ drop (a + b) xs
  drop-drop zero b xs = ground arith
  drop-drop (suc a) b [] = drop-nil b ∙ sym (drop-nil (suc a + b))
  drop-drop (suc a) b (x ∷ xs) =
      let e : suc a + b ≡ suc (a + b) = omega arith in rw e (drop-drop a b xs)

  -- What is left to count from index `i` on.
  abbrev left : List (Value D) → ℕ → ℕ
  left array i = count_used (drop (i - 1) array) (length array + 1 - i)

  count_used-zero : (xs : List (Value D)) → count_used xs 0 ≡ 0
  unfolding count_used
  count_used-zero [] = refl
  count_used-zero (x ∷ xs) = refl

  left-step :
      (array : List (Value D)) (i limit : ℕ)
      → 0 < i
      → limit ≤ length array
      → count_used (drop (i - 1) array) (limit + 1 - i)
          + left array (if leb i limit then limit + 1 else i)
        ≡ left array i
  left-step array i limit pos le = elim (Bool-cases (leb i limit)) [
    | inl q ↦
        let split : length array + 1 - i ≡ (limit + 1 - i) + (length array - limit) =
          ground arith in
        let here : (i - 1) + (limit + 1 - i) ≡ limit = ground arith in
        let rest : limit + 1 - 1 ≡ limit = omega arith in
        let rest' : length array + 1 - (limit + 1) ≡ length array - limit = omega arith in
        rw (q, rest, rest', split)
          (sym (
            count_used-add (drop (i - 1) array) (limit + 1 - i) (length array - limit)
            ∙ ap
                (λ xs.
                  count_used (drop (i - 1) array) (limit + 1 - i)
                  + count_used xs (length array - limit))
                (drop-drop (i - 1) (limit + 1 - i) array ∙ ap (λ a. drop a array) here)))
    | inr q ↦
        let none_left : limit + 1 - i ≡ 0 = ground arith in
        rw (q, none_left, count_used-zero (drop (i - 1) array)) (omega arith)
  ]

  left-beyond : (array : List (Value D)) (i : ℕ) → length array < i → left array i ≡ 0
  left-beyond array i h =
      let e : length array + 1 - i ≡ 0 = omega arith in rw e (count_used-zero (drop (i - 1) array))

  count_ranges-n_array :
      (array : List (Value D)) (bits bit i : ℕ) (ranges : List ℕ) (n : ℕ)
      → 0 < i
      → (length array < i) ⊎ (2 ^ bit < 2 * i)
      → 2 * length array ≤ 2 ^ (bit + bits)
      → (count_ranges array bits bit i ranges n).1 ≡ n + left array i
  unfolding count_ranges
  count_ranges-n_array array zero bit i ranges n pos le fits =
      let e : bit + 0 ≡ bit = omega arith in
      let small : 2 * length array ≤ 2 ^ bit = rw (sym e) fits in
      rw (left-beyond array i (ground arith)) (omega arith)
  count_ranges-n_array array (suc bits) bit i ranges n pos le fits =
      let power : 2 ^ (bit + 1) ≡ 2 * 2 ^ bit = simp towards_suc (omega (arith, pow-suc 2 bit)) in
      let e : bit + suc bits ≡ (bit + 1) + bits = omega arith in
      let fits' : 2 * length array ≤ 2 ^ ((bit + 1) + bits) = rw (sym e) fits in
      elim (Bool-cases (ltb (length array) (2 ^ bit))) [
        | inl q ↦ elim (Bool-cases (ltb (length array) i)) [
          | inl r ↦ ground (arith, q, r, left-beyond array i)
          | inr r ↦
              let used = count_used (drop (i - 1) array) (length array + 1 - i) in
              let next =
                count_ranges-n_array array bits (bit + 1) (length array + 1)
                  (add_at ranges bit used) (n + used) (omega arith) (inl (omega arith)) fits' in
              let le : leb i (length array) ≡ true = ground arith in
              let step : used + left array (length array + 1) ≡ left array i =
                ground (arith, le, left-step array i (length array)) in
              rw (q, r, le) (next ∙ omega (arith, step))
        ]
        | inr q ↦
            let used = count_used (drop (i - 1) array) (2 ^ bit + 1 - i) in
            let i' = if leb i (2 ^ bit) then 2 ^ bit + 1 else i in
            let next =
              count_ranges-n_array array bits (bit + 1) i' (add_at ranges bit used) (n + used)
                (ground arith) (inr (ground (arith, power))) fits' in
            let step = left-step array i (2 ^ bit) pos (ground arith) in
            rw q (next ∙ omega (arith, step))
      ]

  -- `table_array_count` counts the values of the array part that are not nil, where it has at most
  -- 2^25 values.
  pub table_array_count-count_used :
      (t : Table D) (ranges : List ℕ)
      → length t.array ≤ 2 ^ 25
      → (table_array_count t ranges).1 ≡ count_used t.array (length t.array)
  unfolding table_array_count
  table_array_count-count_used t ranges h =
      let all : length t.array + 1 - 1 ≡ length t.array = omega arith in
      let count =
        count_ranges-n_array t.array max_index_bits 0 1 ranges 0 (omega arith) (inr (omega arith))
          (omega arith) in
      count ∙ (rw all (omega arith))
