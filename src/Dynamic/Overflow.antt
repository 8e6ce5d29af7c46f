-- ===== src/Dynamic/Overflow.antt =====
-- `chunk_push` of cpp/src/chunk.hpp: how far a slice can grow by it.
use lulu.Prelude.{
  ℕ, ◌+◌, ◌≤◌, ◌<◌, ◌≡◌, refl, ◌∙◌, ap, arith, List, [], ◌∷◌, ◌++◌, Option, none, some, map, ltb,
  lt→ltb, Bool-cases, inl, inr, length, take, set, take-set_add, length-append, length-set,
}
use Prim.Native.Nat.{max}
use mathlib.Core.List.{map-append, append-nil, append_assoc}
use native.Mathlib.Decide.{dec_lt}
use lulu.Mem.{mem_next_pow2}
use lulu.Mem.Log.{mem_next_pow2_least, mem_next_pow2-le, mem_next_pow2_short}
use lulu.Dynamic.{Cells, chunk_room, chunk_push}
use lulu.Dynamic.Push.{length-mem_resize, take-mem_resize}

module _ {ℓ} {A : Type ℓ} where
  -- `n` items of a slice of at most 256 cells.
  pub record Filled (s : Cells A) (n : ℕ) (xs : List A) : Type ℓ where
    pub narrow : length s ≤ 256
    pub within : n ≤ length s
    pub counted : n ≡ length xs
    pub holds : take n s ≡ map some xs

  room-Filled :
      (s : Cells A) (n : ℕ) (xs : List A)
      → Filled s n xs
      → n < 256
      → (n < length (chunk_room s n))
        × (length (chunk_room s n) ≤ 256)
        × (take n (chunk_room s n) ≡ take n s)
  unfolding chunk_room
  room-Filled s n xs f lt =
      let m = mem_next_pow2 (max (n + 1) 8) in
      let (lo, _) = mem_next_pow2_least (max (n + 1) 8) (omega arith) (omega arith) in
      let hi = mem_next_pow2-le (max (n + 1) 8) (omega arith) (omega arith) in
      elim (Bool-cases (ltb (length s) (n + 1))) [
        | inl more ↦ rw more (
          omega (arith, length-mem_resize s m),
          omega (arith, length-mem_resize s m),
          take-mem_resize s n m f.within (omega arith),
        )
        | inr done ↦ rw done (ground arith, f.narrow, refl)
      ]

  -- Below 256 items a push stores the item behind the others and returns its index.
  pub chunk_push-Filled :
      (s : Cells A) (n : ℕ) (xs : List A) (v : A)
      → Filled s n xs
      → n < 256
      → (t : Cells A) × (chunk_push s v n ≡ some (n, t, n + 1)) × Filled t (n + 1) (xs ++ v ∷ [])
  unfolding chunk_push
  chunk_push-Filled s n xs v f lt =
      let room = chunk_room s n in
      let (inside, narrow, kept) = room-Filled s n xs f lt in
      (
        set room n (some v),
        rw (lt→ltb n (length room) inside, chunk_push),
        record {
          narrow = omega (arith, length-set room n (some v));
          within = omega (arith, length-set room n (some v));
          counted = omega (arith, f.counted, length-append {ℓ} xs (v ∷ []));
          holds =
              rw map-append
                (take-set_add room n (some v) inside ∙ ap (λ l. l ++ some v ∷ []) (kept ∙ f.holds));
        },
      )

  -- At 256 items the slice is not grown, and the next item is written behind its end.
  pub chunk_push_full : (s : Cells A) (v : A) → length s ≡ 256 → chunk_push s v 256 ≡ none
  unfolding chunk_push chunk_room
  chunk_push_full s v h =
      let r : length (chunk_room s 256) ≡ 256 =
        rw
          (lt→ltb (length s) 257 (omega arith), mem_next_pow2_short 257 (omega arith) (omega arith))
          (length-mem_resize s 256) in
      rw (r, chunk_push)

  -- A chunk's items, pushed one after another.
  pub push_all : List A → Cells A → ℕ → Option (Cells A × ℕ)
  push_all [] s n = some (s, n)
  push_all (x ∷ xs) s n = elim (chunk_push s x n) [ none ↦ none | some (_, t, m) ↦ push_all xs t m ]

  push_all-Filled :
      (xs done : List A) (s : Cells A) (n : ℕ)
      → Filled s n done
      → n + length xs ≤ 256
      → (t : Cells A) × (m : ℕ) × (push_all xs s n ≡ some (t, m)) × Filled t m (done ++ xs)
  unfolding push_all
  push_all-Filled [] done s n f h = (s, n, refl, rw append-nil f)
  push_all-Filled (x ∷ xs) done s n f h =
      let (t, run, g) = chunk_push-Filled s n done x f (omega arith) in
      let (u, m, rest, k) = push_all-Filled xs (done ++ x ∷ []) t (n + 1) g (omega arith) in
      (u, m, rw (run, push_all) rest, rw append_assoc at k)

  push_all-overflow :
      (xs done : List A) (s : Cells A) (n : ℕ)
      → Filled s n done
      → n ≤ 256
      → 256 < n + length xs
      → push_all xs s n ≡ none
  unfolding push_all
  push_all-overflow [] done s n f le h = absurd (omega arith)
  push_all-overflow (x ∷ xs) done s n f le h = elim (dec_lt n 256) [
    | yes lt ↦
        let (t, run, g) = chunk_push-Filled s n done x f lt in
        rw (run, push_all)
          (push_all-overflow xs (done ++ x ∷ []) t (n + 1) g (omega arith) (omega arith))
    | no full ↦
        let e : n ≡ 256 = omega arith in
        let w : length s ≡ 256 = omega (arith, f.narrow, f.within) in
        rw (e, chunk_push_full s x w, push_all)
  ]

  pub empty-Filled : Filled [] 0 []
  empty-Filled = record { narrow = omega arith; within = omega arith; counted = refl; holds = refl }

  -- The first 256 items of a chunk, pushed onto an empty slice, are stored in order.
  pub push_all-some :
      (xs : List A)
      → length xs ≤ 256
      → (t : Cells A) × (m : ℕ) × (push_all xs [] 0 ≡ some (t, m)) × (take m t ≡ map some xs)
  push_all-some xs h =
      let (t, m, run, f) = push_all-Filled xs [] [] 0 empty-Filled (omega arith) in
      (t, m, run, f.holds)

  -- A chunk of more than 256 items writes outside its slice.
  pub push_all-none : (xs : List A) → 256 < length xs → push_all xs [] 0 ≡ none
  push_all-none xs h = push_all-overflow xs [] [] 0 empty-Filled (omega arith) (omega arith)
