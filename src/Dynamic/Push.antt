-- ===== src/Dynamic/Push.antt =====
-- The growing array of cpp/src/dynamic.hpp implements a list.
use lulu.Prelude.{
  ℕ, ◌+◌, ◌-◌, ◌≤◌, ◌<◌, ◌≡◌, refl, ◌∙◌, ap, arith, List, [], ◌∷◌, ◌++◌, Option, none, some, map,
  ltb, lt→ltb, Bool-cases, inl, inr, length, take, set, take-set_add, take-append_left, take-take,
  length-append, length-set, length-take, length-replicate,
}
use Prim.Native.Nat.{max}
use mathlib.Core.List.{map-append}
use lulu.Mem.{mem_next_fib, mem_resize}
use lulu.Mem.Fib.{mem_next_fib_bounds}
use lulu.Dynamic.{Dynamic, Cells, dynamic_resize, dynamic_shrink, dynamic_push}

module _ {ℓ} {A : Type ℓ} where
  pub length-mem_resize : (cells : Cells A) (n : ℕ) → length (mem_resize cells n) ≡ n
  length-mem_resize cells n = omega (
    arith,
    length-append (take n cells) _,
    length-take n cells,
    length-replicate {A = Option A} (n - length cells) none,
  )

  pub take-mem_resize :
      (cells : Cells A) (k n : ℕ)
      → k ≤ length cells
      → k ≤ n
      → take k (mem_resize cells n) ≡ take k cells
  take-mem_resize cells k n h h' =
      take-append_left k (take n cells) _ (omega (arith, length-take n cells))
      ∙ take-take k n cells h'

  -- The array holds the items `xs`, within its allocation.
  pub record Models (d : Dynamic A) (xs : List A) : Type ℓ where
    pub allocated : length d.cells ≡ d.cap
    pub fits : d.len ≤ d.cap
    pub counted : d.len ≡ length xs
    pub holds : take d.len d.cells ≡ map some xs

  dynamic_resize_keeps :
      (d : Dynamic A) (n : ℕ)
      → d.len ≤ d.cap
      → length d.cells ≡ d.cap
      → d.len ≤ n
      → (length (dynamic_resize d n).cells ≡ (dynamic_resize d n).cap)
        × (n ≤ (dynamic_resize d n).cap)
        × (take d.len (dynamic_resize d n).cells ≡ take d.len d.cells)
  unfolding dynamic_resize
  dynamic_resize_keeps d n fits al up =
      let m = mem_next_fib (max n 8) in
      let wide : n ≤ m = omega (arith, mem_next_fib_bounds (max n 8)) in
      elim (Bool-cases (ltb d.cap n)) [
        | inl more ↦ rw more (
          length-mem_resize d.cells m,
          wide,
          take-mem_resize d.cells d.len m (omega arith) (omega arith),
        )
        | inr done ↦ rw done (al, ground arith, refl)
      ]

  dynamic_resize_len : (d : Dynamic A) (n : ℕ) → (dynamic_resize d n).len ≡ n
  unfolding dynamic_resize
  dynamic_resize_len d n = refl

  -- A push never fails; it appends the item and keeps the items before it.
  pub dynamic_push-Models :
      (d : Dynamic A) (xs : List A) (v : A)
      → Models d xs
      → (e : Dynamic A) × (dynamic_push d v ≡ some e) × Models e (xs ++ v ∷ [])
  unfolding dynamic_push
  dynamic_push-Models d xs v m =
      let g = dynamic_resize d (d.len + 1) in
      let (al, wide, kept) = dynamic_resize_keeps d (d.len + 1) m.fits m.allocated (omega arith) in
      let last : g.len - 1 ≡ d.len = omega (arith, dynamic_resize_len d (d.len + 1)) in
      let inside : d.len < length g.cells = omega arith in
      let final = set g.cells d.len (some v) in
      (
        record g { cells = set g.cells (g.len - 1) (some v) },
        rw (last, lt→ltb d.len (length g.cells) inside),
        record {
          allocated = length-set g.cells (g.len - 1) (some v) ∙ al;
          fits = rw (dynamic_resize_len d (d.len + 1)) wide;
          counted =
              omega
                (arith, dynamic_resize_len d (d.len + 1), length-append {ℓ} xs (v ∷ []), m.counted);
          holds =
              rw (last, dynamic_resize_len d (d.len + 1), map-append)
                (take-set_add g.cells d.len (some v) inside
                  ∙ ap (λ l. l ++ some v ∷ []) (kept ∙ m.holds));
        },
      )

  -- Shrinking changes nothing: the length never exceeds the capacity, so no memory is given back.
  pub dynamic_shrink_keeps : (d : Dynamic A) (xs : List A) → Models d xs → dynamic_shrink d ≡ d
  unfolding dynamic_shrink dynamic_resize
  dynamic_shrink_keeps d xs m = ground (arith, m.fits)
