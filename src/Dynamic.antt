-- ===== src/Dynamic.antt =====
-- cpp/src/slice.hpp, cpp/src/dynamic.hpp: bounds-checked slices and the growing array, and
-- `chunk_push` of cpp/src/chunk.hpp, which grows a slice by its own rule.
-- An array is its cells; `none` in a cell is memory that was never written. An index out of bounds
-- is a failed assertion, or a write outside the allocation: the result `none`.
pub mod Push
pub mod Overflow
use lulu.Prelude.{
  ℕ, zero, suc, ◌+◌, ◌-◌, ◌≤◌, ◌≡◌, ◌&&◌, List, [], ◌∷◌, ◌++◌, Option, none, some, ltb, leb,
  if◌then◌else◌, length, get_elem?, set, take, drop, map,
}
use Prim.Native.Nat.{max}
use lulu.Mem.{mem_next_fib, mem_next_pow2, mem_resize}

abbrev pub Cells {ℓ} : Type ℓ → Type ℓ
Cells A = List (Option A)

pub record Dynamic {ℓ} (A : Type ℓ) : Type ℓ where
  pub cells : Cells A
  pub len : ℕ
  pub cap : ℕ

module _ {ℓ} {A : Type ℓ} where
  -- `slice(s, start, stop)`, with its assertions.
  unfoldable pub slice : List A → ℕ → ℕ → Option (List A)
  slice s start stop =
      if leb start stop && leb stop (length s)
      then some (take (stop - start) (drop start s))
      else none

  -- `copy(dst, src)`: the shorter length decides.
  unfoldable pub copy : List A → List A → List A
  copy [] src = []
  copy dst [] = dst
  copy (d ∷ dst) (s ∷ src) = s ∷ copy dst src

  -- `fill(s, init)`
  unfoldable pub fill : List A → A → List A
  fill s init = map (λ _. init) s

  -- `s[i] = v`
  unfoldable pub store : Cells A → ℕ → A → Option (Cells A)
  store s i v = if ltb i (length s) then some (set s i (some v)) else none

  unfoldable pub dynamic_reserve : Dynamic A → ℕ → Dynamic A
  dynamic_reserve d new_cap = record {
    cells = mem_resize d.cells new_cap;
    len = d.len;
    cap = new_cap;
  }

  unfoldable pub dynamic_resize : Dynamic A → ℕ → Dynamic A
  unfolding dynamic_reserve
  dynamic_resize d new_len =
      let grown =
        if ltb d.cap new_len then dynamic_reserve d (mem_next_fib (max new_len 8)) else d in
      record grown { len = new_len }

  unfoldable pub dynamic_shrink : Dynamic A → Dynamic A
  unfolding dynamic_resize
  dynamic_shrink d = if ltb d.len d.cap then dynamic_resize d d.len else d

  -- The index is checked against the length, and the cell lies within the capacity.
  unfoldable pub dynamic_push : Dynamic A → A → Option (Dynamic A)
  dynamic_push d value =
      let grown = dynamic_resize d (d.len + 1) in
      if ltb (grown.len - 1) (length grown.cells)
      then some (record grown { cells = set grown.cells (grown.len - 1) (some value) })
      else none

  unfoldable pub dynamic_pop : Dynamic A → Dynamic A
  dynamic_pop d = record d { len = d.len - 1 }

  unfoldable pub dynamic_reset : Dynamic A → Dynamic A
  dynamic_reset d = record d { len = 0 }

  -- The growth of `chunk_push`, before its write.
  unfoldable pub chunk_room : Cells A → ℕ → Cells A
  chunk_room s n =
      if ltb (length s) (n + 1) then mem_resize s (mem_next_pow2 (max (n + 1) 8)) else s

  -- `chunk_push(L, s, v, n)`: the index of the item, the new slice and the new count.
  unfoldable pub chunk_push : Cells A → A → ℕ → Option (ℕ × Cells A × ℕ)
  unfolding store
  chunk_push s v n = elim (store (chunk_room s n) n v) [
    | none ↦ none
    | some s' ↦ some (n, s', n + 1)
  ]
