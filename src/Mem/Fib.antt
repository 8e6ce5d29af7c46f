-- ===== src/Mem/Fib.antt =====
-- What `mem_next_fib` of cpp/src/mem.hpp computes: the capacity to which a dynamic array grows.
use lulu.Prelude.{ℕ, zero, suc, ◌+◌, ◌*◌, ◌/◌, ◌≤◌, ◌≡◌, refl, ◌⊎◌, inl, arith}
use lulu.Mem.{grow_fib, mem_next_fib}

-- The capacity is a start, or less than one and a half times the size.
abbrev IsSnug : ℕ → ℕ → Type 0
IsSnug n next = (next ≡ 2) ⊎ (2 * next + 3 ≤ 3 * n)

grow_fib_bounds :
    (fuel n next : ℕ)
    → 2 ≤ next
    → n ≤ fuel + next
    → IsSnug n next
    → (n ≤ grow_fib fuel n next) × IsSnug n (grow_fib fuel n next)
unfolding grow_fib
grow_fib_bounds zero n next lo enough s = (omega arith, s)
grow_fib_bounds (suc fuel) n next lo enough s =
    ground (arith, grow_fib_bounds fuel n (next * 3 / 2))

-- The loop ends with a capacity that holds `n` items and, above the start at 2, is less than one
-- and a half times `n`.
pub mem_next_fib_bounds :
    (n : ℕ) → (n ≤ mem_next_fib n) × ((mem_next_fib n ≡ 2) ⊎ (2 * mem_next_fib n + 3 ≤ 3 * n))
unfolding mem_next_fib
mem_next_fib_bounds n = grow_fib_bounds n n 2 (omega arith) (omega arith) (inl refl)
