-- ===== src/Mem.antt =====
-- cpp/src/mem.hpp and cpp/src/mem.cpp: the sizes to which memory grows, and reallocation.
-- `none` in a cell is memory that was never written. The allocator does not fail in this model.
pub mod Log
pub mod Fib
use lulu.Prelude.{
  ℕ, zero, suc, ◌+◌, ◌-◌, ◌*◌, ◌/◌, ◌^◌, List, [], ◌∷◌, ◌++◌, Option, none, ltb, if◌then◌else◌,
  get_or, length, take, replicate,
}

-- `ceil_log2_lookup_table`: entry `n - 1` is the exponent of `n`, for 1 <= n <= 256.
unfoldable pub ceil_log2_lookup : List ℕ
ceil_log2_lookup =
    0
    ∷ 1
    ∷ (replicate 2 2
        ++ (replicate 4 3
            ++ (replicate 8 4
                ++ (replicate 16 5 ++ (replicate 32 6 ++ (replicate 64 7 ++ replicate 128 8))))))

-- The `while` loop of `mem_ceil_log2`, with fuel: `n` and `acc` when it ends.
unfoldable pub shift_bytes : ℕ → ℕ → ℕ → ℕ × ℕ
shift_bytes zero n acc = (n, acc)
shift_bytes (suc fuel) n acc =
    let rest = shift_bytes fuel (n / 2 ^ 8) (acc + 8) in if ltb 0x100 n then rest else (n, acc)

-- `n` is positive, and `n` rounds of the loop are always enough.
unfoldable pub mem_ceil_log2 : ℕ → ℕ
mem_ceil_log2 n = let (m, acc) = shift_bytes n n 0 in acc + get_or ceil_log2_lookup (m - 1) 0

unfoldable pub mem_next_pow2 : ℕ → ℕ
mem_next_pow2 n = 2 ^ mem_ceil_log2 n

-- The `while` loop of `mem_next_fib`, with fuel.
unfoldable pub grow_fib : ℕ → ℕ → ℕ → ℕ
grow_fib zero n next = next
grow_fib (suc fuel) n next =
    let rest = grow_fib fuel n (next * 3 / 2) in if ltb next n then rest else next

unfoldable pub mem_next_fib : ℕ → ℕ
mem_next_fib n = grow_fib n n 2

-- `mem_resize`: the first cells are kept, and new ones are not yet written.
abbrev pub mem_resize {ℓ} : {A : Type ℓ} → List (Option A) → ℕ → List (Option A)
mem_resize cells n = take n cells ++ replicate (n - length cells) none
