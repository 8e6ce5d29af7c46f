-- ===== src/Tests/Memory.antt =====
-- Tests of the sizes and of the growing arrays.
use lulu.Prelude.{ℕ, ◌<◌, ◌≡◌, refl, arith, [], ◌∷◌, ◌++◌, none, some, length, replicate}
use lulu.Mem.{shift_bytes, mem_ceil_log2, mem_next_pow2, ceil_log2_lookup}
use lulu.Dynamic.{Dynamic, dynamic_push}
use lulu.Dynamic.Push.{Models, dynamic_push-Models}
use lulu.Dynamic.Overflow.{push_all, push_all-none}

rounded : mem_next_pow2 200 ≡ 256
unfolding mem_next_pow2 mem_ceil_log2 ceil_log2_lookup shift_bytes
rounded = refl

abbrev two_items : Dynamic ℕ
two_items = record { cells = some 5 ∷ some 6 ∷ []; len = 2; cap = 2 }

two_items-Models : Models two_items (5 ∷ 6 ∷ [])
two_items-Models = record { allocated = refl; fits = omega arith; counted = refl; holds = refl }

dynamic_push-Models_example :
    (e : Dynamic ℕ) × (dynamic_push two_items 7 ≡ some e) × Models e ((5 ∷ 6 ∷ []) ++ 7 ∷ [])
dynamic_push-Models_example = dynamic_push-Models two_items (5 ∷ 6 ∷ []) 7 two_items-Models

abbrev half_full : Dynamic ℕ
half_full = record { cells = some 5 ∷ none ∷ []; len = 1; cap = 2 }

half_full-Models : Models half_full (5 ∷ [])
half_full-Models = record { allocated = refl; fits = omega arith; counted = refl; holds = refl }

length_257 : 256 < length (replicate {A = ℕ} 257 7)
length_257 = omega arith

push_all-none_example : push_all (replicate {A = ℕ} 257 7) [] 0 ≡ none
push_all-none_example = push_all-none (replicate 257 7) length_257
