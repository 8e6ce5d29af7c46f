-- ===== src/Value/Hash.antt =====
-- The hash functions of cpp/src/table.cpp, over the constants of cpp/src/string.hpp.
use Prim.Native.Nat.{bit_xor}
use lulu.Prelude.{ℕ, ◌*◌, ◌/◌, ◌%◌, ◌^◌, Bool, true, false, Option, none, some, List, [], ◌∷◌}
use lulu.Value.{
  Runtime, Value, nil, boolean, lightuserdata, number, string, table, function, userdata,
}

abbrev pub fnv1a_offset : ℕ
fnv1a_offset = 0x811c9dc5

abbrev fnv1a_prime : ℕ
fnv1a_prime = 0x01000193

-- A round on `u32`: the hash is combined with a word, and the product wraps around.
unfoldable pub hash_round : ℕ → ℕ → ℕ
hash_round hash word = (bit_xor hash word * fnv1a_prime) % 2 ^ 32

unfoldable pub hash_boolean : Bool → ℕ
hash_boolean true = hash_round fnv1a_offset 1
hash_boolean false = hash_round fnv1a_offset 0

unfoldable pub hash_words : ℕ → List ℕ → ℕ
hash_words hash [] = hash
hash_words hash (word ∷ words) = hash_words (hash_round hash word) words

-- The value is given by its representation, in words of 32 bits.
unfoldable pub hash_compound : List ℕ → ℕ
hash_compound words = hash_words fnv1a_offset words

-- A pointer of 64 bits, the low word first.
unfoldable pub pointer_words : ℕ → List ℕ
pointer_words p = p % 2 ^ 32 ∷ (p / 2 ^ 32) % 2 ^ 32 ∷ []

-- `nil` is not hashed: the panic.
unfoldable pub hash_value : {D : Type 0} → Runtime D → Value D → Option ℕ
hash_value N nil = none
hash_value N (boolean b) = some (hash_boolean b)
hash_value N (number n) = some (hash_compound (N.halves n))
hash_value N (lightuserdata p) = some (hash_compound (pointer_words p))
hash_value N (string s) = some (N.string_hash s)
hash_value N (table o) = some (hash_compound (pointer_words o))
hash_value N (function o) = some (hash_compound (pointer_words o))
hash_value N (userdata o) = some (hash_compound (pointer_words o))
