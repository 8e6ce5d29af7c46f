-- ===== src/Intern.antt =====
-- The interned strings of cpp/src/string.cpp. A string object has an address that is never given
-- twice; a list of strings that share a main index is the list from its head.
pub mod Growth
use Prim.Native.Nat.{bit_xor}
use lulu.Prelude.{
  ℕ, zero, suc, ◌+◌, ◌-◌, ◌*◌, ◌%◌, ◌^◌, ◌≤◌, ◌<◌, Bool, true, false, ◌&&◌, Option, none, some,
  List, [], ◌∷◌, ltb, ◌==◌, if◌then◌else◌, bit_and, length, get_or, set, replicate,
}
use lulu.Value.Hash.{fnv1a_offset, hash_round}

pub record OString : Type 0 where
  pub address : ℕ
  pub hash : ℕ
  pub text : List ℕ

-- `next_address` is that of the next object.
pub record Intern : Type 0 where
  pub table : List (List OString)
  pub count : ℕ
  pub next_address : ℕ

-- `static_cast<u32>(c)` of a signed `char`.
abbrev pub char_to_u32 : ℕ → ℕ
char_to_u32 c = if ltb c 128 then c else 2 ^ 32 - 256 + c

unfoldable pub hash_chars : ℕ → List ℕ → ℕ
hash_chars hash [] = hash
hash_chars hash (c ∷ cs) = hash_chars (hash_round hash (char_to_u32 c)) cs

unfoldable pub hash_string : List ℕ → ℕ
hash_string text = hash_chars fnv1a_offset text

unfoldable pub intern_clamp_index : ℕ → ℕ → ℕ
intern_clamp_index hash cap = bit_and hash (cap - 1)

-- A string becomes the head of its list.
unfoldable pub chain : List (List OString) → ℕ → OString → List (List OString)
chain table i s = set table i (s ∷ get_or table i [])

-- The inner loop of `intern_resize`.
unfoldable pub rehash_list : ℕ → List OString → List (List OString) → List (List OString)
rehash_list new_cap [] new_table = new_table
rehash_list new_cap (s ∷ list) new_table =
    rehash_list new_cap list (chain new_table (intern_clamp_index s.hash new_cap) s)

unfoldable pub rehash_lists : ℕ → List (List OString) → List (List OString) → List (List OString)
rehash_lists new_cap [] new_table = new_table
rehash_lists new_cap (list ∷ lists) new_table =
    rehash_lists new_cap lists (rehash_list new_cap list new_table)

unfoldable pub intern_resize : Intern → ℕ → Intern
intern_resize t new_cap = record t { table = rehash_lists new_cap t.table (replicate new_cap []) }

-- `slice_eq`
unfoldable pub slice_eq : List ℕ → List ℕ → Bool
slice_eq [] [] = true
slice_eq (a ∷ as') (b ∷ bs) = (a == b) && slice_eq as' bs
slice_eq _ _ = false

-- The loop of `ostring_new`.
unfoldable pub find_string : List OString → ℕ → List ℕ → Option OString
find_string [] hash text = none
find_string (s ∷ list) hash text =
    if (s.hash == hash) && slice_eq text s.text then some s else find_string list hash text

-- `ostring_new`: the string and the table.
unfoldable pub ostring_new : Intern → List ℕ → OString × Intern
ostring_new t text =
    let hash = hash_string text in
    let n = length t.table in
    let i = intern_clamp_index hash n in
    let s : OString = record { address = t.next_address; hash = hash; text = text } in
    let added = record t { table = chain t.table i s; next_address = t.next_address + 1 } in
    let resized = if ltb n (t.count + 1) then intern_resize added (n * 2) else added in
    elim (find_string (get_or t.table i []) hash text) [
      | some found ↦ (found, t)
      | none ↦ (s, record resized { count = t.count + 1 })
    ]
