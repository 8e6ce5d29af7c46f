-- ===== src/Tests/Intern.antt =====
-- Tests of the interned strings.
use lulu.Prelude.{◌≡◌, refl, arith, [], ◌∷◌, replicate}
use lulu.Value.Hash.{hash_round}
use lulu.Intern.{Intern, ostring_new, hash_string, hash_chars}
use lulu.Intern.Growth.{ostring_new-again}

abbrev no_strings : Intern
no_strings = record { table = replicate 4 []; count = 0; next_address = 16 }

-- "and" has the hash of the reference implementation of FNV-1a.
hash_and : hash_string (97 ∷ 110 ∷ 100 ∷ []) ≡ 0x0f29c2a6
unfolding hash_string hash_chars hash_round
hash_and = refl

abbrev two_strings : Intern
two_strings = record {
  table =
      (record { address = 3; hash = 5; text = 97 ∷ [] }
        ∷ record { address = 2; hash = 4; text = 98 ∷ [] }
        ∷ [])
      ∷ [];
  count = 2;
  next_address = 4;
}

ostring_new-again_example :
    ostring_new (ostring_new no_strings (97 ∷ 110 ∷ [])).1 (97 ∷ 110 ∷ [])
    ≡ ostring_new no_strings (97 ∷ 110 ∷ [])
ostring_new-again_example =
    ostring_new-again no_strings (97 ∷ 110 ∷ []) 2 (omega arith) (omega arith)
