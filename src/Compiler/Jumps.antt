-- ===== src/Compiler/Jumps.antt =====
-- One jump of cpp/src/compiler.cpp: its target after `jump_set`.
use lulu.Prelude.{
  ℕ, ◌≤◌, ◌<◌, ◌≡◌, ◌≢◌, ap, true, false, some, List, leb, length, get_elem?, set, arith,
  get_elem?-set_self, lt_of_get_elem?,
}
use lulu.Prelude.Int.{ℤ, pos, ◌+ℤ◌, ◌-ℤ◌, ◌==ℤ◌, magnitude}
use lulu.Opcode.{Instruction, set_sbx, max_sbx}
use lulu.Opcode.Fields.{IsWord, IsOffset, set_sbx-keeps}
use lulu.Compiler.{no_jump, get_code, can_jump, jump_get, jump_set}

-- From the position behind `l` to `q`.
abbrev pub distance : ℕ → ℕ → ℤ
distance l q = pos q -ℤ (pos l +ℤ pos 1)

distance-bounds :
    (l q : ℕ)
    → l < max_sbx
    → q ≤ max_sbx
    → IsOffset (distance l q) × (leb (magnitude (distance l q)) max_sbx ≡ true)
unfolding ◌+ℤ◌ ◌-ℤ◌
distance-bounds l q a b = ground arith

distance-back : (l q : ℕ) → (pos l +ℤ pos 1) +ℤ distance l q ≡ pos q
unfolding ◌+ℤ◌ ◌-ℤ◌
distance-back l q = ground arith

distance-no_jump : (l q : ℕ) → l ≢ q → (distance l q ==ℤ no_jump) ≡ false
unfolding ◌+ℤ◌ ◌-ℤ◌
distance-no_jump l q ne = ground arith

-- An instruction of the code that may jump.
pub record JumpsAt (codes : List Instruction) (l : ℕ) (i : Instruction) : Type 0 where
  pub there : get_elem? codes l ≡ some i
  pub word : IsWord i
  pub jumps : can_jump i ≡ true

-- A jump that is set to a position, in code that is not too long, goes there, and no other instruction
-- changes. The position of the jump itself is left out: the offset of such a jump is that of the end
-- of a list.
pub jump_set-jump_get :
    (codes : List Instruction) (l q : ℕ) (i : Instruction)
    → JumpsAt codes l i
    → length codes ≤ max_sbx
    → q < length codes
    → l ≢ q
    → (i' : Instruction) × (jump_set codes (pos l) (pos q) ≡ some (set codes l i'))
      × JumpsAt (set codes l i') l i'
      × (jump_get (set codes l i') (pos l) ≡ some (pos q))
unfolding jump_set jump_get get_code
jump_set-jump_get codes l q i at short inside ne =
    let bound = lt_of_get_elem? codes l i at.there in
    let (fits, limit) = distance-bounds l q (omega arith) (omega arith) in
    let (word, offset, same_op, same_a) = set_sbx-keeps i (distance l q) at.word fits in
    let i' = set_sbx (distance l q) i in
    let there : get_elem? (set codes l i') l ≡ some i' = get_elem?-set_self codes l i' bound in
    let jumps : can_jump i' ≡ true = rw same_op at.jumps in
    (
      i',
      ground (arith, at.there, at.jumps, limit),
      record { there = there; word = word; jumps = jumps },
      ground (
        arith,
        there,
        jumps,
        ap (λ x. x ==ℤ no_jump) offset,
        distance-no_jump l q ne,
        ap (λ x. (pos l +ℤ pos 1) +ℤ x) offset,
        distance-back l q,
      ),
    )
