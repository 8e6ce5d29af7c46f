-- ===== src/Compiler/JumpList.antt =====
-- The lists of jumps of cpp/src/compiler.cpp, and `compiler_jump_add`.
use lulu.Prelude.{
  ℕ, zero, suc, ◌≤◌, ◌≡◌, ◌≢◌, sym, ◌∙◌, ap, Bool, true, not, ◌&&◌, some, List, [], ◌∷◌, ◌++◌, ◌==◌,
  length, set, arith, get_elem?-set_ne, lt_of_get_elem?,
}
use lulu.Prelude.Int.{ℤ, pos}
use lulu.Opcode.{Instruction, max_sbx}
use lulu.Compiler.{no_jump, get_code, jump_get, append_jump, jump_add}
use lulu.Compiler.Jumps.{JumpsAt, jump_set-jump_get}

-- The list that starts at `pc` has the jumps at the positions `ps`, in order.
unfoldable pub IsJumps : List Instruction → ℤ → List ℕ → Type 0
IsJumps codes pc [] = pc ≡ no_jump
IsJumps codes pc (p ∷ ps) =
    (pc ≡ pos p)
    × ((i : Instruction) × JumpsAt codes p i)
    × ((next : ℤ) × (jump_get codes (pos p) ≡ some next) × IsJumps codes next ps)

unfoldable pub apart : ℕ → List ℕ → Bool
apart p [] = true
apart p (q ∷ qs) = not (p == q) && apart p qs

unfoldable pub all_apart : List ℕ → List ℕ → Bool
all_apart [] qs = true
all_apart (p ∷ ps) qs = apart p qs && all_apart ps qs

jump_get-set_ne :
    (codes : List Instruction) (x p : ℕ) (i : Instruction)
    → x ≢ p
    → jump_get (set codes x i) (pos p) ≡ jump_get codes (pos p)
unfolding jump_get get_code
jump_get-set_ne codes x p i ne = ground (arith, get_elem?-set_ne codes i ne)

JumpsAt-set_ne :
    (codes : List Instruction) (x p : ℕ) (i j : Instruction)
    → x ≢ p
    → JumpsAt codes p j
    → JumpsAt (set codes x i) p j
JumpsAt-set_ne codes x p i j ne at = record {
  there = get_elem?-set_ne codes i ne ∙ at.there;
  word = at.word;
  jumps = at.jumps;
}

IsJumps-set :
    (codes : List Instruction) (pc : ℤ) (ps : List ℕ) (x : ℕ) (i : Instruction)
    → apart x ps ≡ true
    → IsJumps codes pc ps
    → IsJumps (set codes x i) pc ps
unfolding IsJumps apart
IsJumps-set codes pc [] x i a h = h
IsJumps-set codes pc (p ∷ ps) x i a (e, (j, at), (next, g, rest)) =
    let ne : x ≢ p = λ q. ground (arith, q, a) in
    (
      e,
      (j, JumpsAt-set_ne codes x p i j ne at),
      (
        next,
        jump_get-set_ne codes x p i ne ∙ g,
        IsJumps-set codes next ps x i (ground (arith, a)) rest,
      ),
    )

no_cycle :
    (codes : List Instruction) (l p p2 : ℕ)
    → l ≡ p
    → jump_get codes (pos l) ≡ some no_jump
    → jump_get codes (pos p) ≡ some (pos p2)
    → ⊥
no_cycle codes l p p2 e h h' =
    let same : some no_jump ≡ some (pos p2) = sym h ∙ ap (λ x. jump_get codes (pos x)) e ∙ h' in cc

append_jump-IsJumps :
    (codes : List Instruction) (pc : ℤ) (p : ℕ) (ps : List ℕ) (q : ℕ) (qs : List ℕ) (fuel : ℕ)
    → IsJumps codes pc (p ∷ ps)
    → IsJumps codes (pos q) (q ∷ qs)
    → all_apart (p ∷ ps) (q ∷ qs) ≡ true
    → length codes ≤ max_sbx
    → suc (length ps) ≤ fuel
    → (l : ℕ) × (i' : Instruction) × (append_jump fuel codes pc (pos q) ≡ some (set codes l i'))
      × (jump_get codes (pos l) ≡ some no_jump)
      × IsJumps (set codes l i') pc (p ∷ (ps ++ q ∷ qs))
unfolding IsJumps append_jump all_apart apart
append_jump-IsJumps codes pc p ps q qs zero hp hq a short enough = absurd (omega arith)
append_jump-IsJumps codes pc p [] q qs (suc fuel) (e, (i, at), (next, g, end))
      (e', (i'', at'), rest) a short enough =
    let ne : p ≢ q = λ r. ground (arith, r, a) in
    let (i', run, at_p, goes) =
      jump_set-jump_get codes p q i at short (lt_of_get_elem? codes q i'' at'.there) ne in
    let hq : IsJumps codes (pos q) (q ∷ qs) = (e', (i'', at'), rest) in
    (
      p,
      i',
      ground (arith, e, g, end, run),
      g ∙ ap some end,
      (
        e,
        (i', at_p),
        (pos q, goes, IsJumps-set codes (pos q) (q ∷ qs) p i' (ground (arith, a)) hq),
      ),
    )
append_jump-IsJumps codes pc p (p2 ∷ ps) q qs (suc fuel) (e, (i, at), (next, g, hp)) hq a short
      enough =
    let (l, i', run, end, lists) =
      append_jump-IsJumps codes next p2 ps q qs fuel hp hq (ground (arith, a)) short
        (omega arith) in
    let (next_is, second, more) = hp in
    let ne : l ≢ p = λ r. no_cycle codes l p p2 r end (g ∙ ap some next_is) in
    (
      l,
      i',
      ground (arith, e, g, next_is, run),
      end,
      (
        e,
        (i, JumpsAt-set_ne codes l p i' i ne at),
        (next, jump_get-set_ne codes l p i' ne ∙ g, lists),
      ),
    )

-- The list after `compiler_jump_add` has the jumps that were in the list and then those of the list
-- that is added, where they have no jump in common, neither is empty, the code is not too long and
-- the first has no more jumps than the code has instructions.
pub jump_add-IsJumps :
    (codes : List Instruction) (p : ℕ) (ps : List ℕ) (q : ℕ) (qs : List ℕ)
    → IsJumps codes (pos p) (p ∷ ps)
    → IsJumps codes (pos q) (q ∷ qs)
    → all_apart (p ∷ ps) (q ∷ qs) ≡ true
    → length codes ≤ max_sbx
    → suc (length ps) ≤ length codes
    → (codes' : List Instruction) × (jump_add codes (pos p) (pos q) ≡ some (codes', pos p))
      × IsJumps codes' (pos p) (p ∷ (ps ++ q ∷ qs))
unfolding jump_add
jump_add-IsJumps codes p ps q qs hp hq a short enough =
    let (l, i', run, end, lists) =
      append_jump-IsJumps codes (pos p) p ps q qs (length codes) hp hq a short enough in
    (set codes l i', ground (arith, run), lists)
