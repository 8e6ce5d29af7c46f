-- ===== src/Chunk/Locals.antt =====
-- `chunk_get_local` (cpp/src/chunk.cpp) against the list of the locals that are active.
use lulu.Prelude.{
  ℕ, zero, suc, ◌≤◌, ◌<◌, ◌≡◌, refl, arith, List, [], ◌∷◌, leb, ◌&&◌, if◌then◌else◌, get_elem?,
}
use lulu.Chunk.{Local, chunk_get_local}

-- The names of the locals whose range holds the instruction, in order.
pub active_names : List Local → ℕ → List ℕ
active_names [] pc = []
active_names (v ∷ locals) pc =
    let rest = active_names locals pc in
    if leb v.start_pc pc && leb pc v.end_pc then v.ident ∷ rest else rest

-- The locals start at `pc` or later, in the order of their starts.
abbrev pub StartsFrom : ℕ → List Local → Type 0
StartsFrom pc [] = Unit {0}
StartsFrom pc (v ∷ locals) = (pc ≤ v.start_pc) × StartsFrom v.start_pc locals

active_names-none :
    (locals : List Local) (pc from : ℕ)
    → pc < from
    → StartsFrom from locals
    → active_names locals pc ≡ []
unfolding active_names
active_names-none [] pc from lt s = refl
active_names-none (v ∷ locals) pc from lt s = ground (arith, active_names-none locals pc v.start_pc)

-- Where the locals are in the order of their starts, local number `n + 1` at an instruction is
-- entry `n` of the active ones.
pub chunk_get_local-active :
    (locals : List Local) (n pc from : ℕ)
    → StartsFrom from locals
    → chunk_get_local locals (suc n) pc ≡ get_elem? (active_names locals pc) n
unfolding chunk_get_local active_names
chunk_get_local-active [] n pc from s = refl
chunk_get_local-active (v ∷ locals) zero pc from s = ground (
  arith,
  active_names-none locals pc v.start_pc,
  chunk_get_local-active locals zero pc v.start_pc,
)
chunk_get_local-active (v ∷ locals) (suc n) pc from s = ground (
  arith,
  active_names-none locals pc v.start_pc,
  chunk_get_local-active locals n pc v.start_pc,
  chunk_get_local-active locals (suc n) pc v.start_pc,
)
