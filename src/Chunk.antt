-- ===== src/Chunk.antt =====
-- cpp/src/chunk.hpp and cpp/src/chunk.cpp: the line table of a chunk, which maps instructions to
-- source lines, and its list of local variables.
pub mod LineSearch
pub mod LinePush
pub mod LineTable
pub mod Locals
use lulu.Prelude.{
  ℕ, zero, suc, ◌+◌, ◌-◌, ◌/◌, List, [], ◌∷◌, Option, none, some, Bool, ltb, leb, ◌==◌, ◌&&◌,
  if◌then◌else◌, length, get_elem?, set,
}
use lulu.Dynamic.{Cells, chunk_push}

pub record LineInfo : Type 0 where
  pub line : ℕ
  pub start_pc : ℕ
  pub end_pc : ℕ

pub record Local : Type 0 where
  pub ident : ℕ
  pub start_pc : ℕ
  pub end_pc : ℕ

-- The line of an instruction, `NO_LINE`, or a read outside the table.
pub data LineResult : Type 0 where
  found : ℕ → LineResult
  no_line : LineResult
  out_of_bounds : LineResult

-- The loop of `chunk_line_get`, with fuel. `stop` is the source's `right + 1`, which keeps it from
-- being negative: the loop runs while `left < stop`.
unfoldable pub search_lines : ℕ → List LineInfo → ℕ → ℕ → ℕ → LineResult
search_lines zero lines pc left stop = no_line
search_lines (suc fuel) lines pc left stop =
    let i = (left + (stop - 1)) / 2 in
    let lower = search_lines fuel lines pc left i in
    let upper = search_lines fuel lines pc (i + 1) stop in
    if ltb left stop
    then (elim (get_elem? lines i) [
      | none ↦ out_of_bounds
      | some info ↦
          if ltb pc info.start_pc
          then lower
          else if ltb info.end_pc pc
          then upper
          else found info.line
    ])
    else no_line

-- `right` starts at the length of the table, not below it.
unfoldable pub chunk_line_get : List LineInfo → ℕ → LineResult
chunk_line_get lines pc =
    if length lines == 0
    then no_line
    else search_lines (length lines + 2) lines pc 0 (length lines + 1)

-- `chunk_line_push(L, p, pc, line, n)`: the entry before may take `pc` in; its assertions are checks.
unfoldable pub chunk_line_push : Cells LineInfo → ℕ → ℕ → ℕ → Option (Cells LineInfo × ℕ)
chunk_line_push lines pc line zero =
    elim (chunk_push lines (record { line = line; start_pc = pc; end_pc = pc }) 0) [
      | none ↦ none
      | some (_, lines', n') ↦ some (lines', n')
    ]
chunk_line_push lines pc line (suc i) = elim (get_elem? lines i) [
  | some (some last) ↦
      if last.line == line
      then (if leb last.start_pc pc && leb last.end_pc pc
          then some (set lines i (some (record last { end_pc = pc })), suc i)
          else none)
      else (elim (chunk_push lines (record { line = line; start_pc = pc; end_pc = pc }) (suc i)) [
        | none ↦ none
        | some (_, lines', n') ↦ some (lines', n')
      ])
  | _ ↦ none
]

-- `chunk_get_local(p, local_number, pc)`. The counter reaches 0 exactly where it was 1 before.
unfoldable pub chunk_get_local : List Local → ℕ → ℕ → Option ℕ
chunk_get_local [] counter pc = none
chunk_get_local (v ∷ locals) counter pc =
    let rest = chunk_get_local locals counter pc in
    let next = chunk_get_local locals (counter - 1) pc in
    if ltb pc v.start_pc
    then none
    else if leb pc v.end_pc
    then if counter == 1 then some v.ident else next
    else rest
