-- ===== src/Tests/Chunk.antt =====
-- Tests of the line table and the local variables of a chunk.
use lulu.Prelude.{
  ℕ, zero, suc, ◌≤◌, ◌<◌, ◌≡◌, refl, arith, List, [], ◌∷◌, some, map, get_elem?, take,
}
use lulu.Dynamic.{Cells}
use lulu.Chunk.{LineInfo, Local, found, out_of_bounds, chunk_line_get, search_lines}
use lulu.Chunk.LineSearch.{IsOrdered, chunk_line_get-beyond}
use lulu.Chunk.LineTable.{push_lines, chunk_line_get-push_lines}

abbrev table : List LineInfo
table =
    record { line = 1; start_pc = 0; end_pc = 3 }
    ∷ record { line = 4; start_pc = 4; end_pc = 4 }
    ∷ record { line = 2; start_pc = 7; end_pc = 9 }
    ∷ []

third_line : chunk_line_get table 8 ≡ found 2
unfolding chunk_line_get search_lines
third_line = refl

table-nonempty : (i : ℕ) (a : LineInfo) → get_elem? table i ≡ some a → a.start_pc ≤ a.end_pc
table-nonempty zero a h = ground arith
table-nonempty (suc zero) a h = ground arith
table-nonempty (suc (suc zero)) a h = ground arith
table-nonempty (suc (suc (suc i))) a h = cc

table-apart :
    (i j : ℕ) (a b : LineInfo)
    → get_elem? table i ≡ some a
    → get_elem? table j ≡ some b
    → i < j
    → a.end_pc < b.start_pc
table-apart zero zero a b h k lt = absurd (omega arith)
table-apart zero (suc zero) a b h k lt = ground arith
table-apart zero (suc (suc zero)) a b h k lt = ground arith
table-apart (suc zero) zero a b h k lt = absurd (omega arith)
table-apart (suc zero) (suc zero) a b h k lt = absurd (omega arith)
table-apart (suc zero) (suc (suc zero)) a b h k lt = ground arith
table-apart (suc (suc zero)) zero a b h k lt = absurd (omega arith)
table-apart (suc (suc zero)) (suc zero) a b h k lt = absurd (omega arith)
table-apart (suc (suc zero)) (suc (suc zero)) a b h k lt = absurd (omega arith)
table-apart (suc (suc (suc i))) j a b h k lt = cc
table-apart i (suc (suc (suc j))) a b h k lt = cc

table-IsOrdered : IsOrdered table
table-IsOrdered = record { nonempty = table-nonempty; apart = table-apart }

table-before :
    (i : ℕ) (a : LineInfo) → get_elem? table i ≡ some a → (a.start_pc ≤ 12) × (a.end_pc < 12)
table-before zero a h = ground arith
table-before (suc zero) a h = ground arith
table-before (suc (suc zero)) a h = ground arith
table-before (suc (suc (suc i))) a h = cc

chunk_line_get-beyond_example : chunk_line_get table 12 ≡ out_of_bounds
chunk_line_get-beyond_example = chunk_line_get-beyond table 12 (omega arith) table-before

abbrev lines : List ℕ
lines = 1 ∷ 1 ∷ 2 ∷ 2 ∷ 1 ∷ []

chunk_line_get-push_lines_example :
    (cells : Cells LineInfo) × (n : ℕ) × (result : List LineInfo) × (line : ℕ) × (push_lines lines
        [] 0 0
      ≡ some (cells, n))
    × (take n cells ≡ map some result)
    × (get_elem? lines 3 ≡ some line)
    × (chunk_line_get result 3 ≡ found line)
chunk_line_get-push_lines_example = chunk_line_get-push_lines lines 3 (omega arith) (omega arith)

abbrev locals : List Local
locals =
    record { ident = 11; start_pc = 0; end_pc = 9 }
    ∷ record { ident = 12; start_pc = 2; end_pc = 3 }
    ∷ record { ident = 13; start_pc = 5; end_pc = 8 }
    ∷ []
