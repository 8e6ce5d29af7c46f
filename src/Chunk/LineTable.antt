-- ===== src/Chunk/LineTable.antt =====
-- A table that `chunk_line_push` built, read by `chunk_line_get` (cpp/src/chunk.cpp).
use lulu.Prelude.{
  ℕ, zero, suc, ◌+◌, ◌-◌, ◌≤◌, ◌<◌, ◌≡◌, refl, ◌∙◌, sym, ap, arith, List, [], ◌∷◌, ◌++◌, Option,
  none, some, map, ◌==◌, le→leb, length, get_elem?, set, take, replicate, Bool-cases, inl, inr,
  get_elem?-take, get_elem?-map, get_elem?-some, get_elem?-append_left, get_elem?-append_right,
  length-replicate, length-set,
}
use native.Mathlib.Decide.{dec_le}
use mathlib.Core.List.{append-nil, append_assoc}
use lulu.Dynamic.{Cells}
use lulu.Dynamic.Overflow.{Filled, chunk_push-Filled, empty-Filled}
use lulu.Chunk.{LineInfo, found, chunk_line_push, chunk_line_get}
use lulu.Chunk.LineSearch.{IsOrdered, chunk_line_get-found}
use lulu.Chunk.LinePush.{
  IsTiled, decode, record_line, entry, record_line-IsTiled, decode-record_line, last-IsTiled,
  record_line-last,
}

entry_bounds :
    (s : ℕ) (xs : List LineInfo) (stop i : ℕ) (a : LineInfo)
    → IsTiled s xs stop
    → get_elem? xs i ≡ some a
    → (s ≤ a.start_pc) × (a.start_pc ≤ a.end_pc) × (a.end_pc < stop)
entry_bounds s [] stop i a h at = cc
entry_bounds s (e ∷ []) stop zero a h at = ground arith
entry_bounds s (e ∷ f ∷ es) stop zero a h at =
    let (lo, mid, hi) = entry_bounds (e.end_pc + 1) (f ∷ es) stop zero f h.2 refl in ground arith
entry_bounds s (e ∷ es) stop (suc i) a h at =
    let (lo, mid, hi) = entry_bounds (e.end_pc + 1) es stop i a h.2 at in (omega arith, mid, hi)

entries_apart :
    (s : ℕ) (xs : List LineInfo) (stop i j : ℕ) (a b : LineInfo)
    → IsTiled s xs stop
    → get_elem? xs i ≡ some a
    → get_elem? xs j ≡ some b
    → i < j
    → a.end_pc < b.start_pc
entries_apart s [] stop i j a b h ha hb lt = cc
entries_apart s (e ∷ es) stop i zero a b h ha hb lt = absurd (omega arith)
entries_apart s (e ∷ es) stop zero (suc j) a b h ha hb lt =
    let (lo, _, _) = entry_bounds (e.end_pc + 1) es stop j b h.2 hb in ground arith
entries_apart s (e ∷ es) stop (suc i) (suc j) a b h ha hb lt =
    entries_apart (e.end_pc + 1) es stop i j a b h.2 ha hb (omega arith)

IsTiled-IsOrdered : (s : ℕ) (xs : List LineInfo) (stop : ℕ) → IsTiled s xs stop → IsOrdered xs
IsTiled-IsOrdered s xs stop h = record {
  nonempty = λ i a at. (entry_bounds s xs stop i a h at).1;
  apart = λ i j a b ha hb lt. entries_apart s xs stop i j a b h ha hb lt;
}

get_elem?-replicate : (n i x : ℕ) → i < n → get_elem? (replicate n x) i ≡ some x
get_elem?-replicate zero i x h = absurd (omega arith)
get_elem?-replicate (suc n) zero x h = refl
get_elem?-replicate (suc n) (suc i) x h = get_elem?-replicate n i x (omega arith)

-- The entry that covers an instruction has the line that the table stands for there.
covering :
    (s : ℕ) (xs : List LineInfo) (stop pc : ℕ)
    → IsTiled s xs stop
    → s ≤ pc
    → pc < stop
    → (k : ℕ) × (e : LineInfo) × (get_elem? xs k ≡ some e)
      × (e.start_pc ≤ pc)
      × (pc ≤ e.end_pc)
      × (get_elem? (decode xs) (pc - s) ≡ some e.line)
unfolding decode
covering s [] stop pc h lo hi = absurd (omega arith)
covering s (e ∷ es) stop pc h lo hi = elim (dec_le pc e.end_pc) [
  | yes p ↦
      let inside : pc - s < e.end_pc + 1 - e.start_pc = omega arith in
      (
        0,
        e,
        refl,
        omega arith,
        p,
        get_elem?-append_left (replicate (e.end_pc + 1 - e.start_pc) e.line) (decode es) (pc - s)
              (omega (arith, length-replicate (e.end_pc + 1 - e.start_pc) e.line))
            ∙ get_elem?-replicate (e.end_pc + 1 - e.start_pc) (pc - s) e.line inside,
      )
  | no p ↦
      let (k, f, at, a, b, d) = covering (e.end_pc + 1) es stop pc h.2 (omega arith) hi in
      (
        suc k,
        f,
        at,
        a,
        b,
        get_elem?-append_right (replicate (e.end_pc + 1 - e.start_pc) e.line) (decode es) (pc - s)
              (pc - (e.end_pc + 1))
              (omega (arith, length-replicate (e.end_pc + 1 - e.start_pc) e.line))
            ∙ d,
      )
]

set_last {ℓ} :
    {A : Type ℓ} (cells : Cells A) (xs : List A) (i : ℕ) (v : A)
    → take (suc i) cells ≡ map some xs
    → length xs ≡ suc i
    → suc i ≤ length cells
    → take (suc i) (set cells i (some v)) ≡ map some (set xs i v)
set_last [] xs i v h n fits = absurd (omega arith)
set_last (c ∷ cs) [] i v h n fits = absurd (omega arith)
set_last (c ∷ cs) (x ∷ []) zero v h n fits = refl
set_last (c ∷ cs) (x ∷ y ∷ ys) zero v h n fits = absurd (omega arith)
set_last (c ∷ cs) (x ∷ xs) (suc i) v h n fits =
    let tail_eq : take (suc i) cs ≡ map some xs = cc in
    let head_eq : c ≡ some x = cc in cc (set_last cs xs i v tail_eq (omega arith) (omega arith))

-- A push does to the stored table what `record_line` does to the list, and adds one entry at most.
chunk_line_push-Filled :
    (cells : Cells LineInfo) (n : ℕ) (xs : List LineInfo) (pc line : ℕ)
    → Filled cells n xs
    → IsTiled 0 xs pc
    → n < 256
    → (cells' : Cells LineInfo) × (n' : ℕ) × (chunk_line_push cells pc line n ≡ some (cells', n'))
      × Filled cells' n' (record_line xs pc line)
      × (n' ≤ n + 1)
unfolding chunk_line_push record_line
chunk_line_push-Filled cells zero [] pc line f h lt =
    let (t, run, g) = chunk_push-Filled cells 0 [] (entry line pc) f lt in
    (t, 1, rw (run, chunk_line_push), g, omega arith)
chunk_line_push-Filled cells zero (e ∷ es) pc line f h lt = absurd (omega (arith, f.counted))
chunk_line_push-Filled cells (suc i) xs pc line f h lt =
    let size : length xs ≡ suc i = omega (arith, f.counted) in
    let (last, at) = get_elem?-some xs i (omega arith) in
    let (lo, hi) = last-IsTiled 0 xs pc i last h size at in
    let cell : get_elem? cells i ≡ some (some last) =
      sym (get_elem?-take cells (suc i) i (omega arith))
      ∙ ap (λ l. get_elem? l i) f.holds
      ∙ get_elem?-map some xs i last at in
    elim (Bool-cases (last.line == line)) [
      | inl same ↦
          let v : LineInfo = record last { end_pc = pc } in
          (
            set cells i (some v),
            suc i,
            rw (cell, chunk_line_push)
                (rw (
                  same,
                  le→leb last.start_pc pc (omega arith),
                  le→leb last.end_pc pc (omega arith),
                )),
            rw (record_line-last xs pc line i last size at, same)
                (record {
                  narrow = omega (arith, length-set cells i (some v), f.narrow);
                  within = omega (arith, length-set cells i (some v), f.within);
                  counted = omega (arith, length-set xs i v);
                  holds = set_last cells xs i v f.holds size f.within;
                }),
            omega arith,
          )
      | inr other ↦
          let (t, run, g) = chunk_push-Filled cells (suc i) xs (entry line pc) f lt in
          (
            t,
            suc i + 1,
            rw (cell, chunk_line_push) (rw other (rw (run, chunk_line_push))),
            rw (record_line-last xs pc line i last size at, other) g,
            omega arith,
          )
    ]

-- The lines of the instructions from `pc` on, recorded one after another.
pub push_lines : List ℕ → Cells LineInfo → ℕ → ℕ → Option (Cells LineInfo × ℕ)
push_lines [] lines n pc = some (lines, n)
push_lines (line ∷ rest) lines n pc = elim (chunk_line_push lines pc line n) [
  | none ↦ none
  | some (lines', n') ↦ push_lines rest lines' n' (pc + 1)
]

push_lines-Filled :
    (rest done : List ℕ) (cells : Cells LineInfo) (n pc : ℕ) (xs : List LineInfo)
    → Filled cells n xs
    → IsTiled 0 xs pc
    → decode xs ≡ done
    → n ≤ pc
    → pc + length rest ≤ 256
    → (cells' : Cells LineInfo) × (n' : ℕ) × (ys : List LineInfo) × (push_lines rest cells n pc
        ≡ some (cells', n'))
      × (take n' cells' ≡ map some ys)
      × IsTiled 0 ys (pc + length rest)
      × (decode ys ≡ done ++ rest)
unfolding push_lines
push_lines-Filled [] done cells n pc xs f h d le room =
    let e : pc + 0 ≡ pc = omega arith in (cells, n, xs, refl, f.holds, rw e h, rw append-nil d)
push_lines-Filled (line ∷ rest) done cells n pc xs f h d le room =
    let (cells', n', run, g, fewer) = chunk_line_push-Filled cells n xs pc line f h (omega arith) in
    let (cells'', m, ys, runs, holds, tiled, all) =
      push_lines-Filled rest (done ++ line ∷ []) cells' n' (pc + 1) (record_line xs pc line) g
        (record_line-IsTiled 0 xs pc line h)
        (decode-record_line 0 xs pc line h ∙ ap (λ l. l ++ line ∷ []) d) (omega arith)
        (omega arith) in
    let e : pc + 1 + length rest ≡ pc + suc (length rest) = omega arith in
    (cells'', m, ys, rw (run, push_lines) runs, holds, rw e at tiled, rw append_assoc at all)

-- Recording the lines of up to 256 instructions in order succeeds, and `chunk_line_get` then finds
-- for each instruction the line that was recorded for it.
pub chunk_line_get-push_lines :
    (lines : List ℕ) (pc : ℕ)
    → length lines ≤ 256
    → pc < length lines
    → (cells : Cells LineInfo) × (n : ℕ) × (table : List LineInfo) × (line : ℕ) × (push_lines lines
          [] 0 0
        ≡ some (cells, n))
      × (take n cells ≡ map some table)
      × (get_elem? lines pc ≡ some line)
      × (chunk_line_get table pc ≡ found line)
unfolding decode
chunk_line_get-push_lines lines pc small inside =
    let (cells, n, table, run, holds, tiled, all) =
      push_lines-Filled lines [] [] 0 0 [] empty-Filled refl refl (omega arith) (omega arith) in
    let stop : 0 + length lines ≡ length lines = omega arith in
    let tiled' = rw stop at tiled in
    let (k, e, at, lo, hi, d) = covering 0 table (length lines) pc tiled' (omega arith) inside in
    let zero_off : pc - 0 ≡ pc = omega arith in
    (
      cells,
      n,
      table,
      e.line,
      run,
      holds,
      ap (λ l. get_elem? l pc) (sym all) ∙ (rw zero_off at d),
      chunk_line_get-found table k pc e (IsTiled-IsOrdered 0 table (length lines) tiled') at lo hi,
    )
